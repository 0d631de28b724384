-- ===== src/Client/Pcb/Declared.antt =====
-- What the comments of zenux-service-interfaces/lib/pcbinterface.h declare that a call is answered with, and what
-- `receiveAnswer` answers it with. A comment that names no kind of value declares nothing.
use zenux_services.Prelude.{
  ◌≡◌, refl, Option, none, some, Bool, true, false, if◌then◌else◌, List, [], ◌∷◌, ◌++◌,
}
use zenux_services.Prelude.Text.{Text, codes, eq_text, split}
use zenux_services.Client.Pcb.Commands.{writedata}
use zenux_services.Client.Pcb.Calls.{
  request, PcbCall, pcb_request, direct_call, DirectCall, direct_request, read_data, write_data,
  transparent_command, transparent, ChannelCall, channel_request, channel_call, get_channel_list,
  get_dsp_channel, get_status, reset_status, get_alias, get_type, get_unit, get_range,
  get_range_list, RangeCall, range_request, range_call, get_alias2, get_type2, get_urvalue,
  get_urvalue2, get_rejection, get_ovrejection, get_adcrejection, is_avail, CorrectionCall,
  correction_request, correction_call, get_gain_correction, get_adj_gain_correction,
  get_offset_correction, get_adj_offset_correction, get_phase_correction, get_adj_phase_correction,
  SenseCall, sense_request, sense_call, set_range, set_mmode, adjust_computation, adjust_storage,
  adjust_storage_clamp, NodeCall, node_request, node_call, set_adjust_gain_status,
  set_adjust_phase_status, set_adjust_offset_status, set_gain_node, set_phase_node, set_offset_node,
  SourceCall, source_request, source_call, get_alias_source, get_dsp_channel_source,
  get_form_factor_source, get_sample_rate, set_pll_channel, get_adjustment_status,
  get_authorization_status, SystemCall, system_request, system_call, get_adjustment_chksum,
  get_pcb_adjustment_data, set_pcb_adjustment_data, get_clamp_adjustment_data,
  set_clamp_adjustment_data, read_channels_connected, get_accumulator_status,
  get_accu_state_of_charge, ServerCall, server_request, server_call, register_notifier,
  unregister_notifiers, read_server_version, read_pcb_info, read_fpga_version, read_ctrl_version,
  read_serial_nr, write_serial_nr,
}
use zenux_services.Client.Pcb.Answers.{
  Kind, as_int, as_string, as_string_list, as_double, as_bool, conversion,
}

abbrev pub channel_declared : ChannelCall → Option Kind
channel_declared get_channel_list = some as_string_list
channel_declared (get_dsp_channel chn) = some as_int
channel_declared (get_status chn) = some as_int
channel_declared (reset_status chn) = some as_string
channel_declared (get_alias chn) = some as_string
channel_declared (get_type chn) = some as_string
channel_declared (get_unit chn) = some as_string
channel_declared (get_range chn) = some as_string
channel_declared (get_range_list chn) = some as_string_list

abbrev pub range_declared : RangeCall → Option Kind
range_declared (get_alias2 chn rng) = some as_string
range_declared (get_type2 chn rng) = some as_int
range_declared (get_urvalue chn rng) = some as_double
range_declared (get_urvalue2 chn) = some as_double
range_declared (get_rejection chn rng) = some as_double
range_declared (get_ovrejection chn rng) = some as_double
range_declared (get_adcrejection chn rng) = some as_int
range_declared (is_avail chn rng) = some as_bool

abbrev pub correction_declared : {D : Type 0} → CorrectionCall D → Option Kind
correction_declared (get_gain_correction chn rng at_point) = some as_double
correction_declared (get_adj_gain_correction chn rng at_point) = some as_double
correction_declared (get_offset_correction chn rng at_point) = some as_double
correction_declared (get_adj_offset_correction chn rng at_point) = some as_double
correction_declared (get_phase_correction chn rng at_point) = some as_double
correction_declared (get_adj_phase_correction chn rng at_point) = some as_double

abbrev pub sense_declared : SenseCall → Option Kind
sense_declared (set_range chn rng) = some as_string
sense_declared (set_mmode mode) = some as_string
sense_declared adjust_computation = none
sense_declared adjust_storage = none
sense_declared adjust_storage_clamp = none

abbrev pub node_declared : {D : Type 0} → NodeCall D → Option Kind
node_declared (set_adjust_gain_status chn rng status) = none
node_declared (set_adjust_phase_status chn rng status) = none
node_declared (set_adjust_offset_status chn rng status) = none
node_declared (set_gain_node chn rng node corr at_point) = none
node_declared (set_phase_node chn rng node corr at_point) = none
node_declared (set_offset_node chn rng node corr at_point) = none

abbrev pub source_declared : SourceCall → Option Kind
source_declared (get_alias_source chn) = some as_string
source_declared (get_dsp_channel_source chn) = some as_int
source_declared (get_form_factor_source chn) = some as_double
source_declared get_sample_rate = some as_int
source_declared (set_pll_channel sample_chn pll_chn) = none
source_declared get_adjustment_status = some as_int
source_declared get_authorization_status = none

abbrev pub system_declared : SystemCall → Option Kind
system_declared get_adjustment_chksum = none
system_declared get_pcb_adjustment_data = none
system_declared (set_pcb_adjustment_data xml) = none
system_declared get_clamp_adjustment_data = none
system_declared (set_clamp_adjustment_data xml) = none
system_declared read_channels_connected = none
system_declared get_accumulator_status = none
system_declared get_accu_state_of_charge = none

abbrev pub server_declared : ServerCall → Option Kind
server_declared (register_notifier query notify_id with_value) = none
server_declared unregister_notifiers = none
server_declared read_server_version = none
server_declared read_pcb_info = none
server_declared read_fpga_version = none
server_declared read_ctrl_version = none
server_declared read_serial_nr = none
server_declared (write_serial_nr ser_nr) = none

abbrev pub declared : {D : Type 0} → PcbCall D → Option Kind
declared (channel_call c) = channel_declared c
declared (range_call c) = range_declared c
declared (correction_call c) = correction_declared c
declared (sense_call c) = sense_declared c
declared (node_call c) = node_declared c
declared (source_call c) = source_declared c
declared (system_call c) = system_declared c
declared (server_call c) = server_declared c
declared (direct_call c) = none

-- A call without a declaration is answered with a text.
abbrev pub or_text : Option Kind → Kind
or_text none = as_string
or_text (some k) = k

-- `getADCRejection` is declared as an int and answered with a double.
abbrev pub range_answered : RangeCall → Kind
range_answered (get_adcrejection chn rng) = as_double
range_answered c = or_text (range_declared c)

-- These three have no declaration and are answered with an int.
abbrev pub source_answered : SourceCall → Kind
source_answered get_authorization_status = as_int
source_answered c = or_text (source_declared c)

abbrev pub system_answered : SystemCall → Kind
system_answered get_accumulator_status = as_int
system_answered get_accu_state_of_charge = as_int
system_answered c = or_text (system_declared c)

abbrev pub answered_as : {D : Type 0} → PcbCall D → Kind
answered_as (range_call c) = range_answered c
answered_as (source_call c) = source_answered c
answered_as (system_call c) = system_answered c
answered_as c = or_text (declared c)

channel-conversion :
    (c : ChannelCall) → conversion (channel_request c).kind ≡ or_text (channel_declared c)
unfolding channel_request conversion
channel-conversion get_channel_list = refl
channel-conversion (get_dsp_channel chn) = refl
channel-conversion (get_status chn) = refl
channel-conversion (reset_status chn) = refl
channel-conversion (get_alias chn) = refl
channel-conversion (get_type chn) = refl
channel-conversion (get_unit chn) = refl
channel-conversion (get_range chn) = refl
channel-conversion (get_range_list chn) = refl

range-conversion : (c : RangeCall) → conversion (range_request c).kind ≡ range_answered c
unfolding range_request conversion
range-conversion (get_alias2 chn rng) = refl
range-conversion (get_type2 chn rng) = refl
range-conversion (get_urvalue chn rng) = refl
range-conversion (get_urvalue2 chn) = refl
range-conversion (get_rejection chn rng) = refl
range-conversion (get_ovrejection chn rng) = refl
range-conversion (get_adcrejection chn rng) = refl
range-conversion (is_avail chn rng) = refl

correction-conversion :
    {D : Type 0} (show : D → Text) (c : CorrectionCall D)
    → conversion (correction_request show c).kind ≡ or_text (correction_declared c)
unfolding correction_request conversion
correction-conversion show (get_gain_correction chn rng at_point) = refl
correction-conversion show (get_adj_gain_correction chn rng at_point) = refl
correction-conversion show (get_offset_correction chn rng at_point) = refl
correction-conversion show (get_adj_offset_correction chn rng at_point) = refl
correction-conversion show (get_phase_correction chn rng at_point) = refl
correction-conversion show (get_adj_phase_correction chn rng at_point) = refl

sense-conversion : (c : SenseCall) → conversion (sense_request c).kind ≡ or_text (sense_declared c)
unfolding sense_request conversion
sense-conversion (set_range chn rng) = refl
sense-conversion (set_mmode mode) = refl
sense-conversion adjust_computation = refl
sense-conversion adjust_storage = refl
sense-conversion adjust_storage_clamp = refl

node-conversion :
    {D : Type 0} (show : D → Text) (c : NodeCall D)
    → conversion (node_request show c).kind ≡ or_text (node_declared c)
unfolding node_request conversion
node-conversion show (set_adjust_gain_status chn rng status) = refl
node-conversion show (set_adjust_phase_status chn rng status) = refl
node-conversion show (set_adjust_offset_status chn rng status) = refl
node-conversion show (set_gain_node chn rng node corr at_point) = refl
node-conversion show (set_phase_node chn rng node corr at_point) = refl
node-conversion show (set_offset_node chn rng node corr at_point) = refl

source-conversion : (c : SourceCall) → conversion (source_request c).kind ≡ source_answered c
unfolding source_request conversion
source-conversion (get_alias_source chn) = refl
source-conversion (get_dsp_channel_source chn) = refl
source-conversion (get_form_factor_source chn) = refl
source-conversion get_sample_rate = refl
source-conversion (set_pll_channel sample_chn pll_chn) = refl
source-conversion get_adjustment_status = refl
source-conversion get_authorization_status = refl

system-conversion : (c : SystemCall) → conversion (system_request c).kind ≡ system_answered c
unfolding system_request conversion
system-conversion get_adjustment_chksum = refl
system-conversion get_pcb_adjustment_data = refl
system-conversion (set_pcb_adjustment_data xml) = refl
system-conversion get_clamp_adjustment_data = refl
system-conversion (set_clamp_adjustment_data xml) = refl
system-conversion read_channels_connected = refl
system-conversion get_accumulator_status = refl
system-conversion get_accu_state_of_charge = refl

server-conversion :
    (c : ServerCall) → conversion (server_request c).kind ≡ or_text (server_declared c)
unfolding server_request conversion
server-conversion (register_notifier query notify_id with_value) = refl
server-conversion unregister_notifiers = refl
server-conversion read_server_version = refl
server-conversion read_pcb_info = refl
server-conversion read_fpga_version = refl
server-conversion read_ctrl_version = refl
server-conversion read_serial_nr = refl
server-conversion (write_serial_nr ser_nr) = refl

direct-conversion : (c : DirectCall) → conversion (direct_request c).kind ≡ as_string
unfolding direct_request transparent conversion
direct-conversion read_data = refl
direct-conversion (write_data par) = by_par (eq_text par [])
  where
    by_par :
        (b : Bool)
        → conversion
            (if b
              then request (codes "SYST:EMOB:WRITEDATA;") writedata
              else request (codes "SYST:EMOB:WRITEDATA " ++ par ++ codes ";") writedata).kind
          ≡ as_string
    by_par true = refl
    by_par false = refl
direct-conversion (transparent_command cmd) = by_parts (split b' ' cmd)
  where
    by_parts : (parts : List Text) → conversion (transparent cmd parts).kind ≡ as_string
    by_parts [] = refl
    by_parts (first ∷ []) = refl
    by_parts (first ∷ second ∷ rest) = refl

-- The switch of `receiveAnswer` answers each call so.
pub conversion-pcb_request :
    {D : Type 0} (show : D → Text) (c : PcbCall D)
    → conversion (pcb_request show c).kind ≡ answered_as c
unfolding pcb_request conversion
conversion-pcb_request show (channel_call c) = channel-conversion c
conversion-pcb_request show (range_call c) = range-conversion c
conversion-pcb_request show (correction_call c) = correction-conversion show c
conversion-pcb_request show (sense_call c) = sense-conversion c
conversion-pcb_request show (node_call c) = node-conversion show c
conversion-pcb_request show (source_call c) = source-conversion c
conversion-pcb_request show (system_call c) = system-conversion c
conversion-pcb_request show (server_call c) = server-conversion c
conversion-pcb_request show (direct_call c) = direct-conversion c
