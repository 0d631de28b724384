-- ===== src/Client/Pcb/Calls.antt =====
-- The calls of a PCB service, zenux-service-interfaces/lib/pcbinterface_p.cpp: each sends a text, perhaps with
-- a parameter, and keeps a command for the answer. `D` is `double`, and `show` how `QString` prints one. A
-- name that is put into a text is taken to have no `%`.
use zenux_services.Prelude.{
  suc, Bool, true, false, Option, none, some, List, [], ◌∷◌, ◌++◌, if◌then◌else◌,
}
use zenux_services.Prelude.Int.{ℤ, pos, negsuc}
use zenux_services.Prelude.Text.{Text, codes, eq_text, decimal, split}
use zenux_services.Client.Pcb.Commands.{
  PcbCommand, getchannellist, getdspchannel, getstatus, resetstatus, getalias, gettype, getunit,
  getrange, getrangelist, getalias2, gettype2, geturvalue, geturvalue2, getrejection,
  getovrejection, getadcrejection, isavail, getgaincorrection, getoffsetcorrection,
  getphasecorrection, setrange, setmeasuringmode, adjustcomputation, adjuststorage,
  adjuststorageclamp, setadjustgainstatus, setadjustphasestatus, setadjustoffsetstatus, setgainnode,
  setphasenode, setoffsetnode, getaliassource, getdspchannelsource, getformfactorsource,
  getsamplerate, setpllchannel, getadjustmentstatus, getauthorizationstatus, getadjustmentchksum,
  getadjustpcbxml, setadjustpcbxml, getadjustclampxml, setadjustclampxml, getchannelsconnected,
  getaccumulatorstatus, getaccumulatorsoc, readdata, regnotifier, unregnotifier, getserverversion,
  getpcbversion, getfpgaversion, getctrlversion, getserialnumber, setserialnumber, writedata,
  transparentcommand,
}

-- What `sendCommand` sends, and what `m_MsgNrCmdList` keeps under the number of the message.
pub record Request : Type 0 where
  pub command : Text
  pub parameter : Option Text
  pub kind : PcbCommand

abbrev pub request : Text → PcbCommand → Request
request text c = record { command = text; parameter = none; kind = c }

abbrev pub request_with : Text → Text → PcbCommand → Request
request_with text par c = record { command = text; parameter = some par; kind = c }

abbrev pub arg_int : ℤ → Text
arg_int (pos n) = decimal n
arg_int (negsuc n) = b'-' ∷ decimal (suc n)

-- A `bool` is printed as an `int`.
abbrev pub arg_bool : Bool → Text
arg_bool true = codes "1"
arg_bool false = codes "0"

-- The queries of a channel.
pub data ChannelCall : Type 0 where
  get_channel_list : ChannelCall
  get_dsp_channel : Text → ChannelCall
  get_status : Text → ChannelCall
  reset_status : Text → ChannelCall
  get_alias : Text → ChannelCall
  get_type : Text → ChannelCall
  get_unit : Text → ChannelCall
  get_range : Text → ChannelCall
  get_range_list : Text → ChannelCall

unfoldable pub channel_request : ChannelCall → Request
channel_request get_channel_list = request (codes "SENSE:CHANNEL:CAT?") getchannellist
channel_request (get_dsp_channel chn) =
    request (codes "SENS:" ++ chn ++ codes ":DSPC?") getdspchannel
channel_request (get_status chn) = request (codes "SENS:" ++ chn ++ codes ":STAT?") getstatus
channel_request (reset_status chn) =
    request (codes "SENS:" ++ chn ++ codes ":STAT:RES;") resetstatus
channel_request (get_alias chn) = request (codes "SENS:" ++ chn ++ codes ":ALI?") getalias
channel_request (get_type chn) = request (codes "SENS:" ++ chn ++ codes ":TYPE?") gettype
channel_request (get_unit chn) = request (codes "SENS:" ++ chn ++ codes ":UNIT?") getunit
channel_request (get_range chn) = request (codes "SENS:" ++ chn ++ codes ":RANG?") getrange
channel_request (get_range_list chn) =
    request (codes "SENS:" ++ chn ++ codes ":RANG:CAT?") getrangelist

-- The queries of a range.
pub data RangeCall : Type 0 where
  get_alias2 : Text → Text → RangeCall
  get_type2 : Text → Text → RangeCall
  get_urvalue : Text → Text → RangeCall
  get_urvalue2 : Text → RangeCall
  get_rejection : Text → Text → RangeCall
  get_ovrejection : Text → Text → RangeCall
  get_adcrejection : Text → Text → RangeCall
  is_avail : Text → Text → RangeCall

unfoldable pub range_request : RangeCall → Request
range_request (get_alias2 chn rng) =
    request (codes "SENS:" ++ chn ++ codes ":" ++ rng ++ codes ":ALI?") getalias2
range_request (get_type2 chn rng) =
    request (codes "SENS:" ++ chn ++ codes ":" ++ rng ++ codes ":TYPE?") gettype2
range_request (get_urvalue chn rng) =
    request (codes "SENS:" ++ chn ++ codes ":" ++ rng ++ codes ":URV?") geturvalue
range_request (get_urvalue2 chn) = request (codes "SENS:" ++ chn ++ codes ":URV?") geturvalue2
range_request (get_rejection chn rng) =
    request (codes "SENS:" ++ chn ++ codes ":" ++ rng ++ codes ":REJ?") getrejection
range_request (get_ovrejection chn rng) =
    request (codes "SENS:" ++ chn ++ codes ":" ++ rng ++ codes ":OVR?") getovrejection
range_request (get_adcrejection chn rng) =
    request (codes "SENS:" ++ chn ++ codes ":" ++ rng ++ codes ":ADCR?") getadcrejection
range_request (is_avail chn rng) =
    request (codes "SENS:" ++ chn ++ codes ":" ++ rng ++ codes ":AVA?") isavail

-- The queries of corrections.
pub data CorrectionCall (D : Type 0) : Type 0 where
  get_gain_correction : Text → Text → D → CorrectionCall D
  get_adj_gain_correction : Text → Text → D → CorrectionCall D
  get_offset_correction : Text → Text → D → CorrectionCall D
  get_adj_offset_correction : Text → Text → D → CorrectionCall D
  get_phase_correction : Text → Text → D → CorrectionCall D
  get_adj_phase_correction : Text → Text → D → CorrectionCall D

unfoldable pub correction_request : {D : Type 0} → (D → Text) → CorrectionCall D → Request
correction_request show (get_gain_correction chn rng at_point) =
    request_with (codes "SENS:" ++ chn ++ codes ":" ++ rng ++ codes ":CORR:GAIN?")
      (show at_point ++ codes ";") getgaincorrection
correction_request show (get_adj_gain_correction chn rng at_point) =
    request_with (codes "SENS:" ++ chn ++ codes ":" ++ rng ++ codes ":CORR:ADJG?")
      (show at_point ++ codes ";") getgaincorrection
correction_request show (get_offset_correction chn rng at_point) =
    request_with (codes "SENS:" ++ chn ++ codes ":" ++ rng ++ codes ":CORR:OFFS?")
      (show at_point ++ codes ";") getoffsetcorrection
correction_request show (get_adj_offset_correction chn rng at_point) =
    request_with (codes "SENS:" ++ chn ++ codes ":" ++ rng ++ codes ":CORR:ADJOFFSET?")
      (show at_point ++ codes ";") getoffsetcorrection
correction_request show (get_phase_correction chn rng at_point) =
    request_with (codes "SENS:" ++ chn ++ codes ":" ++ rng ++ codes ":CORR:PHAS?")
      (show at_point ++ codes ";") getphasecorrection
correction_request show (get_adj_phase_correction chn rng at_point) =
    request_with (codes "SENS:" ++ chn ++ codes ":" ++ rng ++ codes ":CORR:ADJP?")
      (show at_point ++ codes ";") getphasecorrection

-- The commands to the sense interface.
pub data SenseCall : Type 0 where
  set_range : Text → Text → SenseCall
  set_mmode : Text → SenseCall
  adjust_computation : SenseCall
  adjust_storage : SenseCall
  adjust_storage_clamp : SenseCall

unfoldable pub sense_request : SenseCall → Request
sense_request (set_range chn rng) =
    request_with (codes "SENS:" ++ chn ++ codes ":RANG") (rng ++ codes ";") setrange
sense_request (set_mmode mode) =
    request_with (codes "SENS:MMODE") (mode ++ codes ";") setmeasuringmode
sense_request adjust_computation = request (codes "SENS:CORR:COMP;") adjustcomputation
sense_request adjust_storage = request (codes "SYST:ADJ:FLAS:WRIT;") adjuststorage
sense_request adjust_storage_clamp = request (codes "SYST:CLAM:WRIT;") adjuststorageclamp

-- The commands that set corrections.
pub data NodeCall (D : Type 0) : Type 0 where
  set_adjust_gain_status : Text → Text → ℤ → NodeCall D
  set_adjust_phase_status : Text → Text → ℤ → NodeCall D
  set_adjust_offset_status : Text → Text → ℤ → NodeCall D
  set_gain_node : Text → Text → ℤ → D → D → NodeCall D
  set_phase_node : Text → Text → ℤ → D → D → NodeCall D
  set_offset_node : Text → Text → ℤ → D → D → NodeCall D

unfoldable pub node_request : {D : Type 0} → (D → Text) → NodeCall D → Request
node_request show (set_adjust_gain_status chn rng status) =
    request_with (codes "SENS:" ++ chn ++ codes ":" ++ rng ++ codes ":corr:gain:stat")
      (arg_int status ++ codes ";") setadjustgainstatus
node_request show (set_adjust_phase_status chn rng status) =
    request_with (codes "SENS:" ++ chn ++ codes ":" ++ rng ++ codes ":corr:phas:stat")
      (arg_int status ++ codes ";") setadjustphasestatus
node_request show (set_adjust_offset_status chn rng status) =
    request_with (codes "SENS:" ++ chn ++ codes ":" ++ rng ++ codes ":corr:offs:stat")
      (arg_int status ++ codes ";") setadjustoffsetstatus
node_request show (set_gain_node chn rng node corr at_point) =
    request_with
      (codes "SENS:" ++ chn ++ codes ":" ++ rng ++ codes ":corr:gain:node:" ++ arg_int node)
      (show corr ++ codes ";" ++ show at_point ++ codes ";") setgainnode
node_request show (set_phase_node chn rng node corr at_point) =
    request_with
      (codes "SENS:" ++ chn ++ codes ":" ++ rng ++ codes ":corr:phas:node:" ++ arg_int node)
      (show corr ++ codes ";" ++ show at_point ++ codes ";") setphasenode
node_request show (set_offset_node chn rng node corr at_point) =
    request_with
      (codes "SENS:" ++ chn ++ codes ":" ++ rng ++ codes ":corr:offs:node:" ++ arg_int node)
      (show corr ++ codes ";" ++ show at_point ++ codes ";") setoffsetnode

-- The source, sample and status interfaces.
pub data SourceCall : Type 0 where
  get_alias_source : Text → SourceCall
  get_dsp_channel_source : Text → SourceCall
  get_form_factor_source : Text → SourceCall
  get_sample_rate : SourceCall
  set_pll_channel : Text → Text → SourceCall
  get_adjustment_status : SourceCall
  get_authorization_status : SourceCall

unfoldable pub source_request : SourceCall → Request
source_request (get_alias_source chn) =
    request (codes "SOUR:" ++ chn ++ codes ":ALI?") getaliassource
source_request (get_dsp_channel_source chn) =
    request (codes "SOUR:" ++ chn ++ codes ":DSPC?") getdspchannelsource
source_request (get_form_factor_source chn) =
    request (codes "SOUR:" ++ chn ++ codes ":FFAC?") getformfactorsource
source_request get_sample_rate = request (codes "SAMP:SRAT?") getsamplerate
source_request (set_pll_channel sample_chn pll_chn) =
    request_with (codes "SAMP:" ++ sample_chn ++ codes ":PLL") (pll_chn ++ codes ";") setpllchannel
source_request get_adjustment_status = request (codes "STAT:PCB:ADJ?") getadjustmentstatus
source_request get_authorization_status = request (codes "STAT:AUTH?") getauthorizationstatus

-- The adjustment data and the accumulator.
pub data SystemCall : Type 0 where
  get_adjustment_chksum : SystemCall
  get_pcb_adjustment_data : SystemCall
  set_pcb_adjustment_data : Text → SystemCall
  get_clamp_adjustment_data : SystemCall
  set_clamp_adjustment_data : Text → SystemCall
  read_channels_connected : SystemCall
  get_accumulator_status : SystemCall
  get_accu_state_of_charge : SystemCall

unfoldable pub system_request : SystemCall → Request
system_request get_adjustment_chksum = request (codes "SYST:ADJ:FLAS:CHKS?") getadjustmentchksum
system_request get_pcb_adjustment_data = request (codes "SYST:ADJ:XML?") getadjustpcbxml
system_request (set_pcb_adjustment_data xml) =
    request_with (codes "SYST:ADJ:XML") (xml) setadjustpcbxml
system_request get_clamp_adjustment_data = request (codes "SYST:ADJ:CLAM:XML?") getadjustclampxml
system_request (set_clamp_adjustment_data xml) =
    request_with (codes "SYST:ADJ:CLAM:XML") (xml) setadjustclampxml
system_request read_channels_connected = request (codes "SYST:EMOB:CHAN?") getchannelsconnected
system_request get_accumulator_status = request (codes "SYST:ACC:STAT?") getaccumulatorstatus
system_request get_accu_state_of_charge = request (codes "SYST:ACC:SOC?") getaccumulatorsoc

-- Notifiers and the system interface.
pub data ServerCall : Type 0 where
  register_notifier : Text → ℤ → Bool → ServerCall
  unregister_notifiers : ServerCall
  read_server_version : ServerCall
  read_pcb_info : ServerCall
  read_fpga_version : ServerCall
  read_ctrl_version : ServerCall
  read_serial_nr : ServerCall
  write_serial_nr : Text → ServerCall

unfoldable pub server_request : ServerCall → Request
server_request (register_notifier query notify_id with_value) =
    request_with (codes "SERV:REG")
      (query ++ codes ";" ++ arg_int notify_id ++ codes ";" ++ arg_bool with_value ++ codes ";")
      regnotifier
server_request unregister_notifiers = request (codes "SERV:UNR;") unregnotifier
server_request read_server_version = request (codes "SYST:VERS:SERV?") getserverversion
server_request read_pcb_info = request (codes "SYST:VERS:PCB?") getpcbversion
server_request read_fpga_version = request (codes "SYST:VERS:FPGA?") getfpgaversion
server_request read_ctrl_version = request (codes "SYST:VERS:CTRL?") getctrlversion
server_request read_serial_nr = request (codes "SYST:SER?") getserialnumber
server_request (write_serial_nr ser_nr) =
    request_with (codes "SYST:SER") (ser_nr ++ codes ";") setserialnumber

-- The hotplug controllers, and commands that are passed on as they are.
pub data DirectCall : Type 0 where
  read_data : DirectCall
  write_data : Text → DirectCall
  transparent_command : Text → DirectCall

-- `transparentCommand` sends what is before the first space and what is between it and the second.
unfoldable pub transparent : Text → List Text → Request
transparent cmd (first ∷ second ∷ rest) = request_with first second transparentcommand
transparent cmd other = request cmd transparentcommand

unfoldable pub direct_request : DirectCall → Request
direct_request read_data = request (codes "SYST:EMOB:READDATA?") readdata
direct_request (write_data par) =
    if eq_text par []
    then request (codes "SYST:EMOB:WRITEDATA;") writedata
    else request (codes "SYST:EMOB:WRITEDATA " ++ par ++ codes ";") writedata
direct_request (transparent_command cmd) = transparent cmd (split b' ' cmd)

pub data PcbCall (D : Type 0) : Type 0 where
  channel_call : ChannelCall → PcbCall D
  range_call : RangeCall → PcbCall D
  correction_call : CorrectionCall D → PcbCall D
  sense_call : SenseCall → PcbCall D
  node_call : NodeCall D → PcbCall D
  source_call : SourceCall → PcbCall D
  system_call : SystemCall → PcbCall D
  server_call : ServerCall → PcbCall D
  direct_call : DirectCall → PcbCall D

unfoldable pub pcb_request : {D : Type 0} → (D → Text) → PcbCall D → Request
pcb_request show (channel_call c) = channel_request c
pcb_request show (range_call c) = range_request c
pcb_request show (correction_call c) = correction_request show c
pcb_request show (sense_call c) = sense_request c
pcb_request show (node_call c) = node_request show c
pcb_request show (source_call c) = source_request c
pcb_request show (system_call c) = system_request c
pcb_request show (server_call c) = server_request c
pcb_request show (direct_call c) = direct_request c
