-- ===== src/Tests/Hotplug.antt =====
-- Runs of the container of controllers and of its SCPI handlers.
use zenux_services.Prelude.{
  ℕ, ◌≡◌, ◌≢◌, refl, true, false, Option, none, some, List, [], ◌∷◌, arith, ◌*◌, ◌+◌, ◌-◌, ltb,
  ◌==◌, get_or, if◌then◌else◌,
}
use zenux_services.Prelude.Int.{ℤ, pos, negsuc}
use zenux_services.Prelude.Text.{
  Text, codes, lookup, eq_text, eq_text_refl, split, value_from, join,
}
use zenux_services.Prelude.Bits.{test_bit}
use zenux_services.Prelude.Maps.{is_some, find_key, put_key, contains_int}
use zenux_services.Settings.{ChannelSettings, DistinctNames}
use zenux_services.Hotplug.Container.{
  EmobIo, get_current_controllers, actualize_plugged, is_channel_known, remove_channel,
  start_adding_controller, has_answer, start_actualize_emob_controllers,
}
use zenux_services.Hotplug.Views.{view, occupied}
use zenux_services.Hotplug.Lifecycle.{
  actualize, boot_stopped, run, step, empty_hotplug, IsExclusive, start_actualize_lem,
}
use zenux_services.Hotplug.Availability.{available}
use zenux_services.Hotplug.Hex.{ReadsHex, hex_digit, encode_data_to_hex, hex_byte}
use zenux_services.Hotplug.Commands.{
  HotplugLib, EmobController, emob_push_button_press, emob_write_data, find_emob_connected,
  is_empty, ack_or_errexec, hex_or_nak, call_controller, handle, emob_read_data_for_exchange,
  execute_proto_scpi,
}
use zenux_services.Hotplug.Addressing.{
  Serves, execute_proto_scpi_lem, emob_write_data-emob_read_data,
}

abbrev channel : ℕ → Text → ℤ → ℤ → ChannelSettings
channel number name plug mux = record {
  name_mx = name;
  alias1 = name;
  ctrl_channel = number;
  plugged_bit = plug;
  mux_channel_no = mux;
}

-- A voltage channel without a plug, and two current channels.
abbrev m4 : ChannelSettings
m4 = channel 4 (codes "m4") (pos 1) (pos 2)

abbrev three : List ChannelSettings
three =
    channel 0 (codes "m0") (negsuc 0) (negsuc 0) ∷ m4 ∷ channel 5 (codes "m5") (pos 2) (pos 3) ∷ []

abbrev emob_io : EmobIo
emob_io = record {
  read_ctrl_version = λ mux. some (codes "1.02");
  get_emob_controller = λ mux. true;
  read_emob_instrument_sub_type = λ mux. some (codes "EMOB80");
}

-- Both plugs, then a boot on channel 5, then a read with channel 4 alone.
start_actualize_lem_example :
    let es = actualize 6 ∷ boot_stopped emob_io 5 ∷ [] in
    let before = view (run three es empty_hotplug) 4 in
    let after = view (start_actualize_emob_controllers 2 three (run three es empty_hotplug)) 4 in
    (occupied after ≡ test_bit 2 1)
    × IsExclusive after
    × (occupied before ≡ true → test_bit 2 1 ≡ true → after ≡ before)
start_actualize_lem_example =
    start_actualize_lem three (actualize 6 ∷ boot_stopped emob_io 5 ∷ []) 2 4 1 m4 (omega arith)
      refl refl (omega arith)

differ : (s t : Text) → eq_text s t ≡ false → s ≢ t
differ s t h e = absurd (ground (arith, eq_text_refl t))

names_differ : DistinctNames three
unfolding eq_text
names_differ = (
  (differ (codes "m4") (codes "m0") refl, (differ (codes "m5") (codes "m0") refl, tt)),
  ((differ (codes "m5") (codes "m4") refl, tt), (tt, tt)),
)

-- Channel 4 is plugged in after channel 5, and unplugging channel 5 does not matter.
available_example :
    lookup (codes "m4") (
      get_current_controllers (
        run three (actualize 2 ∷ []) (
          run three (boot_stopped emob_io 4 ∷ []) (
            run three
              (boot_stopped emob_io 5 ∷ [])
              (run three (actualize 6 ∷ []) (run three (actualize 4 ∷ []) empty_hotplug))))))
    ≡ some (pos 2)
unfolding occupied view run test_bit is_some find_key step start_actualize_emob_controllers
    actualize_plugged is_channel_known remove_channel contains_int start_adding_controller put_key
    has_answer
available_example =
    available three 4 1 m4 (omega arith) refl refl (omega arith) (actualize 4 ∷ [])
      (boot_stopped emob_io 5 ∷ []) (actualize 2 ∷ []) emob_io 6 names_differ refl refl tt
      (omega arith, tt) (refl, refl, refl) (refl, tt)

-- Parameters are separated by semicolons, and a number is a text of digits.
abbrev hex_value : ℕ → ℕ
hex_value c = if ltb c 58 then c - 48 else c - 87

abbrev read_two : Text → Option ℕ
read_two [] = none
read_two (a ∷ []) = none
read_two (a ∷ b ∷ []) = some (hex_value a * 16 + hex_value b)
read_two (a ∷ b ∷ c ∷ s) = none

read_two-ReadsHex : ReadsHex read_two
unfolding hex_digit
read_two-ReadsHex a b p q = ground arith

abbrev hotplug_lib : HotplugLib
unfolding split value_from
hotplug_lib = record {
  scpi = record {
    is_query = λ s. false;
    is_command = λ s n. n == 3;
    get_param = λ s n. get_or (split b';' s) n [];
    get_command_str = λ s. s;
    to_int = λ s. some (pos (value_from 0 s));
    to_ulong = λ s. some (value_from 0 s);
  };
  is_query_with = λ s n. n == 1;
  to_uint_16 = read_two;
  char_signed = true;
}

-- The bus is the list of what has been written.
abbrev emobs : EmobController (List ℕ)
emobs = record {
  send_pushbutton_press = λ mux bus. (bus, true);
  read_emob_lock_state = λ mux bus. (bus, some 1);
  read_emob_error_status = λ mux bus. (bus, some 0);
  clear_error_status = λ mux bus. (bus, true);
  read_exchange_data = λ mux bus. (bus, some (10 ∷ 255 ∷ []));
  write_exchange_data = λ mux bytes id bus. (id ∷ bytes, true);
  switch_discharge_on_off = λ mux on bus. (bus, true);
  read_emob_pruefgroessen_state = λ mux bus. (bus, none);
}

abbrev two_emobs : List (Text × ℤ)
two_emobs = (codes "m4", pos 2) ∷ (codes "m5", pos 3) ∷ []

-- With two controllers a command without a name finds none.
execute_proto_scpi_lem_example :
    Serves two_emobs [] []
      (execute_proto_scpi hotplug_lib emobs emob_push_button_press two_emobs [] [])
unfolding split hotplug_lib
execute_proto_scpi_lem_example =
    execute_proto_scpi_lem hotplug_lib emobs emob_push_button_press two_emobs [] []

emob_write_data-emob_read_data_example :
    execute_proto_scpi hotplug_lib emobs emob_write_data two_emobs (codes "m5;2;0a,ff") []
    ≡ some (2 ∷ 10 ∷ 255 ∷ [], ack_or_errexec true)
unfolding split value_from execute_proto_scpi find_emob_connected emob_read_data_for_exchange handle
    call_controller lookup eq_text is_empty hex_or_nak encode_data_to_hex hex_byte join is_some
emob_write_data-emob_read_data_example =
    emob_write_data-emob_read_data hotplug_lib emobs read_two-ReadsHex two_emobs (codes "m4")
      (codes "m5;2;0a,ff") (pos 2) (pos 3) (10 ∷ 255 ∷ []) 2 [] [] refl (refl, refl) refl
      (omega arith) refl (refl, refl) refl (omega arith) (codes "0a,ff") refl refl
