-- ===== src/Hotplug/Commands.antt =====
-- The SCPI handlers of `HotplugControllerInterface`
-- (zenux-service-common/lib/scpi-interfaces/hotplugcontrollerinterface.cpp).
use zenux_services.Prelude.{
  ℕ, Bool, true, false, ◌&&◌, ◌||◌, Option, none, some, List, [], ◌∷◌, ltb, if◌then◌else◌,
}
use zenux_services.Prelude.Int.{ℤ, pos, negsuc}
use zenux_services.Prelude.Maps.{is_some}
use zenux_services.Prelude.Text.{Text, decimal, join, lookup}
use zenux_services.Scpi.{ScpiLib, Answer, ack, nak, errexec, value}
use zenux_services.Hotplug.Hex.{encode_data_to_hex, decode_hex_string}

-- What the handlers take from libraries: the SCPI parser, also `isQuery` with a number of parameters,
-- `QString::toUInt` to the base 16, and whether `char` is signed.
pub record HotplugLib : Type 0 where
  pub scpi : ScpiLib
  pub is_query_with : Text → ℕ → Bool
  pub to_uint_16 : Text → Option ℕ
  pub char_signed : Bool

-- The EMOB controllers, by multiplexer channel, with the state of the bus passed on. `false` and `none`
-- are results other than `cmddone`.
pub record EmobController (Bus : Type 0) : Type 0 where
  pub send_pushbutton_press : ℤ → Bus → Bus × Bool
  pub read_emob_lock_state : ℤ → Bus → Bus × Option ℕ
  pub read_emob_error_status : ℤ → Bus → Bus × Option ℕ
  pub clear_error_status : ℤ → Bus → Bus × Bool
  pub read_exchange_data : ℤ → Bus → Bus × Option (List ℕ)
  pub write_exchange_data : ℤ → List ℕ → ℕ → Bus → Bus × Bool
  pub switch_discharge_on_off : ℤ → Bool → Bus → Bus × Bool
  pub read_emob_pruefgroessen_state : ℤ → Bus → Bus × Option ℕ

pub data HotplugCommand : Type 0 where
  emob_push_button_press emob_read_lock_state emob_read_error_status emob_clear_error_status
        emob_read_data emob_write_data emob_switch_discharge_on emob_switch_discharge_off
        emob_read_pruefgroessen_status :
      HotplugCommand

abbrev pub max_hot_controller_count : ℕ
max_hot_controller_count = 4

-- The empty text says that there is none.
unfoldable pub find_emob_connected : List (Text × ℤ) → Text → Text
find_emob_connected [] param = []
find_emob_connected ((name, mux) ∷ []) [] = name
find_emob_connected emob_controllers param =
    if is_some (lookup param emob_controllers) then param else []

unfoldable pub is_empty : Text → Bool
is_empty [] = true
is_empty (c ∷ s) = false

-- `ctrlRet != cmddone` is an errexec.
unfoldable pub ack_or_errexec : Bool → Answer
ack_or_errexec true = ack
ack_or_errexec false = errexec

unfoldable pub number_or_errexec : Option ℕ → Answer
number_or_errexec none = errexec
number_or_errexec (some n) = value (decimal n)

module _ {Bus : Type 0} (lib : HotplugLib) (emob : EmobController Bus) where
  unfoldable pub hex_or_nak : Option (List ℕ) → Answer
  hex_or_nak none = nak
  hex_or_nak (some bytes) = value (join b',' (encode_data_to_hex lib.char_signed bytes))

  -- `emobControllers[name].m_emobController`; the map answers with a null pointer for a name that it
  -- does not hold, and a call of it is a fault, `none`.
  unfoldable pub call_controller :
      List (Text × ℤ) → Text → (ℤ → Bus × Answer) → Option (Bus × Answer)
  call_controller emob_controllers name call = elim (lookup name emob_controllers) [
    | none ↦ none
    | some mux ↦ some (call mux)
  ]

  -- The shape of the handlers: the form of the command, the search, and the call.
  unfoldable pub handle :
      Bool → List (Text × ℤ) → Text → (ℤ → Bus × Answer) → Bus → Option (Bus × Answer)
  handle well_formed emob_controllers param call bus =
      let name = find_emob_connected emob_controllers param in
      if well_formed && (if is_empty name then false else true)
      then call_controller emob_controllers name call
      else some (bus, nak)

  unfoldable pub emob_push_button : List (Text × ℤ) → Text → Bus → Option (Bus × Answer)
  emob_push_button emob_controllers cmd bus =
      handle (lib.scpi.is_command cmd 1) emob_controllers (lib.scpi.get_param cmd 0)
        (λ mux.
          let (bus', done) = emob.send_pushbutton_press mux bus in (bus', ack_or_errexec done))
        bus

  unfoldable pub emob_lock_state : List (Text × ℤ) → Text → Bus → Option (Bus × Answer)
  emob_lock_state emob_controllers cmd bus =
      handle (lib.scpi.is_query cmd || lib.is_query_with cmd 1) emob_controllers
        (lib.scpi.get_param cmd 0)
        (λ mux.
          let (bus', state) = emob.read_emob_lock_state mux bus in (bus', number_or_errexec state))
        bus

  unfoldable pub emob_error_status : List (Text × ℤ) → Text → Bus → Option (Bus × Answer)
  emob_error_status emob_controllers cmd bus =
      handle (lib.scpi.is_query cmd || lib.is_query_with cmd 1) emob_controllers
        (lib.scpi.get_param cmd 0)
        (λ mux.
          let (bus', status) = emob.read_emob_error_status mux bus in
          (bus', number_or_errexec status))
        bus

  unfoldable pub emob_clear_error : List (Text × ℤ) → Text → Bus → Option (Bus × Answer)
  emob_clear_error emob_controllers cmd bus =
      handle (lib.scpi.is_command cmd 1) emob_controllers (lib.scpi.get_param cmd 0)
        (λ mux. let (bus', done) = emob.clear_error_status mux bus in (bus', ack_or_errexec done))
        bus

  unfoldable pub emob_switch_discharge_on_off :
      Bool → List (Text × ℤ) → Text → Bus → Option (Bus × Answer)
  emob_switch_discharge_on_off on emob_controllers cmd bus =
      handle (lib.scpi.is_command cmd 1) emob_controllers (lib.scpi.get_param cmd 0)
        (λ mux.
          let (bus', done) = emob.switch_discharge_on_off mux on bus in (bus', ack_or_errexec done))
        bus

  unfoldable pub emob_pruefgroessen_status : List (Text × ℤ) → Text → Bus → Option (Bus × Answer)
  emob_pruefgroessen_status emob_controllers cmd bus =
      handle (lib.scpi.is_query cmd || lib.is_query_with cmd 1) emob_controllers
        (lib.scpi.get_param cmd 0)
        (λ mux.
          let (bus', status) = emob.read_emob_pruefgroessen_state mux bus in
          (bus', number_or_errexec status))
        bus

  unfoldable pub emob_read_data_for_exchange : List (Text × ℤ) → Text → Bus → Option (Bus × Answer)
  emob_read_data_for_exchange emob_controllers cmd bus =
      handle (lib.is_query_with cmd 1) emob_controllers (lib.scpi.get_param cmd 0)
        (λ mux.
          let (bus', data_returned) = emob.read_exchange_data mux bus in
          (bus', hex_or_nak data_returned))
        bus

  -- `toInt` gives 0 for what is no number.
  unfoldable pub other_emob_id : Text → ℤ
  other_emob_id cmd = elim (lib.scpi.to_int (lib.scpi.get_param cmd 1)) [
    | none ↦ pos 0
    | some n ↦ n
  ]

  unfoldable pub write_for_exchange : ℤ → List (Text × ℤ) → Text → Bus → Option (Bus × Answer)
  write_for_exchange (negsuc n) emob_controllers cmd bus = some (bus, nak)
  write_for_exchange (pos id) emob_controllers cmd bus =
      let data_to_write = decode_hex_string lib.to_uint_16 (lib.scpi.get_param cmd 2) in
      handle (ltb id max_hot_controller_count) emob_controllers (lib.scpi.get_param cmd 0)
        (λ mux.
          let (bus', done) = emob.write_exchange_data mux data_to_write id bus in
          (bus', ack_or_errexec done))
        bus

  unfoldable pub emob_write_data_for_exchange : List (Text × ℤ) → Text → Bus → Option (Bus × Answer)
  emob_write_data_for_exchange emob_controllers cmd bus =
      if lib.scpi.is_command cmd 2 || lib.scpi.is_command cmd 3
      then write_for_exchange (other_emob_id cmd) emob_controllers cmd bus
      else some (bus, nak)

  -- `executeProtoScpi`: the output of a command.
  unfoldable pub execute_proto_scpi :
      HotplugCommand → List (Text × ℤ) → Text → Bus → Option (Bus × Answer)
  execute_proto_scpi emob_push_button_press = emob_push_button
  execute_proto_scpi emob_read_lock_state = emob_lock_state
  execute_proto_scpi emob_read_error_status = emob_error_status
  execute_proto_scpi emob_clear_error_status = emob_clear_error
  execute_proto_scpi emob_read_data = emob_read_data_for_exchange
  execute_proto_scpi emob_write_data = emob_write_data_for_exchange
  execute_proto_scpi emob_switch_discharge_on = emob_switch_discharge_on_off true
  execute_proto_scpi emob_switch_discharge_off = emob_switch_discharge_on_off false
  execute_proto_scpi emob_read_pruefgroessen_status = emob_pruefgroessen_status
