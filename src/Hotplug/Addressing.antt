-- ===== src/Hotplug/Addressing.antt =====
-- Which controller an SCPI command of `HotplugControllerInterface` reaches, and the text of exchange data.
use zenux_services.Prelude.{
  ℕ, ◌<◌, ◌≡◌, refl, ap, ◌∙◌, Bool, true, false, ◌||◌, Option, some, List, [], ◌∷◌, arith,
  if◌then◌else◌, Bool-cases, Option-cases, inl, inr, lt→ltb,
}
use zenux_services.Prelude.Int.{ℤ, pos, negsuc}
use zenux_services.Prelude.Maps.{is_some}
use zenux_services.Prelude.Text.{Text, lookup, join, eq_text_refl}
use zenux_services.Scpi.{Answer, nak, value}
use zenux_services.Hotplug.Hex.{
  encode_data_to_hex, decode_hex_string, Bytes, ReadsHex, decode-encode,
}
use zenux_services.Hotplug.Commands.{
  HotplugLib, EmobController, HotplugCommand, emob_push_button_press, emob_read_lock_state,
  emob_read_error_status, emob_clear_error_status, emob_read_data, emob_write_data,
  emob_switch_discharge_on, emob_switch_discharge_off, emob_read_pruefgroessen_status,
  find_emob_connected, is_empty, ack_or_errexec, hex_or_nak, call_controller, handle,
  emob_push_button, emob_lock_state, emob_error_status, emob_clear_error,
  emob_switch_discharge_on_off, emob_pruefgroessen_status, emob_read_data_for_exchange,
  other_emob_id, write_for_exchange, emob_write_data_for_exchange, execute_proto_scpi,
}

-- A parameter finds the controller on `mux`.
abbrev pub Connects : List (Text × ℤ) → Text → ℤ → Type 0
Connects cs param mux =
    (is_empty (find_emob_connected cs param) ≡ false)
    × (lookup (find_emob_connected cs param) cs ≡ some mux)

found_if-contained :
    (cs : List (Text × ℤ)) (param : Text)
    → let name = if is_some (lookup param cs) then param else [] in
      is_empty name ≡ false → is_some (lookup name cs) ≡ true
unfolding is_empty
found_if-contained cs param h = elim (Bool-cases (is_some (lookup param cs))) [
  | inl e ↦ rw e e
  | inr e ↦ absurd (ground arith)
]

-- A name that is found is in the map.
find_emob_connected-contained :
    (cs : List (Text × ℤ)) (param : Text)
    → is_empty (find_emob_connected cs param) ≡ false
    → is_some (lookup (find_emob_connected cs param) cs) ≡ true
unfolding find_emob_connected
find_emob_connected-contained [] param h = unfold is_empty in cc
find_emob_connected-contained ((name, mux) ∷ []) [] h =
    unfold lookup is_some in rw (eq_text_refl name) refl
find_emob_connected-contained ((name, mux) ∷ []) (c ∷ s) h =
    found_if-contained ((name, mux) ∷ []) (c ∷ s) h
find_emob_connected-contained ((name, mux) ∷ d ∷ cs) param h =
    found_if-contained ((name, mux) ∷ d ∷ cs) param h

-- What an execution may be: no fault, and where the parameter finds no controller, nothing happens and
-- the answer is nak.
abbrev pub Serves {ℓ} :
    {Bus : Type ℓ} → List (Text × ℤ) → Text → Bus → Option (Bus × Answer) → Type ℓ
Serves {Bus = Bus} cs param bus r =
    (out : Bus × Answer) × (r ≡ some out)
    × (is_empty (find_emob_connected cs param) ≡ true → out ≡ (bus, nak))

module _ {Bus : Type 0} (lib : HotplugLib) (emob : EmobController Bus) where
  handle-Connects :
      (cs : List (Text × ℤ)) (param : Text) (mux : ℤ) (call : ℤ → Bus × Answer) (bus : Bus)
      → Connects cs param mux
      → handle lib emob true cs param call bus ≡ some (call mux)
  unfolding handle call_controller
  handle-Connects cs param mux call bus (some_name, there) = ground arith

  handle-Serves :
      (ok : Bool) (cs : List (Text × ℤ)) (param : Text) (call : ℤ → Bus × Answer) (bus : Bus)
      → Serves cs param bus (handle lib emob ok cs param call bus)
  unfolding handle is_some
  handle-Serves false cs param call bus = ((bus, nak), refl, λ h. refl)
  handle-Serves true cs param call bus =
      elim (Bool-cases (is_empty (find_emob_connected cs param))) [
        | inl e ↦ rw e ((bus, nak), refl, λ h. refl)
        | inr e ↦ elim (Option-cases (lookup (find_emob_connected cs param) cs)) [
          | inl f ↦ absurd (ground (arith, find_emob_connected-contained cs param e))
          | inr (mux, f) ↦ (call mux, handle-Connects cs param mux call bus (e, f), λ h. cc)
        ]
      ]

  write_for_exchange-Serves :
      (id : ℤ) (cs : List (Text × ℤ)) (cmd : Text) (bus : Bus)
      → Serves cs (lib.scpi.get_param cmd 0) bus (write_for_exchange lib emob id cs cmd bus)
  unfolding write_for_exchange
  write_for_exchange-Serves (negsuc n) cs cmd bus = ((bus, nak), refl, λ h. refl)
  write_for_exchange-Serves (pos id) cs cmd bus = handle-Serves _ cs _ _ bus

  emob_write_data-Serves :
      (cs : List (Text × ℤ)) (cmd : Text) (bus : Bus)
      → Serves cs (lib.scpi.get_param cmd 0) bus (emob_write_data_for_exchange lib emob cs cmd bus)
  unfolding emob_write_data_for_exchange
  emob_write_data-Serves cs cmd bus =
      elim (Bool-cases (lib.scpi.is_command cmd 2 || lib.scpi.is_command cmd 3)) [
        | inl e ↦ rw e (write_for_exchange-Serves (other_emob_id lib emob cmd) cs cmd bus)
        | inr e ↦ rw e ((bus, nak), refl, λ h. refl)
      ]

  -- No command calls a controller that is not there: each one has an answer, and a command whose first
  -- parameter finds no controller leaves the bus alone and is answered with nak.
  pub execute_proto_scpi_lem :
      (command : HotplugCommand) (cs : List (Text × ℤ)) (cmd : Text) (bus : Bus)
      → Serves cs (lib.scpi.get_param cmd 0) bus (execute_proto_scpi lib emob command cs cmd bus)
  unfolding execute_proto_scpi emob_push_button emob_lock_state emob_error_status emob_clear_error
      emob_switch_discharge_on_off emob_pruefgroessen_status emob_read_data_for_exchange
  execute_proto_scpi_lem emob_push_button_press cs cmd bus = handle-Serves _ cs _ _ bus
  execute_proto_scpi_lem emob_read_lock_state cs cmd bus = handle-Serves _ cs _ _ bus
  execute_proto_scpi_lem emob_read_error_status cs cmd bus = handle-Serves _ cs _ _ bus
  execute_proto_scpi_lem emob_clear_error_status cs cmd bus = handle-Serves _ cs _ _ bus
  execute_proto_scpi_lem emob_read_data cs cmd bus = handle-Serves _ cs _ _ bus
  execute_proto_scpi_lem emob_write_data cs cmd bus = emob_write_data-Serves cs cmd bus
  execute_proto_scpi_lem emob_switch_discharge_on cs cmd bus = handle-Serves _ cs _ _ bus
  execute_proto_scpi_lem emob_switch_discharge_off cs cmd bus = handle-Serves _ cs _ _ bus
  execute_proto_scpi_lem emob_read_pruefgroessen_status cs cmd bus = handle-Serves _ cs _ _ bus

  answer_of_exchange :
      (cs : List (Text × ℤ)) (cmd : Text) (from : ℤ) (bytes : List ℕ) (bus bus' : Bus)
      → lib.is_query_with cmd 1 ≡ true
      → Connects cs (lib.scpi.get_param cmd 0) from
      → emob.read_exchange_data from bus ≡ (bus', some bytes)
      → execute_proto_scpi lib emob emob_read_data cs cmd bus
        ≡ some (bus', value (join b',' (encode_data_to_hex lib.char_signed bytes)))
  unfolding execute_proto_scpi emob_read_data_for_exchange hex_or_nak
  answer_of_exchange cs cmd from bytes bus bus' query c got =
      rw query (handle-Connects cs (lib.scpi.get_param cmd 0) from _ bus c ∙ rw got refl)

  write_decoded :
      (cs : List (Text × ℤ)) (cmd : Text) (to : ℤ) (bytes : List ℕ) (id : ℕ) (bus : Bus)
      → (lib.scpi.is_command cmd 2 || lib.scpi.is_command cmd 3) ≡ true
      → Connects cs (lib.scpi.get_param cmd 0) to
      → lib.scpi.to_int (lib.scpi.get_param cmd 1) ≡ some (pos id)
      → id < 4
      → decode_hex_string lib.to_uint_16 (lib.scpi.get_param cmd 2) ≡ bytes
      → execute_proto_scpi lib emob emob_write_data cs cmd bus
        ≡ some (
          (emob.write_exchange_data to bytes id bus).0,
          ack_or_errexec (emob.write_exchange_data to bytes id bus).1,
        )
  unfolding execute_proto_scpi emob_write_data_for_exchange write_for_exchange other_emob_id
  write_decoded cs cmd to bytes id bus command c to_id low decoded =
      let other : other_emob_id lib emob cmd ≡ pos id = ground arith in
      rw (command, other, decoded, lt→ltb id 4 low)
        (handle-Connects cs (lib.scpi.get_param cmd 0) to _ bus c)

  -- What READDATA answers for the bytes of one controller is, as the third parameter of a WRITEDATA to
  -- the place `id` of another, written as the same bytes; the places are those below 4, and the number
  -- parser has to read two hexadecimal digits as a byte.
  pub emob_write_data-emob_read_data :
      (reads : ReadsHex lib.to_uint_16) (cs : List (Text × ℤ)) (read_cmd write_cmd : Text)
      (from to : ℤ) (bytes : List ℕ) (id : ℕ) (bus bus' : Bus)
      → lib.is_query_with read_cmd 1 ≡ true
      → Connects cs (lib.scpi.get_param read_cmd 0) from
      → emob.read_exchange_data from bus ≡ (bus', some bytes)
      → Bytes bytes
      → (lib.scpi.is_command write_cmd 2 || lib.scpi.is_command write_cmd 3) ≡ true
      → Connects cs (lib.scpi.get_param write_cmd 0) to
      → lib.scpi.to_int (lib.scpi.get_param write_cmd 1) ≡ some (pos id)
      → id < 4
      → (t : Text) → lib.scpi.get_param write_cmd 2 ≡ t
      → execute_proto_scpi lib emob emob_read_data cs read_cmd bus ≡ some (bus', value t)
      → execute_proto_scpi lib emob emob_write_data cs write_cmd bus'
        ≡ some (
          (emob.write_exchange_data to bytes id bus').0,
          ack_or_errexec (emob.write_exchange_data to bytes id bus').1,
        )
  emob_write_data-emob_read_data reads cs read_cmd write_cmd from to bytes id bus bus' query c got b
        command c' to_id low t param answered =
      let sent = join b',' (encode_data_to_hex lib.char_signed bytes) in
      let out = answer_of_exchange cs read_cmd from bytes bus bus' query c got in
      let same : t ≡ sent = cc in
      write_decoded cs write_cmd to bytes id bus' command c' to_id low (
        ap (decode_hex_string lib.to_uint_16) (param ∙ same)
        ∙ decode-encode lib.to_uint_16 reads lib.char_signed bytes b)
