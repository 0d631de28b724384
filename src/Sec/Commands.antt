-- ===== src/Sec/Commands.antt =====
-- The SCPI handlers of one error calculator, sec1000d/lib/scpi-interfaces/secchannel.cpp.
use zenux_services.Prelude.{
  ℕ, ◌%◌, ◌^◌, true, ◌&&◌, [], Option, none, some, ltb, leb, ◌==◌, if◌then◌else◌,
}
use zenux_services.Prelude.Int.{ℤ, pos, negsuc, as_int}
use zenux_services.Prelude.Text.{decimal, contains_pair, remove_pair, lookup}
use zenux_services.Scpi.{ack, nak, erraut, errval, value, ScpiLib, ProtoCmd}
use zenux_services.Sec.Device.{DeviceNode}
use zenux_services.Sec.Conf.{conf_sync, conf_mux, conf_cmd_id, sec_config_count}
use zenux_services.Sec.Channel.{
  SecSettings, SecChannel, Outcome, outcome, Command, cmd_register, cmd_set_sync, cmd_set_mux,
  cmd_set_cmd_id, cmd_start, cmd_stop, int_acknowledge, reg_address, reg_cmd, reg_intreg,
  register_index, is_authorized, stop_error_calculator, reset_interrupt, rewrite_conf,
}

-- `ok && chnIndex >= 0 && chnIndex <= getNumber()`
unfoldable pub sync_index : SecSettings → Option ℕ → Option ℕ
sync_index settings none = none
sync_index settings (some n) = elim (as_int n) [
  | pos i ↦ if leb i settings.number then some i else none
  | negsuc i ↦ none
]

-- `ok && cmdId >= 0 && cmdId < SecConfigCount`
unfoldable pub config_index : Option ℤ → Option ℕ
config_index (some (pos k)) = if ltb k sec_config_count then some k else none
config_index _ = none

module _ (lib : ScpiLib) (dev : DeviceNode) (settings : SecSettings) where
  open lib use {is_query, is_command, get_param, to_int, to_ulong}
  open dev use {State, lseek, read, write}

  unfoldable pub read_register : ProtoCmd → SecChannel → State → Outcome State
  read_register p c s =
      let reg_ind = register_index lib p in
      let (reg, s') = read (lseek (reg_address c reg_ind) s) in
      if reg_ind == reg_intreg
      then record (outcome c s (value (decimal c.int_reg.value))) { emitted = true }
      else outcome c s' (value (decimal reg))

  unfoldable pub write_register : ProtoCmd → SecChannel → State → Outcome State
  write_register p c s =
      if is_authorized c p
      then elim (to_ulong (get_param p.input 0)) [
        | none ↦ outcome c s nak
        | some v ↦
            outcome c (write (v % 2 ^ 32) (lseek (reg_address c (register_index lib p)) s)) ack
      ]
      else outcome c s erraut

  unfoldable pub read_write_register : ProtoCmd → SecChannel → State → Outcome State
  unfolding read_register write_register
  read_write_register p c s =
      if p.type_query && is_query p.input
      then read_register p c s
      else if p.type_cmd_p && is_command p.input 1
      then write_register p c s
      else outcome c s nak

  -- The guards that the other handlers share: the form of the command, then the owner.
  unfoldable pub authorized : ℕ → Outcome State → ProtoCmd → SecChannel → State → Outcome State
  authorized n run p c s =
      if is_command p.input n
      then if is_authorized c p then run else outcome c s erraut
      else outcome c s nak

  unfoldable pub set_sync : ProtoCmd → SecChannel → State → Outcome State
  set_sync p c s =
      let par = get_param p.input 0 in
      let index = sync_index settings (to_ulong (remove_pair b'e' b'c' par)) in
      let found : Outcome State = elim index [
        | none ↦ outcome c s errval
        | some i ↦ outcome c (rewrite_conf dev (conf_sync i) c s) ack
      ] in
      authorized 1 (if contains_pair b'e' b'c' par then found else outcome c s errval) p c s

  unfoldable pub set_mux : ProtoCmd → SecChannel → State → Outcome State
  set_mux p c s =
      authorized 1
        (elim (lookup (get_param p.input 0) settings.inputs) [
          | none ↦ outcome c s errval
          | some mux ↦ outcome c (rewrite_conf dev (conf_mux mux) c s) ack
        ])
        p c s

  unfoldable pub set_cmd_id : ProtoCmd → SecChannel → State → Outcome State
  set_cmd_id p c s =
      authorized 1
        (elim (config_index (to_int (get_param p.input 0))) [
          | none ↦ outcome c s errval
          | some k ↦ outcome c (rewrite_conf dev (conf_cmd_id k) c s) ack
        ])
        p c s

  unfoldable pub start : ProtoCmd → SecChannel → State → Outcome State
  start p c s = authorized 0 (outcome c (write 0x80 (lseek (reg_address c reg_cmd) s)) ack) p c s

  unfoldable pub stop : ProtoCmd → SecChannel → State → Outcome State
  stop p c s = authorized 0 (outcome c (stop_error_calculator dev c s) ack) p c s

  -- A successful acknowledge sets no output.
  unfoldable pub reset_int : ProtoCmd → SecChannel → State → Outcome State
  reset_int p c s =
      authorized 1
        (elim (to_ulong (get_param p.input 0)) [
          | none ↦ outcome c s nak
          | some v ↦
              let (c', s') = reset_interrupt dev (v % 2 ^ 32 % 2 ^ 8) c s in
              outcome c' s' (value [])
        ])
        p c s

  -- `executeProtoScpi`, without the signal that sends the answer.
  unfoldable pub execute : Command → ProtoCmd → SecChannel → State → Outcome State
  execute cmd_register p c s = read_write_register p c s
  execute cmd_set_sync p c s = set_sync p c s
  execute cmd_set_mux p c s = set_mux p c s
  execute cmd_set_cmd_id p c s = set_cmd_id p c s
  execute cmd_start p c s = start p c s
  execute cmd_stop p c s = stop p c s
  execute int_acknowledge p c s = reset_int p c s
