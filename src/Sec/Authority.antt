-- ===== src/Sec/Authority.antt =====
-- Who may operate an error calculator: the check that the handlers of secchannel.cpp share.
use zenux_services.Prelude.{◌≢◌, ◌≡◌, ◌⊎◌, Bool, false, ◌&&◌, arith}
use zenux_services.Scpi.{nak, erraut, ScpiLib, ProtoCmd}
use zenux_services.Prelude.Text.{ne→eq_text}
use zenux_services.Sec.Device.{DeviceNode}
use zenux_services.Sec.Channel.{
  SecSettings, SecChannel, Outcome, Command, cmd_register, cmd_set_sync, cmd_set_mux,
  cmd_set_cmd_id, cmd_start, cmd_stop, int_acknowledge, is_authorized, free,
}
use zenux_services.Sec.Commands.{
  authorized, read_write_register, set_sync, set_mux, set_cmd_id, start, stop, reset_int, execute,
}

-- The command reads a register.
abbrev pub is_read : ScpiLib → Command → ProtoCmd → Bool
is_read lib cmd_register p = p.type_query && lib.is_query p.input
is_read lib _ p = false

-- Nothing has changed, and the answer is a refusal.
abbrev pub Refused : (dev : DeviceNode) → SecChannel → dev.State → Outcome dev.State → Type 0
Refused dev c s o = (o.channel ≡ c) × ((o.answer ≡ erraut) ⊎ (o.answer ≡ nak))

execute_lem :
    (lib : ScpiLib) (dev : DeviceNode) (settings : SecSettings) (cmd : Command) (p : ProtoCmd)
    (c : SecChannel) (s : dev.State)
    → is_authorized c p ≡ false
    → is_read lib cmd p ≡ false
    → let o = execute lib dev settings cmd p c s in (o.state ≡ s) × Refused dev c s o
unfolding execute read_write_register set_sync set_mux set_cmd_id start stop reset_int authorized
execute_lem lib dev settings cmd_register p c s h r = ground arith
execute_lem lib dev settings cmd_set_sync p c s h r = ground arith
execute_lem lib dev settings cmd_set_mux p c s h r = ground arith
execute_lem lib dev settings cmd_set_cmd_id p c s h r = ground arith
execute_lem lib dev settings cmd_start p c s h r = ground arith
execute_lem lib dev settings cmd_stop p c s h r = ground arith
execute_lem lib dev settings int_acknowledge p c s h r = ground arith

free-is_authorized :
    (dev : DeviceNode) (c : SecChannel) (s : dev.State) (q : ProtoCmd)
    → is_authorized (free dev c s).0 q ≡ is_authorized c q
unfolding free is_authorized
free-is_authorized dev c s q = ground arith

-- A client whose identifier is not the one that the channel has stored changes neither the channel
-- nor a register by any command but a register read, and the answer is erraut or nak. Whether the
-- channel is taken plays no part, and freeing the channel changes for no client whether it passes the
-- check: the client that had the channel last still does.
pub execute-Refused :
    (lib : ScpiLib) (dev : DeviceNode) (settings : SecSettings) (cmd : Command) (p q : ProtoCmd)
    (c : SecChannel) (s : dev.State)
    → p.client_id ≢ c.client_id
    → is_read lib cmd p ≡ false
    → let o = execute lib dev settings cmd p c s in
      (o.state ≡ s) × Refused dev c s o × (is_authorized (free dev c s).0 q ≡ is_authorized c q)
execute-Refused lib dev settings cmd p q c s other no_read =
    let refused : is_authorized c p ≡ false =
      unfold is_authorized in ne→eq_text p.client_id c.client_id other in
    let r = execute_lem lib dev settings cmd p c s refused no_read in
    (r.0, r.1, free-is_authorized dev c s q)
