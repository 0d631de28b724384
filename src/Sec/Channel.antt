-- ===== src/Sec/Channel.antt =====
-- One error calculator: `SecChannel` of sec1000d/lib/scpi-interfaces/secchannel.cpp. An operation
-- returns the channel, the state of the device node and the answer.
use zenux_services.Prelude.{
  ℕ, ◌+◌, ◌-◌, ◌*◌, ◌%◌, ◌^◌, bit_and, Bool, true, false, not, Option, none, some, List, [], ◌∷◌,
  if◌then◌else◌, get_or,
}
use zenux_services.Prelude.Int.{ℤ, pos, negsuc}
use zenux_services.Prelude.Text.{Text, eq_text, decimal, split, remove_char}
use zenux_services.Scpi.{Answer, ScpiLib, ProtoCmd}
use zenux_services.Notifier.{NotificationValue, new_value, set_value, clr_value}
use zenux_services.Sec.Device.{DeviceNode}

-- `SecCalculatorSettings` and `SecInputSettings`, as far as a channel reads them.
pub record SecSettings : Type 0 where
  pub number : ℕ
  pub base_address : ℕ
  pub irq_address : ℕ
  pub inputs : List (Text × ℕ)

pub record SecChannel : Type 0 where
  pub nr : ℕ
  pub address : ℕ
  pub is_set : Bool
  pub client_id : Text
  pub int_reg : NotificationValue

unfoldable pub new_channel : SecSettings → ℕ → SecChannel
new_channel settings nr = record {
  nr = nr;
  address = (settings.base_address + nr * 2 ^ 6) % 2 ^ 32;
  is_set = false;
  client_id = [];
  int_reg = new_value 0;
}

-- "ec" and the number.
unfoldable pub get_name : SecChannel → Text
get_name c = b'e' ∷ b'c' ∷ decimal c.nr

unfoldable pub is_free : SecChannel → Bool
is_free c = not c.is_set

unfoldable pub set_client : Text → SecChannel → SecChannel × Bool
set_client id c =
    let ret = not c.is_set in
    (record c { client_id = if ret then id else c.client_id; is_set = true }, ret)

unfoldable pub set_int_reg : ℕ → SecChannel → SecChannel × Option ℕ
set_int_reg reg c = let (n, edge) = set_value c.int_reg reg in (record c { int_reg = n }, edge)

-- ECALCREG
abbrev pub reg_cmd : ℕ
reg_cmd = 0

abbrev pub reg_conf : ℕ
reg_conf = 1

abbrev pub reg_intreg : ℕ
reg_intreg = 4

-- `m_nMyAdress + (reg << 2)`
unfoldable pub reg_address : SecChannel → ℕ → ℕ
reg_address c reg = (c.address + reg * 2 ^ 2) % 2 ^ 32

-- `emitted` says whether `valNotifier` was emitted for the interrupt register.
pub record Outcome (S : Type 0) : Type 0 where
  pub channel : SecChannel
  pub state : S
  pub answer : Answer
  pub emitted : Bool

abbrev pub outcome : {S : Type 0} → SecChannel → S → Answer → Outcome S
outcome c s a = record { channel = c; state = s; answer = a; emitted = false }

pub data Command : Type 0 where
  cmd_register cmd_set_sync cmd_set_mux cmd_set_cmd_id cmd_start cmd_stop int_acknowledge : Command

-- `toInt` assigned to a `quint8`; 0 if the text is no number.
unfoldable pub to_quint8 : Option ℤ → ℕ
to_quint8 none = 0
to_quint8 (some (pos n)) = n % 256
to_quint8 (some (negsuc n)) = 255 - n % 256

-- The register number in the third node of the command, without its "r" and "?".
unfoldable pub register_index : ScpiLib → ProtoCmd → ℕ
register_index lib p =
    let par = get_or (split b':' (lib.get_command_str p.input)) 2 [] in
    to_quint8 (lib.to_int (remove_char b'?' (remove_char b'R' (remove_char b'r' par))))

unfoldable pub is_authorized : SecChannel → ProtoCmd → Bool
is_authorized c p = eq_text p.client_id c.client_id

module _ (dev : DeviceNode) where
  open dev use {State, lseek, read, write}

  unfoldable pub stop_error_calculator : SecChannel → State → State
  stop_error_calculator c s = write 0x0 (write 0x40 (lseek (reg_address c reg_cmd) s))

  unfoldable pub reset_interrupt : ℕ → SecChannel → State → SecChannel × State
  reset_interrupt interrupt c s =
      let (reg, s') = read (lseek (reg_address c reg_intreg) s) in
      let reg' = bit_and (bit_and reg 0xF) (2 ^ 32 - 1 - interrupt) in
      (record c { int_reg = clr_value c.int_reg interrupt }, write reg' s')

  -- The owner's name stays behind.
  unfoldable pub free : SecChannel → State → SecChannel × State
  free c s = if c.is_set then (record c { is_set = false }, stop_error_calculator c s) else (c, s)

  -- Read CONF, and write `f` of it back.
  unfoldable pub rewrite_conf : (ℕ → ℕ) → SecChannel → State → State
  rewrite_conf f c s = let (reg, s') = read (lseek (reg_address c reg_conf) s) in write (f reg) s'
