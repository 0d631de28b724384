-- ===== src/Sec/Effects.antt =====
-- The registers of an error calculator under the commands of secchannel.cpp, on a register file.
use zenux_services.Prelude.{
  ℕ, ◌+◌, ◌≡◌, ◌⊎◌, ◌≢◌, inl, inr, ◌<◌, Bool, true, false, not, ◌&&◌, List, [], ◌∷◌, arith, refl,
  Option, none, some, Option-cases, Bool-cases, ◌==◌, if◌then◌else◌,
}
use zenux_services.Prelude.Int.{ℤ, pos, negsuc}
use zenux_services.Prelude.Bits.{test_bit}
use zenux_services.Prelude.Text.{Text, lookup, contains_pair, remove_pair}
use zenux_services.Scpi.{ack, ScpiLib, ProtoCmd}
use zenux_services.Sec.Device.{DeviceNode, IsRegisterFile}
use zenux_services.Sec.Conf.{
  conf_sync, conf_mux, conf_cmd_id, conf_sync_bits, conf_mux_bits, conf_cmd_id_bits, in_field,
  kept_by_cmd_id, sec_config_count,
}
use zenux_services.Sec.Channel.{
  SecSettings, SecChannel, Outcome, Command, cmd_register, cmd_set_sync, cmd_set_mux,
  cmd_set_cmd_id, cmd_start, cmd_stop, int_acknowledge, is_authorized, rewrite_conf, reg_address,
  reg_conf, reg_cmd, stop_error_calculator, free, is_free,
}
use zenux_services.Sec.Commands.{
  authorized, set_sync, set_mux, set_cmd_id, sync_index, config_index, execute,
}

-- The values that the settings hold fit their fields of the register.
abbrev pub InputsFit : List (Text × ℕ) → Type 0
InputsFit [] = Unit
InputsFit ((name, mux) ∷ rest) = (mux < 32) × InputsFit rest

pub record SettingsFit (settings : SecSettings) : Type 0 where
  pub number_lt : settings.number < 255
  pub inputs_fit : InputsFit settings.inputs

lookup-lt :
    (inputs : List (Text × ℕ)) (name : Text) (mux : ℕ)
    → InputsFit inputs
    → lookup name inputs ≡ some mux
    → mux < 32
unfolding lookup
lookup-lt [] name mux h e = cc
lookup-lt ((j, v) ∷ rest) name mux h e = ground (arith, lookup-lt rest name mux h.1)

sync_index-le :
    (settings : SecSettings) (o : Option ℕ) (i : ℕ)
    → sync_index settings o ≡ some i
    → i < settings.number + 1
unfolding sync_index
sync_index-le settings none i e = cc
sync_index-le settings (some n) i e = ground arith

config_index-lt : (o : Option ℤ) (k : ℕ) → config_index o ≡ some k → k < sec_config_count
unfolding config_index
config_index-lt none k e = cc
config_index-lt (some (pos n)) k e = ground arith
config_index-lt (some (negsuc n)) k e = cc

module _ (dev : DeviceNode) (file : IsRegisterFile dev) where
  open file use {
    pos as at, word, pos-lseek, word-lseek, value-read, pos-read, word-read, pos-write, word-write,
  }

  -- `rewrite_conf` changes CONF and nothing else.
  pub word-rewrite_conf :
      (f : ℕ → ℕ) (c : SecChannel) (s : dev.State) (b : ℕ)
      → word (rewrite_conf dev f c s) b
        ≡ (if b == reg_address c reg_conf then f (word s (reg_address c reg_conf)) else word s b)
  unfolding rewrite_conf
  word-rewrite_conf f c s b =
      let a = reg_address c reg_conf in
      let s1 = dev.lseek a s in
      ground (
        arith,
        word-write (f (dev.read s1).0) b (dev.read s1).1,
        pos-read s1,
        pos-lseek a s,
        value-read s1,
        word-lseek a a s,
        word-read b s1,
        word-lseek a b s,
      )

-- The bits of CONF that a command may change.
abbrev pub field_of : Command → ℕ → Bool
field_of cmd_set_sync i = in_field 0 8 i
field_of cmd_set_mux i = in_field 10 15 i
field_of cmd_set_cmd_id i = not (kept_by_cmd_id i)
field_of _ i = false

-- Commands that configure the channel.
abbrev pub is_config : Command → Bool
is_config cmd_set_sync = true
is_config cmd_set_mux = true
is_config cmd_set_cmd_id = true
is_config _ = false

-- `f` keeps the bits outside the command's field.
abbrev Keeps : Command → (ℕ → ℕ) → Type 0
Keeps cmd f = (r i : ℕ) → i < 32 → field_of cmd i ≡ false → test_bit (f r) i ≡ test_bit r i

-- Nothing happens, or an acknowledged command rewrites CONF.
abbrev Configures :
    (dev : DeviceNode) → Command → SecChannel → dev.State → Outcome dev.State → Type 0
Configures dev cmd c s o =
    ((o.state ≡ s) × (o.answer ≢ ack))
    ⊎ ((f : ℕ → ℕ) × (o.state ≡ rewrite_conf dev f c s) × (o.answer ≡ ack) × Keeps cmd f)

module _ (lib : ScpiLib) (dev : DeviceNode) (settings : SecSettings)
    (fit : SettingsFit settings) where
  authorized-Configures :
      (cmd : Command) (n : ℕ) (o : Outcome dev.State) (p : ProtoCmd) (c : SecChannel)
      (s : dev.State)
      → Configures dev cmd c s o
      → Configures dev cmd c s (authorized lib dev settings n o p c s)
  unfolding authorized
  authorized-Configures cmd n o p c s h = elim (Bool-cases (lib.is_command p.input n)) [
    | inl e ↦ elim (Bool-cases (is_authorized c p)) [
      | inl a ↦ rw (e, a) h
      | inr a ↦ rw (e, a) (inl (refl, λ q. cc))
    ]
    | inr e ↦ rw e (inl (refl, λ q. cc))
  ]

  set_sync-Configures :
      (p : ProtoCmd) (c : SecChannel) (s : dev.State)
      → Configures dev cmd_set_sync c s (set_sync lib dev settings p c s)
  unfolding set_sync
  set_sync-Configures p c s =
      let par = lib.get_param p.input 0 in
      let index = sync_index settings (lib.to_ulong (remove_pair b'e' b'c' par)) in
      authorized-Configures cmd_set_sync 1 _ p c s
        (elim (Bool-cases (contains_pair b'e' b'c' par)) [
          | inr e ↦ rw e (inl (refl, λ q. cc))
          | inl e ↦ rw e (elim (Option-cases index) [
            | inl n ↦ rw n (inl (refl, λ q. cc))
            | inr (i, g) ↦ rw g (
                inr (
                  conf_sync i,
                  refl,
                  refl,
                  λ r j lt out. ground (
                    arith,
                    conf_sync_bits i r j
                        (omega (arith, fit.number_lt, sync_index-le settings _ i g)) lt,
                  ),
                ))
          ])
        ])

  set_mux-Configures :
      (p : ProtoCmd) (c : SecChannel) (s : dev.State)
      → Configures dev cmd_set_mux c s (set_mux lib dev settings p c s)
  unfolding set_mux
  set_mux-Configures p c s =
      authorized-Configures cmd_set_mux 1 _ p c s
        (elim (Option-cases (lookup (lib.get_param p.input 0) settings.inputs)) [
          | inl n ↦ rw n (inl (refl, λ q. cc))
          | inr (m, g) ↦ rw g (
              inr (
                conf_mux m,
                refl,
                refl,
                λ r j lt out. ground (
                  arith,
                  conf_mux_bits m r j (lookup-lt settings.inputs _ m fit.inputs_fit g) lt,
                ),
              ))
        ])

  set_cmd_id-Configures :
      (p : ProtoCmd) (c : SecChannel) (s : dev.State)
      → Configures dev cmd_set_cmd_id c s (set_cmd_id lib dev settings p c s)
  unfolding set_cmd_id
  set_cmd_id-Configures p c s =
      authorized-Configures cmd_set_cmd_id 1 _ p c s
        (elim (Option-cases (config_index (lib.to_int (lib.get_param p.input 0)))) [
          | inl n ↦ rw n (inl (refl, λ q. cc))
          | inr (k, g) ↦ rw g (
              inr (
                conf_cmd_id k,
                refl,
                refl,
                λ r j lt out. ground (arith, conf_cmd_id_bits k r j (config_index-lt _ k g) lt),
              ))
        ])

  execute-Configures :
      (cmd : Command) (p : ProtoCmd) (c : SecChannel) (s : dev.State)
      → is_config cmd ≡ true
      → Configures dev cmd c s (execute lib dev settings cmd p c s)
  unfolding execute
  execute-Configures cmd_register p c s h = cc
  execute-Configures cmd_set_sync p c s h = set_sync-Configures p c s
  execute-Configures cmd_set_mux p c s h = set_mux-Configures p c s
  execute-Configures cmd_set_cmd_id p c s h = set_cmd_id-Configures p c s
  execute-Configures cmd_start p c s h = cc
  execute-Configures cmd_stop p c s h = cc
  execute-Configures int_acknowledge p c s h = cc

  -- On every branch, SYNC, MUX and CMDID change at most the bits of their own field of CONF: all
  -- other bits of CONF and all other registers stay, and without an `ack` nothing happens at all.
  -- The settings have to fit the fields.
  pub execute_config_lem :
      (file : IsRegisterFile dev) (cmd : Command) (p : ProtoCmd) (c : SecChannel) (s : dev.State)
      → is_config cmd ≡ true
      → let o = execute lib dev settings cmd p c s in
        ((b : ℕ) → b ≢ reg_address c reg_conf → file.word o.state b ≡ file.word s b)
        × ((i : ℕ)
            → i < 32
            → field_of cmd i ≡ false
            → test_bit (file.word o.state (reg_address c reg_conf)) i
              ≡ test_bit (file.word s (reg_address c reg_conf)) i)
        × (o.answer ≢ ack → o.state ≡ s)
  execute_config_lem file cmd p c s h = elim (execute-Configures cmd p c s h) [
    | inl (same_state, no_ack) ↦
        (λ b ne. rw same_state refl, λ i lt out. rw same_state refl, λ q. same_state)
    | inr (f, written, acked, keeps) ↦ (
      λ b ne. rw written (ground (arith, word-rewrite_conf dev file f c s b)),
      λ i lt out. rw written (
          ground (
            arith,
            word-rewrite_conf dev file f c s (reg_address c reg_conf),
            keeps (file.word s (reg_address c reg_conf)) i lt out,
          )),
      λ q. absurd (q acked),
    )
  ]

module _ (dev : DeviceNode) (file : IsRegisterFile dev) where
  open file use {
    pos as at, word, pos-lseek, word-lseek, value-read, pos-read, word-read, pos-write, word-write,
  }

  -- Stopping leaves the command register at 0, and all other registers as they were.
  word-stop_error_calculator :
      (c : SecChannel) (s : dev.State) (b : ℕ)
      → word (stop_error_calculator dev c s) b
        ≡ (if b == reg_address c reg_cmd then 0 else word s b)
  unfolding stop_error_calculator
  word-stop_error_calculator c s b =
      let a = reg_address c reg_cmd in
      let s1 = dev.lseek a s in
      ground (
        arith,
        word-write 0x0 b (dev.write 0x40 s1),
        pos-write 0x40 s1,
        word-write 0x40 b s1,
        pos-lseek a s,
        word-lseek a b s,
      )

  -- A channel that is given back is free afterwards; if it was occupied, its command register is 0,
  -- so that its next owner finds it stopped, and no other register has changed.
  pub free_lem :
      (c : SecChannel) (s : dev.State)
      → let (c', s') = free dev c s in
        (is_free c' ≡ true)
        × ((b : ℕ) → word s' b ≡ (if c.is_set && b == reg_address c reg_cmd then 0 else word s b))
  unfolding free is_free
  free_lem c s = elim (Bool-cases c.is_set) [
    | inl e ↦ (simp e, λ b. simp e (word-stop_error_calculator c s b))
    | inr e ↦ (ground arith, λ b. simp e)
  ]
