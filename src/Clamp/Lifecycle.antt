-- ===== src/Clamp/Lifecycle.antt =====
-- Sequences of reads of the plugs by `cClampInterface` (clampinterface.cpp), from the start on.
use Prim.Native.Nat.{bit_xor}
use zenux_services.Prelude.{
  ℕ, ◌<◌, ◌≡◌, ap, sym, ◌∙◌, subst, true, not, ◌&&◌, ◌||◌, some, List, [], ◌∷◌, length,
}
use zenux_services.Prelude.Bits.{test_bit, test_bit-xor, same, test_bit-zero}
use zenux_services.Prelude.Int.{pos}
use zenux_services.Prelude.Maps.{is_some}
use zenux_services.Prelude.Text.{Text, lookup}
use zenux_services.Settings.{ChannelSettings, find_channel_setting_by_mx_name}
use zenux_services.Clamp.Interface.{ClampInterface, ClampIo, actualize_clamp_status}
use zenux_services.Clamp.Views.{ClampView, clamp_view, replug}
use zenux_services.Clamp.Plugs.{Wired, IsSound, replug_lem, view-actualize_channels}

abbrev pub no_clamps : ClampInterface
no_clamps = record {
  clamp_status = 0;
  clamp_hash = [];
  clamp_secondary_set = [];
  clamp_channel_list = [];
}

module _ (channel_of : ℕ → Text) (ss : List ChannelSettings) where
  -- Each read has the devices as it finds them and the bits of the plugs.
  unfoldable pub read_plugs : List (ClampIo × ℕ) → ClampInterface → ClampInterface
  read_plugs [] h = h
  read_plugs ((io, mask) ∷ reads) h =
      read_plugs reads (actualize_clamp_status channel_of io ss mask h)

  module _ (s : ChannelSettings) (n : ℕ) (wired : Wired channel_of ss)
      (found : find_channel_setting_by_mx_name s.name_mx ss ≡ some s) (plug : s.plugged_bit ≡ pos n)
      (fits : n < 16) where
    view-actualize_clamp_status :
        (io : ClampIo) (mask : ℕ) (h : ClampInterface)
        → clamp_view (actualize_clamp_status channel_of io ss mask h) n s.name_mx
          ≡ replug
              (not (same (test_bit mask n) (test_bit h.clamp_status n)))
              io
              (length ss)
              s
              (clamp_view h n s.name_mx)
    unfolding actualize_clamp_status
    view-actualize_clamp_status io mask h =
        view-actualize_channels channel_of io (length ss) (bit_xor mask h.clamp_status) ss s n h
          wired found plug fits
        ∙ ap (λ b. replug b io (length ss) s (clamp_view h n s.name_mx))
            (test_bit-xor mask h.clamp_status n)

    read_plugs-IsSound :
        (reads : List (ClampIo × ℕ)) (h : ClampInterface)
        → IsSound (clamp_view h n s.name_mx)
        → IsSound (clamp_view (read_plugs reads h) n s.name_mx)
    unfolding read_plugs
    read_plugs-IsSound [] h sound = sound
    read_plugs-IsSound ((io, mask) ∷ reads) h sound =
        read_plugs-IsSound reads (actualize_clamp_status channel_of io ss mask h) (
          subst IsSound (sym (view-actualize_clamp_status io mask h)) (
            unfold clamp_view in
            (replug_lem (test_bit mask n) io (length ss) s (clamp_view h n s.name_mx) sound).1))

    no_clamps-IsSound : IsSound (clamp_view no_clamps n s.name_mx)
    unfolding clamp_view lookup is_some
    no_clamps-IsSound = test_bit-zero n

    -- After any reads of the plugs and another one, a channel has a clamp exactly if its bit is set and it
    -- had one before or an EEPROM answers on it; the bit of the status word says so; and a clamp that was
    -- there and is still plugged has been kept. The channels have to have names and plug bits of their
    -- own, and the sense interface has to give the same names.
    pub actualize_clamp_status_lem :
        (reads : List (ClampIo × ℕ)) (io : ClampIo) (mask : ℕ)
        → let before = read_plugs reads no_clamps in
          let after = actualize_clamp_status channel_of io ss mask before in
          let had = lookup s.name_mx before.clamp_hash in
          let has = lookup s.name_mx after.clamp_hash in
          (is_some has
            ≡ (test_bit mask n && (is_some had || io.is_memory_plugged s.mux_channel_no)))
          × (test_bit after.clamp_status n ≡ is_some has)
          × (test_bit mask n ≡ true → is_some had ≡ true → has ≡ had)
    unfolding clamp_view
    actualize_clamp_status_lem reads io mask =
        let before = read_plugs reads no_clamps in
        let v = clamp_view before n s.name_mx in
        let step = view-actualize_clamp_status io mask before in
        let sound = read_plugs-IsSound reads no_clamps no_clamps-IsSound in
        let (exactly, kept_sound, kept) = replug_lem (test_bit mask n) io (length ss) s v sound in
        (
          ap (λ w. is_some (ClampView.there w)) step ∙ exactly,
          subst IsSound (sym step) kept_sound,
          λ on was. ap ClampView.there (step ∙ kept on was),
        )
