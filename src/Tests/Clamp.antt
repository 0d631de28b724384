-- ===== src/Tests/Clamp.antt =====
-- Runs of the interface of the clamps.
use zenux_services.Prelude.{
  ℕ, ◌≡◌, ◌≢◌, refl, true, false, ◌&&◌, ◌||◌, List, [], ◌∷◌, arith, ltb, if◌then◌else◌,
}
use zenux_services.Prelude.Bits.{test_bit}
use zenux_services.Prelude.Int.{ℤ, pos, negsuc}
use zenux_services.Prelude.Maps.{is_some}
use zenux_services.Prelude.Text.{Text, codes, lookup, eq_text, eq_text_refl}
use zenux_services.Settings.{ChannelSettings, find_channel_setting_by_mx_name}
use zenux_services.Clamp.Interface.{ClampIo, actualize_clamp_status, is_empty_text}
use zenux_services.Clamp.Plugs.{Wired}
use zenux_services.Clamp.Lifecycle.{no_clamps, read_plugs, actualize_clamp_status_lem}

abbrev channel : ℕ → Text → ℤ → ℤ → ChannelSettings
channel number name plug mux = record {
  name_mx = name;
  alias1 = name;
  ctrl_channel = number;
  plugged_bit = plug;
  mux_channel_no = mux;
}

abbrev m3 : ChannelSettings
m3 = channel 1 (codes "m3") (pos 4) (pos 1)

abbrev two : List ChannelSettings
two = channel 0 (codes "m0") (negsuc 0) (negsuc 0) ∷ m3 ∷ []

-- The names by the numbers of the controllers.
abbrev name_of : ℕ → Text
name_of c = if ltb c 1 then codes "m0" else codes "m3"

abbrev clamps : ClampIo
clamps = record {
  is_memory_plugged = λ mux. true;
  new_clamp = λ s secondary. record {
    serial = codes "7";
    channel_name_secondary = codes "m0";
    memory = s.mux_channel_no;
  };
}

differ : (s t : Text) → eq_text s t ≡ false → s ≢ t
differ s t h e = absurd (ground (arith, eq_text_refl t))

two-Wired : Wired name_of two
unfolding eq_text is_empty_text
two-Wired = (
  refl,
  refl,
  λ k e. cc,
  (differ (codes "m3") (codes "m0") refl, (λ k e f. cc), tt),
  (refl, refl, λ k e. ground arith, tt, tt),
)

-- A clamp is plugged in and stays.
actualize_clamp_status_lem_example :
    let before = read_plugs name_of two ((clamps, 16) ∷ []) no_clamps in
    let after = actualize_clamp_status name_of clamps two 16 before in
    let had = lookup (codes "m3") before.clamp_hash in
    let has = lookup (codes "m3") after.clamp_hash in
    (is_some has ≡ (test_bit 16 4 && (is_some had || true)))
    × (test_bit after.clamp_status 4 ≡ is_some has)
    × (test_bit 16 4 ≡ true → is_some had ≡ true → has ≡ had)
unfolding find_channel_setting_by_mx_name eq_text
actualize_clamp_status_lem_example =
    actualize_clamp_status_lem name_of two m3 4 two-Wired refl refl (omega arith)
      ((clamps, 16) ∷ []) clamps 16
