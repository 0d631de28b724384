-- ===== src/Dsp/Resolver.antt =====
-- The variables that a command line names: `DspVarResolver` (zdsp1d/lib/dspvarresolver.cpp) and
-- `DspVarOffsetCalc` (zdsp1d/lib/dspvaroffsetcalc.cpp). A `long` has 32 bits, as on the device.
use zenux_services.Prelude.{
  ℕ, ◌+◌, ◌%◌, ◌^◌, Bool, true, false, ◌==◌, ◌&&◌, Option, none, some, List, [], ◌∷◌, if◌then◌else◌,
  length, drop,
}
use zenux_services.Prelude.Int.{ℤ, pos, negsuc, signed32}
use zenux_services.Prelude.Text.{Text, lookup, insert, split, skip_empty, remove_char}
use zenux_services.Dsp.Layout.{DspVar}

-- What `QString` offers: `toUpper`, and `toInt` to the bases 10 and 16, `none` for `ok == false`.
pub record NumberLib : Type 0 where
  pub to_upper : Text → Text
  pub to_int_10 : Text → Option ℤ
  pub to_int_16 : Text → Option ℤ

unfoldable pub starts_with : Text → Text → Bool
starts_with [] s = true
starts_with (p ∷ ps) [] = false
starts_with (p ∷ ps) (c ∷ s) = p == c && starts_with ps s

module _ (lib : NumberLib) where
  -- The hexadecimal reading is tried if there is no decimal one.
  unfoldable pub dec_or_hex : Option ℤ → Text → Option ℤ
  dec_or_hex none s = lib.to_int_16 s
  dec_or_hex (some n) s = some n

  unfoldable pub not_negative : Option ℤ → Option ℕ
  not_negative none = none
  not_negative (some (pos n)) = some n
  not_negative (some (negsuc n)) = none

  unfoldable pub calc_offset : Text → Option ℕ
  calc_offset offset_str = not_negative (dec_or_hex (lib.to_int_10 offset_str) offset_str)

  -- The rest behind the name, which may be empty.
  unfoldable pub offset_behind : Text → Option ℕ
  offset_behind [] = some 0
  offset_behind (c ∷ s) = calc_offset (c ∷ s)

  unfoldable pub calc_var_offset : Text → Text → Option ℕ
  calc_var_offset var_name var_with_offset =
      let work = remove_char b' ' var_with_offset in
      let name = remove_char b' ' var_name in
      if starts_with name work then offset_behind (drop (length name) work) else none

  unfoldable pub first_summand : List Text → List (Text × DspVar) → Option DspVar
  first_summand [] var_hash = none
  first_summand (base ∷ rest) var_hash = lookup base var_hash

  unfoldable pub get_dsp_var : List (Text × DspVar) → Text → Option DspVar
  get_dsp_var var_hash name =
      first_summand (skip_empty (split b'+' (remove_char b' ' (lib.to_upper name)))) var_hash

  -- The sum of an `ulong` and an `int`, returned as a `long`; -1 is the mark of an error.
  unfoldable pub at_offset : ℕ → Option ℕ → ℤ
  at_offset base none = negsuc 0
  at_offset base (some offset) = signed32 ((base + offset) % 2 ^ 32)

  unfoldable pub get_var_offset : List (Text × DspVar) → Text → ℤ
  get_var_offset var_hash name = elim (get_dsp_var var_hash name) [
    | none ↦ elim (calc_offset name) [ none ↦ negsuc 0 | some offset ↦ pos offset ]
    | some v ↦ at_offset v.offset_to_module_base (calc_var_offset v.name name)
  ]

  unfoldable pub get_var_address : List (Text × DspVar) → Text → ℤ
  get_var_address var_hash name = elim (get_dsp_var var_hash name) [
    | none ↦ negsuc 0
    | some v ↦ at_offset v.absolute_address (calc_var_offset v.name name)
  ]

-- `actualizeVarHash`: the variables of the sections over those of the DSP itself.
unfoldable pub add_section : List DspVar → List (Text × DspVar) → List (Text × DspVar)
add_section [] var_hash = var_hash
add_section (v ∷ vs) var_hash = add_section vs (insert v.name v var_hash)

unfoldable pub actualize_var_hash : List (Text × DspVar) → List (List DspVar) → List (Text × DspVar)
actualize_var_hash var_hash [] = var_hash
actualize_var_hash var_hash (section ∷ sections) =
    actualize_var_hash (add_section section var_hash) sections
