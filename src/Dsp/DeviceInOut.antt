-- ===== src/Dsp/DeviceInOut.antt =====
-- Reading and writing variables of the DSP: `DspVarDeviceNodeInOut`
-- (zdsp1d/lib/dspvardevicenodeinout.cpp). The byte arrays hold words of 32 bits, and are lists of words here; a
-- float stands for its bits.
pub mod Written
pub mod Served
pub mod ReadBack
pub mod Kept
use zenux_services.Prelude.{
  ℕ, zero, suc, ◌+◌, ◌%◌, ◌^◌, Bool, true, false, Option, none, some, List, [], ◌∷◌, ◌++◌,
  if◌then◌else◌, ◌==◌,
}
use zenux_services.Prelude.Int.{ℤ, pos, negsuc, signed32}
use zenux_services.Prelude.Text.{Text, codes, decimal, split, skip_empty}
use zenux_services.Scpi.{scpi_answer, errexec}
use zenux_services.Dsp.Layout.{
  DspVar, DspDataType, dsp_data_type_int, dsp_data_type_float, dsp_data_type_unknown,
}
use zenux_services.Dsp.Resolver.{NumberLib, get_dsp_var, get_var_address}
use zenux_services.Dsp.Compiler.{word_of_int}

-- `QString::toLong`, `toULong` and `toFloat`, none for `ok == false`, and how a stream prints a float with 8
-- digits.
pub record ValueLib : Type 0 where
  pub numbers : NumberLib
  pub to_long : Text → Option ℤ
  pub to_ulong : Text → Option ℕ
  pub to_float : Text → Option ℕ
  pub show_float : ℕ → Text

-- `AbstractDspDeviceNode`; `read` gives as many words as are asked for, or fails.
pub record DeviceNode : Type 1 where
  pub State : Type 0
  pub lseek : ℕ → State → State × Bool
  pub read : ℕ → State → State × Option (List ℕ)
  pub write : ℕ → List ℕ → State → State × Bool

module _ (lib : ValueLib) where
  unfoldable pub ulong_value : Option ℤ → Text → Option ℕ
  ulong_value none s = elim (lib.to_ulong s) [ none ↦ none | some n ↦ some (n % 2 ^ 32) ]
  ulong_value (some n) s = some (word_of_int 32 n)

  unfoldable pub try_stream_integer_value : Text → Option ℕ
  try_stream_integer_value s = ulong_value (lib.to_long s) s

  unfoldable pub or_float : Option ℕ → Text → Option ℕ
  or_float none s = lib.to_float s
  or_float (some w) s = some w

  unfoldable pub stream_value : DspDataType → Text → Option ℕ
  stream_value dsp_data_type_unknown s = or_float (try_stream_integer_value s) s
  stream_value dsp_data_type_int s = try_stream_integer_value s
  stream_value dsp_data_type_float s = lib.to_float s

  -- A value that cannot be read ends the loop with false.
  unfoldable pub stream_values : DspDataType → List Text → Option (List ℕ)
  stream_values type [] = some []
  stream_values type (v ∷ vs) =
      let rest = stream_values type vs in
      elim (stream_value type v) [
        | none ↦ none
        | some w ↦ elim rest [ none ↦ none | some ws ↦ some (w ∷ ws) ]
      ]

  unfoldable pub type_of : Option DspVar → DspDataType
  type_of none = dsp_data_type_unknown
  type_of (some v) = v.data_type

  unfoldable pub get_var_type : List (Text × DspVar) → Text → DspDataType
  get_var_type var_hash name = type_of (get_dsp_var lib.numbers var_hash name)

  module _ (node : DeviceNode) (var_hash : List (Text × DspVar)) where
    open node use {State}

    -- -1 is no address.
    unfoldable pub write_at : ℤ → Option (List ℕ) → State → State × Bool
    write_at adr none s = (s, false)
    write_at (negsuc zero) (some ws) s = (s, false)
    write_at (negsuc (suc n)) (some ws) s = node.write (word_of_int 32 (negsuc (suc n))) ws s
    write_at (pos n) (some ws) s = node.write (word_of_int 32 (pos n)) ws s

    -- An entry is a name and one value at least.
    unfoldable pub write_entry : List Text → State → State × Bool
    write_entry (name ∷ v ∷ vs) s =
        write_at (get_var_address lib.numbers var_hash name)
          (stream_values (get_var_type var_hash name) (v ∷ vs)) s
    write_entry other s = (s, false)

    unfoldable pub write_entries : List Text → State → State × Bool
    write_entries [] s = (s, true)
    write_entries (e ∷ es) s =
        let (s', written) = write_entry (skip_empty (split b',' e)) s in
        let rest = write_entries es s' in if written then rest else (s', false)

    unfoldable pub write_dsp_vars : Text → State → State × Bool
    write_dsp_vars vars s = write_entries (skip_empty (split b';' vars)) s

    unfoldable pub read_var_from_dsp : DspVar → ℕ → State → State × Option (List ℕ)
    read_var_from_dsp v mem_size s =
        let (s', found) = node.lseek v.absolute_address s in
        let after = node.read mem_size s' in if found then after else (s', none)

    unfoldable pub paired : DspVar → State × Option (List ℕ) → State × Option (DspVar × List ℕ)
    paired v (s, none) = (s, none)
    paired v (s, some ws) = (s, some (v, ws))

    -- The count has to be positive.
    unfoldable pub read_counted :
        Option DspVar → Option ℤ → State → State × Option (DspVar × List ℕ)
    read_counted (some v) (some (pos (suc n))) s = paired v (read_var_from_dsp v (suc n) s)
    read_counted v count s = (s, none)

    unfoldable pub read_name_and_count : List Text → State → State × Option (DspVar × List ℕ)
    read_name_and_count (name ∷ count ∷ rest) s =
        read_counted (get_dsp_var lib.numbers var_hash name) (lib.numbers.to_int_10 count) s
    read_name_and_count other s = (s, none)

    unfoldable pub read_one_dsp_var : Text → State → State × Option (DspVar × List ℕ)
    read_one_dsp_var name_comma_len s =
        read_name_and_count (skip_empty (split b',' name_comma_len)) s

    unfoldable pub first_word : State × Option (DspVar × List ℕ) → State × Option ℤ
    first_word (s, some (v, w ∷ ws)) = (s, some (signed32 w))
    first_word (s, some (v, [])) = (s, none)
    first_word (s, none) = (s, none)

    unfoldable pub read_one_dsp_var_int : Text → State → State × Option ℤ
    read_one_dsp_var_int name s = first_word (read_one_dsp_var (name ++ codes ",1") s)

    unfoldable pub show_value : DspDataType → ℕ → Text
    show_value dsp_data_type_int w = decimal w
    show_value dsp_data_type_float w = lib.show_float w
    show_value dsp_data_type_unknown w = lib.show_float w

    unfoldable pub show_values : DspDataType → List ℕ → Text
    show_values type [] = []
    show_values type (w ∷ []) = show_value type w ++ b';' ∷ []
    show_values type (w ∷ v ∷ ws) = show_value type w ++ b',' ∷ show_values type (v ∷ ws)

    -- The first variable that cannot be read makes the whole answer an error.
    unfoldable pub with_entry :
        State × Option (DspVar × List ℕ) → State × Option Text → State × Option Text
    with_entry (s, none) rest = (s, none)
    with_entry (s, some (v, ws)) (s', none) = (s', none)
    with_entry (s, some (v, ws)) (s', some t) =
        (s', some (v.name ++ b':' ∷ (show_values v.data_type ws ++ t)))

    unfoldable pub read_entries : List Text → State → State × Option Text
    read_entries [] s = (s, some [])
    read_entries (e ∷ es) s =
        let one = read_one_dsp_var e s in with_entry one (read_entries es one.0)

    unfoldable pub answer_or_errexec : Option Text → Text
    answer_or_errexec none = scpi_answer errexec
    answer_or_errexec (some t) = t

    unfoldable pub read_dsp_var_list : Text → State → State × Text
    read_dsp_var_list vars s =
        let (s', answer) = read_entries (skip_empty (split b';' vars)) s in
        (s', answer_or_errexec answer)
