-- ===== src/Client/VarGroup.antt =====
-- The variables of a client of the DSP: `DspVarClientInterface` and `DspVarGroupClientInterface`
-- (zenux-service-interfaces/lib/dsp). The data are words of 32 bits, which are unsigned numbers or the bits of
-- floats.
pub mod Stored
use zenux_services.Prelude.{
  ℕ, zero, suc, ◌+◌, ◌-◌, ◌%◌, ◌^◌, Bool, true, false, ◌&&◌, Option, none, some, List, [], ◌∷◌,
  ◌++◌, if◌then◌else◌, ◌==◌, ltb, leb, length,
}
use zenux_services.Prelude.Text.{
  Text, codes, decimal, eq_text, split, skip_empty, terminated, remove_char,
}
use zenux_services.Dsp.Layout.{
  DspDataType, dsp_data_type_int, dsp_data_type_float, dsp_data_type_unknown, Segment, dsp_internal,
  module_local, module_global, module_aligned_memory,
}

-- `toUpper`, `toUInt` and `toFloat` (0 where they fail), and how a stream prints a float.
pub record GroupLib : Type 0 where
  pub to_upper : Text → Text
  pub to_uint : Text → ℕ
  pub to_float : Text → ℕ
  pub show_float : ℕ → Text

-- `size()` is the length of the data.
pub record ClientVar : Type 0 where
  pub name : Text
  pub segment : Segment
  pub data_type : DspDataType
  pub values : List ℕ

pub record VarGroup : Type 0 where
  pub group_name : Text
  pub vars : List ClientVar

unfoldable pub zeros : ℕ → List ℕ
zeros zero = []
zeros (suc n) = 0 ∷ zeros n

unfoldable pub add_dsp_var : Text → ℕ → DspDataType → Segment → VarGroup → VarGroup
add_dsp_var name size type segment g = record g {
  vars =
      g.vars
      ++ record { name = name; segment = segment; data_type = type; values = zeros size } ∷ [];
}

unfoldable pub is_int : DspDataType → Bool
is_int dsp_data_type_int = true
is_int dsp_data_type_float = false
is_int dsp_data_type_unknown = false

-- The numbers of the two enumerations.
unfoldable pub type_number : DspDataType → ℕ
type_number dsp_data_type_int = 0
type_number dsp_data_type_float = 1
type_number dsp_data_type_unknown = 2

unfoldable pub segment_number : Segment → ℕ
segment_number dsp_internal = 0
segment_number module_local = 1
segment_number module_global = 2
segment_number module_aligned_memory = 3

unfoldable pub sum_sizes : ℕ → List ClientVar → ℕ
sum_sizes number [] = 0
sum_sizes number (v ∷ vs) =
    let rest = sum_sizes number vs in
    if segment_number v.segment == number then (length v.values + rest) % 2 ^ 32 else rest

unfoldable pub get_user_mem_size : VarGroup → ℕ
get_user_mem_size g = sum_sizes (segment_number module_local) g.vars

unfoldable pub get_user_mem_size_aligned : VarGroup → ℕ
get_user_mem_size_aligned g = sum_sizes (segment_number module_aligned_memory) g.vars

unfoldable pub long_entries : Text → List ClientVar → List Text
long_entries group [] = []
long_entries group (v ∷ vs) =
    (group
      ++ codes ","
      ++ v.name
      ++ codes ","
      ++ decimal (length v.values)
      ++ codes ","
      ++ decimal (type_number v.data_type)
      ++ codes ","
      ++ decimal (segment_number v.segment))
    ∷ long_entries group vs

unfoldable pub var_list_long : VarGroup → Text
var_list_long g = terminated b';' (long_entries g.group_name g.vars)

-- A limit of 0 is none; `requested` is the sum of the sizes before.
unfoldable pub short_entries : ℕ → ℕ → List ClientVar → List Text
short_entries limit requested [] = []
short_entries limit requested (v ∷ vs) =
    let size = length v.values in
    let left = limit - requested in
    let cut = if ltb 0 limit then if ltb left size then left else size else size in
    let rest = (v.name ++ b',' ∷ decimal cut) ∷ short_entries limit (requested + cut) vs in
    if ltb 0 limit && leb limit requested then [] else rest

unfoldable pub var_list_short : ℕ → VarGroup → Text
var_list_short limit g = terminated b';' (short_entries limit 0 g.vars)

module _ (lib : GroupLib) where
  unfoldable pub show_word : DspDataType → ℕ → Text
  show_word type w = if is_int type then decimal w else lib.show_float w

  unfoldable pub comma_values : DspDataType → List ℕ → Text
  comma_values type [] = []
  comma_values type (w ∷ ws) = b',' ∷ show_word type w ++ comma_values type ws

  unfoldable pub write_parts : List ClientVar → List Text
  write_parts [] = []
  write_parts (v ∷ vs) = (v.name ++ comma_values v.data_type v.values) ∷ write_parts vs

  unfoldable pub write_command : VarGroup → Text
  write_command g = terminated b';' (write_parts g.vars)

  unfoldable pub read_word : DspDataType → Text → ℕ
  read_word type s =
      let value = remove_char b';' s in
      if is_int type then lib.to_uint value else lib.to_float value

  -- The values are written over the data from the first on; more of them than the variable has run over the
  -- end of its memory, here `none`.
  unfoldable pub overwrite : DspDataType → List Text → List ℕ → Option (List ℕ)
  overwrite type [] old = some old
  overwrite type (s ∷ ss) [] = none
  overwrite type (s ∷ ss) (w ∷ ws) = elim (overwrite type ss ws) [
    | none ↦ none
    | some new ↦ some (read_word type s ∷ new)
  ]

  unfoldable pub section : ℕ → List Text → Text
  section n [] = []
  section zero (s ∷ ss) = s
  section (suc n) (s ∷ ss) = section n ss

  -- `findVar` and the change of the variable that it finds.
  unfoldable pub set_var : Text → List Text → List ClientVar → Option (List ClientVar)
  set_var name texts [] = some []
  set_var name texts (v ∷ vs) =
      let rest = set_var name texts vs in
      if eq_text (lib.to_upper v.name) name
      then elim (overwrite v.data_type texts v.values) [
        | none ↦ none
        | some new ↦ some (record v { values = new } ∷ vs)
      ]
      else elim rest [ none ↦ none | some new ↦ some (v ∷ new) ]

  unfoldable pub set_entries : List Text → List ClientVar → Option (List ClientVar)
  set_entries [] vs = some vs
  set_entries (e ∷ es) vs =
      let parts = split b':' e in
      elim (set_var (section 0 parts) (split b',' (section 1 parts)) vs) [
        | none ↦ none
        | some new ↦ set_entries es new
      ]

  unfoldable pub set_var_data : Text → VarGroup → Option VarGroup
  set_var_data data_list g = elim (set_entries (skip_empty (split b';' data_list)) g.vars) [
    | none ↦ none
    | some vs ↦ some (record g { vars = vs })
  ]

-- All data of the group, in order.
unfoldable pub all_values : List ClientVar → List ℕ
all_values [] = []
all_values (v ∷ vs) = v.values ++ all_values vs

unfoldable pub get_data : VarGroup → List ℕ
get_data g = all_values g.vars

-- `setValue` with an index out of range only logs.
unfoldable pub set_value : ℕ → ℕ → List ℕ → List ℕ
set_value idx w [] = []
set_value zero w (v ∷ vs) = w ∷ vs
set_value (suc i) w (v ∷ vs) = v ∷ set_value i w vs

unfoldable pub fill : List ℕ → List ℕ → List ℕ × List ℕ
fill [] ds = ([], ds)
fill (w ∷ ws) [] = (w ∷ ws, [])
fill (w ∷ ws) (d ∷ ds) = let (new, rest) = fill ws ds in (d ∷ new, rest)

unfoldable pub fill_vars : List ClientVar → List ℕ → List ClientVar
fill_vars [] ds = []
fill_vars (v ∷ vs) ds =
    let (new, rest) = fill v.values ds in record v { values = new } ∷ fill_vars vs rest

-- The data fill the variables in order; they are not empty, and what they do not reach stays.
unfoldable pub set_data : List ℕ → VarGroup → VarGroup
set_data ds g = record g { vars = fill_vars g.vars ds }
