-- ===== src/Dsp/Layout.antt =====
-- Where the variables of the clients stand in the memory of the DSP:
-- `ZdspClient::calcVarAdressesAndSizes` and `getMemSize` of zdsp1d/lib/zdspclient.cpp, and the loop over the clients
-- in `compileCmdListsForAllClientsToCompileLists` of zdsp1d/lib/zdspserver.cpp. An `ulong` has 32
-- bits, as the words of the DSP have.
use zenux_services.Prelude.{
  ℕ, ◌+◌, ◌-◌, ◌%◌, ◌^◌, Bool, true, false, none, some, List, [], ◌∷◌, ◌++◌, if◌then◌else◌,
}
use zenux_services.Prelude.Text.{Text, lookup, insert}

-- `DspSegmentType`
pub data Segment : Type 0 where
  dsp_internal module_local module_global module_aligned_memory : Segment

pub data DspDataType : Type 0 where
  dsp_data_type_int dsp_data_type_float dsp_data_type_unknown : DspDataType

-- `DspVarInServer`, whose constructor from text is not modelled. `size` is a `ushort` there, so what it stands for
-- is below 2 ^ 16.
pub record DspVar : Type 0 where
  pub name : Text
  pub size : ℕ
  pub data_type : DspDataType
  pub segment : Segment
  pub absolute_address : ℕ
  pub offset_to_module_base : ℕ

-- The three current addresses, and the static members for the global variables.
pub record Cursor : Type 0 where
  pub local : ℕ
  pub aligned : ℕ
  pub global : ℕ
  pub global_variables : List (Text × DspVar)
  pub global_var_size : ℕ

abbrev pub add32 : ℕ → ℕ → ℕ
add32 a b = (a + b) % 2 ^ 32

abbrev pub sub32 : ℕ → ℕ → ℕ
sub32 a b = (a + 2 ^ 32 - b) % 2 ^ 32

abbrev pub place : DspVar → ℕ → ℕ → DspVar
place v address base = record v {
  absolute_address = address;
  offset_to_module_base = sub32 address base;
}

-- A global variable: the pointer of these counts down. A name that is known shares the address.
unfoldable pub calc_global : ℕ → DspVar → Cursor → DspVar × Cursor
calc_global base v c =
    let v' = place v c.global base in
    let created = record c {
      global = sub32 c.global v.size;
      global_var_size = add32 c.global_var_size v.size;
      global_variables = insert v.name v' c.global_variables;
    } in
    elim (lookup v.name c.global_variables) [
      | none ↦ (v', created)
      | some g ↦ (place v g.absolute_address base, c)
    ]

-- One variable, by its segment, of a client whose memory starts at `base`.
unfoldable pub calc_var : Segment → ℕ → DspVar → Cursor → DspVar × Cursor
calc_var dsp_internal base v c = (v, c)
calc_var module_local base v c = (place v c.local base, record c { local = add32 c.local v.size })
calc_var module_aligned_memory base v c =
    (place v c.aligned base, record c { aligned = add32 c.aligned v.size })
calc_var module_global base v c = calc_global base v c

unfoldable pub calc_vars : ℕ → List DspVar → Cursor → List DspVar × Cursor
calc_vars base [] c = ([], c)
calc_vars base (v ∷ vs) c =
    let (v', c') = calc_var v.segment base v c in
    let (vs', c'') = calc_vars base vs c' in (v' ∷ vs', c'')

unfoldable pub calc_var_adresses_and_sizes : List DspVar → Cursor → List DspVar × Cursor
calc_var_adresses_and_sizes vs c = calc_vars c.local vs c

-- The clients in turn, each with its variables.
unfoldable pub calc_clients : List (List DspVar) → Cursor → List (List DspVar) × Cursor
calc_clients [] c = ([], c)
calc_clients (vs ∷ clients) c =
    let (vs', c') = calc_var_adresses_and_sizes vs c in
    let (clients', c'') = calc_clients clients c' in (vs' ∷ clients', c'')

-- The layout starts with no global variables, and their pointer below the aligned segment.
unfoldable pub initial_cursor : ℕ → ℕ → Cursor
initial_cursor local_start aligned_start = record {
  local = local_start;
  aligned = aligned_start;
  global = sub32 aligned_start 1;
  global_variables = [];
  global_var_size = 0;
}

abbrev pub is_segment : Segment → Segment → Bool
is_segment dsp_internal dsp_internal = true
is_segment module_local module_local = true
is_segment module_global module_global = true
is_segment module_aligned_memory module_aligned_memory = true
is_segment _ _ = false

unfoldable pub get_mem_size : Segment → List DspVar → ℕ
get_mem_size s [] = 0
get_mem_size s (v ∷ vs) = (if is_segment v.segment s then v.size else 0) + get_mem_size s vs

abbrev pub all_vars : List (List DspVar) → List DspVar
all_vars [] = []
all_vars (vs ∷ clients) = vs ++ all_vars clients
