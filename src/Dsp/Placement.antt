-- ===== src/Dsp/Placement.antt =====
-- Where `calcVarAdressesAndSizes` (zdsp1d/lib/zdspclient.cpp) puts the variables of the segments, client by client.
use zenux_services.Prelude.{
  ℕ, ◌+◌, ◌^◌, ◌≤◌, ◌<◌, ◌≡◌, refl, List, [], ◌∷◌, ◌++◌, arith, if◌then◌else◌,
}
use zenux_services.Prelude.Text.{lookup}
use zenux_services.Dsp.Layout.{
  Segment, dsp_internal, module_local, module_global, module_aligned_memory, DspVar, Cursor,
  calc_global, calc_var, calc_vars, calc_var_adresses_and_sizes, calc_clients, initial_cursor,
  is_segment, get_mem_size, all_vars,
}

-- The words that a variable takes of a segment.
abbrev pub room : Segment → DspVar → ℕ
room s v = if is_segment v.segment s then v.size else 0

-- The variables of a segment stand one behind the other, from one address up to another; nothing is
-- said of the others.
abbrev pub Packed : Segment → ℕ → List DspVar → ℕ → Type 0
Packed s from [] to = from ≡ to
Packed s from (v ∷ vs) to =
    (v.absolute_address ≡ (if is_segment v.segment s then from else v.absolute_address))
    × Packed s (from + room s v) vs to

Packed-append :
    (s : Segment) (a b c : ℕ) (vs ws : List DspVar)
    → Packed s a vs b
    → Packed s b ws c
    → Packed s a (vs ++ ws) c
Packed-append s a b c [] ws p q = rw p q
Packed-append s a b c (v ∷ vs) ws p q = (p.0, Packed-append s (a + room s v) b c vs ws p.1 q)

-- The two segments that count up.
pub data Upward : Type 0 where
  local aligned : Upward

abbrev pub segment_of : Upward → Segment
segment_of local = module_local
segment_of aligned = module_aligned_memory

abbrev pub current : Upward → Cursor → ℕ
current local c = c.local
current aligned c = c.aligned

-- What one variable does to a segment, by the segment that it is in.
abbrev Step : Upward → Segment → ℕ → DspVar → Cursor → Type 0
Step u t base v c =
    let r = calc_var t base v c in
    let mine = is_segment t (segment_of u) in
    (r.0.segment ≡ v.segment)
    × (r.0.size ≡ v.size)
    × (r.0.absolute_address ≡ (if mine then current u c else r.0.absolute_address))
    × (current u r.1 ≡ current u c + (if mine then v.size else 0))

calc_global-Step :
    (u : Upward) (base : ℕ) (v : DspVar) (c : Cursor)
    → let r = calc_global base v c in
      (r.0.segment ≡ v.segment) × (r.0.size ≡ v.size) × (current u r.1 ≡ current u c)
unfolding calc_global
calc_global-Step local base v c = ground arith
calc_global-Step aligned base v c = ground arith

calc_var-Step :
    (u : Upward) (t : Segment) (base : ℕ) (v : DspVar) (c : Cursor)
    → current u c + (if is_segment t (segment_of u) then v.size else 0) < 2 ^ 32
    → Step u t base v c
unfolding calc_var
calc_var-Step local dsp_internal base v c h = (refl, refl, refl, omega arith)
calc_var-Step aligned dsp_internal base v c h = (refl, refl, refl, omega arith)
calc_var-Step local module_local base v c h = (refl, refl, refl, omega arith)
calc_var-Step aligned module_local base v c h = (refl, refl, refl, omega arith)
calc_var-Step local module_aligned_memory base v c h = (refl, refl, refl, omega arith)
calc_var-Step aligned module_aligned_memory base v c h = (refl, refl, refl, omega arith)
calc_var-Step local module_global base v c h =
    let (same, size, kept) = calc_global-Step local base v c in
    (same, size, refl, omega (arith, kept))
calc_var-Step aligned module_global base v c h =
    let (same, size, kept) = calc_global-Step aligned base v c in
    (same, size, refl, omega (arith, kept))

calc_vars-Packed :
    (u : Upward) (base : ℕ) (vs : List DspVar) (c : Cursor)
    → current u c + get_mem_size (segment_of u) vs < 2 ^ 32
    → let (vs', c') = calc_vars base vs c in
      Packed (segment_of u) (current u c) vs' (current u c')
      × (current u c' ≡ current u c + get_mem_size (segment_of u) vs)
unfolding calc_vars get_mem_size
calc_vars-Packed u base [] c h = (refl, omega arith)
calc_vars-Packed u base (v ∷ vs) c h =
    let s = segment_of u in
    let r = calc_var v.segment base v c in
    let (seg, size, at, next) = calc_var-Step u v.segment base v c (omega arith) in
    let (packed, total) = calc_vars-Packed u base vs r.1 (omega (arith, next)) in
    let mine : room s r.0 ≡ room s v = rw (seg, size) refl in
    let from : current u c + room s r.0 ≡ current u r.1 = omega (arith, mine, next) in
    ((rw seg at, rw from packed), omega (arith, total, next))

get_mem_size-append :
    (s : Segment) (vs ws : List DspVar)
    → get_mem_size s (vs ++ ws) ≡ get_mem_size s vs + get_mem_size s ws
unfolding get_mem_size
get_mem_size-append s [] ws = omega arith
get_mem_size-append s (v ∷ vs) ws = omega (arith, get_mem_size-append s vs ws)

-- As long as the local and the aligned segment stay below 2 ^ 32, the variables of all clients in
-- such a segment stand one behind the other, in the order of the clients and of their lists, from
-- the segment's start on, without a gap and without an overlap; together they take the sum of their
-- sizes.
pub calc_clients-Packed :
    (u : Upward) (clients : List (List DspVar)) (c : Cursor)
    → current u c + get_mem_size (segment_of u) (all_vars clients) < 2 ^ 32
    → let (clients', c') = calc_clients clients c in
      Packed (segment_of u) (current u c) (all_vars clients') (current u c')
      × (current u c' ≡ current u c + get_mem_size (segment_of u) (all_vars clients))
unfolding calc_clients calc_var_adresses_and_sizes
calc_clients-Packed u [] c h = (refl, unfold get_mem_size in omega arith)
calc_clients-Packed u (vs ∷ clients) c h =
    let s = segment_of u in
    let sum = get_mem_size-append s vs (all_vars clients) in
    let r = calc_vars c.local vs c in
    let (packed, total) = calc_vars-Packed u c.local vs c (omega (arith, sum)) in
    let (rest, whole) = calc_clients-Packed u clients r.1 (omega (arith, sum, total)) in
    (
      Packed-append s (current u c) (current u r.1) _ r.0 _ packed rest,
      omega (arith, sum, total, whole),
    )

-- If the list of the first client begins with a global variable of two words or more and an aligned one, the
-- global variable stands in the last word before the aligned segment, and the two overlap, whatever
-- other variables and clients follow. The aligned segment starts above 0 and has 32-bit addresses.
pub global-overlaps :
    (g a : DspVar) (vs : List DspVar) (clients : List (List DspVar)) (local_start aligned_start : ℕ)
    → g.segment ≡ module_global
    → a.segment ≡ module_aligned_memory
    → 2 ≤ g.size
    → 1 ≤ a.size
    → 1 ≤ aligned_start
    → aligned_start < 2 ^ 32
    → (x y : DspVar) × (vs' : List DspVar) × (clients' : List (List DspVar)) × ((calc_clients
          ((g ∷ a ∷ vs) ∷ clients)
          (initial_cursor local_start aligned_start)).0
        ≡ (x ∷ y ∷ vs') ∷ clients')
      × (x.name ≡ g.name)
      × (y.name ≡ a.name)
      × (x.absolute_address + 1 ≡ aligned_start)
      × (y.absolute_address ≡ aligned_start)
      × (x.absolute_address < y.absolute_address + y.size)
      × (y.absolute_address < x.absolute_address + x.size)
unfolding calc_clients calc_var_adresses_and_sizes calc_vars calc_var calc_global initial_cursor
    lookup
global-overlaps g a vs clients l start is_global is_aligned big some_room low high =
    rw (is_global, is_aligned)
      (_, _, _, _, refl, refl, refl, omega arith, omega arith, omega arith, omega arith)
