-- ===== src/Dsp/Globals.antt =====
-- The global variables in the layout of `calcVarAdressesAndSizes` (zdsp1d/lib/zdspclient.cpp).
use zenux_services.Prelude.{
  ℕ, ◌≡◌, refl, sym, ap, ◌∙◌, Option, none, some, List, [], ◌∷◌, ◌++◌, Bool-cases, inl, inr,
}
use zenux_services.Prelude.Text.{
  Text, eq_text, eq_text→eq, lookup, insert, lookup-insert_self, lookup-insert_ne,
}
use zenux_services.Dsp.Layout.{
  Segment, dsp_internal, module_local, module_global, module_aligned_memory, DspVar, Cursor, place,
  add32, sub32, calc_global, calc_var, calc_vars, calc_var_adresses_and_sizes, calc_clients,
  all_vars,
}

-- Entries stay.
abbrev pub Extends : (old new : List (Text × DspVar)) → Type 0
Extends old new = (n : Text) (g : DspVar) → lookup n old ≡ some g → lookup n new ≡ some g

insert-Extends :
    (k : Text) (v : DspVar) (m : List (Text × DspVar))
    → lookup k m ≡ none
    → Extends m (insert k v m)
insert-Extends k v m fresh n g known = elim (Bool-cases (eq_text k n)) [
  | inl e ↦
      let same : k ≡ n = eq_text→eq k n e in
      absurd (clash (sym known ∙ ap (λ t. lookup t m) (sym same) ∙ fresh))
  | inr e ↦ lookup-insert_ne k n v m e ∙ known
]
  where
    clash : some g ≡ none → ⊥
    clash h = cc

-- The variable has the address that its name stands for, if it is a global one.
abbrev pub HasEntry : Segment → Text → ℕ → List (Text × DspVar) → Type 0
HasEntry module_global name address m =
    (g : DspVar) × (lookup name m ≡ some g) × (g.absolute_address ≡ address)
HasEntry _ name address m = Unit

HasEntry-Extends :
    (s : Segment) (name : Text) (address : ℕ) (old new : List (Text × DspVar))
    → Extends old new
    → HasEntry s name address old
    → HasEntry s name address new
HasEntry-Extends dsp_internal name address old new e h = tt
HasEntry-Extends module_local name address old new e h = tt
HasEntry-Extends module_aligned_memory name address old new e h = tt
HasEntry-Extends module_global name address old new e (g, known, at) = (g, e name g known, at)

abbrev pub Shared : List (Text × DspVar) → List DspVar → Type 0
Shared m [] = Unit
Shared m (v ∷ vs) = HasEntry v.segment v.name v.absolute_address m × Shared m vs

Shared-append :
    (m : List (Text × DspVar)) (vs ws : List DspVar)
    → Shared m vs
    → Shared m ws
    → Shared m (vs ++ ws)
Shared-append m [] ws p q = q
Shared-append m (v ∷ vs) ws p q = (p.0, Shared-append m vs ws p.1 q)

Shared-Extends :
    (old new : List (Text × DspVar)) (vs : List DspVar)
    → Extends old new
    → Shared old vs
    → Shared new vs
Shared-Extends old new [] e h = tt
Shared-Extends old new (v ∷ vs) e h = (
  HasEntry-Extends v.segment v.name v.absolute_address old new e h.0,
  Shared-Extends old new vs e h.1,
)

-- The result for one variable: it keeps its segment, has its entry, and leaves the entries that are
-- there.
abbrev pub Placed : Segment → DspVar → Cursor → DspVar × Cursor → Type 0
Placed t v c r =
    (r.0.segment ≡ v.segment)
    × HasEntry t r.0.name r.0.absolute_address r.1.global_variables
    × Extends c.global_variables r.1.global_variables

calc_global-Placed :
    (base : ℕ) (v : DspVar) (c : Cursor) → Placed module_global v c (calc_global base v c)
unfolding calc_global
calc_global-Placed base v c = step (lookup v.name c.global_variables) refl
  where
    step :
        (o : Option DspVar)
        → lookup v.name c.global_variables ≡ o
        → Placed module_global v c (elim o as (λ x. DspVar × Cursor) [
          | none ↦ (
            place v c.global base,
            record c {
              global = sub32 c.global v.size;
              global_var_size = add32 c.global_var_size v.size;
              global_variables = insert v.name (place v c.global base) c.global_variables;
            },
          )
          | some g ↦ (place v g.absolute_address base, c)
        ])
    step (some g) e = (refl, (g, e, refl), λ n h k. k)
    step none e = (
      refl,
      (
        place v c.global base,
        lookup-insert_self v.name (place v c.global base) c.global_variables,
        refl,
      ),
      insert-Extends v.name (place v c.global base) c.global_variables e,
    )

calc_var-Placed :
    (t : Segment) (base : ℕ) (v : DspVar) (c : Cursor) → Placed t v c (calc_var t base v c)
unfolding calc_var
calc_var-Placed dsp_internal base v c = (refl, tt, λ n g e. e)
calc_var-Placed module_local base v c = (refl, tt, λ n g e. e)
calc_var-Placed module_aligned_memory base v c = (refl, tt, λ n g e. e)
calc_var-Placed module_global base v c = calc_global-Placed base v c

calc_vars-Shared :
    (base : ℕ) (vs : List DspVar) (c : Cursor)
    → let (vs', c') = calc_vars base vs c in
      Shared c'.global_variables vs' × Extends c.global_variables c'.global_variables
unfolding calc_vars
calc_vars-Shared base [] c = (tt, λ n g e. e)
calc_vars-Shared base (v ∷ vs) c =
    let r = calc_var v.segment base v c in
    let (seg, entry, grown) = calc_var-Placed v.segment base v c in
    let (shared, more) = calc_vars-Shared base vs r.1 in
    (
      (
        HasEntry-Extends r.0.segment r.0.name r.0.absolute_address r.1.global_variables _ more
            (rw seg entry),
        shared,
      ),
      λ n g e. more n g (grown n g e),
    )

-- After the layout of all clients, each global variable of each client has the address that the
-- table of global variables holds for its name, so that variables of one name share an address; and
-- the entries that were there before have not changed.
pub calc_clients-Shared :
    (clients : List (List DspVar)) (c : Cursor)
    → let (clients', c') = calc_clients clients c in
      Shared c'.global_variables (all_vars clients')
      × Extends c.global_variables c'.global_variables
unfolding calc_clients calc_var_adresses_and_sizes
calc_clients-Shared [] c = (tt, λ n g e. e)
calc_clients-Shared (vs ∷ clients) c =
    let r = calc_vars c.local vs c in
    let (mine, grown) = calc_vars-Shared c.local vs c in
    let (rest, more) = calc_clients-Shared clients r.1 in
    (
      Shared-append _ r.0 _ (Shared-Extends r.1.global_variables _ r.0 more mine) rest,
      λ n g e. more n g (grown n g e),
    )
