-- ===== src/Dsp/Consistency.antt =====
-- What it means that the three tables of `ZDspClientContainer` agree.
pub mod Calls
use zenux_services.Prelude.{
  ℕ, zero, suc, ◌+◌, ◌%◌, ◌^◌, ◌<◌, ◌≡◌, ◌≢◌, ◌⊎◌, inl, inr, refl, sym, ap, ◌∙◌, subst, Bool, true,
  false, not, Option, none, some, List, [], ◌∷◌, ◌++◌, map, arith, ◌==◌, ==_iff, if◌then◌else◌,
  Bool-cases, Option-cases,
}
use zenux_services.Prelude.Text.{Text, eq_text, eq_text_refl, eq_text→eq, lookup, insert}
use zenux_services.Dsp.Clients.{
  Client, Container, empty_container, find_by_id, insert_id, remove_id, remove_proxy, remove_object,
  find_client, calc_dsp_interrupt_id, is_empty, reset_interrupt_id_on_no_clients, add_client,
  make_super_client, destroyed, del_client, clients_of_peer, del_each, del_clients, del_all_clients,
}

abbrev pub same_object : Client → Client → Bool
same_object k d = d.object == k.object

abbrev pub same_id : Client → Client → Bool
same_id k d = d.dsp_interrupt_id == k.dsp_interrupt_id

abbrev pub same_proxy : Client → Client → Bool
same_proxy k d = eq_text d.proxy_connection_id k.proxy_connection_id

-- No client of the list shares the key.
abbrev pub Apart : (Client → Client → Bool) → Client → List Client → Type 0
Apart same k [] = Unit
Apart same k (d ∷ ds) = (same k d ≡ false) × (same d k ≡ false) × Apart same k ds

abbrev pub Unique : (Client → Client → Bool) → List Client → Type 0
Unique same [] = Unit
Unique same (k ∷ ks) = Apart same k ks × Unique same ks

abbrev reject : (Client → Bool) → List Client → List Client
reject p [] = []
reject p (k ∷ ks) = if p k then reject p ks else k ∷ reject p ks

Apart-snoc :
    (same : Client → Client → Bool) (k d : Client) (ks : List Client)
    → same k d ≡ false
    → same d k ≡ false
    → Apart same k ks
    → Apart same k (ks ++ d ∷ [])
Apart-snoc same k d [] p q a = (p, q, tt)
Apart-snoc same k d (e ∷ ks) p q a = (a.0, a.1, Apart-snoc same k d ks p q a.2)

Unique-snoc :
    (same : Client → Client → Bool) (d : Client) (ks : List Client)
    → Apart same d ks
    → Unique same ks
    → Unique same (ks ++ d ∷ [])
Unique-snoc same d [] a u = (tt, tt)
Unique-snoc same d (k ∷ ks) a u =
    (Apart-snoc same k d ks a.1 a.0 u.0, Unique-snoc same d ks a.2 u.1)

reject-Apart :
    (same : Client → Client → Bool) (k : Client) (ks : List Client)
    → Apart same k ks
    → reject (same k) ks ≡ ks
reject-Apart same k [] a = refl
reject-Apart same k (d ∷ ks) a = rw a.0 (ap (λ t. d ∷ t) (reject-Apart same k ks a.2))

Apart-middle :
    (same : Client → Client → Bool) (p k : Client) (front back : List Client)
    → Apart same p (front ++ k ∷ back)
    → same k p ≡ false
Apart-middle same p k [] back a = a.1
Apart-middle same p k (d ∷ front) back a = Apart-middle same p k front back a.2

-- Removing by a unique key takes out that client and no other.
reject-Unique :
    (same : Client → Client → Bool) (k : Client) (front back : List Client)
    → same k k ≡ true
    → Unique same (front ++ k ∷ back)
    → reject (same k) (front ++ k ∷ back) ≡ front ++ back
reject-Unique same k [] back own u = rw own (reject-Apart same k back u.0)
reject-Unique same k (p ∷ front) back own u =
    rw (Apart-middle same p k front back u.0)
      (ap (λ t. p ∷ t) (reject-Unique same k front back own u.1))

Apart-drop :
    (same : Client → Client → Bool) (p k : Client) (front back : List Client)
    → Apart same p (front ++ k ∷ back)
    → Apart same p (front ++ back)
Apart-drop same p k [] back a = a.2
Apart-drop same p k (d ∷ front) back a = (a.0, a.1, Apart-drop same p k front back a.2)

Unique-drop :
    (same : Client → Client → Bool) (k : Client) (front back : List Client)
    → Unique same (front ++ k ∷ back)
    → Unique same (front ++ back)
Unique-drop same k [] back u = u.1
Unique-drop same k (p ∷ front) back u =
    (Apart-drop same p k front back u.0, Unique-drop same k front back u.1)

-- The tables list the clients under their keys.
abbrev pub by_id : Client → ℕ × Client
by_id k = (k.dsp_interrupt_id, k)

abbrev pub by_proxy : Client → Text × Client
by_proxy k = (k.proxy_connection_id, k)

-- Interrupt number 0 is never given out.
abbrev pub ValidIds : List Client → Type 0
ValidIds [] = Unit
ValidIds (k ∷ ks) = (k.dsp_interrupt_id ≢ 0) × (k.dsp_interrupt_id < 2 ^ 16) × ValidIds ks

pub record IsConsistent (c : Container) : Type 0 where
  pub ids : c.clients_by_dsp_interrupt_id ≡ map by_id c.clients_chronological
  pub proxies : c.clients_by_proxy_connection_id ≡ map by_proxy c.clients_chronological
  pub objects_unique : Unique same_object c.clients_chronological
  pub ids_unique : Unique same_id c.clients_chronological
  pub proxies_unique : Unique same_proxy c.clients_chronological
  pub ids_valid : ValidIds c.clients_chronological

remove_object-reject :
    (k : Client) (ks : List Client) → remove_object k.object ks ≡ reject (same_object k) ks
unfolding remove_object
remove_object-reject k [] = refl
remove_object-reject k (d ∷ ks) = ground (arith, remove_object-reject k ks)

remove_id-reject :
    (k : Client) (ks : List Client)
    → remove_id k.dsp_interrupt_id (map by_id ks) ≡ map by_id (reject (same_id k) ks)
unfolding remove_id
remove_id-reject k [] = refl
remove_id-reject k (d ∷ ks) = ground (arith, remove_id-reject k ks)

remove_proxy-reject :
    (k : Client) (ks : List Client)
    → remove_proxy k.proxy_connection_id (map by_proxy ks) ≡ map by_proxy (reject (same_proxy k) ks)
unfolding remove_proxy
remove_proxy-reject k [] = refl
remove_proxy-reject k (d ∷ ks) = ground (arith, remove_proxy-reject k ks)

-- A client that a table finds stands in the list.
lookup-place :
    (id : Text) (ks : List Client) (k : Client)
    → lookup id (map by_proxy ks) ≡ some k
    → (front back : List Client) × (ks ≡ front ++ k ∷ back) × (k.proxy_connection_id ≡ id)
unfolding lookup
lookup-place id [] k e = cc
lookup-place id (d ∷ ks) k e = elim (Bool-cases (eq_text d.proxy_connection_id id)) [
  | inl h ↦
      let same : d ≡ k = ground arith in
      ([], ks, ap (λ t. t ∷ ks) same, ap (λ t. t.proxy_connection_id) (sym same) ∙ eq_text→eq _ _ h)
  | inr h ↦
      let (front, back, at, key) = lookup-place id ks k (ground arith) in
      (d ∷ front, back, ap (λ t. d ∷ t) at, key)
]

find_by_id-none :
    (id : ℕ) (d : Client) (ks : List Client)
    → d.dsp_interrupt_id ≡ id
    → find_by_id id (map by_id ks) ≡ none
    → Apart same_id d ks
unfolding find_by_id
find_by_id-none id d [] own e = tt
find_by_id-none id d (k ∷ ks) own e = elim (Bool-cases (k.dsp_interrupt_id == id)) [
  | inl h ↦ absurd (ground arith)
  | inr h ↦ (ground arith, ground arith, find_by_id-none id d ks own (ground arith))
]

lookup-none :
    (id : Text) (d : Client) (ks : List Client)
    → d.proxy_connection_id ≡ id
    → lookup id (map by_proxy ks) ≡ none
    → Apart same_proxy d ks
unfolding lookup
lookup-none id d [] own e = tt
lookup-none id d (k ∷ ks) own e = elim (Bool-cases (eq_text k.proxy_connection_id id)) [
  | inl h ↦ absurd (ground arith)
  | inr h ↦ (
    rw own h,
    rw own (eq_text_swap k.proxy_connection_id id h),
    lookup-none id d ks own (ground arith),
  )
]
  where
    eq_text_swap : (s t : Text) → eq_text s t ≡ false → eq_text t s ≡ false
    eq_text_swap s t h = elim (Bool-cases (eq_text t s)) [
      | inr e ↦ e
      | inl e ↦ let same : t ≡ s = eq_text→eq t s e in absurd (ground (arith, eq_text_refl s))
    ]

insert_id-new :
    (id : ℕ) (d : Client) (ks : List Client)
    → find_by_id id (map by_id ks) ≡ none
    → insert_id id d (map by_id ks) ≡ map by_id ks ++ (id, d) ∷ []
unfolding find_by_id insert_id
insert_id-new id d [] e = refl
insert_id-new id d (k ∷ ks) e = ground (arith, insert_id-new id d ks)

insert-new :
    (id : Text) (d : Client) (ks : List Client)
    → lookup id (map by_proxy ks) ≡ none
    → insert id d (map by_proxy ks) ≡ map by_proxy ks ++ (id, d) ∷ []
unfolding lookup insert
insert-new id d [] e = refl
insert-new id d (k ∷ ks) e = ground (arith, insert-new id d ks)

map-snoc {ℓ} :
    {B : Type ℓ} (f : Client → B) (ks : List Client) (d : Client)
    → map f (ks ++ d ∷ []) ≡ map f ks ++ f d ∷ []
map-snoc f [] d = refl
map-snoc f (k ∷ ks) d = ap (λ t. f k ∷ t) (map-snoc f ks d)

ValidIds-snoc :
    (d : Client) (ks : List Client)
    → d.dsp_interrupt_id ≢ 0
    → d.dsp_interrupt_id < 2 ^ 16
    → ValidIds ks
    → ValidIds (ks ++ d ∷ [])
ValidIds-snoc d [] p q v = (p, q, tt)
ValidIds-snoc d (k ∷ ks) p q v = (v.0, v.1, ValidIds-snoc d ks p q v.2)

ValidIds-drop :
    (k : Client) (front back : List Client)
    → ValidIds (front ++ k ∷ back)
    → ValidIds (front ++ back)
ValidIds-drop k [] back v = v.2
ValidIds-drop k (d ∷ front) back v = (v.0, v.1, ValidIds-drop k front back v.2)

pub calc_dsp_interrupt_id_lem :
    (current : ℕ) → (calc_dsp_interrupt_id current ≢ 0) × (calc_dsp_interrupt_id current < 2 ^ 16)
unfolding calc_dsp_interrupt_id
calc_dsp_interrupt_id_lem current = ground arith
