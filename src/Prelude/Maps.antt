-- ===== src/Prelude/Maps.antt =====
-- `QMap<int, V>`, in the order of its keys, and `QSet<int>`.
use zenux_services.Prelude.{
  ℕ, ◌≡◌, refl, Bool, true, false, not, ◌&&◌, ◌||◌, Option, none, some, List, [], ◌∷◌, arith, ◌==◌,
  ltb, if◌then◌else◌, Bool-cases, inl, inr, ==_iff, subst,
}

module _ {ℓ} {V : Type ℓ} where
  unfoldable pub find_key : ℕ → List (ℕ × V) → Option V
  find_key k [] = none
  find_key k ((j, v) ∷ m) = if j == k then some v else find_key k m

  unfoldable pub put_key : ℕ → V → List (ℕ × V) → List (ℕ × V)
  put_key k v [] = (k, v) ∷ []
  put_key k v ((j, w) ∷ m) =
      let before = (k, v) ∷ (j, w) ∷ m in
      let after = (j, w) ∷ put_key k v m in
      if j == k then (k, v) ∷ m else if ltb k j then before else after

  unfoldable pub remove_key : ℕ → List (ℕ × V) → List (ℕ × V)
  remove_key k [] = []
  remove_key k ((j, w) ∷ m) = let rest = remove_key k m in if j == k then rest else (j, w) ∷ rest

  pub find_key-put_key :
      (k i : ℕ) (v : V) (m : List (ℕ × V))
      → find_key i (put_key k v m) ≡ (if k == i then some v else find_key i m)
  unfolding find_key put_key
  find_key-put_key k i v [] = refl
  find_key-put_key k i v ((j, w) ∷ m) = ground (arith, find_key-put_key k i v m)

  pub find_key-remove_key :
      (k i : ℕ) (m : List (ℕ × V))
      → find_key i (remove_key k m) ≡ (if k == i then none else find_key i m)
  unfolding find_key remove_key
  find_key-remove_key k i [] = ground arith
  find_key-remove_key k i ((j, w) ∷ m) = ground (arith, find_key-remove_key k i m)

unfoldable pub is_some {ℓ} : {V : Type ℓ} → Option V → Bool
is_some none = false
is_some (some v) = true

unfoldable pub contains_int : ℕ → List ℕ → Bool
contains_int k [] = false
contains_int k (j ∷ s) = j == k || contains_int k s

unfoldable pub insert_int : ℕ → List ℕ → List ℕ
unfolding contains_int
insert_int k s = if contains_int k s then s else k ∷ s

unfoldable pub remove_int : ℕ → List ℕ → List ℕ
remove_int k [] = []
remove_int k (j ∷ s) = let rest = remove_int k s in if j == k then rest else j ∷ rest

pub contains_int-insert_int :
    (k i : ℕ) (s : List ℕ) → contains_int i (insert_int k s) ≡ (k == i || contains_int i s)
unfolding insert_int contains_int
contains_int-insert_int k i s = ground (arith, contains_int-eq k i s)
  where
    contains_int-eq : (k i : ℕ) (s : List ℕ) → k ≡ i → contains_int k s ≡ contains_int i s
    contains_int-eq k i s e = rw e refl

pub contains_int-remove_int :
    (k i : ℕ) (s : List ℕ) → contains_int i (remove_int k s) ≡ (not (k == i) && contains_int i s)
unfolding remove_int contains_int
contains_int-remove_int k i [] = ground arith
contains_int-remove_int k i (j ∷ s) = ground (arith, contains_int-remove_int k i s)

-- Every entry of a map satisfies `P`.
module _ {ℓ κ} {V : Type ℓ} where
  abbrev pub Entries : (ℕ → V → Type κ) → List (ℕ × V) → Type κ
  Entries P [] = Unit
  Entries P ((j, v) ∷ m) = P j v × Entries P m

  pub Entries-put_key :
      (P : ℕ → V → Type κ) (k : ℕ) (v : V) (m : List (ℕ × V))
      → P k v
      → Entries P m
      → Entries P (put_key k v m)
  unfolding put_key
  Entries-put_key P k v [] p q = (p, tt)
  Entries-put_key P k v ((j, w) ∷ m) p q = elim (Bool-cases (j == k)) [
    | inl e ↦ rw e (p, q.1)
    | inr e ↦ rw e (elim (Bool-cases (ltb k j)) [
      | inl f ↦ rw f (p, q)
      | inr f ↦ rw f (q.0, Entries-put_key P k v m p q.1)
    ])
  ]

  pub Entries-remove_key :
      (P : ℕ → V → Type κ) (k : ℕ) (m : List (ℕ × V)) → Entries P m → Entries P (remove_key k m)
  unfolding remove_key
  Entries-remove_key P k [] q = tt
  Entries-remove_key P k ((j, w) ∷ m) q = elim (Bool-cases (j == k)) [
    | inl e ↦ rw e (Entries-remove_key P k m q.1)
    | inr e ↦ rw e (q.0, Entries-remove_key P k m q.1)
  ]

  pub Entries-find_key :
      (P : ℕ → V → Type κ) (k : ℕ) (v : V) (m : List (ℕ × V))
      → Entries P m
      → find_key k m ≡ some v
      → P k v
  unfolding find_key
  Entries-find_key P k v [] q h = cc
  Entries-find_key P k v ((j, w) ∷ m) q h = elim (Bool-cases (j == k)) [
    | inl e ↦
        let j≡k : j ≡ k = (==_iff j k).0 e in
        let w≡v : w ≡ v = ground arith in subst (λ i. P i v) j≡k (subst (P j) w≡v q.0)
    | inr e ↦ Entries-find_key P k v m q.1 (ground arith)
  ]
