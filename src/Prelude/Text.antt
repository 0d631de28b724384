-- ===== src/Prelude/Text.antt =====
-- `QString` and `QByteArray` as lists of code points or bytes: the few operations of Qt that the code
-- calls on them.
use Prim.Native.Char.{code}
use Prim.Native.String.{String}
use mathlib.Core.List.{append_assoc, append-nil}
use zenux_services.Prelude.{
  ℕ, zero, suc, ◌+◌, ◌-◌, ◌*◌, ◌/◌, ◌%◌, ◌≤◌, ◌<◌, ◌≡◌, ◌≢◌, refl, sym, ap, ◌∙◌, Bool, true, false,
  ◌&&◌, ◌||◌, Option, none, some, List, [], ◌∷◌, ◌++◌, map, arith, ◌==◌, ==_iff, ltb, ltb→lt,
  if◌then◌else◌, Bool-cases, inl, inr,
}

abbrev pub Text : Type 0
Text = List ℕ

abbrev pub codes : String → Text
codes String.[] = []
codes (String.◌∷◌ c s) = code c ∷ codes s

unfoldable pub eq_text : Text → Text → Bool
eq_text [] [] = true
eq_text [] (y ∷ ys) = false
eq_text (x ∷ xs) [] = false
eq_text (x ∷ xs) (y ∷ ys) = x == y && eq_text xs ys

pub eq_text→eq : (s t : Text) → eq_text s t ≡ true → s ≡ t
unfolding eq_text
eq_text→eq [] [] h = refl
eq_text→eq [] (y ∷ ys) h = cc
eq_text→eq (x ∷ xs) [] h = cc
eq_text→eq (x ∷ xs) (y ∷ ys) h = ground (arith, eq_text→eq xs ys)

pub eq_text_refl : (s : Text) → eq_text s s ≡ true
unfolding eq_text
eq_text_refl [] = refl
eq_text_refl (x ∷ xs) = ground (arith, eq_text_refl xs)

pub ne→eq_text : (s t : Text) → s ≢ t → eq_text s t ≡ false
ne→eq_text s t h = elim (Bool-cases (eq_text s t)) [
  | inl e ↦ absurd (h (eq_text→eq s t e))
  | inr e ↦ e
]

-- `QString("%1").arg(n)`: the decimal digits, with fuel for their number.
unfoldable pub decimal_fuel : ℕ → ℕ → Text
decimal_fuel zero n = []
decimal_fuel (suc f) n =
    let front = decimal_fuel f (n / 10) in
    if ltb n 10 then (48 + n) ∷ [] else front ++ (48 + n % 10) ∷ []

unfoldable pub decimal : ℕ → Text
unfolding decimal_fuel
decimal n = decimal_fuel (suc n) n

-- The number that a text of digits stands for.
unfoldable pub value_from : ℕ → Text → ℕ
value_from acc [] = acc
value_from acc (c ∷ cs) = value_from (acc * 10 + (c - 48)) cs

value_from-snoc :
    (acc : ℕ) (s : Text) (c : ℕ) → value_from acc (s ++ c ∷ []) ≡ value_from acc s * 10 + (c - 48)
unfolding value_from
value_from-snoc acc [] c = refl
value_from-snoc acc (x ∷ s) c = value_from-snoc (acc * 10 + (x - 48)) s c

value_from-decimal_fuel : (f n : ℕ) → n < f → value_from 0 (decimal_fuel f n) ≡ n
unfolding decimal_fuel value_from
value_from-decimal_fuel zero n h = absurd (omega arith)
value_from-decimal_fuel (suc f) n h = elim (Bool-cases (ltb n 10)) [
  | inl e ↦ rw e (omega arith)
  | inr e ↦ rw e (
      ground (
        arith,
        value_from-snoc 0 (decimal_fuel f (n / 10)) (48 + n % 10),
        value_from-decimal_fuel f (n / 10),
      ))
]

-- Two numbers that print alike are equal.
pub value_from-decimal : (n : ℕ) → value_from 0 (decimal n) ≡ n
unfolding decimal
value_from-decimal n = value_from-decimal_fuel (suc n) n (omega arith)

pub decimal-injective : (m n : ℕ) → decimal m ≡ decimal n → m ≡ n
unfolding decimal
decimal-injective m n e =
    sym (value_from-decimal_fuel (suc m) m (omega arith))
    ∙ ap (value_from 0) e
    ∙ value_from-decimal_fuel (suc n) n (omega arith)

-- No character of the text is `sep`.
abbrev pub Free : ℕ → Text → Type 0
Free sep [] = Unit
Free sep (c ∷ cs) = (c ≢ sep) × Free sep cs

pub Free-append : (sep : ℕ) (s t : Text) → Free sep s → Free sep t → Free sep (s ++ t)
Free-append sep [] t p q = q
Free-append sep (c ∷ s) t p q = (p.0, Free-append sep s t p.1 q)

Free-decimal_fuel : (sep f n : ℕ) → 58 ≤ sep → Free sep (decimal_fuel f n)
unfolding decimal_fuel
Free-decimal_fuel sep zero n h = tt
Free-decimal_fuel sep (suc f) n h = elim (Bool-cases (ltb n 10)) [
  | inl e ↦ rw e (omega (arith, ltb→lt n 10 e), tt)
  | inr e ↦ rw e (
      Free-append sep (decimal_fuel f (n / 10)) _ (Free-decimal_fuel sep f (n / 10) h)
        (omega arith, tt))
]

pub Free-decimal : (sep n : ℕ) → 58 ≤ sep → Free sep (decimal n)
unfolding decimal
Free-decimal sep n h = Free-decimal_fuel sep (suc n) n h

Free-decimal_fuel_above : (sep f n : ℕ) → sep < 48 → Free sep (decimal_fuel f n)
unfolding decimal_fuel
Free-decimal_fuel_above sep zero n h = tt
Free-decimal_fuel_above sep (suc f) n h = elim (Bool-cases (ltb n 10)) [
  | inl e ↦ rw e (omega arith, tt)
  | inr e ↦ rw e (
      Free-append sep (decimal_fuel f (n / 10)) _ (Free-decimal_fuel_above sep f (n / 10) h)
        (omega arith, tt))
]

pub Free-decimal_above : (sep n : ℕ) → sep < 48 → Free sep (decimal n)
unfolding decimal
Free-decimal_above sep n h = Free-decimal_fuel_above sep (suc n) n h

pub decimal_not_nil : (n : ℕ) → decimal n ≢ []
unfolding decimal decimal_fuel
decimal_not_nil n = elim (Bool-cases (ltb n 10)) [
  | inl e ↦ rw e (λ h. cc)
  | inr e ↦ rw e (snoc-ne (decimal_fuel n (n / 10)) (48 + n % 10))
]
  where
    snoc-ne : (s : Text) (c : ℕ) → (s ++ c ∷ []) ≢ []
    snoc-ne [] c h = cc
    snoc-ne (d ∷ s) c h = cc

-- `split(sep)` with the empty parts kept; `part` is what has been read of the current one, and the
-- result is never empty.
unfoldable pub split_from : ℕ → Text → Text → List Text
split_from sep part [] = part ∷ []
split_from sep part (c ∷ cs) =
    let next = part ∷ split_from sep [] cs in
    let same = split_from sep (part ++ c ∷ []) cs in if c == sep then next else same

unfoldable pub split : ℕ → Text → List Text
unfolding split_from
split sep s = split_from sep [] s

split_from-append :
    (sep : ℕ) (part s rest : Text)
    → Free sep s
    → split_from sep part (s ++ rest) ≡ split_from sep (part ++ s) rest
unfolding split_from
split_from-append sep part [] rest h = rw append-nil
split_from-append sep part (c ∷ s) rest h = elim (Bool-cases (c == sep)) [
  | inl e ↦ absurd (h.0 ((==_iff c sep).0 e))
  | inr e ↦ rw e (
      split_from-append sep (part ++ c ∷ []) s rest h.1
      ∙ ap (λ p. split_from sep p rest) (append_assoc part (c ∷ []) s))
]

-- The first part of a text that starts with a part and a separator.
pub split-cons :
    (sep : ℕ) (s rest : Text) → Free sep s → split sep (s ++ sep ∷ rest) ≡ s ∷ split sep rest
unfolding split split_from
split-cons sep s rest h = split_from-append sep [] s (sep ∷ rest) h ∙ rw ((==_iff sep sep).1 refl)

-- `contains` and `remove` for a pattern of the two characters `a` and `b`.
unfoldable pub contains_pair : ℕ → ℕ → Text → Bool
contains_pair a b [] = false
contains_pair a b (x ∷ []) = false
contains_pair a b (x ∷ y ∷ s) = (x == a && y == b) || contains_pair a b (y ∷ s)

unfoldable pub remove_pair : ℕ → ℕ → Text → Text
remove_pair a b [] = []
remove_pair a b (x ∷ []) = x ∷ []
remove_pair a b (x ∷ y ∷ s) =
    let rest = remove_pair a b s in
    let more = x ∷ remove_pair a b (y ∷ s) in if x == a && y == b then rest else more

-- `remove(c)` for one character.
unfoldable pub remove_char : ℕ → Text → Text
remove_char c [] = []
remove_char c (x ∷ s) = if x == c then remove_char c s else x ∷ remove_char c s

-- A hash from texts, as an association list; the first entry of a key counts.
module _ {ℓ} {V : Type ℓ} where
  unfoldable pub lookup : Text → List (Text × V) → Option V
  lookup k [] = none
  lookup k ((j, v) ∷ m) = if eq_text j k then some v else lookup k m

  unfoldable pub insert : Text → V → List (Text × V) → List (Text × V)
  insert k v [] = (k, v) ∷ []
  insert k v ((j, w) ∷ m) = if eq_text j k then (j, v) ∷ m else (j, w) ∷ insert k v m

  pub lookup-insert_self :
      (k : Text) (v : V) (m : List (Text × V)) → lookup k (insert k v m) ≡ some v
  unfolding lookup insert
  lookup-insert_self k v [] = rw (eq_text_refl k)
  lookup-insert_self k v ((j, w) ∷ m) = ground (arith, lookup-insert_self k v m)

  pub lookup-insert_ne :
      (k j : Text) (v : V) (m : List (Text × V))
      → eq_text k j ≡ false
      → lookup j (insert k v m) ≡ lookup j m
  unfolding lookup insert
  lookup-insert_ne k j v [] h = rw h
  lookup-insert_ne k j v ((i, w) ∷ m) h = elim (Bool-cases (eq_text i k)) [
    | inl e ↦ rw (e, eq_text→eq i k e) (rw (h, lookup) (ground arith))
    | inr e ↦ rw e (ground (arith, lookup-insert_ne k j v m h))
  ]

pub split-Free : (sep : ℕ) (s : Text) → Free sep s → split sep s ≡ s ∷ []
unfolding split split_from
split-Free sep s h = ap (split_from sep []) (sym (append-nil s)) ∙ split_from-append sep [] s [] h

-- `join` of a list of texts, with a separator of one character.
unfoldable pub join : ℕ → List Text → Text
join sep [] = []
join sep (s ∷ []) = s
join sep (s ∷ t ∷ ts) = s ++ sep ∷ join sep (t ∷ ts)

-- `split(sep, Qt::SkipEmptyParts)`.
unfoldable pub skip_empty : List Text → List Text
skip_empty [] = []
skip_empty ([] ∷ ss) = skip_empty ss
skip_empty ((c ∷ s) ∷ ss) = (c ∷ s) ∷ skip_empty ss

-- Each part is free of the separator and not empty.
abbrev pub AreParts : ℕ → List Text → Type 0
AreParts sep [] = Unit
AreParts sep (s ∷ ss) = (s ≢ []) × Free sep s × AreParts sep ss

skip_empty-cons : (s : Text) (ss : List Text) → s ≢ [] → skip_empty (s ∷ ss) ≡ s ∷ skip_empty ss
unfolding skip_empty
skip_empty-cons [] ss h = absurd (h refl)
skip_empty-cons (c ∷ s) ss h = refl

pub split-join :
    (sep : ℕ) (ss : List Text) → AreParts sep ss → skip_empty (split sep (join sep ss)) ≡ ss
unfolding join
split-join sep [] h = unfold skip_empty split split_from in refl
split-join sep (s ∷ []) h =
    ap skip_empty (split-Free sep s h.1) ∙ skip_empty-cons s [] h.0 ∙ unfold skip_empty in refl
split-join sep (s ∷ t ∷ ts) h =
    ap skip_empty (split-cons sep s (join sep (t ∷ ts)) h.1)
    ∙ skip_empty-cons s (split sep (join sep (t ∷ ts))) h.0
    ∙ ap (λ r. s ∷ r) (split-join sep (t ∷ ts) h.2)

pub AreParts-decimal : (sep : ℕ) (ns : List ℕ) → sep < 48 → AreParts sep (map decimal ns)
AreParts-decimal sep [] h = tt
AreParts-decimal sep (n ∷ ns) h =
    (decimal_not_nil n, Free-decimal_above sep n h, AreParts-decimal sep ns h)

-- Parts that each end with the separator.
unfoldable pub terminated : ℕ → List Text → Text
terminated sep [] = []
terminated sep (s ∷ ss) = s ++ sep ∷ terminated sep ss

pub split-terminated :
    (sep : ℕ) (ss : List Text) → AreParts sep ss → skip_empty (split sep (terminated sep ss)) ≡ ss
unfolding terminated
split-terminated sep [] h = unfold skip_empty split split_from in refl
split-terminated sep (s ∷ ss) h =
    ap skip_empty (split-cons sep s (terminated sep ss) h.1)
    ∙ skip_empty-cons s (split sep (terminated sep ss)) h.0
    ∙ ap (λ r. s ∷ r) (split-terminated sep ss h.2)

module _ {ℓ} {V : Type ℓ} where
  -- `take(k)` and `remove(k)`.
  unfoldable pub remove : Text → List (Text × V) → List (Text × V)
  remove k [] = []
  remove k ((j, w) ∷ m) = let rest = remove k m in if eq_text j k then rest else (j, w) ∷ rest

  pub lookup-remove_self : (k : Text) (m : List (Text × V)) → lookup k (remove k m) ≡ none
  unfolding lookup remove
  lookup-remove_self k [] = refl
  lookup-remove_self k ((j, w) ∷ m) = ground (arith, lookup-remove_self k m)

  pub lookup-remove_ne :
      (k j : Text) (m : List (Text × V)) → eq_text k j ≡ false → lookup j (remove k m) ≡ lookup j m
  unfolding lookup remove
  lookup-remove_ne k j [] h = refl
  lookup-remove_ne k j ((i, w) ∷ m) h = elim (Bool-cases (eq_text i k)) [
    | inl e ↦ rw (e, eq_text→eq i k e) (rw (h, lookup) (lookup-remove_ne k j m h))
    | inr e ↦ rw e (ground (arith, lookup-remove_ne k j m h))
  ]

  -- `keys()`.
  unfoldable pub keys : List (Text × V) → List Text
  keys [] = []
  keys ((j, w) ∷ m) = j ∷ keys m

  unfoldable pub values : List (Text × V) → List V
  values [] = []
  values ((j, w) ∷ m) = w ∷ values m

-- `QSet<QString>`.
unfoldable pub contains_text : Text → List Text → Bool
contains_text k [] = false
contains_text k (j ∷ s) = eq_text j k || contains_text k s

unfoldable pub insert_text : Text → List Text → List Text
unfolding contains_text
insert_text k s = if contains_text k s then s else k ∷ s

unfoldable pub remove_text : Text → List Text → List Text
remove_text k [] = []
remove_text k (j ∷ s) = let rest = remove_text k s in if eq_text j k then rest else j ∷ rest
