-- ===== src/Sec/Select.antt =====
-- The choice of channels by `scpiSetChannels` (secmainandchannelinterface.cpp).
use mathlib.Core.List.{append_assoc}
use zenux_services.Prelude.{
  ℕ, zero, suc, ◌+◌, ◌-◌, ◌≤◌, ◌≡◌, inl, inr, true, false, List, [], ◌∷◌, ◌++◌, arith, refl, sym,
  ap, ◌∙◌, if◌then◌else◌, ◌==◌, length, length-append, Bool-cases,
}
use zenux_services.Prelude.Text.{Text}
use zenux_services.Sec.Channel.{SecChannel, get_name, is_free, set_client}
use zenux_services.Sec.Allocation.{select, set_at, set_all, ec_units_occupied}

-- The number of free channels.
unfoldable pub free_count : List SecChannel → ℕ
free_count [] = 0
free_count (c ∷ cs) = (if is_free c then 1 else 0) + free_count cs

-- The first `n` free channels.
unfoldable pub first_free : ℕ → List SecChannel → List SecChannel
first_free zero cs = []
first_free (suc n) [] = []
first_free (suc n) (c ∷ cs) =
    let found = c ∷ first_free n cs in
    let skipped = first_free (suc n) cs in if is_free c then found else skipped

-- The channels after the first `n` free ones have gone to a client.
unfoldable pub occupy : Text → ℕ → List SecChannel → List SecChannel
occupy id zero cs = cs
occupy id (suc n) [] = []
occupy id (suc n) (c ∷ cs) =
    let found = record c { client_id = id; is_set = true } ∷ occupy id n cs in
    let skipped = c ∷ occupy id (suc n) cs in if is_free c then found else skipped

-- The names, each with a ";" behind it.
unfoldable pub listed : List SecChannel → Text
listed [] = []
listed (c ∷ cs) = get_name c ++ b';' ∷ listed cs

not_last : (n : ℕ) → (suc (suc n) == 1) ≡ false
not_last n = ground arith

pub left-select :
    (i n : ℕ) (cs : List SecChannel) → (select i (suc n) cs).left ≡ suc n - free_count cs
unfolding select free_count
left-select i n [] = omega arith
left-select i zero (c ∷ cs) = ground (arith, left-select (i + 1) zero cs)
left-select i (suc n) (c ∷ cs) =
    rw (sub_one n) (ground (arith, left-select (i + 1) n cs, left-select (i + 1) (suc n) cs))
  where
    sub_one : (m : ℕ) → suc (suc m) - 1 ≡ suc m
    sub_one m = omega arith

pub names-select :
    (i n : ℕ) (cs : List SecChannel) → (select i (suc n) cs).names ≡ listed (first_free (suc n) cs)
unfolding select first_free listed
names-select i n [] = refl
names-select i zero (c ∷ cs) = elim (Bool-cases (is_free c)) [
  | inl e ↦ rw e refl
  | inr e ↦ rw e (names-select (i + 1) zero cs)
]
names-select i (suc n) (c ∷ cs) = elim (Bool-cases (is_free c)) [
  | inl e ↦
      let one : suc (suc n) - 1 ≡ suc n = omega arith in
      rw (e, not_last n, one) (ap (λ t. get_name c ++ b';' ∷ t) (names-select (i + 1) n cs))
  | inr e ↦ rw e (names-select (i + 1) (suc n) cs)
]

set_at-append :
    (id : Text) (before : List SecChannel) (c : SecChannel) (cs : List SecChannel) (i : ℕ)
    → i ≡ length before
    → set_at id i (before ++ c ∷ cs) ≡ before ++ (set_client id c).0 ∷ cs
unfolding set_at
set_at-append id [] c cs i e = rw e refl
set_at-append id (b ∷ before) c cs i e =
    rw e (ap (λ t. b ∷ t) (set_at-append id before c cs (length before) refl))

shift :
    (before : List SecChannel) (c : SecChannel) (i : ℕ)
    → i ≡ length before
    → i + 1 ≡ length (before ++ c ∷ [])
shift before c i e = omega (arith, length-append before (c ∷ []))

regroup :
    (before : List SecChannel) (c : SecChannel) (cs : List SecChannel)
    → before ++ c ∷ cs ≡ (before ++ c ∷ []) ++ cs
regroup before c cs = sym (append_assoc before (c ∷ []) cs)

set_client-free :
    (id : Text) (c : SecChannel)
    → is_free c ≡ true
    → (set_client id c).0 ≡ record c { client_id = id; is_set = true }
unfolding set_client is_free
set_client-free id c e = ground arith

set_all-found :
    (id : Text) (n i : ℕ) (before : List SecChannel) (c : SecChannel) (cs : List SecChannel)
    (is : List ℕ)
    → i ≡ length before
    → is_free c ≡ true
    → set_all id is ((before ++ (record c { client_id = id; is_set = true }) ∷ []) ++ cs)
      ≡ (before ++ (record c { client_id = id; is_set = true }) ∷ []) ++ occupy id n cs
    → set_all id (i ∷ is) (before ++ c ∷ cs)
      ≡ before ++ (record c { client_id = id; is_set = true }) ∷ occupy id n cs
unfolding set_all
set_all-found id n i before c cs is e free rest =
    rw (set_at-append id before c cs i e, set_client-free id c free)
      (ap (set_all id is) (regroup before _ cs) ∙ rest ∙ sym (regroup before _ (occupy id n cs)))

-- The selected positions are those of the first free channels.
pub set_all-select :
    (id : Text) (i n : ℕ) (before cs : List SecChannel)
    → i ≡ length before
    → set_all id (select i (suc n) cs).positions (before ++ cs) ≡ before ++ occupy id (suc n) cs
unfolding select occupy
set_all-select id i n before [] e = unfold set_all in refl
set_all-select id i zero before (c ∷ cs) e = elim (Bool-cases (is_free c)) [
  | inl f ↦ rw f (set_all-found id 0 i before c cs [] e f (unfold set_all occupy in refl))
  | inr f ↦ rw f (
      ap (set_all id (select (i + 1) 1 cs).positions) (regroup before c cs)
      ∙ set_all-select id (i + 1) zero (before ++ c ∷ []) cs (shift before c i e)
      ∙ sym (regroup before c (occupy id 1 cs)))
]
set_all-select id i (suc n) before (c ∷ cs) e = elim (Bool-cases (is_free c)) [
  | inl f ↦
      let one : suc (suc n) - 1 ≡ suc n = omega arith in
      let c' : SecChannel = record c { client_id = id; is_set = true } in
      rw (f, not_last n, one)
        (set_all-found id (suc n) i before c cs (select (i + 1) (suc n) cs).positions e f
          (set_all-select id (i + 1) n (before ++ c' ∷ []) cs (shift before c' i e)))
  | inr f ↦ rw f (
      ap (set_all id (select (i + 1) (suc (suc n)) cs).positions) (regroup before c cs)
      ∙ set_all-select id (i + 1) (suc n) (before ++ c ∷ []) cs (shift before c i e)
      ∙ sym (regroup before c (occupy id (suc (suc n)) cs)))
]

pub occupied-occupy :
    (id : Text) (n : ℕ) (cs : List SecChannel)
    → n ≤ free_count cs
    → ec_units_occupied (occupy id n cs) ≡ ec_units_occupied cs + n
unfolding occupy free_count ec_units_occupied is_free
occupied-occupy id zero cs h = omega arith
occupied-occupy id (suc n) [] h = omega arith
occupied-occupy id (suc n) (c ∷ cs) h =
    ground (arith, occupied-occupy id n cs, occupied-occupy id (suc n) cs)
