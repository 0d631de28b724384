-- ===== src/Settings.antt =====
-- The settings of the measuring channels, `cChannelSettings` of
-- zenux-service-common/lib/settings/sensesettings.h.
use zenux_services.Prelude.{
  ℕ, zero, suc, ◌*◌, ◌/◌, ◌%◌, ◌^◌, ◌<◌, bit_and, ◌≡◌, ◌≢◌, ◌==◌, refl, sym, ap, Bool, true, Option,
  none, some, List, [], ◌∷◌, arith, ltb, if◌then◌else◌, Bool-cases, inl, inr, ◌∙◌, ltb→lt,
}
use native.Mathlib.Nat.{pow-suc, mod-eq_of_lt}
use zenux_services.Prelude.Text.{Text, eq_text}
use zenux_services.Prelude.Int.{ℤ}
use zenux_services.Prelude.Bits.{
  test_bit, bit_and_step, bit_and-one, test_bit-zero, pass_below, pass_below→pass,
}

pub record ChannelSettings : Type 0 where
  pub name_mx : Text
  pub alias1 : Text
  pub ctrl_channel : ℕ
  pub plugged_bit : ℤ
  pub mux_channel_no : ℤ

unfoldable pub find_channel_setting_by_mx_name :
    Text → List ChannelSettings → Option ChannelSettings
find_channel_setting_by_mx_name name [] = none
find_channel_setting_by_mx_name name (s ∷ ss) =
    if eq_text s.name_mx name then some s else find_channel_setting_by_mx_name name ss

-- The settings of a channel, by the number of its controller.
abbrev pub setting_of : ℕ → List ChannelSettings → Option ChannelSettings
setting_of c [] = none
setting_of c (s ∷ ss) = if s.ctrl_channel == c then some s else setting_of c ss

-- No entry has the number `c`.
abbrev pub Absent : ℕ → List ChannelSettings → Type 0
Absent c [] = Unit
Absent c (s ∷ ss) = (s.ctrl_channel ≢ c) × Absent c ss

-- No two entries have the same number.
abbrev pub Distinct : List ChannelSettings → Type 0
Distinct [] = Unit
Distinct (s ∷ ss) = Absent s.ctrl_channel ss × Distinct ss

-- No two entries have the same name.
abbrev pub NameAbsent : Text → List ChannelSettings → Type 0
NameAbsent name [] = Unit
NameAbsent name (s ∷ ss) = (s.name_mx ≢ name) × NameAbsent name ss

abbrev pub DistinctNames : List ChannelSettings → Type 0
DistinctNames [] = Unit
DistinctNames (s ∷ ss) = NameAbsent s.name_mx ss × DistinctNames ss

-- `quint16 bmask = (1 << plugBitNo)`, which the callers compute for a bit that is not negative.
abbrev pub bmask : ℕ → ℕ
bmask plug_bit_no = 2 ^ plug_bit_no % 2 ^ 16

-- `mask & bmask`, as a truth value.
abbrev pub has_bit : ℕ → ℕ → Bool
has_bit mask plug_bit_no = ltb 0 (bit_and mask (bmask plug_bit_no))

bit_and-pow : (a i : ℕ) → bit_and a (2 ^ i) ≡ (if test_bit a i then 2 ^ i else 0)
unfolding test_bit
bit_and-pow a zero = ground (arith, bit_and-one a)
bit_and-pow a (suc i) =
    let half : 2 ^ suc i / 2 ≡ 2 ^ i = omega (arith, pow-suc 2 i) in
    let even : 2 ^ suc i % 2 ≡ 0 = omega (arith, pow-suc 2 i) in
    let step : bit_and a (2 ^ suc i) ≡ bit_and (a / 2) (2 ^ i) * 2 =
      rw (bit_and_step a (2 ^ suc i), half, even) (omega arith) in
    ground (arith, step, bit_and-pow (a / 2) i, pow-suc 2 i)

pow_pos : (i : ℕ) → 0 < 2 ^ i
pow_pos zero = omega arith
pow_pos (suc i) = omega (arith, pow-suc 2 i, pow_pos i)

-- Every power below the width fits.
fits : (i : ℕ) → ltb (2 ^ i) (2 ^ 16) ≡ true → 2 ^ i % 2 ^ 16 ≡ 2 ^ i
fits i h = mod-eq_of_lt (ltb→lt (2 ^ i) (2 ^ 16) h)

pow_16 : (i : ℕ) → i < 16 → 2 ^ i % 2 ^ 16 ≡ 2 ^ i
unfolding pass_below
pow_16 i h = fits i (pass_below→pass 16 (λ k. ltb (2 ^ k) (2 ^ 16)) i refl h)

-- The test of a mask is the bit of the plug.
pub has_bit_lem : (mask i : ℕ) → i < 16 → has_bit mask i ≡ test_bit mask i
has_bit_lem mask i h =
    rw (pow_16 i h, bit_and-pow mask i)
      (elim (Bool-cases (test_bit mask i)) [
        | inl e ↦ rw e (ground (arith, pow_pos i))
        | inr e ↦ rw e (ground arith)
      ])

NameAbsent-found :
    (name : Text) (c : ℕ) (s : ChannelSettings) (ss : List ChannelSettings)
    → NameAbsent name ss
    → setting_of c ss ≡ some s
    → s.name_mx ≢ name
NameAbsent-found name c s [] absent h = cc
NameAbsent-found name c s (t ∷ ss) absent h = elim (Bool-cases (t.ctrl_channel == c)) [
  | inl e ↦ let t≡s : t ≡ s = ground arith in λ same. absurd (absent.0 (rw t≡s same))
  | inr e ↦ NameAbsent-found name c s ss absent.1 (ground arith)
]

-- Two settings that are found and have one name are one.
pub eq_of_name :
    (c d : ℕ) (s t : ChannelSettings) (ss : List ChannelSettings)
    → DistinctNames ss
    → setting_of c ss ≡ some s
    → setting_of d ss ≡ some t
    → s.name_mx ≡ t.name_mx
    → s ≡ t
eq_of_name c d s t [] distinct hs ht same = cc
eq_of_name c d s t (u ∷ ss) distinct hs ht same = elim (Bool-cases (u.ctrl_channel == c)) [
  | inl e ↦ elim (Bool-cases (u.ctrl_channel == d)) [
    | inl f ↦ ground arith
    | inr f ↦
        let u≡s : u ≡ s = ground arith in
        absurd (NameAbsent-found u.name_mx d t ss distinct.0 (ground arith) (rw u≡s (sym same)))
  ]
  | inr e ↦ elim (Bool-cases (u.ctrl_channel == d)) [
    | inl f ↦
        let u≡t : u ≡ t = ground arith in
        absurd (NameAbsent-found u.name_mx c s ss distinct.0 (ground arith) (rw u≡t same))
    | inr f ↦ eq_of_name c d s t ss distinct.1 (ground arith) (ground arith) same
  ]
]

test_bit-pow : (i j : ℕ) → test_bit (2 ^ i) j ≡ (i == j)
unfolding test_bit
test_bit-pow zero zero = refl
test_bit-pow zero (suc j) = test_bit-zero j ∙ ground arith
test_bit-pow (suc i) zero = ground (arith, pow-suc 2 i)
test_bit-pow (suc i) (suc j) =
    let half : 2 ^ suc i / 2 ≡ 2 ^ i = omega (arith, pow-suc 2 i) in
    rw half (test_bit-pow i j ∙ ground arith)

pub test_bit-bmask : (i j : ℕ) → i < 16 → test_bit (bmask i) j ≡ (i == j)
test_bit-bmask i j h = ap (λ w. test_bit w j) (pow_16 i h) ∙ test_bit-pow i j

pub bmask-lt : (i : ℕ) → bmask i < 2 ^ 16
bmask-lt i = omega arith
