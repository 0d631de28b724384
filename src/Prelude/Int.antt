-- ===== src/Prelude/Int.antt =====
-- Signed integers over the native numbers, and the conversion of a word to `int`.
use zenux_services.Prelude.{ℕ, suc, ◌+◌, ◌-◌, ◌^◌, ◌%◌, ltb, leb, if◌then◌else◌, Bool}

-- `negsuc n` is -(n + 1).
pub data ℤ : Type 0 where
  pos : ℕ → ℤ
  negsuc : ℕ → ℤ

abbrev pub pos_part : ℤ → ℕ
pos_part (pos n) = n
pos_part (negsuc n) = 0

abbrev pub neg_part : ℤ → ℕ
neg_part (pos n) = 0
neg_part (negsuc n) = suc n

-- The `int` that a 32-bit word stands for.
abbrev pub signed32 : ℕ → ℤ
signed32 w = if ltb w (2 ^ 31) then pos w else negsuc (2 ^ 32 - w - 1)

-- Assignment of an `unsigned long` to an `int`.
abbrev pub as_int : ℕ → ℤ
as_int n = signed32 (n % 2 ^ 32)

abbrev pub leb_ℤ : ℤ → ℤ → Bool
leb_ℤ a b = leb (pos_part a + neg_part b) (pos_part b + neg_part a)

abbrev pub ltb_ℤ : ℤ → ℤ → Bool
ltb_ℤ a b = ltb (pos_part a + neg_part b) (pos_part b + neg_part a)
