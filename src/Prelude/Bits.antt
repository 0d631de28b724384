-- ===== src/Prelude/Bits.antt =====
-- Single bits of a number, and `&` and `|` bit by bit.
use Prim.Native.Nat.{
  min, max, digits, bitwise, bit_and-bitwise, bit_or-bitwise, bit_xor, bit_xor-bitwise, differ,
}
use native.Mathlib.Nat.{le_refl, pow-suc, mul_assoc}
use zenux_services.Prelude.{
  ℕ, zero, suc, ◌+◌, ◌-◌, ◌*◌, ◌/◌, ◌%◌, ◌^◌, ◌≤◌, ◌<◌, bit_and, bit_or, ◌≡◌, refl, sym, ap, ◌∙◌,
  Bool, true, false, not, ◌&&◌, ◌||◌, arith, ◌==◌,
}

-- Bit `i` of `a`.
unfoldable pub test_bit : ℕ → ℕ → Bool
test_bit a zero = a % 2 == 1
test_bit a (suc i) = test_bit (a / 2) i

-- The same truth value.
abbrev pub same : Bool → Bool → Bool
same true b = b
same false b = not b

pub same→eq : (a b : Bool) → same a b ≡ true → a ≡ b
same→eq a b h = ground arith

-- A native operation on bits is a recursion on fuel. Any fuel that covers the first number gives the
-- same result, and the lowest bit splits off.
module _ (rest : ℕ → ℕ) (join : ℕ → ℕ → ℕ) where
  enough : (x y k l : ℕ) → x ≤ k → x ≤ l → digits rest join k x y ≡ digits rest join l x y
  enough zero y zero zero hk hl = refl
  enough zero y (suc k) zero hk hl = refl
  enough zero y zero (suc l) hk hl = refl
  enough zero y (suc k) (suc l) hk hl = refl
  enough (suc x) y zero l hk hl = absurd (omega arith)
  enough (suc x) y (suc k) zero hk hl = absurd (omega arith)
  enough (suc x) y (suc k) (suc l) hk hl =
      let half = suc x / 2 in
      let same_rest : digits rest join k half (y / 2) ≡ digits rest join l half (y / 2) =
        enough half (y / 2) k l (omega arith) (omega arith) in
      ap (λ d. d * 2 + join (suc x % 2) (y % 2)) same_rest

  lowest :
      (x y : ℕ)
      → join (suc x % 2) (y % 2) + 2 * bitwise rest join (suc x / 2) (y / 2)
        ≡ bitwise rest join (suc x) y
  lowest x y =
      let half = suc x / 2 in omega (arith, enough half (y / 2) x half (omega arith) (le_refl half))

differ_digits : (x y : ℕ) → x < 2 → y < 2 → differ x y ≡ (x + y) % 2
differ_digits zero y p q = omega arith
differ_digits (suc zero) zero p q = omega arith
differ_digits (suc zero) (suc zero) p q = omega arith
differ_digits (suc zero) (suc (suc y)) p q = absurd (omega arith)
differ_digits (suc (suc x)) y p q = absurd (omega arith)

pub bit_xor_step : (x y : ℕ) → bit_xor x y ≡ bit_xor (x / 2) (y / 2) * 2 + (x % 2 + y % 2) % 2
bit_xor_step zero y = simp bit_xor-bitwise (omega arith)
bit_xor_step (suc x) y = simp bit_xor-bitwise (
    omega (
      arith,
      lowest (λ t. t) differ x y,
      differ_digits (suc x % 2) (y % 2) (omega arith) (omega arith),
    ))

pub bit_and_step : (x y : ℕ) → bit_and x y ≡ bit_and (x / 2) (y / 2) * 2 + min (x % 2) (y % 2)
bit_and_step (suc x) y = simp bit_and-bitwise (omega (arith, lowest (λ t. 0) min x y))
bit_and_step zero y = simp bit_and-bitwise (omega arith)

pub bit_or_step : (x y : ℕ) → bit_or x y ≡ bit_or (x / 2) (y / 2) * 2 + max (x % 2) (y % 2)
bit_or_step (suc x) y = simp bit_or-bitwise (omega (arith, lowest (λ t. t) max x y))
bit_or_step zero y = simp bit_or-bitwise (omega arith)

bit_or-half : (a b : ℕ) → bit_or a b / 2 ≡ bit_or (a / 2) (b / 2)
bit_or-half a b = omega (arith, bit_or_step a b)

bit_and-half : (a b : ℕ) → bit_and a b / 2 ≡ bit_and (a / 2) (b / 2)
bit_and-half a b = omega (arith, bit_and_step a b)

bit_xor-half : (a b : ℕ) → bit_xor a b / 2 ≡ bit_xor (a / 2) (b / 2)
bit_xor-half a b = omega (arith, bit_xor_step a b)

pub test_bit-xor : (a b i : ℕ) → test_bit (bit_xor a b) i ≡ not (same (test_bit a i) (test_bit b i))
unfolding test_bit
test_bit-xor a b zero = ground (arith, bit_xor_step a b)
test_bit-xor a b (suc i) = rw (bit_xor-half a b) (test_bit-xor (a / 2) (b / 2) i)

pub test_bit-or : (a b i : ℕ) → test_bit (bit_or a b) i ≡ (test_bit a i || test_bit b i)
unfolding test_bit
test_bit-or a b zero = ground (arith, bit_or_step a b)
test_bit-or a b (suc i) = rw (bit_or-half a b) (test_bit-or (a / 2) (b / 2) i)

pub test_bit-and : (a b i : ℕ) → test_bit (bit_and a b) i ≡ (test_bit a i && test_bit b i)
unfolding test_bit
test_bit-and a b zero = ground (arith, bit_and_step a b)
test_bit-and a b (suc i) = rw (bit_and-half a b) (test_bit-and (a / 2) (b / 2) i)

-- Words of `n` bits with the same bits are equal.
pub eq_of_bits :
    (n a b : ℕ) → a < 2 ^ n → b < 2 ^ n → ((i : ℕ) → i < n → test_bit a i ≡ test_bit b i) → a ≡ b
unfolding test_bit
eq_of_bits zero a b p q h = omega arith
eq_of_bits (suc n) a b p q h = ground (
  arith,
  h 0 (omega arith),
  eq_of_bits n (a / 2) (b / 2) (omega (arith, pow-suc 2 n)) (omega (arith, pow-suc 2 n))
      (λ i lt. h (suc i) (omega arith)),
)

pub bit_or-lt : (n a b : ℕ) → a < 2 ^ n → b < 2 ^ n → bit_or a b < 2 ^ n
bit_or-lt zero a b p q =
    let a0 : a ≡ 0 = omega arith in let b0 : b ≡ 0 = omega arith in rw (a0, b0) (omega arith)
bit_or-lt (suc n) a b p q = omega (
  arith,
  pow-suc 2 n,
  bit_or_step a b,
  bit_or-lt n (a / 2) (b / 2) (omega (arith, pow-suc 2 n)) (omega (arith, pow-suc 2 n)),
)

-- `&` does not grow.
pub bit_and-lt : (n a b : ℕ) → a < 2 ^ n → bit_and a b < 2 ^ n
bit_and-lt zero a b p = let a0 : a ≡ 0 = omega arith in rw a0 (omega (arith, bit_and-bitwise 0 b))
bit_and-lt (suc n) a b p = omega (
  arith,
  pow-suc 2 n,
  bit_and_step a b,
  bit_and-lt n (a / 2) (b / 2) (omega (arith, pow-suc 2 n)),
)

-- A test that all numbers below a bound pass, by evaluation.
unfoldable pub pass_below : ℕ → (ℕ → Bool) → Bool
pass_below zero test = true
pass_below (suc bound) test = pass_below bound test && test bound

pub pass_below→pass :
    (bound : ℕ) (test : ℕ → Bool) (i : ℕ) → pass_below bound test ≡ true → i < bound → test i ≡ true
unfolding pass_below
pass_below→pass (suc bound) test i all low = ground (arith, pass_below→pass bound test i)
pass_below→pass zero test i all low = absurd (omega arith)

pub test_bit-zero : (i : ℕ) → test_bit 0 i ≡ false
unfolding test_bit
test_bit-zero zero = refl
test_bit-zero (suc i) = test_bit-zero i

-- `~v` in a word of `n` bits.
pub test_bit-complement :
    (n v i : ℕ) → v < 2 ^ n → i < n → test_bit (2 ^ n - 1 - v) i ≡ not (test_bit v i)
unfolding test_bit
test_bit-complement zero v i p lt = absurd (omega arith)
test_bit-complement (suc n) v zero p lt = ground (arith, pow-suc 2 n)
test_bit-complement (suc n) v (suc i) p lt =
    let half : (2 ^ suc n - 1 - v) / 2 ≡ 2 ^ n - 1 - v / 2 = omega (arith, pow-suc 2 n) in
    rw half (test_bit-complement n (v / 2) i (omega (arith, pow-suc 2 n)) (omega arith))

pub bit_and-zero : (a : ℕ) → bit_and a 0 ≡ 0
bit_and-zero a = fuel a a (omega arith)
  where
    fuel : (n b : ℕ) → b ≤ n → bit_and b 0 ≡ 0
    fuel n zero h = refl
    fuel zero (suc b) h = absurd (omega arith)
    fuel (suc n) (suc b) h = omega (arith, bit_and_step (suc b) 0, fuel n (suc b / 2) (omega arith))

-- `&` with a mask of low bits is the remainder.
pub bit_and-one : (a : ℕ) → bit_and a 1 ≡ a % 2
bit_and-one a = omega (arith, bit_and_step a 1, bit_and-zero (a / 2))

pub bit_and_three : (a : ℕ) → bit_and a 3 ≡ a % 4
bit_and_three a = omega (arith, bit_and_step a 3, bit_and-one (a / 2))

pub bit_and_nibble : (a : ℕ) → bit_and a 0x0F ≡ a % 16
bit_and_nibble a =
    omega (arith, bit_and_step a 15, bit_and_step (a / 2) 7, bit_and_three (a / 2 / 2))

pub bit_and_high_nibble : (a : ℕ) → bit_and a 0xF0 ≡ a / 16 % 16 * 16
bit_and_high_nibble a = omega (
  arith,
  bit_and_step a 0xF0,
  bit_and_step (a / 2) 0x78,
  bit_and_step (a / 2 / 2) 0x3C,
  bit_and_step (a / 2 / 2 / 2) 0x1E,
  bit_and_nibble (a / 2 / 2 / 2 / 2),
)

pub bit_and_six_bits : (a : ℕ) → bit_and a 0x3f ≡ a % 64
bit_and_six_bits a =
    omega (arith, bit_and_step a 63, bit_and_step (a / 2) 31, bit_and_nibble (a / 2 / 2))

pub bit_and_byte : (a : ℕ) → bit_and a 0xff ≡ a % 256
bit_and_byte a =
    omega (arith, bit_and_step a 255, bit_and_step (a / 2) 127, bit_and_six_bits (a / 2 / 2))

bit_and_twelve_bits : (a : ℕ) → bit_and a 0xFFF ≡ a % 4096
bit_and_twelve_bits a = omega (
  arith,
  bit_and_step a 0xFFF,
  bit_and_step (a / 2) 0x7FF,
  bit_and_step (a / 2 / 2) 0x3FF,
  bit_and_step (a / 2 / 2 / 2) 0x1FF,
  bit_and_byte (a / 2 / 2 / 2 / 2),
)

pub bit_and_half_word : (a : ℕ) → bit_and a 0xFFFF ≡ a % 65536
bit_and_half_word a = omega (
  arith,
  bit_and_step a 0xFFFF,
  bit_and_step (a / 2) 0x7FFF,
  bit_and_step (a / 2 / 2) 0x3FFF,
  bit_and_step (a / 2 / 2 / 2) 0x1FFF,
  bit_and_twelve_bits (a / 2 / 2 / 2 / 2),
)

bit_or_zero : (y : ℕ) → bit_or 0 y ≡ y
bit_or_zero y = fuel y y (le_refl y)
  where
    fuel : (n b : ℕ) → b ≤ n → bit_or 0 b ≡ b
    fuel n zero h = refl
    fuel zero (suc b) h = absurd (omega arith)
    fuel (suc n) (suc b) h = omega (arith, bit_or_step 0 (suc b), fuel n (suc b / 2) (omega arith))

-- `|` of a low and a high part is their sum.
pub bit_or-high : (n x y : ℕ) → x < 2 ^ n → bit_or x (y * 2 ^ n) ≡ x + y * 2 ^ n
bit_or-high zero x y h =
    let x0 : x ≡ 0 = omega arith in
    let y1 : y * 2 ^ 0 ≡ y = omega arith in rw (x0, y1) (omega (arith, bit_or_zero y))
bit_or-high (suc n) x y h =
    let twice : y * 2 ^ suc n ≡ y * 2 ^ n * 2 =
      ap (λ p. y * p) (pow-suc 2 n) ∙ sym (mul_assoc y (2 ^ n) 2) in
    let high = y * 2 ^ n in
    let half : high * 2 / 2 ≡ high = omega arith in
    let low = bit_or-high n (x / 2) y (omega (arith, pow-suc 2 n)) in
    let step : bit_or x (high * 2) ≡ x + high * 2 =
      bit_or_step x (high * 2) ∙ rw (half, low) (omega arith) in
    rw twice step
