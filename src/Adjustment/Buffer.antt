-- ===== src/Adjustment/Buffer.antt =====
-- The header of the adjustment data, as adjustmenteepromreadwrite.cpp of
-- zenux-service-common/lib/adjustment reads and writes it with `QDataStream`: the size in four bytes
-- and the checksum in two, the highest byte first.
use zenux_services.Prelude.{
  ℕ, ◌+◌, ◌*◌, ◌/◌, ◌%◌, ◌^◌, ◌≤◌, ◌<◌, ◌≡◌, refl, List, [], ◌∷◌, ◌++◌, arith, ltb, if◌then◌else◌,
  length, take, drop, get_or,
}

abbrev pub be16 : ℕ → List ℕ
be16 n = (n / 2 ^ 8 % 2 ^ 8) ∷ (n % 2 ^ 8) ∷ []

abbrev pub be32 : ℕ → List ℕ
be32 n = (n / 2 ^ 24 % 2 ^ 8) ∷ (n / 2 ^ 16 % 2 ^ 8) ∷ (n / 2 ^ 8 % 2 ^ 8) ∷ (n % 2 ^ 8) ∷ []

abbrev pub word_at : List ℕ → ℕ → ℕ
word_at ba i = get_or ba i 0 * 2 ^ 8 + get_or ba (i + 1) 0

-- `bastream >> sizeRead >> m_checksum`
unfoldable pub header_size : List ℕ → ℕ
header_size ba = word_at ba 0 * 2 ^ 16 + word_at ba 2

unfoldable pub header_checksum : List ℕ → ℕ
header_checksum ba = word_at ba 4

-- A stream that skips beyond the end has an error and writes nothing.
unfoldable pub set_checksum_in_buffer : ℕ → List ℕ → List ℕ
set_checksum_in_buffer checksum ba =
    if ltb (length ba) 4 then ba else take 4 ba ++ be16 checksum ++ drop 6 ba

unfoldable pub set_count_in_buffer : List ℕ → List ℕ
set_count_in_buffer ba = be32 (length ba) ++ drop 4 ba

-- A buffer that has its header is that header and the payload.
pub with_header :
    (ba : List ℕ)
    → 6 ≤ length ba
    → (a b c d e f : ℕ) × (rest : List ℕ) × (ba ≡ a ∷ b ∷ c ∷ d ∷ e ∷ f ∷ rest)
with_header [] h = absurd (omega arith)
with_header (a ∷ []) h = absurd (omega arith)
with_header (a ∷ b ∷ []) h = absurd (omega arith)
with_header (a ∷ b ∷ c ∷ []) h = absurd (omega arith)
with_header (a ∷ b ∷ c ∷ d ∷ []) h = absurd (omega arith)
with_header (a ∷ b ∷ c ∷ d ∷ e ∷ []) h = absurd (omega arith)
with_header (a ∷ b ∷ c ∷ d ∷ e ∷ f ∷ rest) h = (a, b, c, d, e, f, rest, refl)

be32_value :
    (n : ℕ)
    → n < 2 ^ 32
    → (n / 2 ^ 24 % 2 ^ 8 * 2 ^ 8 + n / 2 ^ 16 % 2 ^ 8) * 2 ^ 16
        + (n / 2 ^ 8 % 2 ^ 8 * 2 ^ 8 + n % 2 ^ 8)
      ≡ n
be32_value n h = omega arith

be16_value : (n : ℕ) → n < 2 ^ 16 → n / 2 ^ 8 % 2 ^ 8 * 2 ^ 8 + n % 2 ^ 8 ≡ n
be16_value n h = omega arith

-- The stamped buffer: the size, the checksum, the payload.
abbrev pub stamped : ℕ → List ℕ → List ℕ
stamped checksum ba = be32 (length ba) ++ be16 checksum ++ drop 6 ba

pub set_checksum-set_count :
    (checksum : ℕ) (ba : List ℕ)
    → 6 ≤ length ba
    → set_checksum_in_buffer checksum (set_count_in_buffer ba) ≡ stamped checksum ba
set_checksum-set_count checksum ba h =
    let (a, b, c, d, e, f, rest, eq) = with_header ba h in
    rw eq (unfold set_checksum_in_buffer set_count_in_buffer in ground arith)

pub length-stamped :
    (checksum : ℕ) (ba : List ℕ) → 6 ≤ length ba → length (stamped checksum ba) ≡ length ba
length-stamped checksum ba h = let (a, b, c, d, e, f, rest, eq) = with_header ba h in rw eq refl

pub header_size-stamped :
    (checksum : ℕ) (ba : List ℕ)
    → length ba < 2 ^ 32
    → header_size (stamped checksum ba) ≡ length ba
unfolding header_size
header_size-stamped checksum ba h = be32_value (length ba) h

pub header_checksum-stamped :
    (checksum : ℕ) (ba : List ℕ)
    → checksum < 2 ^ 16
    → header_checksum (stamped checksum ba) ≡ checksum
unfolding header_checksum
header_checksum-stamped checksum ba h = be16_value checksum h

-- The last checksum written stands.
pub set_checksum-set_checksum :
    (x y : ℕ) (ba : List ℕ)
    → set_checksum_in_buffer x (set_checksum_in_buffer y ba) ≡ set_checksum_in_buffer x ba
unfolding set_checksum_in_buffer
set_checksum-set_checksum x y [] = refl
set_checksum-set_checksum x y (a ∷ []) = refl
set_checksum-set_checksum x y (a ∷ b ∷ []) = refl
set_checksum-set_checksum x y (a ∷ b ∷ c ∷ []) = refl
set_checksum-set_checksum x y (a ∷ b ∷ c ∷ d ∷ []) = refl
set_checksum-set_checksum x y (a ∷ b ∷ c ∷ d ∷ e ∷ []) = refl
set_checksum-set_checksum x y (a ∷ b ∷ c ∷ d ∷ e ∷ f ∷ rest) = ground arith

pub set_checksum-stamped :
    (x y : ℕ) (ba : List ℕ) → set_checksum_in_buffer x (stamped y ba) ≡ stamped x ba
unfolding set_checksum_in_buffer
set_checksum-stamped x y ba = ground arith

pub length-set_checksum :
    (x : ℕ) (ba : List ℕ) → 6 ≤ length ba → length (set_checksum_in_buffer x ba) ≡ length ba
length-set_checksum x ba h =
    let (a, b, c, d, e, f, rest, eq) = with_header ba h in
    rw eq (unfold set_checksum_in_buffer in ground arith)
