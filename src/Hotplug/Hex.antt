-- ===== src/Hotplug/Hex.antt =====
-- `encodeDataToHex` and `decodeHexString` of
-- zenux-service-common/lib/scpi-interfaces/hotplugcontrollerinterface.cpp.
use zenux_services.Prelude.{
  ℕ, zero, suc, ◌+◌, ◌-◌, ◌*◌, ◌/◌, ◌%◌, ◌<◌, ◌≡◌, ◌≢◌, refl, ap, ap₂, ◌∙◌, Bool, true, false, ◌&&◌,
  Option, none, some, List, [], ◌∷◌, ◌++◌, arith, ltb, leb, if◌then◌else◌, length, drop,
}
use zenux_services.Prelude.Text.{
  Text, codes, eq_text, eq_text→eq, split, skip_empty, join, Free, AreParts, split-join,
}
use zenux_services.Prelude.Bits.{pass_below, pass_below→pass}

-- A hexadecimal digit, in lower case.
unfoldable pub hex_digit : ℕ → ℕ
hex_digit d = if ltb d 10 then 48 + d else 87 + d

-- `QString("%1").arg(n, 0, 16)`, with fuel for the number of the digits.
unfoldable pub hex_fuel : ℕ → ℕ → Text
hex_fuel zero n = []
hex_fuel (suc f) n =
    let front = hex_fuel f (n / 16) in
    if ltb n 16 then hex_digit n ∷ [] else front ++ hex_digit (n % 16) ∷ []

-- `ushort(data[byteNo])`: where `char` is signed, a byte from 128 on is extended by its sign.
unfoldable pub ushort_of_char : Bool → ℕ → ℕ
ushort_of_char signed b = if signed && leb 128 b then b + 65280 else b

-- One round of the loop of `encodeDataToHex`.
unfoldable pub hex_byte : Bool → ℕ → Text
unfolding hex_fuel hex_digit ushort_of_char
hex_byte signed b =
    let padded = codes "00" ++ hex_fuel 5 (ushort_of_char signed b) in
    drop (length padded - 2) padded

unfoldable pub encode_data_to_hex : Bool → List ℕ → List Text
encode_data_to_hex signed [] = []
encode_data_to_hex signed (b ∷ data_left) = hex_byte signed b ∷ encode_data_to_hex signed data_left

-- What `toUInt(nullptr, 16)` returns for a text, which is 0 where it is no number.
abbrev pub value_or_zero : Option ℕ → ℕ
value_or_zero none = 0
value_or_zero (some n) = n

module _ (to_uint_16 : Text → Option ℕ) where
  unfoldable pub decode_parts : List Text → List ℕ
  decode_parts [] = []
  decode_parts (s ∷ ss) = value_or_zero (to_uint_16 s) % 256 ∷ decode_parts ss

  unfoldable pub decode_hex_string : Text → List ℕ
  decode_hex_string encoded = decode_parts (skip_empty (split b',' encoded))

abbrev pub Bytes : List ℕ → Type 0
Bytes [] = Unit
Bytes (b ∷ bs) = (b < 256) × Bytes bs

-- The number parser reads two digits as a byte.
abbrev pub ReadsHex : (Text → Option ℕ) → Type 0
ReadsHex to_uint_16 =
    (a b : ℕ) → a < 16 → b < 16 → to_uint_16 (hex_digit a ∷ hex_digit b ∷ []) ≡ some (a * 16 + b)

two_digits : ℕ → Text
two_digits b = hex_digit (b / 16) ∷ hex_digit (b % 16) ∷ []

hex_byte-two_digits : (signed : Bool) (b : ℕ) → b < 256 → hex_byte signed b ≡ two_digits b
unfolding pass_below hex_byte two_digits eq_text hex_fuel hex_digit ushort_of_char
hex_byte-two_digits true b h =
    eq_text→eq _ _ (pass_below→pass 256 (λ k. eq_text (hex_byte true k) (two_digits k)) b refl h)
hex_byte-two_digits false b h =
    eq_text→eq _ _ (pass_below→pass 256 (λ k. eq_text (hex_byte false k) (two_digits k)) b refl h)

comma_free : (d : ℕ) → hex_digit d ≢ b','
unfolding hex_digit
comma_free d h = ground arith

Free-two_digits : (b : ℕ) → Free b',' (two_digits b)
unfolding two_digits
Free-two_digits b = (comma_free (b / 16), (comma_free (b % 16), tt))

two_digits-ne_nil : (b : ℕ) → two_digits b ≢ []
unfolding two_digits
two_digits-ne_nil b e = cc

AreParts-encode :
    (signed : Bool) (bs : List ℕ) → Bytes bs → AreParts b',' (encode_data_to_hex signed bs)
unfolding encode_data_to_hex
AreParts-encode signed [] h = tt
AreParts-encode signed (b ∷ bs) h =
    rw (hex_byte-two_digits signed b h.0)
      (two_digits-ne_nil b, Free-two_digits b, AreParts-encode signed bs h.1)

module _ (to_uint_16 : Text → Option ℕ) (reads : ReadsHex to_uint_16) where
  decode_parts-encode :
      (signed : Bool) (bs : List ℕ)
      → Bytes bs
      → decode_parts to_uint_16 (encode_data_to_hex signed bs) ≡ bs
  unfolding decode_parts encode_data_to_hex two_digits
  decode_parts-encode signed [] h = refl
  decode_parts-encode signed (b ∷ bs) h =
      let digits = reads (b / 16) (b % 16) (omega arith) (omega arith) in
      let byte : value_or_zero (to_uint_16 (hex_byte signed b)) % 256 ≡ b =
        rw (hex_byte-two_digits signed b h.0, digits) (omega arith) in
      ap₂ (λ x xs. x ∷ xs) byte (decode_parts-encode signed bs h.1)

  -- The text of bytes, joined by commas, is decoded to the same bytes.
  pub decode-encode :
      (signed : Bool) (bs : List ℕ)
      → Bytes bs
      → decode_hex_string to_uint_16 (join b',' (encode_data_to_hex signed bs)) ≡ bs
  unfolding decode_hex_string
  decode-encode signed bs h =
      ap (decode_parts to_uint_16)
        (split-join b',' (encode_data_to_hex signed bs) (AreParts-encode signed bs h))
      ∙ decode_parts-encode signed bs h
