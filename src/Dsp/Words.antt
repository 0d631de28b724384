-- ===== src/Dsp/Words.antt =====
-- The two words of a compiled command, `DspCmdWithParamsCompiled` of zdsp1d/lib/dspapi.cpp, and their
-- way into the byte stream (zdsp1d/lib/zdspserver.cpp).
use zenux_services.Prelude.{
  ℕ, ◌+◌, ◌*◌, ◌/◌, ◌%◌, ◌^◌, ◌<◌, ◌≡◌, List, [], ◌∷◌, ◌++◌, get_or, arith,
}

-- `DspCmdWithParamsCompiled`: two words of 32 bits.
pub record Compiled : Type 0 where
  pub w0 : ℕ
  pub w1 : ℕ

-- The constructors, by their parameters: a command alone, with 16 bits, with 32 bits, with three,
-- two times 16 bits, and with 16 and 32 bits.
unfoldable pub compiled_cmd : ℕ → Compiled
compiled_cmd code = record { w0 = code * 2 ^ 16 % 2 ^ 32; w1 = 0 }

unfoldable pub compiled_1 : ℕ → ℕ → Compiled
compiled_1 code p1 = record { w0 = code * 2 ^ 16 % 2 ^ 32; w1 = p1 }

unfoldable pub compiled_3 : ℕ → ℕ → ℕ → ℕ → Compiled
compiled_3 code p1 p2 p3 = record {
  w0 = (code * 2 ^ 16 + p1) % 2 ^ 32;
  w1 = (p2 * 2 ^ 16 + p3) % 2 ^ 32;
}

unfoldable pub compiled_2 : ℕ → ℕ → ℕ → Compiled
compiled_2 code p1 p2 = record { w0 = code * 2 ^ 16 % 2 ^ 32; w1 = (p1 * 2 ^ 16 + p2) % 2 ^ 32 }

unfoldable pub compiled_1_long : ℕ → ℕ → ℕ → Compiled
compiled_1_long code p1 p2 = record { w0 = (code * 2 ^ 16 + p1) % 2 ^ 32; w1 = p2 }

-- `operator<<` on a stream of bytes, the lowest byte first.
unfoldable pub stream_word : ℕ → List ℕ
stream_word w = (w % 2 ^ 8) ∷ (w / 2 ^ 8 % 2 ^ 8) ∷ (w / 2 ^ 16 % 2 ^ 8) ∷ (w / 2 ^ 24 % 2 ^ 8) ∷ []

unfoldable pub stream : List Compiled → List ℕ
stream [] = []
stream (c ∷ cs) = stream_word c.w0 ++ stream_word c.w1 ++ stream cs

-- The value of four bytes of a stream.
abbrev pub word_of : List ℕ → ℕ → ℕ
word_of bytes i =
    get_or bytes i 0
    + get_or bytes (i + 1) 0 * 2 ^ 8
    + get_or bytes (i + 2) 0 * 2 ^ 16
    + get_or bytes (i + 3) 0 * 2 ^ 24

-- The stream of a compiled command with three parameters of 16 bits holds the code and each parameter
-- in its half word, whatever commands follow: the parameters do not spill into each other.
pub stream-compiled_3 :
    (code p1 p2 p3 : ℕ) (cs : List Compiled)
    → code < 2 ^ 16
    → p1 < 2 ^ 16
    → p2 < 2 ^ 16
    → p3 < 2 ^ 16
    → let bytes = stream (compiled_3 code p1 p2 p3 ∷ cs) in
      (word_of bytes 0 / 2 ^ 16 ≡ code)
      × (word_of bytes 0 % 2 ^ 16 ≡ p1)
      × (word_of bytes 4 / 2 ^ 16 ≡ p2)
      × (word_of bytes 4 % 2 ^ 16 ≡ p3)
unfolding stream stream_word compiled_3
stream-compiled_3 code p1 p2 p3 cs a b c d = (omega arith, omega arith, omega arith, omega arith)
