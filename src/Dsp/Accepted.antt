-- ===== src/Dsp/Accepted.antt =====
-- The words of a command line that `compileOneCmdLine` (zdsp1d/lib/dspcmdcompiler.cpp) accepts.
use zenux_services.Prelude.{
  ℕ, zero, suc, ◌+◌, ◌*◌, ◌/◌, ◌%◌, ◌^◌, ◌<◌, ◌≤◌, length, get_elem?, bit_and, ◌≡◌, refl, sym, ap,
  ap₂, subst, true, Option, none, some, List, [], ◌∷◌, map, arith, if◌then◌else◌, Bool-cases, inl,
  inr, ltb, ltb→lt,
}
use zenux_services.Prelude.Bits.{bit_and_half_word, bit_or-high}
use zenux_services.Prelude.Int.{ℤ, pos}
use zenux_services.Prelude.Text.{Text}
use zenux_services.Dsp.Layout.{DspVar}
use zenux_services.Dsp.Table.{
  CmdType, cmd, cmd_1i16, cmd_2i16, cmd_3i16, cmd_1i32, cmd_1i16_1fi32, DspCmdDecodingDetails,
  find_dsp_cmd, find_dsp_cmd_lem, dsp_cmd,
}
use zenux_services.Dsp.Words.{Compiled, compiled_cmd, compiled_1, compiled_2, compiled_3}
use zenux_services.Dsp.Resolver.{get_var_offset}
use zenux_services.Dsp.Compiler.{
  CompilerLib, CompilerSupport, word_of_int, to_short, above_minus_one, with_interrupt_id, keywords,
  param_values, all_above, compiled_params, compile_i16, compile_class, compile_one_cmd_line,
}

-- The number of parameters of 16 bits of a class; the other classes have none of these alone.
abbrev pub short_params : CmdType → Option ℕ
short_params cmd = some 0
short_params cmd_1i16 = some 1
short_params cmd_2i16 = some 2
short_params cmd_3i16 = some 3
short_params cmd_1i32 = none
short_params cmd_1i16_1fi32 = none

-- The parameters as the DSP takes them out of the two words.
abbrev pub fields : ℕ → Compiled → List ℕ
fields zero c = []
fields (suc zero) c = c.w1 ∷ []
fields (suc (suc zero)) c = (c.w1 / 2 ^ 16) ∷ (c.w1 % 2 ^ 16) ∷ []
fields (suc (suc (suc n))) c = (c.w0 % 2 ^ 16) ∷ (c.w1 / 2 ^ 16) ∷ (c.w1 % 2 ^ 16) ∷ []

-- The interrupt number stands in the place of the last parameter but one.
abbrev pub replace_id : ℕ → List ℕ → List ℕ
replace_id id [] = []
replace_id id (a ∷ []) = a ∷ []
replace_id id (a ∷ b ∷ []) = id ∷ b ∷ []
replace_id id (a ∷ b ∷ c ∷ rest) = a ∷ id ∷ c ∷ rest

abbrev pub AllShort : List ℕ → Type 0
AllShort [] = Unit
AllShort (a ∷ as') = (a < 2 ^ 15) × AllShort as'

some-injective : {a b : ℕ} → some a ≡ some b → a ≡ b
some-injective e = cc

get_elem?-lt :
    (i : ℕ) (ds : List DspCmdDecodingDetails) (d : DspCmdDecodingDetails)
    → get_elem? ds i ≡ some d
    → i < length ds
get_elem?-lt i [] d e = cc
get_elem?-lt zero (x ∷ ds) d e = omega arith
get_elem?-lt (suc i) (x ∷ ds) d e = omega (arith, get_elem?-lt i ds d e)

table_size : ltb (length dsp_cmd) (2 ^ 16) ≡ true
unfolding dsp_cmd
table_size = refl

find_dsp_cmd-code :
    (a : Text) (d : DspCmdDecodingDetails) → find_dsp_cmd a ≡ some d → d.cmd_code < 2 ^ 16
find_dsp_cmd-code a d e = omega (
  arith,
  get_elem?-lt d.cmd_code dsp_cmd d (find_dsp_cmd_lem a d e).1,
  ltb→lt (length dsp_cmd) (2 ^ 16) table_size,
)

to_short-above :
    (n : ℤ)
    → above_minus_one (to_short n) ≡ true
    → (to_short n ≡ pos (word_of_int 16 n)) × (word_of_int 16 n < 2 ^ 15)
unfolding to_short above_minus_one
to_short-above n h = elim (Bool-cases (ltb (word_of_int 16 n) (2 ^ 15))) [
  | inl e ↦ (rw e refl, ltb→lt (word_of_int 16 n) (2 ^ 15) e)
  | inr e ↦ cc
]

with_interrupt_id-w0 :
    (d : DspCmdDecodingDetails) (id : ℕ) (c : Compiled) → (with_interrupt_id d id c).w0 ≡ c.w0
unfolding with_interrupt_id
with_interrupt_id-w0 d id c = ground arith

with_interrupt_id-w1 :
    (d : DspCmdDecodingDetails) (id : ℕ) (c : Compiled)
    → id < 2 ^ 16
    → (with_interrupt_id d id c).w1 ≡ (if d.modify then c.w1 % 2 ^ 16 + id * 2 ^ 16 else c.w1)
unfolding with_interrupt_id
with_interrupt_id-w1 d id c h =
    let fits : id * 2 ^ 16 % 2 ^ 32 ≡ id * 2 ^ 16 = omega arith in
    let low : bit_and c.w1 0xFFFF ≡ c.w1 % 2 ^ 16 = bit_and_half_word c.w1 in
    let high = bit_or-high 16 (c.w1 % 2 ^ 16) id (omega arith) in
    elim (Bool-cases d.modify) [
      | inl e ↦ rw (e, fits, low) (ap (λ (t : ℕ). t) high)
      | inr e ↦ rw e refl
    ]

-- The offsets of the parameters, as far as 16 bits hold them.
module _ (lib : CompilerLib) (var_hash : List (Text × DspVar)) where
  abbrev pub offsets : List Text → List ℕ
  offsets [] = []
  offsets (p ∷ ps) = word_of_int 16 (get_var_offset lib.numbers var_hash p) ∷ offsets ps

-- Words below 2 ^ 15 are packed without loss.
module _ (lib : CompilerLib) (var_hash : List (Text × DspVar)) (id : ℕ)
    (id_fits : id < 2 ^ 16) where
  -- The words of `c` hold the code and the parameters `ws`.
  abbrev pub Holds : DspCmdDecodingDetails → List ℕ → Compiled → Type 0
  Holds d ws c =
      (c.w0 / 2 ^ 16 ≡ d.cmd_code)
      × (fields (length ws) c ≡ (if d.modify then replace_id id ws else ws))

  Holds-compiled_params :
      (d : DspCmdDecodingDetails) (ws : List ℕ)
      → d.cmd_code < 2 ^ 16
      → AllShort ws
      → length ws ≤ 3
      → Holds d ws (compiled_params lib var_hash id d (map pos ws))
  unfolding compiled_params compiled_cmd compiled_1 compiled_2 compiled_3
  Holds-compiled_params d [] code short most = (omega arith, ground arith)
  Holds-compiled_params d (a ∷ []) code short most = (omega arith, ground arith)
  Holds-compiled_params d (a ∷ b ∷ []) code short most =
      let c = compiled_2 d.cmd_code (a % 2 ^ 16) (b % 2 ^ 16) in
      let w0 = with_interrupt_id-w0 d id c in
      let w1 = with_interrupt_id-w1 d id c id_fits in (ground arith, ground arith)
  Holds-compiled_params d (a ∷ b ∷ e ∷ []) code short most =
      let c = compiled_3 d.cmd_code (a % 2 ^ 16) (b % 2 ^ 16) (e % 2 ^ 16) in
      let w0 = with_interrupt_id-w0 d id c in
      let w1 = with_interrupt_id-w1 d id c id_fits in (ground arith, ground arith)
  Holds-compiled_params d (a ∷ b ∷ e ∷ f ∷ ws) code short most = absurd (omega arith)

  length-offsets :
      (n : ℕ) (line : Text) → length (offsets lib var_hash (keywords lib var_hash id n line).0) ≡ n
  unfolding keywords
  length-offsets zero line = refl
  length-offsets (suc n) line = ap suc (length-offsets n (lib.get_keyword line).1)

  param_values-above :
      (names : List Text)
      → all_above lib var_hash id (param_values lib var_hash id names) ≡ true
      → (param_values lib var_hash id names ≡ map pos (offsets lib var_hash names))
        × AllShort (offsets lib var_hash names)
  unfolding param_values all_above
  param_values-above [] h = (refl, tt)
  param_values-above (p ∷ ps) h =
      let n = get_var_offset lib.numbers var_hash p in
      let (same, low) = to_short-above n (ground arith) in
      let (rest, lows) = param_values-above ps (ground arith) in
      (ap₂ (λ x xs. x ∷ xs) same rest, (low, lows))

  compile_i16-Holds :
      (support : CompilerSupport) (count : ℕ) (line rest : Text) (d : DspCmdDecodingDetails)
      (c : Compiled)
      → d.cmd_code < 2 ^ 16
      → count ≤ 3
      → compile_i16 lib var_hash id support count line rest d ≡ (c, true)
      → let ws = offsets lib var_hash (keywords lib var_hash id count rest).0 in
        Holds d ws c × AllShort ws
  unfolding compile_i16
  compile_i16-Holds support count line rest d c code most accepted =
      let names = (keywords lib var_hash id count rest).0 in
      let (same, short) = param_values-above names (ground arith) in
      let made : c ≡ compiled_params lib var_hash id d (map pos (offsets lib var_hash names)) =
        ground arith in
      (
        subst (Holds d (offsets lib var_hash names)) (sym made) (
            Holds-compiled_params d (offsets lib var_hash names) code short
              (omega (arith, length-offsets count rest))),
        short,
      )

  abbrev Goal : DspCmdDecodingDetails → Compiled → ℕ → Text → Type 0
  Goal d c count rest =
      let ws = offsets lib var_hash (keywords lib var_hash id count rest).0 in
      Holds d ws c × AllShort ws

  compile_class-Holds :
      (support : CompilerSupport) (class : CmdType) (count : ℕ) (line rest : Text)
      (d : DspCmdDecodingDetails) (c : Compiled)
      → short_params class ≡ some count
      → d.cmd_code < 2 ^ 16
      → compile_class lib var_hash id support class line rest d ≡ (c, true)
      → let ws = offsets lib var_hash (keywords lib var_hash id count rest).0 in
        Holds d ws c × AllShort ws
  unfolding compile_class
  compile_class-Holds support cmd n line rest d c e code ok =
      subst (λ k. Goal d c k rest) (some-injective e)
        (compile_i16-Holds support 0 line rest d c code (omega arith) ok)
  compile_class-Holds support cmd_1i16 n line rest d c e code ok =
      subst (λ k. Goal d c k rest) (some-injective e)
        (compile_i16-Holds support 1 line rest d c code (omega arith) ok)
  compile_class-Holds support cmd_2i16 n line rest d c e code ok =
      subst (λ k. Goal d c k rest) (some-injective e)
        (compile_i16-Holds support 2 line rest d c code (omega arith) ok)
  compile_class-Holds support cmd_3i16 n line rest d c e code ok =
      subst (λ k. Goal d c k rest) (some-injective e)
        (compile_i16-Holds support 3 line rest d c code (omega arith) ok)
  compile_class-Holds support cmd_1i32 n line rest d c e code ok = cc
  compile_class-Holds support cmd_1i16_1fi32 n line rest d c e code ok = cc

  -- If a line whose command has parameters of 16 bits only is accepted, its words hold the code of the
  -- command and, in order, each parameter's offset modulo 2 ^ 16, which is below 2 ^ 15; in a command
  -- that is to carry it, the interrupt number of the client, of 16 bits, takes the place of the last
  -- parameter but one.
  pub compile_one_cmd_line_lem :
      (support : CompilerSupport) (line : Text) (d : DspCmdDecodingDetails) (count : ℕ)
      (c : Compiled)
      → find_dsp_cmd (lib.get_keyword line).0 ≡ some d
      → short_params d.cmd_class ≡ some count
      → compile_one_cmd_line lib var_hash id support line ≡ (c, true)
      → let ws = offsets lib var_hash (keywords lib var_hash id count (lib.get_keyword line).1).0 in
        (c.w0 / 2 ^ 16 ≡ d.cmd_code)
        × (fields (length ws) c ≡ (if d.modify then replace_id id ws else ws))
        × AllShort ws
  unfolding compile_one_cmd_line
  compile_one_cmd_line_lem support line d count c found short accepted =
      let rest = (lib.get_keyword line).1 in
      let code = find_dsp_cmd-code (lib.get_keyword line).0 d found in
      let ok : compile_class lib var_hash id support d.cmd_class line rest d ≡ (c, true) =
        ground arith in
      let ((code_lem, fields_lem), lows) =
        compile_class-Holds support d.cmd_class count line rest d c short code ok in
      (code_lem, fields_lem, lows)
