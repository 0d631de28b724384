-- ===== src/Tests/Compiler.antt =====
-- Runs of the command compiler.
use zenux_services.Prelude.{
  ℕ, ◌/◌, ◌^◌, ◌≡◌, refl, Bool, true, none, some, List, [], ◌∷◌, Option, arith, ◌==◌, if◌then◌else◌,
  leb, length, ◌&&◌,
}
use zenux_services.Prelude.Int.{ℤ, pos}
use zenux_services.Prelude.Text.{
  Text, codes, eq_text, split, skip_empty, value_from, remove_char, lookup,
}
use zenux_services.Dsp.Layout.{dsp_data_type_int, DspVar, module_local}
use zenux_services.Dsp.Table.{DspCmdDecodingDetails, cmd_3i16, dsp_cmd, find_in, find_dsp_cmd}
use zenux_services.Dsp.Resolver.{
  starts_with, get_dsp_var, get_var_offset, calc_offset, first_summand, not_negative, dec_or_hex,
  at_offset, calc_var_offset, offset_behind,
}
use zenux_services.Dsp.Compiler.{
  CompilerLib, dsp_compiler_support, keywords, compile_one_cmd_line, compile_class, compile_i16,
  compile_cmds, all_above, param_values, above_minus_one, to_short, are_there_no_further_keywords,
  is_nil,
}
use zenux_services.Dsp.Accepted.{fields, AllShort, compile_one_cmd_line_lem}
use zenux_services.Dsp.CommandLines.{Outcome, compile_cmds_lem}

-- A text of digits, perhaps behind a plus sign, is a number.
all_digits : Text → Bool
all_digits [] = true
all_digits (c ∷ s) = leb 48 c && leb c 57 && all_digits s

abbrev digits : Text → Option ℤ
unfolding all_digits value_from
digits [] = none
digits (c ∷ s) =
    let t = if c == b'+' then s else c ∷ s in
    if all_digits t then some (pos (value_from 0 t)) else none

-- A keyword ends at a bracket or a comma.
abbrev keyword : Text → Text × Text
keyword [] = ([], [])
keyword (c ∷ s) =
    let (word, rest) = keyword s in
    if c == b'('
    then ([], s)
    else if c == b','
    then ([], s)
    else if c == b')'
    then ([], s)
    else (c ∷ word, rest)

abbrev compiler_lib : CompilerLib
compiler_lib = record {
  numbers = record { to_upper = λ s. s; to_int_10 = digits; to_int_16 = λ s. none };
  get_keyword = keyword;
  to_long_10 = digits;
  to_long_16 = λ s. none;
  to_float = λ s. none;
  trimmed = λ s. s;
}

abbrev one_var : List (Text × DspVar)
one_var =
    (
      codes "UF",
      record {
        name = codes "UF";
        size = 8;
        segment = module_local;
        absolute_address = 0x1010;
        data_type = dsp_data_type_int;
        offset_to_module_base = 0x10;
      },
    )
    ∷ []

abbrev start_chain : DspCmdDecodingDetails
start_chain = record {
  name = codes "STARTCHAIN";
  cmd_code = 29;
  cmd_class = cmd_3i16;
  modify = true;
}

-- The second parameter, the offset 18, gives way to the interrupt number 9, and 65541 is taken for 5.
compile_one_cmd_line_lem_example :
    let line = codes "STARTCHAIN(1,UF+2,65541)" in
    let c = (compile_one_cmd_line compiler_lib one_var 9 dsp_compiler_support line).0 in
    let ws : List ℕ = 1 ∷ 18 ∷ 5 ∷ [] in
    (c.w0 / 2 ^ 16 ≡ 29) × (fields (length ws) c ≡ 1 ∷ 9 ∷ 5 ∷ []) × AllShort ws
unfolding keywords compile_one_cmd_line compile_class compile_i16 find_dsp_cmd find_in dsp_cmd
    eq_text get_var_offset get_dsp_var calc_offset split skip_empty remove_char lookup starts_with
    digits dsp_compiler_support all_above param_values above_minus_one to_short first_summand
    not_negative dec_or_hex at_offset calc_var_offset offset_behind are_there_no_further_keywords
    is_nil
compile_one_cmd_line_lem_example =
    let line = codes "STARTCHAIN(1,UF+2,65541)" in
    compile_one_cmd_line_lem compiler_lib one_var 9 (omega arith) dsp_compiler_support line
      start_chain 3 (compile_one_cmd_line compiler_lib one_var 9 dsp_compiler_support line).0 refl
      refl refl

-- A comment, a command, and an unknown one.
compile_cmds_lem_example :
    let cmds = codes "COMMENT(x);DSPINTPOST();NOP();CLKOUT()" in
    Outcome compiler_lib one_var 9 dsp_compiler_support
      (skip_empty (split b';' cmds))
      (compile_cmds compiler_lib one_var 9 dsp_compiler_support cmds)
compile_cmds_lem_example =
    compile_cmds_lem compiler_lib one_var 9 dsp_compiler_support
      (codes "COMMENT(x);DSPINTPOST();NOP();CLKOUT()")
