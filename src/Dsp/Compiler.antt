-- ===== src/Dsp/Compiler.antt =====
-- `DspCmdCompiler` of zdsp1d/lib/dspcmdcompiler.cpp: from command lines to the words of the DSP.
use zenux_services.Prelude.{
  ℕ, zero, suc, ◌-◌, ◌*◌, ◌%◌, ◌^◌, bit_and, bit_or, Bool, true, false, ◌==◌, ◌&&◌, Option, none,
  some, List, [], ◌∷◌, if◌then◌else◌, ltb,
}
use zenux_services.Prelude.Int.{ℤ, pos, negsuc}
use zenux_services.Prelude.Text.{Text, codes, split, skip_empty}
use zenux_services.Dsp.Layout.{DspVar}
use zenux_services.Dsp.Table.{
  CmdType, cmd, cmd_1i16, cmd_2i16, cmd_3i16, cmd_1i32, cmd_1i16_1fi32, DspCmdDecodingDetails,
  find_dsp_cmd,
}
use zenux_services.Dsp.Words.{
  Compiled, compiled_cmd, compiled_1, compiled_2, compiled_3, compiled_1_long,
}
use zenux_services.Dsp.Resolver.{NumberLib, get_var_offset, starts_with}

-- The keyword parser of the parse library, which returns a keyword and what is left of the line; the
-- number parsers; `toFloat`, as the word that the cast reads; and `trimmed`.
pub record CompilerLib : Type 0 where
  pub numbers : NumberLib
  pub get_keyword : Text → Text × Text
  pub to_long_10 : Text → Option ℤ
  pub to_long_16 : Text → Option ℤ
  pub to_float : Text → Option ℤ
  pub trimmed : Text → Text

-- `AbstractDspCompilerSupport`.
pub record CompilerSupport : Type 0 where
  pub add_cmd_to_raw : Text → List Text → List ℤ → DspCmdDecodingDetails → Bool
  pub add_cmd_to_raw_1_param : Text → ℤ → DspCmdDecodingDetails → Bool
  pub add_cmd_to_raw_2_params : Text → DspCmdDecodingDetails → ℤ → ℤ → Bool

-- `DspCompilerSupport` of zdsp1d/lib/sanity-checks/dspcompilersupport.cpp accepts everything.
unfoldable pub dsp_compiler_support : CompilerSupport
dsp_compiler_support = record {
  add_cmd_to_raw = λ line names values dspcmd. true;
  add_cmd_to_raw_1_param = λ line par dspcmd. true;
  add_cmd_to_raw_2_params = λ line dspcmd par1 par2. true;
}

-- The word that an integer is, of `w` bits.
abbrev pub word_of_int : ℕ → ℤ → ℕ
word_of_int w (pos n) = n % 2 ^ w
word_of_int w (negsuc n) = 2 ^ w - 1 - n % 2 ^ w

-- Assignment of a `long` to a `short`.
unfoldable pub to_short : ℤ → ℤ
to_short n = let w = word_of_int 16 n in if ltb w (2 ^ 15) then pos w else negsuc (2 ^ 16 - 1 - w)

unfoldable pub above_minus_one : ℤ → Bool
above_minus_one (pos n) = true
above_minus_one (negsuc n) = false

abbrev pub no_command : Compiled
no_command = record { w0 = 0; w1 = 0 }

unfoldable pub is_nil : Text → Bool
is_nil [] = true
is_nil (c ∷ s) = false

-- `lcmd.w[1] = (lcmd.w[1] & 0xFFFF) | (m_dspInterruptId << 16)`.
unfoldable pub with_interrupt_id : DspCmdDecodingDetails → ℕ → Compiled → Compiled
with_interrupt_id dspcmd id c =
    if dspcmd.modify
    then record c { w1 = bit_or (bit_and c.w1 0xFFFF) (id * 2 ^ 16 % 2 ^ 32) }
    else c

module _ (lib : CompilerLib) (var_hash : List (Text × DspVar)) (interrupt_id : ℕ) where
  unfoldable pub are_there_no_further_keywords : Text → Bool
  are_there_no_further_keywords line = is_nil (lib.get_keyword line).0

  -- The next keywords, and what is left.
  unfoldable pub keywords : ℕ → Text → List Text × Text
  keywords zero line = ([], line)
  keywords (suc n) line =
      let (param, rest) = lib.get_keyword line in
      let (params, left) = keywords n rest in (param ∷ params, left)

  -- `paramValues[i]`, and whether each one is above -1.
  unfoldable pub param_values : List Text → List ℤ
  param_values [] = []
  param_values (p ∷ ps) = to_short (get_var_offset lib.numbers var_hash p) ∷ param_values ps

  unfoldable pub all_above : List ℤ → Bool
  all_above [] = true
  all_above (v ∷ vs) = above_minus_one v && all_above vs

  -- The command with its parameters, by its class.
  unfoldable pub compiled_params : DspCmdDecodingDetails → List ℤ → Compiled
  compiled_params dspcmd [] = compiled_cmd dspcmd.cmd_code
  compiled_params dspcmd (a ∷ []) = compiled_1 dspcmd.cmd_code (word_of_int 16 a)
  compiled_params dspcmd (a ∷ b ∷ []) =
      with_interrupt_id dspcmd interrupt_id
        (compiled_2 dspcmd.cmd_code (word_of_int 16 a) (word_of_int 16 b))
  compiled_params dspcmd (a ∷ b ∷ c ∷ rest) =
      with_interrupt_id dspcmd interrupt_id
        (compiled_3 dspcmd.cmd_code (word_of_int 16 a) (word_of_int 16 b) (word_of_int 16 c))

  -- The classes CMD, CMD1i16, CMD2i16 and CMD3i16, with their number of parameters.
  unfoldable pub compile_i16 :
      CompilerSupport → ℕ → Text → Text → DspCmdDecodingDetails → Compiled × Bool
  compile_i16 support count line rest dspcmd =
      let (names, left) = keywords count rest in
      let vals = param_values names in
      let ok =
        all_above vals
        && support.add_cmd_to_raw line names vals dspcmd
        && are_there_no_further_keywords left in
      (if ok then compiled_params dspcmd vals else no_command, ok)

  unfoldable pub compile_i32 :
      CompilerSupport → Text → Text → DspCmdDecodingDetails → Compiled × Bool
  compile_i32 support line rest dspcmd =
      let (param, left) = lib.get_keyword rest in
      let par = get_var_offset lib.numbers var_hash param in
      let ok =
        above_minus_one par
        && support.add_cmd_to_raw_1_param line par dspcmd
        && are_there_no_further_keywords left in
      (if ok then compiled_1 dspcmd.cmd_code (word_of_int 32 par) else no_command, ok)

  -- The second parameter of CMD1i161fi32: a decimal number, a hexadecimal one, a float, a variable.
  unfoldable pub second_param : Text → ℤ × Bool
  second_param param = elim (lib.to_long_10 param) [
    | some n ↦ (n, true)
    | none ↦ elim (lib.to_long_16 param) [
      | some n ↦ (n, true)
      | none ↦ elim (lib.to_float param) [
        | some n ↦ (n, true)
        | none ↦
            let offset = get_var_offset lib.numbers var_hash param in
            (offset, above_minus_one offset)
      ]
    ]
  ]

  unfoldable pub compile_1fi32 :
      CompilerSupport → Text → Text → DspCmdDecodingDetails → Compiled × Bool
  compile_1fi32 support line rest dspcmd =
      let (param1, rest1) = lib.get_keyword rest in
      let par1 = to_short (get_var_offset lib.numbers var_hash param1) in
      let (param2, left) = lib.get_keyword rest1 in
      let (par2, read) = second_param param2 in
      let ok =
        read
        && support.add_cmd_to_raw_2_params line dspcmd par1 par2
        && are_there_no_further_keywords left in
      let code = dspcmd.cmd_code in
      let full = compiled_1_long code (word_of_int 16 par1) (word_of_int 32 par2) in
      if above_minus_one par1 then (if ok then full else no_command, ok) else (no_command, false)

  unfoldable pub compile_class :
      CompilerSupport → CmdType → Text → Text → DspCmdDecodingDetails → Compiled × Bool
  compile_class support cmd line rest dspcmd = compile_i16 support 0 line rest dspcmd
  compile_class support cmd_1i16 line rest dspcmd = compile_i16 support 1 line rest dspcmd
  compile_class support cmd_2i16 line rest dspcmd = compile_i16 support 2 line rest dspcmd
  compile_class support cmd_3i16 line rest dspcmd = compile_i16 support 3 line rest dspcmd
  compile_class support cmd_1i32 line rest dspcmd = compile_i32 support line rest dspcmd
  compile_class support cmd_1i16_1fi32 line rest dspcmd = compile_1fi32 support line rest dspcmd

  unfoldable pub compile_one_cmd_line : CompilerSupport → Text → Compiled × Bool
  compile_one_cmd_line support line =
      let (cmd_name, rest) = lib.get_keyword line in
      elim (find_dsp_cmd cmd_name) [
        | none ↦ (no_command, false)
        | some dspcmd ↦ compile_class support dspcmd.cmd_class line rest dspcmd
      ]

  unfoldable pub ends_with : ℕ → Text → Bool
  ends_with c [] = false
  ends_with c (x ∷ []) = x == c
  ends_with c (x ∷ y ∷ s) = ends_with c (y ∷ s)

  unfoldable pub is_comment : Text → Bool
  is_comment line = starts_with (codes "COMMENT(") line && ends_with b')' line

  -- The loop over the lines: the commands, and the line that failed.
  unfoldable pub compile_lines : CompilerSupport → List Text → List Compiled × Option Text
  compile_lines support [] = ([], none)
  compile_lines support (line ∷ lines) =
      let trimmed = lib.trimmed line in
      let (command, ok) = compile_one_cmd_line support trimmed in
      let rest = compile_lines support lines in
      if is_comment trimmed
      then rest
      else if ok
      then (command ∷ rest.0, rest.1)
      else (command ∷ [], some line)

  -- `compileCmds`: `none` is its `true`.
  unfoldable pub compile_cmds : CompilerSupport → Text → List Compiled × Option Text
  compile_cmds support cmds = compile_lines support (skip_empty (split b';' cmds))
