-- ===== src/Dsp/CommandLines.antt =====
-- The loop of `compileCmds` (zdsp1d/lib/dspcmdcompiler.cpp) over the lines of a command list.
use zenux_services.Prelude.{
  ℕ, ◌≡◌, refl, ap, Bool, true, false, Option, none, some, List, [], ◌∷◌, ◌++◌, if◌then◌else◌,
  Bool-cases, inl, inr,
}
use zenux_services.Prelude.Text.{Text, split, skip_empty}
use zenux_services.Dsp.Layout.{DspVar}
use zenux_services.Dsp.Words.{Compiled}
use zenux_services.Dsp.Compiler.{
  CompilerLib, CompilerSupport, compile_one_cmd_line, is_comment, compile_lines, compile_cmds,
}

module _ (lib : CompilerLib) (var_hash : List (Text × DspVar)) (id : ℕ)
    (support : CompilerSupport) where
  -- The command of a line, and whether it is accepted.
  abbrev pub compiled_line : Text → Compiled × Bool
  compiled_line line = compile_one_cmd_line lib var_hash id support (lib.trimmed line)

  abbrev pub is_comment_line : Text → Bool
  is_comment_line line = is_comment lib var_hash id (lib.trimmed line)

  -- Each line is a comment or is accepted.
  abbrev pub AllAccepted : List Text → Type 0
  AllAccepted [] = Unit
  AllAccepted (line ∷ lines) =
      (is_comment_line line ≡ false → (compiled_line line).1 ≡ true) × AllAccepted lines

  -- The commands of the lines that are no comments, in order.
  unfoldable pub commands : List Text → List Compiled
  commands [] = []
  commands (line ∷ lines) =
      let rest = commands lines in
      if is_comment_line line then rest else (compiled_line line).0 ∷ rest

  -- What a loop over the lines with this result has done.
  abbrev pub Outcome : List Text → List Compiled × Option Text → Type 0
  Outcome lines (cs, none) = AllAccepted lines × (cs ≡ commands lines)
  Outcome lines (cs, some err) =
      (front : List Text) × (back : List Text) × (lines ≡ front ++ err ∷ back)
      × AllAccepted front
      × (is_comment_line err ≡ false)
      × ((compiled_line err).1 ≡ false)
      × (cs ≡ commands front ++ (compiled_line err).0 ∷ [])

  Outcome-comment :
      (line : Text) (lines : List Text) (r : List Compiled × Option Text)
      → is_comment_line line ≡ true
      → Outcome lines r
      → Outcome (line ∷ lines) r
  unfolding commands
  Outcome-comment line lines (cs, none) c (all, same) = ((λ n. cc, all), rw c same)
  Outcome-comment line lines (cs, some err) c (front, back, parts, all, no_comment, bad, same) =
      (line ∷ front, back, ap (λ t. line ∷ t) parts, (λ n. cc, all), no_comment, bad, rw c same)

  Outcome-accepted :
      (line : Text) (lines : List Text) (r : List Compiled × Option Text)
      → is_comment_line line ≡ false
      → (compiled_line line).1 ≡ true
      → Outcome lines r
      → Outcome (line ∷ lines) ((compiled_line line).0 ∷ r.0, r.1)
  unfolding commands
  Outcome-accepted line lines (cs, none) c good (all, same) =
      ((λ n. good, all), rw c (ap (λ t. (compiled_line line).0 ∷ t) same))
  Outcome-accepted line lines (cs, some err) c good
        (front, back, parts, all, no_comment, bad, same) =
      (
        line ∷ front,
        back,
        ap (λ t. line ∷ t) parts,
        (λ n. good, all),
        no_comment,
        bad,
        rw c (ap (λ t. (compiled_line line).0 ∷ t) same),
      )

  Outcome-compile_lines :
      (lines : List Text) → Outcome lines (compile_lines lib var_hash id support lines)
  unfolding compile_lines commands
  Outcome-compile_lines [] = (tt, refl)
  Outcome-compile_lines (line ∷ lines) =
      let rest = compile_lines lib var_hash id support lines in
      let ih = Outcome-compile_lines lines in
      elim (Bool-cases (is_comment_line line)) [
        | inl c ↦ rw c (Outcome-comment line lines rest c ih)
        | inr c ↦ elim (Bool-cases (compiled_line line).1) [
          | inl good ↦ rw (c, good) (Outcome-accepted line lines rest c good ih)
          | inr bad ↦ rw (c, bad) ([], lines, refl, tt, c, bad, refl)
        ]
      ]

  -- compileCmds succeeds exactly if every line that is no comment is accepted, and then the list holds
  -- the commands of these lines in order; else the error is the first line that is not accepted, and the
  -- list holds the commands of the lines before it and what its failed compilation returned.
  pub compile_cmds_lem :
      (cmds : Text)
      → Outcome (skip_empty (split b';' cmds)) (compile_cmds lib var_hash id support cmds)
  unfolding compile_cmds
  compile_cmds_lem cmds = Outcome-compile_lines (skip_empty (split b';' cmds))
