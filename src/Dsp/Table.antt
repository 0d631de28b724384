-- ===== src/Dsp/Table.antt =====
-- The commands of the signal processor: the table `DspCmd` of zdsp1d/lib/dspapi.cpp.
use zenux_services.Prelude.{
  ℕ, suc, ◌+◌, ◌≡◌, refl, sym, ap, ◌∙◌, Bool, true, false, ◌==◌, ◌&&◌, Option, none, some, List, [],
  ◌∷◌, arith, if◌then◌else◌, get_elem?, Bool-cases, inl, inr,
}
use zenux_services.Prelude.Text.{Text, codes, eq_text, eq_text→eq}

-- `CmdType`
pub data CmdType : Type 0 where
  cmd cmd_1i16 cmd_2i16 cmd_3i16 cmd_1i32 cmd_1i16_1fi32 : CmdType

-- `DspCmdDecodingDetails`, without the extra check.
pub record DspCmdDecodingDetails : Type 0 where
  pub name : Text
  pub cmd_code : ℕ
  pub cmd_class : CmdType
  pub modify : Bool

abbrev entry : Text → ℕ → CmdType → Bool → DspCmdDecodingDetails
entry name cmd_code cmd_class modify = record {
  name = name;
  cmd_code = cmd_code;
  cmd_class = cmd_class;
  modify = modify;
}

unfoldable pub dsp_cmd : List DspCmdDecodingDetails
dsp_cmd =
    entry (codes "INVALID") 0 cmd false
    ∷ entry (codes "USERMEMOFFSET") 1 cmd_1i32 false
    ∷ entry (codes "DSPMEMOFFSET") 2 cmd_1i32 false
    ∷ entry (codes "COPYDATA") 3 cmd_3i16 false
    ∷ entry (codes "COPYDIFF") 4 cmd_3i16 false
    ∷ entry (codes "COPYPROD") 5 cmd_3i16 false
    ∷ entry (codes "DIFFCCC") 6 cmd_3i16 false
    ∷ entry (codes "RMS") 7 cmd_2i16 false
    ∷ entry (codes "MULCCC") 8 cmd_3i16 false
    ∷ entry (codes "DFT") 9 cmd_3i16 false
    ∷ entry (codes "SETVAL") 10 cmd_1i16_1fi32 false
    ∷ entry (codes "ROTATE") 11 cmd_1i16_1fi32 false
    ∷ entry (codes "MULVVV") 12 cmd_3i16 false
    ∷ entry (codes "ADDVVG") 13 cmd_3i16 false
    ∷ entry (codes "CLKOUT") 14 cmd false
    ∷ entry (codes "AVERAGE1") 15 cmd_3i16 false
    ∷ entry (codes "INTEGRAL") 16 cmd_3i16 false
    ∷ entry (codes "ADDVVV") 17 cmd_3i16 false
    ∷ entry (codes "COPYUD") 18 cmd_3i16 false
    ∷ entry (codes "COPYDU") 19 cmd_3i16 false
    ∷ entry (codes "CMPAVERAGE1") 20 cmd_3i16 false
    ∷ entry (codes "CLEARN") 21 cmd_2i16 false
    ∷ entry (codes "MULCCV") 22 cmd_3i16 false
    ∷ entry (codes "INTERPOLATION") 23 cmd_3i16 false
    ∷ entry (codes "FFTREAL") 24 cmd_3i16 false
    ∷ entry (codes "FFTCOMPLEX") 25 cmd_3i16 false
    ∷ entry (codes "THDN") 26 cmd_2i16 false
    ∷ entry (codes "ADDCCC") 27 cmd_3i16 false
    ∷ entry (codes "MULCV") 28 cmd_1i16_1fi32 false
    ∷ entry (codes "STARTCHAIN") 29 cmd_3i16 true
    ∷ entry (codes "STOPCHAIN") 30 cmd_2i16 true
    ∷ entry (codes "ACTIVATECHAIN") 31 cmd_2i16 true
    ∷ entry (codes "DEACTIVATECHAIN") 32 cmd_2i16 true
    ∷ entry (codes "TESTVCSKIPEQ") 33 cmd_1i16_1fi32 false
    ∷ entry (codes "TESTVCSKIPGT") 34 cmd_1i16_1fi32 false
    ∷ entry (codes "TESTVCSKIPLT") 35 cmd_1i16_1fi32 false
    ∷ entry (codes "TESTVVSKIPEQ") 36 cmd_2i16 false
    ∷ entry (codes "TESTVVSKIPGT") 37 cmd_2i16 false
    ∷ entry (codes "TESTVVSKIPLT") 38 cmd_2i16 false
    ∷ entry (codes "WRITEINTCMD") 39 cmd_2i16 true
    ∷ entry (codes "CTRLINTTRIGGER") 40 cmd false
    ∷ entry (codes "DSPINTTRIGGER") 41 cmd_2i16 true
    ∷ entry (codes "HANNING") 42 cmd_2i16 false
    ∷ entry (codes "WRITEPORT") 43 cmd_2i16 false
    ∷ entry (codes "SINUS") 44 cmd_3i16 false
    ∷ entry (codes "COSINUS") 45 cmd_3i16 false
    ∷ entry (codes "AUTOKORRELATION") 46 cmd_3i16 false
    ∷ entry (codes "SUBVVV") 47 cmd_3i16 false
    ∷ entry (codes "NORMVC") 48 cmd_1i16_1fi32 false
    ∷ entry (codes "ARCTAN") 49 cmd_3i16 false
    ∷ entry (codes "DIVVVV") 50 cmd_3i16 false
    ∷ entry (codes "SYMPHI") 51 cmd_2i16 false
    ∷ entry (codes "BREAK") 52 cmd_1i16 false
    ∷ entry (codes "FLATTOP") 53 cmd_2i16 false
    ∷ entry (codes "INC") 54 cmd_1i16 false
    ∷ entry (codes "COPYINDDATA") 55 cmd_3i16 false
    ∷ entry (codes "TESTSYNCPPSSKIPEQ") 56 cmd false
    ∷ entry (codes "RESETSYNCPPS") 57 cmd false
    ∷ entry (codes "RMSN") 58 cmd_3i16 false
    ∷ entry (codes "MULNCC") 59 cmd_3i16 false
    ∷ entry (codes "SQRT") 60 cmd_2i16 false
    ∷ entry (codes "COPYVAL") 61 cmd_2i16 false
    ∷ entry (codes "CMPCLK") 62 cmd_3i16 false
    ∷ entry (codes "CLKMODE") 63 cmd_1i16 false
    ∷ entry (codes "GETSTIME") 64 cmd_1i16 false
    ∷ entry (codes "TESTTIMESKIPNEX") 65 cmd_2i16 false
    ∷ entry (codes "SUBVCC") 66 cmd_3i16 false
    ∷ entry (codes "SUBVVG") 67 cmd_3i16 false
    ∷ entry (codes "DSPINTPOST") 68 cmd false
    ∷ entry (codes "SETPEAK") 69 cmd_2i16 false
    ∷ entry (codes "COPYDATAIND") 70 cmd_3i16 false
    ∷ entry (codes "INTERPOLATIONIND") 71 cmd_3i16 false
    ∷ entry (codes "COPYMEM") 72 cmd_3i16 false
    ∷ entry (codes "GENADR") 73 cmd_3i16 false
    ∷ entry (codes "COPYDATAWDC") 74 cmd_3i16 false
    ∷ entry (codes "INTEGRALPOS") 75 cmd_3i16 false
    ∷ entry (codes "INTEGRALNEG") 76 cmd_3i16 false
    ∷ entry (codes "SUBNVC") 77 cmd_3i16 false
    ∷ entry (codes "XCOPYMEM") 78 cmd_3i16 false
    ∷ entry (codes "TESTSKIPNOIRQPENDING") 79 cmd false
    ∷ entry (codes "XDSPINTTRIGGER") 80 cmd_2i16 true
    ∷ []

unfoldable pub find_in : Text → List DspCmdDecodingDetails → Option DspCmdDecodingDetails
find_in cmd_name [] = none
find_in cmd_name (d ∷ ds) = if eq_text d.name cmd_name then some d else find_in cmd_name ds

unfoldable pub find_dsp_cmd : Text → Option DspCmdDecodingDetails
find_dsp_cmd cmd_name = find_in cmd_name dsp_cmd

-- Codes that count up.
unfoldable indexed : ℕ → List DspCmdDecodingDetails → Bool
indexed k [] = true
indexed k (d ∷ ds) = d.cmd_code == k && indexed (suc k) ds

dsp_cmd-indexed : indexed 0 dsp_cmd ≡ true
unfolding indexed dsp_cmd
dsp_cmd-indexed = refl

head_lem :
    (k : ℕ) (c : DspCmdDecodingDetails) (ds : List DspCmdDecodingDetails)
    → indexed k (c ∷ ds) ≡ true
    → (c.cmd_code ≡ k) × (indexed (suc k) ds ≡ true)
unfolding indexed
head_lem k c ds h = ground arith

find_in-place :
    (cmd_name : Text) (k : ℕ) (ds : List DspCmdDecodingDetails) (d : DspCmdDecodingDetails)
    → indexed k ds ≡ true
    → find_in cmd_name ds ≡ some d
    → (i : ℕ) × (d.cmd_code ≡ k + i) × (get_elem? ds i ≡ some d) × (d.name ≡ cmd_name)
unfolding find_in
find_in-place cmd_name k [] d ix e = cc
find_in-place cmd_name k (c ∷ ds) d ix e = elim (Bool-cases (eq_text c.name cmd_name)) [
  | inl h ↦
      let same : c ≡ d = ground arith in
      let first : k ≡ k + 0 = omega arith in
      (
        0,
        ap (λ t. t.cmd_code) (sym same) ∙ (head_lem k c ds ix).0 ∙ first,
        ap some same,
        ap (λ t. t.name) (sym same) ∙ eq_text→eq _ _ h,
      )
  | inr h ↦
      let (i, code, at, name) =
        find_in-place cmd_name (suc k) ds d (head_lem k c ds ix).1 (ground arith) in
      let next : suc k + i ≡ k + suc i = omega arith in (suc i, code ∙ next, at, name)
]

-- A command that is found has the name asked for, and its code is its position in the table, so that
-- no two names have one code.
pub find_dsp_cmd_lem :
    (a : Text) (d : DspCmdDecodingDetails)
    → find_dsp_cmd a ≡ some d
    → (d.name ≡ a) × (get_elem? dsp_cmd d.cmd_code ≡ some d)
unfolding find_dsp_cmd
find_dsp_cmd_lem a d e =
    let (i, code, at, name) = find_in-place a 0 dsp_cmd d dsp_cmd-indexed e in
    let place : i ≡ 0 + i = omega arith in (name, ap (get_elem? dsp_cmd) (code ∙ sym place) ∙ at)
