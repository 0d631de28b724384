-- ===== src/Tests/Upload.antt =====
-- Runs of the upload of command lists.
use zenux_services.Prelude.{
  Bool-cases, ℕ, suc, ◌+◌, ◌-◌, ◌≡◌, inl, inr, refl, ◌∙◌, true, false, some, List, [], ◌∷◌, arith,
  ◌==◌, if◌then◌else◌, length,
}
use zenux_services.Prelude.Text.{Text, codes, split, skip_empty, remove_char, lookup, eq_text}
use zenux_services.Dsp.Layout.{DspVar, dsp_data_type_int, dsp_internal}
use zenux_services.Dsp.Resolver.{
  get_dsp_var, get_var_address, first_summand, at_offset, calc_var_offset, offset_behind,
  starts_with,
}
use zenux_services.Dsp.DeviceInOut.{DeviceNode}
use zenux_services.Dsp.DeviceInOut.Kept.{IsDspMemory, Outside, words_from, words_from-kept}
use zenux_services.Dsp.Upload.{
  Server, flip, cyclic_name, interrupt_name, upload_command_lists, flip_command_list_selector,
  write_dsp_cmd_lists_to_dev_node, send_command_2_dsp, address_of,
}
use zenux_services.Dsp.Places.{KeepsWords, IsApart}
use zenux_services.Dsp.Switching.{upload_command_lists_lem, upload-failed}
use zenux_services.Tests.DspVars.{value_lib}

-- The words by address, and how many writes are going to fail.
pub record Dsp : Type 0 where
  pub words : ℕ → ℕ
  pub failures : ℕ

abbrev overlay : ℕ → List ℕ → (ℕ → ℕ) → ℕ → ℕ
overlay a [] m b = m b
overlay a (w ∷ ws) m b = let rest = overlay (suc a) ws m b in if b == a then w else rest

overlay_kept :
    (a : ℕ) (ws : List ℕ) (m : ℕ → ℕ) (b : ℕ) → Outside a (length ws) b → overlay a ws m b ≡ m b
overlay_kept a [] m b out = refl
overlay_kept a (w ∷ ws) m b (inl low) =
    let rest = overlay_kept (suc a) ws m b (inl (omega arith)) in ground (arith, rest)
overlay_kept a (w ∷ ws) m b (inr high) =
    let rest = overlay_kept (suc a) ws m b (inr (omega arith)) in ground (arith, rest)

words_from-overlay :
    (a : ℕ) (ws : List ℕ) (m : ℕ → ℕ) → words_from (overlay a ws m) (length ws) a ≡ ws
words_from-overlay a [] m = refl
words_from-overlay a (w ∷ ws) m =
    let rest =
      words_from-kept (overlay (suc a) ws m) (overlay a (w ∷ ws) m) (length ws) (suc a)
        (λ b low high. ground arith)
      ∙ words_from-overlay (suc a) ws m in
    let first : overlay a (w ∷ ws) m a ≡ w = ground arith in cc

abbrev device : DeviceNode
device = record {
  State = Dsp;
  lseek = λ a s. (s, true);
  read = λ n s. (s, some (0 ∷ []));
  write = λ a ws s.
      if s.failures == 0
      then (record s { words = overlay a ws s.words }, true)
      else (record s { failures = s.failures - 1 }, false);
}

device_write_kept :
    (a : ℕ) (ws : List ℕ) (s : Dsp) (b : ℕ)
    → Outside a (length ws) b
    → (device.write a ws s).0.words b ≡ s.words b
device_write_kept a ws s b out = ground (arith, overlay_kept a ws s.words b out)

device_write_done :
    (a : ℕ) (ws : List ℕ) (s : Dsp)
    → (device.write a ws s).1 ≡ true
    → words_from (device.write a ws s).0.words (length ws) a ≡ ws
device_write_done a ws s done = elim (Bool-cases (s.failures == 0)) [
  | inl e ↦ rw e (words_from-overlay a ws s.words)
  | inr e ↦ absurd (ground (arith, e))
]

abbrev device-IsDspMemory : IsDspMemory device
device-IsDspMemory = record {
  word_at = λ s. s.words;
  lseek_kept = λ a s b. refl;
  read_kept = λ n s b. refl;
  write_outside = device_write_kept;
  write_done = λ a ws s fits done. device_write_done a ws s done;
}

-- The variables of a DSP 21262 that an upload names.
abbrev system_var : Text → ℕ → ℕ → Text × DspVar
system_var name size address = (
  name,
  record {
    name = name;
    size = size;
    segment = dsp_internal;
    absolute_address = address;
    data_type = dsp_data_type_int;
    offset_to_module_base = 0;
  },
)

abbrev system_vars : List (Text × DspVar)
system_vars =
    system_var (codes "DSPCMDPAR") 10 0x83800
    ∷ system_var (codes "DSPACK") 1 0x8380A
    ∷ system_var (codes "INTCMDLIST") 128 0x84000
    ∷ system_var (codes "CMDLIST") 896 0x84080
    ∷ system_var (codes "ALTINTCMDLIST") 128 0x84400
    ∷ system_var (codes "ALTCMDLIST") 896 0x84480
    ∷ []

abbrev server : ℕ → Server Dsp
server failures = record {
  raw_cyclic_cmd_mem = 1 ∷ 2 ∷ [];
  raw_interrupt_cmd_mem = 3 ∷ [];
  current_cmd_list_selector = 0;
  dsp = record { words = λ a. 0; failures = failures };
}

-- The DSP starts with the command.
abbrev request : Dsp → Dsp
request s = record s { words = overlay 0x8380A (1 ∷ []) s.words }

request-KeepsWords : KeepsWords value_lib system_vars device device-IsDspMemory request
unfolding get_dsp_var get_var_address first_summand lookup split skip_empty remove_char at_offset
    calc_var_offset offset_behind starts_with eq_text
request-KeepsWords s b out = overlay_kept 0x8380A (1 ∷ []) s.words b out

-- The first word of the list "CMDLIST", which runs, is kept.
upload_command_lists_lem_example :
    let r = upload_command_lists value_lib system_vars device request (server 0) in
    (r.0.current_cmd_list_selector + 0 ≡ 1) × (r.0.dsp.words 0x84080 ≡ 0)
unfolding cyclic_name interrupt_name flip get_dsp_var get_var_address first_summand lookup split
    skip_empty remove_char at_offset calc_var_offset offset_behind starts_with eq_text
upload_command_lists_lem_example =
    upload_command_lists_lem value_lib system_vars device request device-IsDspMemory
      request-KeepsWords (server 0) 0x84080 (omega arith) (inl (omega arith), inl (omega arith))
      (inr (omega arith), inr (omega arith))

cyclic-IsApart : IsApart value_lib system_vars 0 (5 ∷ 6 ∷ []) (7 ∷ [])
unfolding cyclic_name interrupt_name get_dsp_var get_var_address first_summand lookup split
    skip_empty remove_char at_offset calc_var_offset offset_behind starts_with eq_text
cyclic-IsApart = record {
  bounded = omega arith;
  from_interrupt_list = λ b low high. inr (omega arith);
  from_command = λ b low high. (inr (omega arith), inr (omega arith));
}

-- The first write fails; then the list "CMDLIST" is overwritten that the DSP was last told to run.
upload-failed_example :
    let upload = upload_command_lists value_lib system_vars device request in
    let w = (upload (server 1)).0 in
    let next = record w { raw_cyclic_cmd_mem = 5 ∷ 6 ∷ []; raw_interrupt_cmd_mem = 7 ∷ [] } in
    (words_from w.dsp.words 2 0x83800 ≡ 0 ∷ 0 ∷ [])
    × (words_from (upload next).0.dsp.words 2 0x84080 ≡ 5 ∷ 6 ∷ [])
unfolding cyclic_name interrupt_name flip upload_command_lists flip_command_list_selector
    write_dsp_cmd_lists_to_dev_node send_command_2_dsp address_of get_dsp_var get_var_address
    first_summand lookup split skip_empty remove_char at_offset calc_var_offset offset_behind
    starts_with eq_text
upload-failed_example =
    upload-failed value_lib system_vars device request device-IsDspMemory request-KeepsWords
      (server 1) (5 ∷ 6 ∷ []) (7 ∷ []) (omega arith) refl (inl (omega arith), inl (omega arith))
      (inl (omega arith), inl (omega arith)) refl cyclic-IsApart
