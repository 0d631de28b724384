-- ===== src/Dsp/Switching.antt =====
-- The two pairs of command lists in the memory of the DSP, and which of them `uploadCommandLists`
-- (zdsp1d/lib/zdspserver.cpp) writes and tells the DSP to run.
use zenux_services.Prelude.{
  ℕ, suc, ◌+◌, ◌<◌, ◌≡◌, inl, inr, refl, sym, ap, subst, ◌∙◌, length, bit_and, Bool, true, false,
  List, ◌++◌, arith, Bool-cases,
}
use zenux_services.Prelude.Bits.{bit_and-one}
use zenux_services.Prelude.Text.{Text, codes, decimal, split, skip_empty}
use zenux_services.Dsp.Layout.{DspVar}
use zenux_services.Dsp.DeviceInOut.{ValueLib, DeviceNode}
use zenux_services.Dsp.DeviceInOut.Kept.{IsDspMemory, AllSpare, words_from, words_from-kept}
use zenux_services.Dsp.Upload.{
  Server, flip, address_of, flip_command_list_selector, write_dsp_cmd_lists_to_dev_node,
  upload_command_lists,
}
use zenux_services.Dsp.Places.{
  OutsideOfCommand, OutsideOfLists, cyclic_at, interrupt_at, IsApart, at, KeepsWords,
  flip_line-AllSpare, send_command_2_dsp-kept,
}

module _ (lib : ValueLib) (var_hash : List (Text × DspVar)) (node : DeviceNode)
    (request : node.State → node.State) (memory : IsDspMemory node)
    (request_kept : KeepsWords lib var_hash node memory request) where
  open memory use {word_at}

  abbrev write_lists : Server node.State → Server node.State × Bool
  write_lists = write_dsp_cmd_lists_to_dev_node lib var_hash node request

  abbrev pub upload : Server node.State → Server node.State × Bool
  upload = upload_command_lists lib var_hash node request

  write_lists-kept :
      (v : Server node.State) (b : ℕ)
      → OutsideOfLists lib var_hash v.current_cmd_list_selector v.raw_cyclic_cmd_mem
          v.raw_interrupt_cmd_mem b
      → word_at (write_lists v).0.dsp b ≡ word_at v.dsp b
  unfolding write_dsp_cmd_lists_to_dev_node address_of
  write_lists-kept v b (cyc, int) =
      let a = cyclic_at lib var_hash v.current_cmd_list_selector in
      let i = interrupt_at lib var_hash v.current_cmd_list_selector in
      let s1 = (node.write a v.raw_cyclic_cmd_mem v.dsp).0 in
      ground (
        arith,
        memory.write_outside a v.raw_cyclic_cmd_mem v.dsp b cyc,
        memory.write_outside i v.raw_interrupt_cmd_mem s1 b int,
      )

  abbrev flipped : Server node.State → Server node.State
  flipped v = record v { current_cmd_list_selector = flip v.current_cmd_list_selector }

  upload-done : (v : Server node.State) → (upload v).1 ≡ (write_lists (flipped v)).1
  unfolding upload_command_lists flip_command_list_selector
  upload-done v = ground arith

  write_lists-selector :
      (v : Server node.State)
      → (write_lists v).0.current_cmd_list_selector ≡ v.current_cmd_list_selector
  unfolding write_dsp_cmd_lists_to_dev_node
  write_lists-selector v = ground arith

  upload-selector :
      (v : Server node.State)
      → (upload v).0.current_cmd_list_selector ≡ flip v.current_cmd_list_selector
  unfolding upload_command_lists flip_command_list_selector
  upload-selector v = ground (arith, write_lists-selector (flipped v))

  -- After a failure no command is sent.
  upload-not_told :
      (v : Server node.State)
      → (upload v).1 ≡ false
      → (upload v).0.dsp ≡ (write_lists (flipped v)).0.dsp
  unfolding upload_command_lists flip_command_list_selector
  upload-not_told v failed = ground arith

  upload-lists :
      (v : Server node.State) (b : ℕ)
      → OutsideOfCommand lib var_hash b
      → word_at (upload v).0.dsp b ≡ word_at (write_lists (flipped v)).0.dsp b
  unfolding upload_command_lists flip_command_list_selector
  upload-lists v b (ack, par) =
      let r = write_lists (flipped v) in
      let line = codes "DSPCMDPAR,7," ++ decimal r.0.current_cmd_list_selector ++ codes ";" in
      let spare : AllSpare lib var_hash b (skip_empty (split b';' line)) =
        rw (write_lists-selector (flipped v))
          (flip_line-AllSpare lib var_hash v.current_cmd_list_selector b par) in
      elim (Bool-cases r.1) [
        | inl e ↦ rw e (
            send_command_2_dsp-kept lib var_hash node request memory request_kept line r.0.dsp b ack
              spare)
        | inr e ↦ rw e refl
      ]

  turned : (n : ℕ) → n < 2 → flip n + n ≡ 1
  unfolding flip
  turned n low = omega (arith, bit_and-one (n + 1))

  flip-flip : (n : ℕ) → n < 2 → flip (flip n) ≡ n
  unfolding flip
  flip-flip n low = omega (arith, bit_and-one (n + 1), bit_and-one (bit_and (n + 1) 1 + 1))

  -- An upload, successful or not, turns the selector to the other one of the two. It changes no word
  -- of the memory but those of the two compiled lists at the places of the new selector, the one of
  -- `DSPACK` and the first two of `DSPCMDPAR`. So the pair of lists of the old selector stays as it is
  -- where these places do not overlap it.
  pub upload_command_lists_lem :
      (v : Server node.State) (b : ℕ)
      → v.current_cmd_list_selector < 2
      → OutsideOfLists lib var_hash
          (flip v.current_cmd_list_selector)
          v.raw_cyclic_cmd_mem
          v.raw_interrupt_cmd_mem
          b
      → OutsideOfCommand lib var_hash b
      → ((upload v).0.current_cmd_list_selector + v.current_cmd_list_selector ≡ 1)
        × (word_at (upload v).0.dsp b ≡ word_at v.dsp b)
  upload_command_lists_lem v b low lists command = (
    ap (λ n. n + v.current_cmd_list_selector) (upload-selector v)
        ∙ turned v.current_cmd_list_selector low,
    upload-lists v b command ∙ write_lists-kept (flipped v) b lists,
  )

  write_lists-written :
      (v : Server node.State)
      → IsApart lib var_hash v.current_cmd_list_selector v.raw_cyclic_cmd_mem
          v.raw_interrupt_cmd_mem
      → (write_lists v).1 ≡ true
      → words_from
          (word_at (write_lists v).0.dsp)
          (length v.raw_cyclic_cmd_mem)
          (cyclic_at lib var_hash v.current_cmd_list_selector)
        ≡ v.raw_cyclic_cmd_mem
  unfolding write_dsp_cmd_lists_to_dev_node address_of
  write_lists-written v apart done =
      let a = cyclic_at lib var_hash v.current_cmd_list_selector in
      let i = interrupt_at lib var_hash v.current_cmd_list_selector in
      let r = node.write a v.raw_cyclic_cmd_mem v.dsp in
      elim (Bool-cases r.1) [
        | inl e ↦ rw e (
            words_from-kept (word_at r.0) (word_at (node.write i v.raw_interrupt_cmd_mem r.0).0)
              (length v.raw_cyclic_cmd_mem) a
              (λ b low high.
                memory.write_outside i v.raw_interrupt_cmd_mem r.0 b
                  (apart.from_interrupt_list b low high))
            ∙ memory.write_done a v.raw_cyclic_cmd_mem v.dsp apart.bounded e)
        | inr e ↦ absurd (ground (arith, e))
      ]

  upload-written :
      (v : Server node.State)
      → IsApart lib var_hash
          (flip v.current_cmd_list_selector)
          v.raw_cyclic_cmd_mem
          v.raw_interrupt_cmd_mem
      → (upload v).1 ≡ true
      → words_from
          (word_at (upload v).0.dsp)
          (length v.raw_cyclic_cmd_mem)
          (cyclic_at lib var_hash (flip v.current_cmd_list_selector))
        ≡ v.raw_cyclic_cmd_mem
  upload-written v apart done =
      words_from-kept (word_at (write_lists (flipped v)).0.dsp) (word_at (upload v).0.dsp)
        (length v.raw_cyclic_cmd_mem) (cyclic_at lib var_hash (flip v.current_cmd_list_selector))
        (λ b low high. upload-lists v b (apart.from_command b low high))
      ∙ write_lists-written (flipped v) apart (sym (upload-done v) ∙ done)

  -- What `compileCmdListsForAllClientsToBinaryStream` has put in the buffers for an upload.
  abbrev pub filled : List ℕ → List ℕ → Server node.State → Server node.State
  filled cyclic interrupt v = record v {
    raw_cyclic_cmd_mem = cyclic;
    raw_interrupt_cmd_mem = interrupt;
  }

  -- If an upload fails, the DSP is not told: the two words of `DSPCMDPAR` that say which lists to run
  -- stay as they are, where the lists do not reach them. Yet the selector is turned, so that the next
  -- upload, if it succeeds, leaves its cyclic list at the place of the selector from before the failure;
  -- this place has to be apart from that of the interrupt list and from the words of a command.
  pub upload-failed :
      (v : Server node.State) (cyclic interrupt : List ℕ)
      → v.current_cmd_list_selector < 2
      → (upload v).1 ≡ false
      → OutsideOfLists lib var_hash
          (flip v.current_cmd_list_selector)
          v.raw_cyclic_cmd_mem
          v.raw_interrupt_cmd_mem
          (at lib var_hash (codes "DSPCMDPAR"))
      → OutsideOfLists lib var_hash
          (flip v.current_cmd_list_selector)
          v.raw_cyclic_cmd_mem
          v.raw_interrupt_cmd_mem
          (suc (at lib var_hash (codes "DSPCMDPAR")))
      → let w = filled cyclic interrupt (upload v).0 in
        (upload w).1 ≡ true
        → IsApart lib var_hash v.current_cmd_list_selector cyclic interrupt
        → (words_from (word_at w.dsp) 2 (at lib var_hash (codes "DSPCMDPAR"))
            ≡ words_from (word_at v.dsp) 2 (at lib var_hash (codes "DSPCMDPAR")))
          × (words_from
                (word_at (upload w).0.dsp)
                (length cyclic)
                (cyclic_at lib var_hash v.current_cmd_list_selector)
              ≡ cyclic)
  upload-failed v cyclic interrupt low failed first second done apart =
      let w = filled cyclic interrupt (upload v).0 in
      let kept : (b : ℕ)
          → OutsideOfLists lib var_hash (flip v.current_cmd_list_selector) v.raw_cyclic_cmd_mem
              v.raw_interrupt_cmd_mem b
          → word_at w.dsp b ≡ word_at v.dsp b =
        λ b out.
          ap (λ s. word_at s b) (upload-not_told v failed) ∙ write_lists-kept (flipped v) b out in
      let back : flip w.current_cmd_list_selector ≡ v.current_cmd_list_selector =
        ap flip (upload-selector v) ∙ flip-flip v.current_cmd_list_selector low in
      let one = kept (at lib var_hash (codes "DSPCMDPAR")) first in
      let two = kept (suc (at lib var_hash (codes "DSPCMDPAR"))) second in
      (
        cc,
        subst
            (λ n.
              words_from (word_at (upload w).0.dsp) (length cyclic) (cyclic_at lib var_hash n)
              ≡ cyclic)
            back
            (upload-written w
              (subst (λ n. IsApart lib var_hash n cyclic interrupt) (sym back) apart) done),
      )
