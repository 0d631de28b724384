-- ===== src/Dsp/Places.antt =====
-- The places in the memory of the DSP that an upload of command lists and its command name, and what the
-- sending of a command (`sendCommand2Dsp` of zdsp1d/lib/zdspserver.cpp) reaches of it.
use zenux_services.Prelude.{
  ℕ, ◌+◌, ◌<◌, ◌≤◌, ◌^◌, ◌≡◌, ◌⊎◌, inl, inr, length, bit_and, List, ◌++◌, arith,
}
use zenux_services.Prelude.Bits.{bit_and-one}
use zenux_services.Prelude.Text.{Text, codes, decimal, split, skip_empty}
use zenux_services.Dsp.Layout.{DspVar}
use zenux_services.Dsp.DeviceInOut.{ValueLib, DeviceNode, read_one_dsp_var_int, write_dsp_vars}
use zenux_services.Dsp.DeviceInOut.Kept.{
  IsDspMemory, Outside, AllSpare, written_at, write_dsp_vars-kept, read_one_dsp_var_int-kept,
}
use zenux_services.Dsp.Upload.{flip, cyclic_name, interrupt_name, send_command_2_dsp}

-- The interrupt at the DSP changes no word but `DSPACK`.
abbrev pub KeepsWords :
    (lib : ValueLib) (var_hash : List (Text × DspVar)) (node : DeviceNode)
    → IsDspMemory node
    → (node.State → node.State)
    → Type 0
KeepsWords lib var_hash node memory request =
    (s : node.State) (b : ℕ)
    → Outside (written_at lib var_hash (codes "DSPACK")) 1 b
    → memory.word_at (request s) b ≡ memory.word_at s b

module _ (lib : ValueLib) (var_hash : List (Text × DspVar)) where
  abbrev pub at : Text → ℕ
  at name = written_at lib var_hash name

  -- `DSPACK` is written with one value and `DSPCMDPAR` with two.
  abbrev pub OutsideOfCommand : ℕ → Type 0
  OutsideOfCommand b = Outside (at (codes "DSPACK")) 1 b × Outside (at (codes "DSPCMDPAR")) 2 b

  abbrev pub cyclic_at : ℕ → ℕ
  cyclic_at selector = at (cyclic_name selector)

  abbrev pub interrupt_at : ℕ → ℕ
  interrupt_at selector = at (interrupt_name selector)

  -- The word `b` is not one of those where two compiled lists go for a selector.
  abbrev pub OutsideOfLists : ℕ → List ℕ → List ℕ → ℕ → Type 0
  OutsideOfLists selector cyclic interrupt b =
      Outside (cyclic_at selector) (length cyclic) b
      × Outside (interrupt_at selector) (length interrupt) b

  -- The place of the compiled cyclic list is within 32 bits and apart from that of the other list and
  -- from the words of a command.
  pub record IsApart (selector : ℕ) (cyclic interrupt : List ℕ) : Type 0 where
    pub bounded : cyclic_at selector + length cyclic ≤ 2 ^ 32
    pub from_interrupt_list :
        (b : ℕ)
        → cyclic_at selector ≤ b
        → b < cyclic_at selector + length cyclic
        → Outside (interrupt_at selector) (length interrupt) b
    pub from_command :
        (b : ℕ)
        → cyclic_at selector ≤ b
        → b < cyclic_at selector + length cyclic
        → OutsideOfCommand b

  -- The command that tells the DSP the selector.
  pub flip_line-AllSpare :
      (n b : ℕ)
      → Outside (at (codes "DSPCMDPAR")) 2 b
      → AllSpare lib var_hash b
          (skip_empty (split b';' (codes "DSPCMDPAR,7," ++ decimal (flip n) ++ codes ";")))
  unfolding skip_empty split flip decimal
  flip_line-AllSpare n b out = elim (bit_and-cases (n + 1)) [
    | inl e ↦ rw e (out, tt)
    | inr e ↦ rw e (out, tt)
  ]
    where
      bit_and-cases : (n : ℕ) → (bit_and n 1 ≡ 0) ⊎ (bit_and n 1 ≡ 1)
      bit_and-cases n = omega (arith, bit_and-one n)

  module _ (node : DeviceNode) (request : node.State → node.State) (memory : IsDspMemory node)
      (request_kept : KeepsWords lib var_hash node memory request) where
    open memory use {word_at}

    pub send_command_2_dsp-kept :
        (line : Text) (s : node.State) (b : ℕ)
        → Outside (at (codes "DSPACK")) 1 b
        → AllSpare lib var_hash b (skip_empty (split b';' line))
        → word_at (send_command_2_dsp lib var_hash node request line s).1 b ≡ word_at s b
    unfolding send_command_2_dsp skip_empty split
    send_command_2_dsp-kept line s b ack spare =
        let s1 = (read_one_dsp_var_int lib node var_hash (codes "DSPACK") s).0 in
        let s2 = (write_dsp_vars lib node var_hash (codes "DSPACK,0;") s1).0 in
        let s3 = (write_dsp_vars lib node var_hash line s2).0 in
        ground (
          arith,
          read_one_dsp_var_int-kept lib var_hash node memory (codes "DSPACK") s b,
          write_dsp_vars-kept lib var_hash node memory (codes "DSPACK,0;") s1 b (ack, tt),
          write_dsp_vars-kept lib var_hash node memory line s2 b spare,
          request_kept s3 b ack,
        )
