-- ===== src/Dsp/Upload.antt =====
-- Command lists on their way to the signal processor: `loadCmdListAllClients` and what it calls in
-- zdsp1d/lib/zdspserver.cpp, and the commands that the server sends. Variables are read and written as in
-- zdsp1d/lib/dspvardevicenodeinout.cpp; the device node is a parameter. The buffers of bytes are lists of
-- words of 32 bits here.
use zenux_services.Prelude.{
  ℕ, ◌+◌, Bool, true, false, Option, none, some, List, ◌∷◌, ◌++◌, bit_and, if◌then◌else◌, ◌==◌,
}
use zenux_services.Prelude.Int.{ℤ, pos, negsuc}
use zenux_services.Prelude.Text.{Text, codes, decimal}
use zenux_services.Scpi.{Answer, ack, busy, errval, errexec, value, scpi_answer}
use zenux_services.Dsp.Layout.{DspVar}
use zenux_services.Dsp.Resolver.{get_var_address}
use zenux_services.Dsp.Compiler.{word_of_int}
use zenux_services.Dsp.DeviceInOut.{ValueLib, DeviceNode, read_one_dsp_var_int, write_dsp_vars}

-- `m_rawCyclicCmdMem`, `m_rawInterruptCmdMem`, `m_currentCmdListSelector`.
pub record Server (S : Type 0) : Type 0 where
  pub raw_cyclic_cmd_mem : List ℕ
  pub raw_interrupt_cmd_mem : List ℕ
  pub current_cmd_list_selector : ℕ
  pub dsp : S

-- `InProgress` of `DSPACK`.
abbrev pub in_progress : ℕ
in_progress = 1

unfoldable pub flip : ℕ → ℕ
flip selector = bit_and (selector + 1) 1

unfoldable pub cyclic_name : ℕ → Text
cyclic_name selector = if selector == 0 then codes "CMDLIST" else codes "ALTCMDLIST"

unfoldable pub interrupt_name : ℕ → Text
interrupt_name selector = if selector == 0 then codes "INTCMDLIST" else codes "ALTINTCMDLIST"

-- Whether the value of `DSPACK` says that a command is in progress.
unfoldable pub is_in_progress : ℤ → Bool
is_in_progress (pos n) = n == in_progress
is_in_progress (negsuc n) = false

-- `request` is `dspRequestInt` of the device node, and `var_hash` holds the variables of the DSP itself, which
-- a resolver without a client knows.
module _ (lib : ValueLib) (var_hash : List (Text × DspVar)) (node : DeviceNode)
    (request : node.State → node.State) where
  open node use {State}

  unfoldable pub send_command_2_dsp : Text → State → Answer × State
  send_command_2_dsp line s =
      let (s1, o) = read_one_dsp_var_int lib node var_hash (codes "DSPACK") s in
      let (s2, reset) = write_dsp_vars lib node var_hash (codes "DSPACK,0;") s1 in
      let (s3, sent) = write_dsp_vars lib node var_hash line s2 in
      elim o [
        | none ↦ (errexec, s1)
        | some n ↦
            if is_in_progress n
            then (busy, s1)
            else if reset
            then if sent then (ack, request s3) else (errexec, s3)
            else (errexec, s2)
      ]

  unfoldable pub flip_command_list_selector : Server State → Server State
  flip_command_list_selector v = record v {
    current_cmd_list_selector = flip v.current_cmd_list_selector;
  }

  -- The address as an `ulong`; -1 is not told apart here.
  unfoldable pub address_of : Text → ℕ
  address_of name = word_of_int 32 (get_var_address lib.numbers var_hash name)

  unfoldable pub write_dsp_cmd_lists_to_dev_node : Server State → Server State × Bool
  write_dsp_cmd_lists_to_dev_node v =
      let selector = v.current_cmd_list_selector in
      let (s1, cyc) = node.write (address_of (cyclic_name selector)) v.raw_cyclic_cmd_mem v.dsp in
      let (s2, int) =
        node.write (address_of (interrupt_name selector)) v.raw_interrupt_cmd_mem s1 in
      if cyc then (record v { dsp = s2 }, int) else (record v { dsp = s1 }, false)

  -- The answer to the command is not looked at.
  unfoldable pub upload_command_lists : Server State → Server State × Bool
  upload_command_lists v =
      let (w, written) = write_dsp_cmd_lists_to_dev_node (flip_command_list_selector v) in
      let line = codes "DSPCMDPAR,7," ++ decimal w.current_cmd_list_selector ++ codes ";" in
      let told = record w { dsp = (send_command_2_dsp line w.dsp).1 } in
      if written then (told, true) else (w, false)

  -- `compiled` is what `compileCmdListsForAllClientsToBinaryStream` has put in the two buffers, whether
  -- it succeeded, and its error.
  unfoldable pub load_cmd_list_all_clients :
      List ℕ → List ℕ → Option Text → Server State → Server State × Answer
  load_cmd_list_all_clients cyclic interrupt compiled v =
      let filled = record v { raw_cyclic_cmd_mem = cyclic; raw_interrupt_cmd_mem = interrupt } in
      elim compiled [
        | some errs ↦ (filled, value (scpi_answer errval ++ b' ' ∷ errs))
        | none ↦ let (w, done) = upload_command_lists filled in (w, if done then ack else errexec)
      ]
