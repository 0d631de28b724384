-- ===== src/Sec/Device.antt =====
-- The device node of the error calculators, as sec1000d/lib/device-nodes/devicenodesec.cpp hands it
-- on: the kernel driver behind it is a parameter.
use zenux_services.Prelude.{ℕ, ◌≡◌, if◌then◌else◌, ◌==◌}

-- One word of four bytes is read or written where the last `lseek` pointed.
pub record DeviceNode : Type 1 where
  pub State : Type 0
  pub lseek : ℕ → State → State
  pub read : State → ℕ × State
  pub write : ℕ → State → State

-- The behaviour of the register file that the code relies on: an access does not move the position,
-- and a register keeps the word that was written last.
pub record IsRegisterFile (dev : DeviceNode) : Type 1 where
  pub pos : dev.State → ℕ
  pub word : dev.State → ℕ → ℕ
  pub pos-lseek : (a : ℕ) (s : dev.State) → pos (dev.lseek a s) ≡ a
  pub word-lseek : (a b : ℕ) (s : dev.State) → word (dev.lseek a s) b ≡ word s b
  pub value-read : (s : dev.State) → (dev.read s).0 ≡ word s (pos s)
  pub pos-read : (s : dev.State) → pos (dev.read s).1 ≡ pos s
  pub word-read : (b : ℕ) (s : dev.State) → word (dev.read s).1 b ≡ word s b
  pub pos-write : (v : ℕ) (s : dev.State) → pos (dev.write v s) ≡ pos s
  pub word-write :
      (v b : ℕ) (s : dev.State) → word (dev.write v s) b ≡ (if b == pos s then v else word s b)
