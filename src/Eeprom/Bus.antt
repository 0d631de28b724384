-- ===== src/Eeprom/Bus.antt =====
-- The I2C transfers below the EEPROM driver, and the chip that answers them.
use zenux_services.Prelude.{
  ℕ, zero, suc, ◌+◌, ◌-◌, ◌*◌, ◌%◌, ◌≤◌, ◌<◌, ◌≡◌, ◌&&◌, List, [], ◌∷◌, ltb, leb, if◌then◌else◌,
  length, get_or,
}

-- `I2C_IO_OK`, `I2C_IO_ERR_TRANSACTION`, any other error.
pub data IoResult : Type 0 where
  io_ok io_err_transaction io_err : IoResult

-- `I2CTransfer`: a read of a few bytes, a write of a message, and a write of an address followed by
-- a read of so many bytes.
pub record I2cBus : Type 1 where
  pub State : Type 0
  pub probe : State → IoResult × State
  pub transfer_write : List ℕ → State → IoResult × State
  pub transfer_read :
      List ℕ → ℕ → State → record { result : IoResult; bytes : List ℕ; state : State }

-- The bytes `data` stand at `at` in the second memory, and all else is as in the first.
abbrev pub Patched : ℕ → List ℕ → (ℕ → ℕ) → (ℕ → ℕ) → Type 0
Patched at bytes old new =
    (i : ℕ)
    → new i ≡ (if leb at i && ltb i (at + length bytes) then get_or bytes (i - at) 0 else old i)

-- The `n` bytes from `at` on.
abbrev pub window : (ℕ → ℕ) → ℕ → ℕ → List ℕ
window mem at zero = []
window mem at (suc n) = mem at ∷ window mem (at + 1) n

-- A 24LCxxx as its data sheet has it. Within one page of 64 bytes, a write is taken at once if the
-- chip is idle, and keeps it busy for less than 100 polls; while it is busy it does not acknowledge.
-- An idle chip answers a read.
pub record IsEeprom (bus : I2cBus) (capacity : ℕ) : Type 1 where
  pub mem : bus.State → ℕ → ℕ
  pub busy : bus.State → ℕ
  pub probe_idle :
      (s : bus.State)
      → busy s ≡ 0
      → ((bus.probe s).0 ≡ io_ok)
        × (busy (bus.probe s).1 ≡ 0)
        × ((i : ℕ) → mem (bus.probe s).1 i ≡ mem s i)
  pub write_busy :
      (message : List ℕ) (s : bus.State)
      → 0 < busy s
      → ((bus.transfer_write message s).0 ≡ io_err_transaction)
        × (busy (bus.transfer_write message s).1 + 1 ≡ busy s)
        × ((i : ℕ) → mem (bus.transfer_write message s).1 i ≡ mem s i)
  pub write_idle :
      (hi lo : ℕ) (bytes : List ℕ) (s : bus.State)
      → busy s ≡ 0
      → (hi * 256 + lo) % 64 + length bytes ≤ 64
      → hi * 256 + lo + length bytes ≤ capacity
      → ((bus.transfer_write (hi ∷ lo ∷ bytes) s).0 ≡ io_ok)
        × (busy (bus.transfer_write (hi ∷ lo ∷ bytes) s).1 < 100)
        × Patched (hi * 256 + lo) bytes (mem s) (mem (bus.transfer_write (hi ∷ lo ∷ bytes) s).1)
  pub read_idle :
      (hi lo n : ℕ) (s : bus.State)
      → busy s ≡ 0
      → hi * 256 + lo + n ≤ capacity
      → let o = bus.transfer_read (hi ∷ lo ∷ []) n s in
        (o.result ≡ io_ok)
        × (o.bytes ≡ window (mem s) (hi * 256 + lo) n)
        × (busy o.state ≡ 0)
        × ((i : ℕ) → mem o.state i ≡ mem s i)
