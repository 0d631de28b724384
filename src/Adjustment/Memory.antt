-- ===== src/Adjustment/Memory.antt =====
-- `EepromI2c24LCxxx` as the `AbstractEepromI2cDevice` that `AdjustmentEepromReadWrite` holds.
use zenux_services.Prelude.{ℕ, ◌^◌, ◌≤◌, ◌≡◌, refl, ◌∙◌, Option, none, some, [], arith}
use zenux_services.Eeprom.Bus.{I2cBus, IsEeprom}
use zenux_services.Eeprom.Driver.{
  read_data as chip_read, write_data as chip_write, reset as chip_reset,
}
use zenux_services.Eeprom.Read.{read_data_lem as chip_read_lem, window-same}
use zenux_services.Eeprom.Write.{write_data_lem as chip_write_lem}
use zenux_services.Adjustment.ReadWrite.{AdjMemory}
use zenux_services.Adjustment.RoundTrip.{IsAdjMemory}

-- The value, or a default: the driver always ends (see `Eeprom.Termination`).
abbrev pub or_else {ℓ} : {A : Type ℓ} → A → Option A → A
or_else d none = d
or_else d (some a) = a

-- `settle` is the time that passes between two calls.
abbrev pub eeprom_memory : (bus : I2cBus) → ℕ → (bus.State → bus.State) → AdjMemory
eeprom_memory bus capacity settle = record {
  State = bus.State;
  byte_size = capacity;
  read_data = λ n s. or_else (0, [], s) (chip_read bus n 0 (settle s));
  write_data = λ bytes n s. or_else (0, s) (chip_write bus capacity bytes n 0 (settle s));
  reset = λ s. or_else (0, s) (chip_reset bus capacity (settle s));
}

-- On a 24LCxxx of at most 2 ^ 16 bytes that is idle again before each call, the driver reads and
-- writes in full what fits and has fewer than 2 ^ 16 bytes, and reads what was written.
pub eeprom_memory-IsAdjMemory :
    (bus : I2cBus) (capacity : ℕ) (settle : bus.State → bus.State) (chip : IsEeprom bus capacity)
    → capacity ≤ 2 ^ 16
    → ((s : bus.State) → chip.busy (settle s) ≡ 0)
    → ((s : bus.State) (i : ℕ) → chip.mem (settle s) i ≡ chip.mem s i)
    → IsAdjMemory (eeprom_memory bus capacity settle)
eeprom_memory-IsAdjMemory bus capacity settle chip cap idle kept = record {
  content = chip.mem;
  write_full = λ bytes s fits short.
      let (s', done, _, patched) =
        chip_write_lem bus capacity chip bytes 0 (settle s) (idle s) short (omega arith)
          (omega arith) cap in
      rw done (refl, λ i. patched i ∙ rw (kept s i) refl);
  read_full = λ n s fits short.
      let (s', done, same) =
        chip_read_lem bus capacity chip n 0 (settle s) (idle s) short (omega arith) (omega arith)
          cap in
      rw done
        (refl, window-same (chip.mem s) (chip.mem (settle s)) 0 n (kept s), λ i. same i ∙ kept s i);
}
