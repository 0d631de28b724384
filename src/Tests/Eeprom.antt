-- ===== src/Tests/Eeprom.antt =====
-- Runs of the EEPROM driver on a chip that is busy for three polls after each page.
use zenux_services.Prelude.{
  ℕ, ◌+◌, ◌-◌, ◌*◌, ◌%◌, ◌^◌, ◌<◌, ◌≡◌, refl, ◌&&◌, true, false, some, List, [], ◌∷◌, arith, leb,
  ltb, ◌==◌, if◌then◌else◌, length, get_or,
}
use zenux_services.Eeprom.Bus.{io_ok, io_err_transaction, I2cBus, IsEeprom, Patched, window}
use zenux_services.Eeprom.Driver.{write_data, read_data, reset}
use zenux_services.Eeprom.Write.{write_data_lem, reset_lem}
use zenux_services.Eeprom.Read.{read_data-write_data}
use zenux_services.Eeprom.Termination.{Wrote, Read, driver_terminates}

pub record Chip : Type 0 where
  pub memory : ℕ → ℕ
  pub polls : ℕ

abbrev pub program : List ℕ → Chip → Chip
program (hi ∷ lo ∷ bytes) s =
    let at = hi * 256 + lo in
    record {
      memory = λ i.
          if leb at i && ltb i (at + length bytes) then get_or bytes (i - at) 0 else s.memory i;
      polls = 3;
    }
program _ s = s

abbrev pub read_address : List ℕ → ℕ
read_address (hi ∷ lo ∷ []) = hi * 256 + lo
read_address _ = 0

abbrev pub chip_bus : I2cBus
chip_bus = record {
  State = Chip;
  probe = λ s. (io_ok, s);
  transfer_write = λ message s.
      if s.polls == 0
      then (io_ok, program message s)
      else (io_err_transaction, record s { polls = s.polls - 1 });
  transfer_read = λ message n s. record {
    result = io_ok;
    bytes = window s.memory (read_address message) n;
    state = s;
  };
}

abbrev pub chip_bus-IsEeprom : (capacity : ℕ) → IsEeprom chip_bus capacity
chip_bus-IsEeprom capacity = record {
  mem = λ s. s.memory;
  busy = λ s. s.polls;
  probe_idle = λ s idle. (refl, idle, λ i. refl);
  write_busy = λ message s later.
      let e : (s.polls == 0) ≡ false = ground arith in
      simp e (refl, omega (arith, later), λ i. refl);
  write_idle = λ hi lo bytes s idle page fits.
      let e : (s.polls == 0) ≡ true = ground arith in simp e (refl, omega arith, λ i. refl);
  read_idle = λ hi lo n s idle fits. (refl, refl, idle, λ i. refl);
}

abbrev pub small_capacity : ℕ
small_capacity = 1000

abbrev pub blank : Chip
blank = record { memory = λ i. 0xFF; polls = 0 }

-- Six bytes from address 60 on: two pages.
abbrev six_bytes : List ℕ
six_bytes = 1 ∷ 2 ∷ 3 ∷ 4 ∷ 5 ∷ 6 ∷ []

write_data_lem_example :
    (s' : Chip) × (write_data chip_bus small_capacity six_bytes 6 60 blank ≡ some (6, s'))
    × (s'.polls < 100)
    × Patched 60 six_bytes blank.memory s'.memory
write_data_lem_example =
    write_data_lem chip_bus small_capacity (chip_bus-IsEeprom small_capacity) six_bytes 60 blank
      refl (omega arith) (omega arith) (omega arith) (omega arith)

reset_lem_example :
    (s' : Chip) × (reset chip_bus small_capacity blank ≡ some (small_capacity % 2 ^ 16, s'))
    × ((i : ℕ) → s'.memory i ≡ (if ltb i (small_capacity % 2 ^ 16) then 0xFF else blank.memory i))
reset_lem_example =
    reset_lem chip_bus small_capacity (chip_bus-IsEeprom small_capacity) blank refl (omega arith)

read_data-write_data_example :
    (s' : Chip) × (write_data chip_bus small_capacity six_bytes 6 60 blank ≡ some (6, s'))
    × ((t : Chip)
        → t.polls ≡ 0
        → ((i : ℕ) → t.memory i ≡ s'.memory i)
        → (t' : Chip) × (read_data chip_bus 6 60 t ≡ some (6, six_bytes, t')))
read_data-write_data_example =
    read_data-write_data chip_bus small_capacity (chip_bus-IsEeprom small_capacity) six_bytes 60
      blank refl (omega arith) (omega arith) (omega arith) (omega arith)

driver_terminates_example :
    Wrote chip_bus 6 (write_data chip_bus small_capacity six_bytes 6 60 blank)
    × Read chip_bus 6 (read_data chip_bus 6 60 blank)
driver_terminates_example = driver_terminates chip_bus small_capacity 6 60 six_bytes blank
