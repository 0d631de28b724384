-- ===== src/Tests/Adjustment.antt =====
-- Runs of the adjustment data on the chip of the EEPROM tests, without a cache.
use zenux_services.Prelude.{
  ℕ, ◌+◌, ◌%◌, ◌^◌, ◌<◌, ◌≡◌, ◌⊎◌, refl, true, false, Option, none, some, List, [], ◌∷◌, ◌++◌,
  arith,
}
use zenux_services.Prelude.Text.{codes}
use zenux_services.Tests.Eeprom.{Chip, chip_bus, chip_bus-IsEeprom, small_capacity, blank}
use zenux_services.Adjustment.Buffer.{be16, be32}
use zenux_services.Adjustment.ReadWrite.{
  AdjMemory, Files, Adj, read_data, read_data_cached, write_data,
}
use zenux_services.Adjustment.RoundTrip.{IsAdjMemory, adj_data-read_data-write_data}
use zenux_services.Adjustment.Validity.{HasChecksum, chip_checksum, read_data_cached_lem}
use zenux_services.Adjustment.Memory.{eeprom_memory, eeprom_memory-IsAdjMemory}

-- The chip has time to finish a page between two calls.
abbrev settle : Chip → Chip
settle s = record s { polls = 0 }

abbrev memory : AdjMemory
memory = eeprom_memory chip_bus small_capacity settle

eeprom_memory-IsAdjMemory_example : IsAdjMemory (eeprom_memory chip_bus small_capacity settle)
eeprom_memory-IsAdjMemory_example =
    eeprom_memory-IsAdjMemory chip_bus small_capacity settle (chip_bus-IsEeprom small_capacity)
      (omega arith) (λ s. refl) (λ s i. refl)

memory-IsAdjMemory : IsAdjMemory memory
memory-IsAdjMemory =
    eeprom_memory-IsAdjMemory chip_bus small_capacity settle (chip_bus-IsEeprom small_capacity)
      (omega arith) (λ s. refl) (λ s i. refl)

-- One file at most.
abbrev no_files : Files
no_files = record {
  State = Option (List ℕ);
  mkpath = λ path s. (true, s);
  absolute_file_path = λ path. path;
  remove = λ path s. none;
  read_all = λ path s. s;
  open_write = λ path s. (true, s);
  write = λ path bytes s. some bytes;
}

abbrev sum : List ℕ → ℕ
sum [] = 0
sum (b ∷ bs) = (b + sum bs) % 2 ^ 16

sum-lt : (bs : List ℕ) → sum bs < 2 ^ 16
sum-lt [] = omega arith
sum-lt (b ∷ bs) = omega arith

abbrev data_to_write : Adj Chip (Option (List ℕ))
data_to_write = record {
  checksum = 0;
  adj_data = 0 ∷ 0 ∷ 0 ∷ 0 ∷ 0 ∷ 0 ∷ 7 ∷ 8 ∷ 9 ∷ [];
  adj_data_read_is_valid = false;
  memory = blank;
  files = none;
}

adj_data-read_data-write_data_example :
    let (b, written) = write_data sum (codes "/cache") memory no_files data_to_write in
    let (c, ok) = read_data sum (codes "/cache") memory no_files b in
    (written ≡ true)
    × (ok ≡ true)
    × (c.adj_data ≡ be32 9 ++ be16 0 ++ 7 ∷ 8 ∷ 9 ∷ [])
    × (c.checksum ≡ sum c.adj_data)
adj_data-read_data-write_data_example =
    adj_data-read_data-write_data sum (codes "/cache") memory no_files memory-IsAdjMemory sum-lt
      data_to_write (omega arith) (omega arith) (omega arith)

-- A blank chip is rejected.
read_data_cached_lem_example :
    let (b, ok) =
      read_data_cached sum (codes "/cache") memory no_files (codes "adj") data_to_write in
    ((ok ≡ true)
      × (b.adj_data_read_is_valid ≡ true)
      × HasChecksum sum
          (codes "/cache")
          memory
          no_files
          (chip_checksum sum (codes "/cache") memory no_files data_to_write.memory)
          b.adj_data)
    ⊎ ((ok ≡ false) × (b.adj_data_read_is_valid ≡ false) × (b.adj_data ≡ data_to_write.adj_data))
read_data_cached_lem_example =
    read_data_cached_lem sum (codes "/cache") memory no_files (codes "adj") data_to_write refl
