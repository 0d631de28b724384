-- ===== src/Eeprom/Driver.antt =====
-- `EepromI2c24LCxxx` of i2ceeprom/lib/eepromi2c24lcxxx.cpp. Loops run on fuel, `none` when it is used
-- up; log lines and waiting are left out.
use zenux_services.Prelude.{
  ℕ, zero, suc, ◌+◌, ◌-◌, ◌/◌, ◌%◌, ◌^◌, bit_and, not, ◌||◌, Option, none, some, List, [], ◌∷◌,
  ◌++◌, ltb, ◌==◌, if◌then◌else◌, length, take, drop, replicate,
}
use zenux_services.Eeprom.Bus.{IoResult, io_ok, io_err_transaction, io_err, I2cBus}

unfoldable pub address_bytes : ℕ → List ℕ
address_bytes mem_address = bit_and (mem_address / 2 ^ 8) 0xff ∷ bit_and mem_address 0xff ∷ []

abbrev pub block_read_len : ℕ
block_read_len = 4096

-- How many bytes the next message takes: up to the end of the page.
unfoldable pub page_len : ℕ → ℕ → ℕ
page_len to_write mem_address =
    let pl = 64 - bit_and mem_address 0x3f in if ltb pl to_write then pl else to_write

unfoldable pub read_len : ℕ → ℕ
read_len to_read = if ltb block_read_len to_read then block_read_len else to_read

-- The first value if the transfer was good.
abbrev pub when_ok {ℓ} : {A : Type ℓ} → IoResult → A → A → A
when_ok io_ok good bad = good
when_ok io_err_transaction good bad = bad
when_ok io_err good bad = bad

-- What a read has brought, and how many bytes are missing.
pub record ReadResult (S : Type 0) : Type 0 where
  pub bytes : List ℕ
  pub to_read : ℕ
  pub state : S

abbrev pub prepend : {S : Type 0} → List ℕ → Option (ReadResult S) → Option (ReadResult S)
prepend front none = none
prepend front (some r) = some (record r { bytes = front ++ r.bytes })

abbrev pub bytes_written : {S : Type 0} → ℕ → Option (List ℕ × S) → Option (ℕ × S)
bytes_written count none = none
bytes_written count (some (left, s)) = some (count - length left, s)

-- The return value of `ReadData`, the bytes, and the state.
abbrev pub bytes_read : {S : Type 0} → ℕ → Option (ReadResult S) → Option (ℕ × List ℕ × S)
bytes_read count none = none
bytes_read count (some r) = some (count - r.to_read, r.bytes, r.state)

module _ (bus : I2cBus) where
  open bus use {State, probe, transfer_write, transfer_read}

  -- The acknowledge polling: so many rounds at most.
  unfoldable pub poll_write : ℕ → List ℕ → State → IoResult × State
  poll_write zero message s = (io_err_transaction, s)
  poll_write (suc rounds) message s =
      let (r, s') = transfer_write message s in
      elim r [
        | io_ok ↦ (io_ok, s')
        | io_err_transaction ↦ poll_write rounds message s'
        | io_err ↦ (io_err, s')
      ]

  -- The bytes still to write are left over when an error or the end of the memory stops the loop.
  unfoldable pub write_loop : ℕ → ℕ → List ℕ → ℕ → State → Option (List ℕ × State)
  write_loop zero capacity bytes mem_address s = none
  write_loop (suc fuel) capacity bytes mem_address s =
      let l = page_len (length bytes) mem_address in
      let (r, s') = poll_write 100 (address_bytes mem_address ++ take l bytes) s in
      let rest = write_loop fuel capacity (drop l bytes) ((mem_address + l) % 2 ^ 16) s' in
      let written = when_ok r rest (some (bytes, s')) in
      if length bytes == 0 || not (ltb mem_address capacity) then some (bytes, s) else written

  -- `count` and `memAddress` are `ushort`. The result is the number of bytes written.
  unfoldable pub write_data : ℕ → List ℕ → ℕ → ℕ → State → Option (ℕ × State)
  write_data capacity buffer count mem_address s =
      let bytes = take (count % 2 ^ 16) buffer in
      let (r, s') = probe s in
      let written =
        bytes_written (count % 2 ^ 16)
          (write_loop (length bytes + 1) capacity bytes (mem_address % 2 ^ 16) s') in
      when_ok r written (some (0, s'))

  unfoldable pub reset : ℕ → State → Option (ℕ × State)
  reset capacity s = write_data capacity (replicate capacity 0xFF) capacity 0 s

  unfoldable pub read_loop : ℕ → ℕ → ℕ → State → Option (ReadResult State)
  read_loop zero to_read mem_address s = none
  read_loop (suc fuel) to_read mem_address s =
      let l = read_len to_read in
      let o = transfer_read (address_bytes mem_address) l s in
      let rest =
        prepend o.bytes (read_loop fuel (to_read - l) ((mem_address + l) % 2 ^ 16) o.state) in
      let stopped = some (record { bytes = []; to_read = to_read; state = o.state }) in
      let done = some (record { bytes = []; to_read = 0; state = s }) in
      if to_read == 0 then done else when_ok o.result rest stopped

  unfoldable pub read_data : ℕ → ℕ → State → Option (ℕ × List ℕ × State)
  read_data count mem_address s =
      bytes_read (count % 2 ^ 16)
        (read_loop (count % 2 ^ 16 + 1) (count % 2 ^ 16) (mem_address % 2 ^ 16) s)
