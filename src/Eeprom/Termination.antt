-- ===== src/Eeprom/Termination.antt =====
-- The loops of the EEPROM driver (eepromi2c24lcxxx.cpp), on any bus.
use zenux_services.Prelude.{
  ℕ, zero, suc, ◌+◌, ◌-◌, ◌%◌, ◌^◌, ◌≤◌, ◌<◌, ◌≡◌, ◌≢◌, refl, List, [], ◌∷◌, ◌++◌, Option, none,
  some, arith, length, take, drop, length-drop, ◌==◌, ◌||◌, not, ltb, Bool-cases, inl, inr,
}
use zenux_services.Eeprom.Bus.{IoResult, io_ok, io_err_transaction, io_err, I2cBus}
use zenux_services.Eeprom.Driver.{
  address_bytes, page_len, read_len, poll_write, write_loop, write_data, read_loop, read_data,
  when_ok, prepend, ReadResult, bytes_written, bytes_read,
}
use zenux_services.Eeprom.Write.{page_len_lem}

module _ (bus : I2cBus) where
  when_ok-some {ℓ} :
      {A : Type ℓ} (r : IoResult) (good bad : Option A)
      → good ≢ none
      → bad ≢ none
      → when_ok r good bad ≢ none
  when_ok-some io_ok good bad p q = p
  when_ok-some io_err_transaction good bad p q = q
  when_ok-some io_err good bad p q = q

  prepend-some :
      (front : List ℕ) (o : Option (ReadResult bus.State)) → o ≢ none → prepend front o ≢ none
  prepend-some front none h = absurd (h refl)
  prepend-some front (some r) h = λ e. cc

  write_loop-some :
      (fuel capacity : ℕ) (bytes : List ℕ) (a : ℕ) (s : bus.State)
      → length bytes < fuel
      → write_loop bus fuel capacity bytes a s ≢ none
  unfolding write_loop
  write_loop-some zero capacity bytes a s h = elim h [ ]
  write_loop-some (suc fuel) capacity [] a s h = λ e. cc
  write_loop-some (suc fuel) capacity (b ∷ bytes) a s h =
      let all = b ∷ bytes in
      let l = page_len (length all) a in
      let o = poll_write bus 100 (address_bytes a ++ take l all) s in
      let shorter : length (drop l all) < fuel =
        omega (arith, length-drop l all, page_len_lem (length all) a) in
      elim (Bool-cases (length all == 0 || not (ltb a capacity))) [
        | inl e ↦ rw e (λ q. cc)
        | inr e ↦ rw e (
            when_ok-some o.0 _ _
              (write_loop-some fuel capacity (drop l all) ((a + l) % 2 ^ 16) o.1 shorter) (λ q. cc))
      ]

  read_loop-some : (fuel n a : ℕ) (s : bus.State) → n < fuel → read_loop bus fuel n a s ≢ none
  unfolding read_loop
  read_loop-some zero n a s h = elim h [ ]
  read_loop-some (suc fuel) n a s h =
      let o = bus.transfer_read (address_bytes a) (read_len n) s in
      elim (Bool-cases (n == 0)) [
        | inl e ↦ rw e (λ q. cc)
        | inr e ↦ rw e (
            when_ok-some o.result _ _
              (prepend-some o.bytes _ (
                read_loop-some fuel (n - read_len n) ((a + read_len n) % 2 ^ 16) o.state
                  (unfold read_len in ground arith)))
              (λ q. cc))
      ]

  -- A result that is there, with its count bounded.
  abbrev pub Wrote : ℕ → Option (ℕ × bus.State) → Type 0
  Wrote limit o = (n : ℕ) × (s' : bus.State) × (o ≡ some (n, s')) × (n ≤ limit)

  abbrev pub Read : ℕ → Option (ℕ × List ℕ × bus.State) → Type 0
  Read limit o =
      (n : ℕ) × (bytes : List ℕ) × (s' : bus.State) × (o ≡ some (n, bytes, s')) × (n ≤ limit)

  bytes_written-Wrote :
      (limit count : ℕ) (o : Option (List ℕ × bus.State))
      → count ≤ limit
      → o ≢ none
      → Wrote limit (bytes_written count o)
  bytes_written-Wrote limit count none le h = absurd (h refl)
  bytes_written-Wrote limit count (some (left, s')) le h =
      (count - length left, s', refl, omega arith)

  bytes_read-Read :
      (limit count : ℕ) (o : Option (ReadResult bus.State))
      → count ≤ limit
      → o ≢ none
      → Read limit (bytes_read count o)
  bytes_read-Read limit count none le h = absurd (h refl)
  bytes_read-Read limit count (some r) le h =
      (count - r.to_read, r.bytes, r.state, refl, omega arith)

  when_ok-Wrote :
      (limit : ℕ) (r : IoResult) (good bad : Option (ℕ × bus.State))
      → Wrote limit good
      → Wrote limit bad
      → Wrote limit (when_ok r good bad)
  when_ok-Wrote limit io_ok good bad p q = p
  when_ok-Wrote limit io_err_transaction good bad p q = q
  when_ok-Wrote limit io_err good bad p q = q

  -- `WriteData` and `ReadData` return for every buffer, count and address and whatever the bus
  -- answers, and the number returned is at most the count.
  pub driver_terminates :
      (capacity count a : ℕ) (buffer : List ℕ) (s : bus.State)
      → Wrote count (write_data bus capacity buffer count a s)
        × Read count (read_data bus count a s)
  unfolding write_data read_data
  driver_terminates capacity count a buffer s =
      let bytes = take (count % 2 ^ 16) buffer in
      (
        when_ok-Wrote count (bus.probe s).0 _ _
            (bytes_written-Wrote count (count % 2 ^ 16) _ (omega arith) (
              write_loop-some (length bytes + 1) capacity bytes (a % 2 ^ 16) (bus.probe s).1
                (omega arith)))
            (0, (bus.probe s).1, refl, omega arith),
        bytes_read-Read count (count % 2 ^ 16) _ (omega arith)
            (read_loop-some (count % 2 ^ 16 + 1) (count % 2 ^ 16) (a % 2 ^ 16) s (omega arith)),
      )
