-- ===== src/Eeprom/Write.antt =====
-- `WriteData` and `Reset` on a 24LCxxx.
use zenux_services.Prelude.{
  ℕ, zero, suc, ◌+◌, ◌-◌, ◌*◌, ◌/◌, ◌%◌, ◌^◌, ◌≤◌, ◌<◌, ◌≡◌, refl, sym, ap, subst, ◌∙◌, false, not,
  ◌&&◌, ◌||◌, List, [], ◌∷◌, ◌++◌, some, arith, ltb, leb, ◌==◌, if◌then◌else◌, length, take, drop,
  ltb→lt, get_or, replicate, length-take, length-drop, get_or-take, get_or-drop, get_or-replicate,
  length-replicate, take_all, Bool-cases, ◌⊎◌, inl, inr, bit_and,
}
use zenux_services.Prelude.Bits.{bit_and_byte, bit_and_six_bits}
use zenux_services.Eeprom.Bus.{io_ok, I2cBus, IsEeprom, Patched}
use zenux_services.Eeprom.Driver.{
  address_bytes, page_len, poll_write, write_loop, write_data, reset,
}

pub address_of_bytes : (a : ℕ) → a < 2 ^ 16 → (bit_and (a / 2 ^ 8) 0xff) * 256 + bit_and a 0xff ≡ a
address_of_bytes a h = omega (arith, bit_and_byte (a / 2 ^ 8), bit_and_byte a)

-- A message is not empty, stays in its page, and leaves nothing over that is not there.
pub page_len_lem :
    (n a : ℕ) → 0 < n → (0 < page_len n a) × (page_len n a ≤ n) × (a % 64 + page_len n a ≤ 64)
unfolding page_len
page_len_lem n a h = ground (arith, bit_and_six_bits a)

module _ (bus : I2cBus) (capacity : ℕ) (chip : IsEeprom bus capacity) where
  open chip use {mem, busy, write_busy, write_idle, probe_idle}

  -- What a finished write leaves: the bytes in their place, and a chip that is busy for a while.
  record IsWritten (a : ℕ) (bytes : List ℕ) (s s' : bus.State) : Type 0 where
    waits : busy s' < 100
    patched : Patched a bytes (mem s) (mem s')

  -- Polling outlasts the busy time.
  poll_write_lem :
      (rounds a : ℕ) (bytes : List ℕ) (s : bus.State)
      → busy s < rounds
      → a < 2 ^ 16
      → a % 64 + length bytes ≤ 64
      → a + length bytes ≤ capacity
      → let o = poll_write bus rounds (address_bytes a ++ bytes) s in
        (o.0 ≡ io_ok) × IsWritten a bytes s o.1
  unfolding poll_write address_bytes
  poll_write_lem zero a bytes s h lt page fits = elim h [ ]
  poll_write_lem (suc rounds) a bytes s h lt page fits =
      let hi = bit_and (a / 2 ^ 8) 0xff in
      let lo = bit_and a 0xff in
      let at : hi * 256 + lo ≡ a = address_of_bytes a lt in
      elim (Bool-cases (busy s == 0)) [
        | inl idle ↦
            let w = write_idle hi lo bytes s (ground arith) (rw at page) (rw at fits) in
            rw (w.0, poll_write) (refl, record { waits = w.1; patched = rw at at w.2 })
        | inr later ↦
            let w = write_busy (hi ∷ lo ∷ bytes) s (ground arith) in
            let (done, written) =
              poll_write_lem rounds a bytes (bus.transfer_write (hi ∷ lo ∷ bytes) s).1
                (omega (arith, w.1)) lt page fits in
            rw (w.0, poll_write)
              (
                done,
                record {
                  waits = written.waits;
                  patched = λ i. written.patched i ∙ rw (w.2 i) refl;
                },
              )
      ]

  -- Two patches, one behind the other, are one.
  Patched-append :
      (a l : ℕ) (bytes : List ℕ) (m m' m'' : ℕ → ℕ)
      → l ≤ length bytes
      → Patched a (take l bytes) m m'
      → Patched (a + l) (drop l bytes) m' m''
      → Patched a bytes m m''
  Patched-append a l bytes m m' m'' h p q i =
      q i
      ∙ ground (
        arith,
        p i,
        length-take l bytes,
        length-drop l bytes,
        get_or-take l bytes (i - a) 0,
        get_or-drop l bytes (i - (a + l)) 0,
      )

  -- The place does not matter if there is nothing to write.
  Patched-moved :
      (a b : ℕ) (bytes : List ℕ) (m m' : ℕ → ℕ)
      → ((a ≡ b) ⊎ (length bytes ≡ 0))
      → Patched a bytes m m'
      → Patched b bytes m m'
  Patched-moved a b bytes m m' h p i = ground (arith, p i)

  -- With more fuel than bytes, all bytes are written.
  write_loop_lem :
      (fuel : ℕ) (bytes : List ℕ) (a : ℕ) (s : bus.State)
      → length bytes < fuel
      → busy s < 100
      → a + length bytes ≤ capacity
      → capacity ≤ 2 ^ 16
      → (s' : bus.State) × (write_loop bus fuel capacity bytes a s ≡ some ([], s'))
        × IsWritten a bytes s s'
  unfolding write_loop
  write_loop_lem zero bytes a s h wait fits cap = elim h [ ]
  write_loop_lem (suc fuel) [] a s h wait fits cap =
      (s, refl, record { waits = wait; patched = λ i. ground arith })
  write_loop_lem (suc fuel) (b ∷ bytes) a s h wait fits cap =
      let all = b ∷ bytes in
      let l = page_len (length all) a in
      let page = page_len_lem (length all) a (omega arith) in
      let size : length (take l all) ≡ l = omega (arith, length-take l all) in
      let (done, first) =
        poll_write_lem 100 a (take l all) s wait (omega arith) (rw size page.2)
          (rw size (omega (arith, page.1))) in
      let s1 = (poll_write bus 100 (address_bytes a ++ take l all) s).1 in
      let test : (length all == 0 || not (ltb a capacity)) ≡ false = ground arith in
      let next = (a + l) % 2 ^ 16 in
      let left : length (drop l all) ≡ length all - l = length-drop l all in
      let (s2, rest_done, rest) =
        write_loop_lem fuel (drop l all) next s1 (omega (arith, page.0)) first.waits (omega arith)
          cap in
      (
        s2,
        rw (test, done) rest_done,
        record {
          waits = rest.waits;
          patched = Patched-append a l all (mem s) (mem s1) (mem s2) page.1 first.patched (
              Patched-moved next (a + l) (drop l all) (mem s1) (mem s2) (omega arith) rest.patched);
        },
      )

  write_data_done :
      (buffer : List ℕ) (a : ℕ) (s s' : bus.State)
      → length buffer < 2 ^ 16
      → a < 2 ^ 16
      → (bus.probe s).0 ≡ io_ok
      → write_loop bus (length buffer + 1) capacity buffer a (bus.probe s).1 ≡ some ([], s')
      → write_data bus capacity buffer (length buffer) a s ≡ some (length buffer, s')
  unfolding write_data
  write_data_done buffer a s s' short low good done =
      let n = length buffer in
      let count : n % 2 ^ 16 ≡ n = omega arith in
      let start : a % 2 ^ 16 ≡ a = omega arith in
      let all_written : n - 0 ≡ n = omega arith in
      rw (count, start, take_all n buffer (omega arith), good, done)
        (ap (λ (k : ℕ). some (k, s')) all_written)

  -- On an idle chip `WriteData` ends, returns the full count, and leaves the bytes in their place and
  -- all others as they were, whatever pages the range covers. The range has to lie in the memory,
  -- and the count has to fit a `ushort`.
  pub write_data_lem :
      (buffer : List ℕ) (a : ℕ) (s : bus.State)
      → busy s ≡ 0
      → length buffer < 2 ^ 16
      → a + length buffer ≤ capacity
      → a < 2 ^ 16
      → capacity ≤ 2 ^ 16
      → (s' : bus.State) × (write_data bus capacity buffer (length buffer) a s
          ≡ some (length buffer, s'))
        × (busy s' < 100)
        × Patched a buffer (mem s) (mem s')
  write_data_lem buffer a s idle short fits low cap =
      let n = length buffer in
      let (good, still, kept) = probe_idle s idle in
      let s1 = (bus.probe s).1 in
      let (s2, done, written) =
        write_loop_lem (n + 1) buffer a s1 (omega arith) (omega arith) fits cap in
      (
        s2,
        write_data_done buffer a s s2 short low good done,
        written.waits,
        λ i. written.patched i ∙ rw (kept i) refl,
      )

  filled :
      (n old i : ℕ)
      → let fill : ℕ = 0xFF in
        let fresh : List ℕ = replicate n fill in
        (if leb 0 i && ltb i (0 + length fresh) then get_or fresh (i - 0) 0 else old)
        ≡ (if ltb i n then fill else old)
  filled n old i =
      let fill : ℕ = 0xFF in
      let size : length (replicate n fill) ≡ n = length-replicate n fill in
      let from : i - 0 ≡ i = omega arith in
      rw (size, from) (ground (arith, get_or-replicate n fill i 0))

  -- `Reset` ends on an idle chip. It returns the size modulo 2 ^ 16, and leaves 0xFF everywhere if
  -- the chip is smaller than 2 ^ 16 bytes; a chip of 2 ^ 16 bytes keeps its contents.
  pub reset_lem :
      (s : bus.State)
      → busy s ≡ 0
      → capacity ≤ 2 ^ 16
      → (s' : bus.State) × (reset bus capacity s ≡ some (capacity % 2 ^ 16, s'))
        × ((i : ℕ) → mem s' i ≡ (if ltb i (capacity % 2 ^ 16) then 0xFF else mem s i))
  unfolding reset
  reset_lem s idle cap = elim (Bool-cases (ltb capacity (2 ^ 16))) [
    | inl small ↦
        let fill : ℕ = 0xFF in
        let fresh : List ℕ = replicate capacity fill in
        let size : length fresh ≡ capacity = length-replicate capacity fill in
        let lt : capacity < 2 ^ 16 = ltb→lt capacity (2 ^ 16) small in
        let count : capacity % 2 ^ 16 ≡ capacity = omega arith in
        let (s2, done, _, patched) =
          write_data_lem fresh 0 s idle (omega arith) (omega arith) (omega arith) (omega arith) in
        (
          s2,
          subst (λ (k : ℕ). write_data bus capacity fresh k 0 s ≡ some (k, s2)) size done
              ∙ ap (λ (k : ℕ). some (k, s2)) (sym count),
          λ i.
              patched i
              ∙ filled capacity (mem s i) i
              ∙ ap (λ (k : ℕ). if ltb i k then 0xFF else mem s i) (sym count),
        )
    | inr large ↦
        let (good, still, kept) = probe_idle s idle in
        let none_left : capacity % 2 ^ 16 ≡ 0 = ground arith in
        (
          (bus.probe s).1,
          unfold write_data write_loop in rw (none_left, good) refl,
          λ i. rw none_left (kept i ∙ ground arith),
        )
  ]
