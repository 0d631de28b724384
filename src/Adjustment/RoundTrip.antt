-- ===== src/Adjustment/RoundTrip.antt =====
-- `writeData` and then `readData` of adjustmenteepromreadwrite.cpp, on a memory that keeps what is written.
use zenux_services.Prelude.{
  ℕ, zero, suc, ◌+◌, ◌%◌, ◌^◌, ◌≤◌, ◌<◌, ◌≡◌, refl, sym, ap, ◌∙◌, true, false, Option, some, List,
  ◌∷◌, ◌++◌, arith, ltb, ◌==◌, ==_iff, length, take, drop,
}
use zenux_services.Prelude.Text.{Text}
use zenux_services.Eeprom.Bus.{Patched, window}
use zenux_services.Eeprom.Read.{window-Patched, window-same}
use zenux_services.Adjustment.Buffer.{
  be16, be32, header_size, header_checksum, set_checksum_in_buffer, set_count_in_buffer, stamped,
  set_checksum-set_count, length-stamped, header_size-stamped, header_checksum-stamped,
  set_checksum-stamped,
}
use zenux_services.Adjustment.ReadWrite.{
  AdjMemory, Files, State, set_count_and_checksum, read_size_and_checksum,
  read_all_and_validate_from_chip, read_all_and_validate_from_cache, write_raw_data_to_cache,
  read_data_cached, read_data, write_data,
}

-- A memory that works: what fits is written and read in full.
pub record IsAdjMemory (mem : AdjMemory) : Type 1 where
  pub content : mem.State → ℕ → ℕ
  pub write_full :
      (bytes : List ℕ) (s : mem.State)
      → length bytes ≤ mem.byte_size
      → length bytes < 2 ^ 16
      → ((mem.write_data bytes (length bytes) s).0 ≡ length bytes)
        × Patched 0 bytes (content s) (content (mem.write_data bytes (length bytes) s).1)
  pub read_full :
      (n : ℕ) (s : mem.State)
      → n ≤ mem.byte_size
      → n < 2 ^ 16
      → let (count, bytes, s') = mem.read_data n s in
        (count ≡ n) × (bytes ≡ window (content s) 0 n) × ((i : ℕ) → content s' i ≡ content s i)

pub window-take : (m : ℕ → ℕ) (a k n : ℕ) → k ≤ n → window m a k ≡ take k (window m a n)
window-take m a zero n h = refl
window-take m a (suc k) zero h = absurd (omega arith)
window-take m a (suc k) (suc n) h = ap (λ t. m a ∷ t) (window-take m (a + 1) k n (omega arith))

module _ (q_checksum : List ℕ → ℕ) (cache_path : Text) (mem : AdjMemory) (fs : Files)
    (works : IsAdjMemory mem) where
  open works use {content, write_full, read_full}

  -- The memory holds the data under its header.
  abbrev pub Holds : mem.State → List ℕ → Type 0
  Holds s ba =
      (6 ≤ length ba)
      × (length ba ≤ mem.byte_size)
      × (length ba < 2 ^ 16)
      × (window (content s) 0 (length ba) ≡ stamped (q_checksum (stamped 0 ba)) ba)

  module _ (small : (bs : List ℕ) → q_checksum bs < 2 ^ 16) where
    header_lem :
        (a : State q_checksum cache_path mem fs) (ba : List ℕ)
        → Holds a.memory ba
        → read_size_and_checksum q_checksum cache_path mem fs a ≡ (
          some (length ba),
          record a { checksum = q_checksum (stamped 0 ba); memory = (mem.read_data 6 a.memory).2 },
        )
    unfolding read_size_and_checksum header_size header_checksum
    header_lem a ba (big, fits, short, held) =
        let sum = q_checksum (stamped 0 ba) in
        let (count, bytes, same) = read_full 6 a.memory (omega arith) (omega arith) in
        let front = bytes ∙ window-take (content a.memory) 0 6 (length ba) big ∙ ap (take 6) held in
        let size : header_size (mem.read_data 6 a.memory).1 ≡ length ba =
          ap header_size front ∙ header_size-stamped sum ba (omega arith) in
        let check : header_checksum (mem.read_data 6 a.memory).1 ≡ sum =
          ap header_checksum front ∙ header_checksum-stamped sum ba (small (stamped 0 ba)) in
        let ok : ltb mem.byte_size (length ba) ≡ false = ground arith in
        rw (count, size, check, ok) refl

    -- The payload under a header whose checksum is 0: what a read from the chip delivers.
    chip_lem :
        (a : State q_checksum cache_path mem fs) (ba : List ℕ)
        → Holds a.memory ba
        → a.checksum ≡ q_checksum (stamped 0 ba)
        → read_all_and_validate_from_chip q_checksum cache_path mem fs (length ba) a
          ≡ (some (stamped 0 ba), record a { memory = (mem.read_data (length ba) a.memory).2 })
    unfolding read_all_and_validate_from_chip
    chip_lem a ba (big, fits, short, held) known =
        let (count, bytes, same) = read_full (length ba) a.memory fits short in
        let asked : length ba % 2 ^ 16 ≡ length ba = omega arith in
        let ok : ltb (length ba) (length ba) ≡ false = ground arith in
        let zeroed =
          ap (set_checksum_in_buffer 0) (bytes ∙ held)
          ∙ set_checksum-stamped 0 (q_checksum (stamped 0 ba)) ba in
        let equal : (q_checksum (stamped 0 ba) == a.checksum) ≡ true =
          (==_iff (q_checksum (stamped 0 ba)) a.checksum).1 (sym known) in
        rw (asked, count, ok, zeroed, equal) refl

    Holds-read :
        (n : ℕ) (s : mem.State) (ba : List ℕ)
        → n ≤ mem.byte_size
        → n < 2 ^ 16
        → Holds s ba
        → Holds (mem.read_data n s).2 ba
    Holds-read n s ba fits short (big, sized, count, held) = (
      big,
      sized,
      count,
      window-same (content s) (content (mem.read_data n s).2) 0 (length ba)
            (read_full n s fits short).2
          ∙ held,
    )

    read_step :
        (a d : State q_checksum cache_path mem fs) (n : ℕ) (z : List ℕ)
        → a.adj_data_read_is_valid ≡ false
        → (read_size_and_checksum q_checksum cache_path mem fs a).0 ≡ some n
        → read_all_and_validate_from_chip q_checksum cache_path mem fs n
            (read_size_and_checksum q_checksum cache_path mem fs a).1
          ≡ (some z, d)
        → read_data q_checksum cache_path mem fs a
          ≡ (record d { adj_data = z; adj_data_read_is_valid = true }, true)
    unfolding read_data read_data_cached read_all_and_validate_from_cache write_raw_data_to_cache
    read_step a d n z stale header chip =
        simp (stale, header)
          (rw (ap (λ r. r.0) chip) (
            ap
              (λ (r : Option (List ℕ) × State q_checksum cache_path mem fs).
                (record r.1 { adj_data = z; adj_data_read_is_valid = true }, true))
              chip))

    -- A memory that holds data under its header is read: the data come back, with 0 in place of the
    -- checksum, and the memory still holds them.
    pub read_data-Holds :
        (a : State q_checksum cache_path mem fs) (ba : List ℕ)
        → a.adj_data_read_is_valid ≡ false
        → Holds a.memory ba
        → let (b, ok) = read_data q_checksum cache_path mem fs a in
          (ok ≡ true)
          × (b.adj_data ≡ stamped 0 ba)
          × (b.checksum ≡ q_checksum (stamped 0 ba))
          × (b.adj_data_read_is_valid ≡ true)
          × Holds b.memory ba
    read_data-Holds a ba stale holds =
        let (big, fits, short, _) = holds in
        let m1 = (mem.read_data 6 a.memory).2 in
        let holds1 = Holds-read 6 a.memory ba (omega arith) (omega arith) holds in
        let b1 = record a { checksum = q_checksum (stamped 0 ba); memory = m1 } in
        let header = header_lem a ba holds in
        rw
          (read_step a (record b1 { memory = (mem.read_data (length ba) m1).2 }) (length ba)
            (stamped 0 ba) stale (ap (λ r. r.0) header)
            (ap
                (λ (r : Option ℕ × State q_checksum cache_path mem fs).
                  read_all_and_validate_from_chip q_checksum cache_path mem fs (length ba) r.1)
                header
              ∙ chip_lem b1 ba holds1 refl))
          (refl, refl, refl, refl, Holds-read (length ba) m1 ba fits short holds1)

    -- After `writeData` the memory holds the data under their header.
    write_data-Holds :
        (a : State q_checksum cache_path mem fs)
        → 6 ≤ length a.adj_data
        → length a.adj_data ≤ mem.byte_size
        → length a.adj_data < 2 ^ 16
        → let (b, ok) = write_data q_checksum cache_path mem fs a in
          (ok ≡ true) × (b.adj_data_read_is_valid ≡ false) × Holds b.memory a.adj_data
    unfolding write_data set_count_and_checksum
    write_data-Holds a big fits short =
        let ba = a.adj_data in
        let sum = q_checksum (stamped 0 ba) in
        let out = stamped sum ba in
        let zeroed = set_checksum-set_count 0 ba big in
        let stamp : set_checksum_in_buffer
              (q_checksum (set_checksum_in_buffer 0 (set_count_in_buffer ba)))
              (set_checksum_in_buffer 0 (set_count_in_buffer ba))
            ≡ out =
          rw zeroed (set_checksum-stamped sum 0 ba) in
        let size : length out ≡ length ba = length-stamped sum ba big in
        let asked : length out % 2 ^ 16 ≡ length out = omega arith in
        let (count, patched) = write_full out a.memory (omega arith) (omega arith) in
        let same : (length out == length out) ≡ true = (==_iff (length out) (length out)).1 refl in
        rw (stamp, asked, count, same)
          (
            refl,
            refl,
            (
              big,
              fits,
              short,
              ap (window (content (mem.write_data out (length out) a.memory).1) 0) (sym size)
                  ∙ window-Patched 0 out (content a.memory)
                      (content (mem.write_data out (length out) a.memory).1) patched,
            ),
          )

    -- Adjustment data of 6 bytes or more that fit the memory and 16 bits are read back after
    -- `writeData`: both calls succeed, and the data read are the size in four bytes, two zero bytes
    -- and the payload that was written behind the first six bytes.
    pub adj_data-read_data-write_data :
        (a : State q_checksum cache_path mem fs)
        → 6 ≤ length a.adj_data
        → length a.adj_data ≤ mem.byte_size
        → length a.adj_data < 2 ^ 16
        → let (b, written) = write_data q_checksum cache_path mem fs a in
          let (c, ok) = read_data q_checksum cache_path mem fs b in
          (written ≡ true)
          × (ok ≡ true)
          × (c.adj_data ≡ be32 (length a.adj_data) ++ be16 0 ++ drop 6 a.adj_data)
          × (c.checksum ≡ q_checksum c.adj_data)
    adj_data-read_data-write_data a big fits short =
        let (written, stale, holds) = write_data-Holds a big fits short in
        let b = (write_data q_checksum cache_path mem fs a).0 in
        let (ok, bytes, sum, _, _) = read_data-Holds b a.adj_data stale holds in
        (written, ok, bytes, sum ∙ ap q_checksum (sym bytes))
