-- ===== src/Adjustment/Validity.antt =====
-- What a read of adjustment data accepts, and what it leaves when it fails.
use zenux_services.Prelude.{
  ℕ, ◌%◌, ◌^◌, ◌≡◌, ◌⊎◌, inl, inr, refl, ◌∙◌, true, false, Option, none, some, List, [], ◌∷◌, arith,
  ◌==◌, if◌then◌else◌, length, Option-cases,
}
use zenux_services.Prelude.Text.{Text}
use zenux_services.Adjustment.Buffer.{
  header_checksum, set_checksum_in_buffer, set_checksum-set_checksum,
}
use zenux_services.Adjustment.ReadWrite.{
  AdjMemory, Files, State, read_size_and_checksum, cache_full_file_name,
  read_all_and_validate_from_chip, read_all_and_validate_from_cache, read_data_cached,
}

module _ (q_checksum : List ℕ → ℕ) (cache_path : Text) (mem : AdjMemory) (fs : Files) where
  -- The buffer has the checksum, if its checksum field counts as 0.
  abbrev pub HasChecksum : ℕ → List ℕ → Type 0
  HasChecksum checksum ba = q_checksum (set_checksum_in_buffer 0 ba) ≡ checksum

  chip-HasChecksum :
      (size : ℕ) (a : State q_checksum cache_path mem fs) (ba : List ℕ)
      → (read_all_and_validate_from_chip q_checksum cache_path mem fs size a).0 ≡ some ba
      → HasChecksum a.checksum ba
  unfolding read_all_and_validate_from_chip
  chip-HasChecksum size a ba h =
      ground (arith, set_checksum-set_checksum 0 0 (mem.read_data (size % 2 ^ 16) a.memory).1)

  cache-HasChecksum :
      (size : ℕ) (name : Text) (a : State q_checksum cache_path mem fs) (ba : List ℕ)
      → read_all_and_validate_from_cache q_checksum cache_path mem fs size name a ≡ some ba
      → HasChecksum a.checksum ba
  unfolding read_all_and_validate_from_cache
  cache-HasChecksum size [] a ba h = cc
  cache-HasChecksum size (c ∷ name) a ba h =
      from (fs.read_all (cache_full_file_name q_checksum cache_path mem fs (c ∷ name)) a.files) h
    where
      from :
          (o : Option (List ℕ))
          → elim o [
            | none ↦ none
            | some cache_data ↦
                let zeroed = set_checksum_in_buffer 0 cache_data in
                if size == length cache_data
                then if q_checksum zeroed == a.checksum
                  then some (set_checksum_in_buffer (q_checksum zeroed) zeroed)
                  else none
                else none
          ]
            ≡ some ba
          → HasChecksum a.checksum ba
      from none h = cc
      from (some bytes) h = ground (
        arith,
        set_checksum-set_checksum 0 0 bytes,
        set_checksum-set_checksum 0 (q_checksum (set_checksum_in_buffer 0 bytes))
            (set_checksum_in_buffer 0 bytes),
      )

  -- The checksum that the header on the chip holds.
  abbrev pub chip_checksum : mem.State → ℕ
  chip_checksum m = header_checksum (mem.read_data 6 m).1

  header-checksum :
      (n : ℕ) (a : State q_checksum cache_path mem fs)
      → (read_size_and_checksum q_checksum cache_path mem fs a).0 ≡ some n
      → (read_size_and_checksum q_checksum cache_path mem fs a).1.checksum ≡ chip_checksum a.memory
  unfolding read_size_and_checksum
  header-checksum n a h = ground arith

  -- The steps of a read leave the data and the flag alone.
  abbrev pub SameData : (a b : State q_checksum cache_path mem fs) → Type 0
  SameData a b = (b.adj_data ≡ a.adj_data) × (b.adj_data_read_is_valid ≡ a.adj_data_read_is_valid)

  header-SameData :
      (a : State q_checksum cache_path mem fs)
      → SameData a (read_size_and_checksum q_checksum cache_path mem fs a).1
  unfolding read_size_and_checksum
  header-SameData a = ground arith

  chip-SameData :
      (size : ℕ) (a : State q_checksum cache_path mem fs)
      → SameData a (read_all_and_validate_from_chip q_checksum cache_path mem fs size a).1
  unfolding read_all_and_validate_from_chip
  chip-SameData size a = (refl, refl)

  -- A read that is not spared either succeeds, and then the data have the checksum that the header
  -- on the chip holds, whether they come from the chip or from the cache; or it fails, and then the
  -- data are those from before and are not marked as valid. This holds for any memory and any file
  -- system.
  pub read_data_cached_lem :
      (name : Text) (a : State q_checksum cache_path mem fs)
      → a.adj_data_read_is_valid ≡ false
      → let (b, ok) = read_data_cached q_checksum cache_path mem fs name a in
        ((ok ≡ true)
          × (b.adj_data_read_is_valid ≡ true)
          × HasChecksum (chip_checksum a.memory) b.adj_data)
        ⊎ ((ok ≡ false) × (b.adj_data_read_is_valid ≡ false) × (b.adj_data ≡ a.adj_data))
  unfolding read_data_cached
  read_data_cached_lem name a stale =
      let head = read_size_and_checksum q_checksum cache_path mem fs a in
      let kept = header-SameData a in
      elim (Option-cases head.0) [
        | inl e ↦ simp (stale, e) (inr (refl, kept.1 ∙ stale, kept.0))
        | inr (size, e) ↦
            let known = header-checksum size a e in
            elim (Option-cases
              (read_all_and_validate_from_cache q_checksum cache_path mem fs size name head.1)) [
                | inr (ba, c) ↦
                    simp (stale, e, c)
                      (inl (refl, refl, cache-HasChecksum size name head.1 ba c ∙ known))
                | inl c ↦
                    let o =
                      read_all_and_validate_from_chip q_checksum cache_path mem fs size head.1 in
                    let kept' = chip-SameData size head.1 in
                    elim (Option-cases o.0) [
                      | inl d ↦
                          simp (stale, e, c)
                            (simp d (inr (refl, kept'.1 ∙ kept.1 ∙ stale, kept'.0 ∙ kept.0)))
                      | inr (ba, d) ↦
                          simp (stale, e, c)
                            (simp d (inl (refl, refl, chip-HasChecksum size head.1 ba d ∙ known)))
                    ]
              ]
      ]
