-- ===== src/Adjustment/ReadWrite.antt =====
-- `AdjustmentEepromReadWrite` of zenux-service-common/lib/adjustment/adjustmenteepromreadwrite.cpp.
-- Log lines are left out.
use zenux_services.Prelude.{
  ℕ, ◌%◌, ◌^◌, Bool, true, false, Option, none, some, List, [], ◌∷◌, ◌++◌, ltb, ◌==◌, if◌then◌else◌,
  length,
}
use zenux_services.Prelude.Text.{Text}
use zenux_services.Adjustment.Buffer.{
  header_size, header_checksum, set_checksum_in_buffer, set_count_in_buffer,
}

-- `AbstractEepromI2cDevice` at address 0: the return value, the bytes that are read, and the state.
pub record AdjMemory : Type 1 where
  pub State : Type 0
  pub byte_size : ℕ
  pub read_data : ℕ → State → ℕ × List ℕ × State
  pub write_data : List ℕ → ℕ → State → ℕ × State
  pub reset : State → ℕ × State

-- The file system that the cache lives in: `QDir::mkpath`, `QFileInfo::absoluteFilePath`, `QFile`.
pub record Files : Type 1 where
  pub State : Type 0
  pub mkpath : Text → State → Bool × State
  pub absolute_file_path : Text → Text
  pub remove : Text → State → State
  pub read_all : Text → State → Option (List ℕ)
  pub open_write : Text → State → Bool × State
  pub write : Text → List ℕ → State → State

pub record Adj (M F : Type 0) : Type 0 where
  pub checksum : ℕ
  pub adj_data : List ℕ
  pub adj_data_read_is_valid : Bool
  pub memory : M
  pub files : F

-- `q_checksum` is `qChecksum` of Qt, and `cache_path` the static member.
module _ (q_checksum : List ℕ → ℕ) (cache_path : Text) (mem : AdjMemory) (fs : Files) where
  abbrev pub State : Type 0
  State = Adj mem.State fs.State

  unfoldable pub cache_full_file_name : Text → Text
  cache_full_file_name name = fs.absolute_file_path (cache_path ++ b'/' ∷ name)

  -- The checksum, and the buffer.
  unfoldable pub set_count_and_checksum : List ℕ → ℕ × List ℕ
  set_count_and_checksum ba =
      let counted = set_checksum_in_buffer 0 (set_count_in_buffer ba) in
      (q_checksum counted, set_checksum_in_buffer (q_checksum counted) counted)

  abbrev pub header_len : ℕ
  header_len = 6

  -- The size, if it was read; the checksum is set before the size is looked at.
  unfoldable pub read_size_and_checksum : State → Option ℕ × State
  read_size_and_checksum a =
      let (bytes_read, ba, m) = mem.read_data header_len a.memory in
      let size = header_size ba in
      if bytes_read == header_len
      then (
        if ltb mem.byte_size size then none else some size,
        record a { checksum = header_checksum ba; memory = m },
      )
      else (none, record a { memory = m })

  unfoldable pub read_all_and_validate_from_chip : ℕ → State → Option (List ℕ) × State
  read_all_and_validate_from_chip size a =
      let (size_read, ba, m) = mem.read_data (size % 2 ^ 16) a.memory in
      let zeroed = set_checksum_in_buffer 0 ba in
      (
        if ltb size_read size
            then none
            else if q_checksum zeroed == a.checksum
            then some zeroed
            else none,
        record a { memory = m },
      )

  unfoldable pub read_all_and_validate_from_cache : ℕ → Text → State → Option (List ℕ)
  read_all_and_validate_from_cache size [] a = none
  read_all_and_validate_from_cache size (c ∷ name) a =
      elim (fs.read_all (cache_full_file_name (c ∷ name)) a.files) [
        | none ↦ none
        | some cache_data ↦
            let zeroed = set_checksum_in_buffer 0 cache_data in
            if size == length cache_data
            then if q_checksum zeroed == a.checksum
              then some (set_checksum_in_buffer (q_checksum zeroed) zeroed)
              else none
            else none
      ]

  unfoldable pub write_raw_data_to_cache : List ℕ → Text → State → State
  write_raw_data_to_cache ba [] a = a
  write_raw_data_to_cache ba (c ∷ name) a =
      let full_file_name = cache_full_file_name (c ∷ name) in
      let (made, f) = fs.mkpath cache_path a.files in
      let (opened, f') = fs.open_write full_file_name (fs.remove full_file_name f) in
      let (checksum, out) = set_count_and_checksum ba in
      let written = record a { checksum = checksum; files = fs.write full_file_name out f' } in
      if made then if opened then written else record a { files = f' } else record a { files = f }

  unfoldable pub read_data_cached : Text → State → State × Bool
  read_data_cached name a =
      let (found, b) = read_size_and_checksum a in
      let from_chip : ℕ → State × Bool = λ size.
        let (o, d) = read_all_and_validate_from_chip size b in
        elim o [
          | none ↦ (d, false)
          | some ba ↦ (
            record (write_raw_data_to_cache ba name d) {
              adj_data = ba;
              adj_data_read_is_valid = true;
            },
            true,
          )
        ] in
      let fresh : State × Bool = elim found [
        | none ↦ (b, false)
        | some size ↦ elim (read_all_and_validate_from_cache size name b) [
          | none ↦ from_chip size
          | some ba ↦ (record b { adj_data = ba; adj_data_read_is_valid = true }, true)
        ]
      ] in
      if a.adj_data_read_is_valid then (a, true) else fresh

  unfoldable pub read_data : State → State × Bool
  read_data a = read_data_cached [] a

  unfoldable pub write_data : State → State × Bool
  write_data a =
      let (checksum, ba) = set_count_and_checksum a.adj_data in
      let (written, m) = mem.write_data ba (length ba % 2 ^ 16) a.memory in
      (
        record a { checksum = checksum; adj_data = ba; adj_data_read_is_valid = false; memory = m },
        length ba == written,
      )

  unfoldable pub reset_data : State → State × Bool
  reset_data a =
      let (done, m) = mem.reset a.memory in
      (record a { adj_data_read_is_valid = false; memory = m }, done == mem.byte_size)

  unfoldable pub set_data : List ℕ → State → State
  set_data ba a = record a { adj_data = ba }
