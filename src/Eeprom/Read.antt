-- ===== src/Eeprom/Read.antt =====
-- `ReadData` of eepromi2c24lcxxx.cpp on a 24LCxxx, alone and after `WriteData`.
use zenux_services.Prelude.{
  ℕ, zero, suc, ◌+◌, ◌-◌, ◌*◌, ◌/◌, ◌%◌, ◌^◌, ◌≤◌, ◌<◌, ◌≡◌, refl, sym, ap, ◌∙◌, false, ◌&&◌, List,
  [], ◌∷◌, ◌++◌, some, arith, ltb, leb, ◌==◌, if◌then◌else◌, length, get_or, ◌⊎◌, inl, inr, bit_and,
}
use zenux_services.Eeprom.Bus.{I2cBus, IsEeprom, Patched, window, io_ok}
use zenux_services.Eeprom.Driver.{address_bytes, read_len, read_loop, read_data, write_data}
use zenux_services.Eeprom.Write.{address_of_bytes, write_data_lem}

window-append : (m : ℕ → ℕ) (a n k : ℕ) → window m a n ++ window m (a + n) k ≡ window m a (n + k)
window-append m a zero k =
    let here : a + 0 ≡ a = omega arith in let all : 0 + k ≡ k = omega arith in rw (here, all) refl
window-append m a (suc n) k =
    let next : a + suc n ≡ a + 1 + n = omega arith in
    let count : suc n + k ≡ suc (n + k) = omega arith in
    rw (next, count) (ap (λ t. m a ∷ t) (window-append m (a + 1) n k))

pub window-same : (m m' : ℕ → ℕ) (a n : ℕ) → ((i : ℕ) → m' i ≡ m i) → window m' a n ≡ window m a n
window-same m m' a zero h = refl
window-same m m' a (suc n) h = λ i. h a i ∷ window-same m m' (a + 1) n h i

window-moved : (m : ℕ → ℕ) (a b n : ℕ) → ((a ≡ b) ⊎ (n ≡ 0)) → window m a n ≡ window m b n
window-moved m a b n (inl e) = rw e refl
window-moved m a b n (inr e) = rw e refl

-- The bytes that a patch has put in place.
pub window-Patched :
    (a : ℕ) (bytes : List ℕ) (m m' : ℕ → ℕ)
    → Patched a bytes m m'
    → window m' a (length bytes) ≡ bytes
window-Patched a bytes m m' p = from bytes a (λ i lt. p (a + i) ∙ inside i lt)
  where
    inside :
        (i : ℕ)
        → i < length bytes
        → (if leb a (a + i) && ltb (a + i) (a + length bytes)
            then get_or bytes (a + i - a) 0
            else m (a + i))
          ≡ get_or bytes i 0
    inside i lt = let back : a + i - a ≡ i = omega arith in rw back (ground arith)

    from :
        (xs : List ℕ) (b : ℕ)
        → ((i : ℕ) → i < length xs → m' (b + i) ≡ get_or xs i 0)
        → window m' b (length xs) ≡ xs
    from [] b h = refl
    from (x ∷ xs) b h =
        let here : b + 0 ≡ b = omega arith in
        λ i.
          (ap m' (sym here) ∙ h 0 (omega arith)) i
          ∷ from xs (b + 1)
              (λ j lt.
                ap m' (let next : b + 1 + j ≡ b + suc j = omega arith in next)
                ∙ h (suc j) (omega arith))
              i

module _ (bus : I2cBus) (capacity : ℕ) (chip : IsEeprom bus capacity) where
  open chip use {mem, busy, read_idle}

  -- One round, given what the rest brings.
  read_step :
      (fuel n a : ℕ) (s s' : bus.State) (front back : List ℕ)
      → 0 < n
      → let o = bus.transfer_read (address_bytes a) (read_len n) s in
        (o.result ≡ io_ok)
        → o.bytes ≡ front
        → read_loop bus fuel (n - read_len n) ((a + read_len n) % 2 ^ 16) o.state
          ≡ some (record { bytes = back; to_read = 0; state = s' })
        → read_loop bus (suc fuel) n a s
          ≡ some (record { bytes = front ++ back; to_read = 0; state = s' })
  unfolding read_loop
  read_step fuel n a s s' front back h good bytes rest =
      let go : (n == 0) ≡ false = ground arith in rw (go, good, bytes, rest) refl

  read_loop_lem :
      (fuel n a : ℕ) (s : bus.State)
      → n < fuel
      → busy s ≡ 0
      → a + n ≤ capacity
      → a < 2 ^ 16
      → capacity ≤ 2 ^ 16
      → (s' : bus.State) × (read_loop bus fuel n a s
          ≡ some (record { bytes = window (mem s) a n; to_read = 0; state = s' }))
        × ((i : ℕ) → mem s' i ≡ mem s i)
  unfolding read_loop address_bytes
  read_loop_lem zero n a s h idle fits low cap = elim h [ ]
  read_loop_lem (suc fuel) zero a s h idle fits low cap = (s, refl, λ i. refl)
  read_loop_lem (suc fuel) (suc n) a s h idle fits low cap =
      let l = read_len (suc n) in
      let hi = bit_and (a / 2 ^ 8) 0xff in
      let lo = bit_and a 0xff in
      let size : (0 < l) × (l ≤ suc n) = unfold read_len in ground arith in
      let at : hi * 256 + lo ≡ a = address_of_bytes a low in
      let (good, bytes, still, kept) = read_idle hi lo l s idle (omega arith) in
      let next = (a + l) % 2 ^ 16 in
      let s1 = (bus.transfer_read (address_bytes a) l s).state in
      let (s2, rest, same) =
        read_loop_lem fuel (suc n - l) next s1 (omega arith) still (omega arith) (omega arith)
          cap in
      let back =
        window-same (mem s) (mem s1) next (suc n - l) kept
        ∙ window-moved (mem s) next (a + l) (suc n - l) (omega arith) in
      let whole : l + (suc n - l) ≡ suc n = omega arith in
      (
        s2,
        read_step fuel (suc n) a s s2 (window (mem s) a l) (window (mem s1) next (suc n - l))
              (omega arith) good (rw at at bytes) rest
            ∙ ap (λ (t : List ℕ). some (record { bytes = t; to_read = 0; state = s2 }))
                (ap (λ t. window (mem s) a l ++ t) back
                  ∙ window-append (mem s) a l (suc n - l)
                  ∙ ap (window (mem s) a) whole),
        λ i. same i ∙ kept i,
      )

  -- On an idle chip `ReadData` ends and returns the full count with the bytes of the range, for every
  -- length that a `ushort` holds.
  pub read_data_lem :
      (n a : ℕ) (s : bus.State)
      → busy s ≡ 0
      → n < 2 ^ 16
      → a + n ≤ capacity
      → a < 2 ^ 16
      → capacity ≤ 2 ^ 16
      → (s' : bus.State) × (read_data bus n a s ≡ some (n, window (mem s) a n, s'))
        × ((i : ℕ) → mem s' i ≡ mem s i)
  read_data_lem n a s idle short fits low cap =
      let (s', done, same) = read_loop_lem (n + 1) n a s (omega arith) idle fits low cap in
      (s', finish s' done, same)
    where
      finish :
          (s' : bus.State)
          → read_loop bus (n + 1) n a s
            ≡ some (record { bytes = window (mem s) a n; to_read = 0; state = s' })
          → read_data bus n a s ≡ some (n, window (mem s) a n, s')
      finish s' done =
          unfold read_data in
          let count : n % 2 ^ 16 ≡ n = omega arith in
          let start : a % 2 ^ 16 ≡ a = omega arith in
          let all : n - 0 ≡ n = omega arith in
          rw (count, start, done) (ap (λ (k : ℕ). some (k, window (mem s) a n, s')) all)

  -- What `WriteData` has written, `ReadData` reads back, as soon as the chip is idle again (`t` is
  -- the chip at that time, its memory as the write left it).
  pub read_data-write_data :
      (buffer : List ℕ) (a : ℕ) (s : bus.State)
      → busy s ≡ 0
      → length buffer < 2 ^ 16
      → a + length buffer ≤ capacity
      → a < 2 ^ 16
      → capacity ≤ 2 ^ 16
      → (s' : bus.State) × (write_data bus capacity buffer (length buffer) a s
          ≡ some (length buffer, s'))
        × ((t : bus.State)
            → busy t ≡ 0
            → ((i : ℕ) → mem t i ≡ mem s' i)
            → (t' : bus.State) × (read_data bus (length buffer) a t
                ≡ some (length buffer, buffer, t')))
  read_data-write_data buffer a s idle short fits low cap =
      let (s', done, _, patched) =
        write_data_lem bus capacity chip buffer a s idle short fits low cap in
      (
        s',
        done,
        λ t rest same.
            let (t', reads, _) = read_data_lem (length buffer) a t rest short fits low cap in
            let bytes =
              window-same (mem s') (mem t) a (length buffer) same
              ∙ window-Patched a buffer (mem s) (mem s') patched in
            (t', reads ∙ ap (λ (b : List ℕ). some (length buffer, b, t')) bytes),
      )
