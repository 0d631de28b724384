-- ===== src/Sec/Interrupts.antt =====
-- `SECIntHandler` of sec1000d/lib/sec1000d.cpp: the interrupt words of all channels, four bits each.
use zenux_services.Prelude.{
  ℕ, zero, suc, ◌+◌, ◌*◌, ◌/◌, ◌%◌, ◌<◌, ◌≡◌, bit_and, bit_or, List, [], ◌∷◌, Option, some, arith,
  refl, ap, sym, ◌∙◌, if◌then◌else◌, ◌==◌, get_or, length, get_elem?, not,
}
use zenux_services.Prelude.Bits.{bit_and-one, bit_and_three, bit_and_nibble, bit_and_high_nibble}
use zenux_services.Notifier.{set_value}
use zenux_services.Sec.Channel.{SecChannel, set_int_reg}

-- Two channels share a byte.
unfoldable pub calc_byte_count_from_ec_channels : ℕ → ℕ
calc_byte_count_from_ec_channels ec_channel_count =
    let byte_count = ec_channel_count / 2 in
    if not (bit_and ec_channel_count 0b1 == 0) then byte_count + 1 else byte_count

-- Whole words of four bytes.
unfoldable pub calc_32bit_stuffed_count_from_byte_count : ℕ → ℕ
calc_32bit_stuffed_count_from_byte_count byte_count =
    let count_32bit = byte_count / 4 in
    (if not (bit_and byte_count 0b11 == 0) then count_32bit + 1 else count_32bit) * 4

unfoldable pub bytes_to_read : ℕ → ℕ
unfolding calc_byte_count_from_ec_channels calc_32bit_stuffed_count_from_byte_count
bytes_to_read ec_channel_count =
    calc_32bit_stuffed_count_from_byte_count (calc_byte_count_from_ec_channels ec_channel_count)

-- The bits of one channel.
unfoldable pub irq_reg_val : List ℕ → ℕ → ℕ
irq_reg_val regs channel =
    let irq_mask_byte_val = get_or regs (channel / 2) 0 in
    if bit_and channel 0b1 == 0
    then bit_and irq_mask_byte_val 0x0F
    else bit_and irq_mask_byte_val 0xF0 / 16

-- The loop from a channel number on; the second part holds what each channel reports.
unfoldable pub set_int_regs : List ℕ → ℕ → List SecChannel → List SecChannel × List (Option ℕ)
set_int_regs regs channel [] = ([], [])
set_int_regs regs channel (c ∷ cs) =
    let (c', edge) = set_int_reg (irq_reg_val regs channel) c in
    let (cs', edges) = set_int_regs regs (channel + 1) cs in (c' ∷ cs', edge ∷ edges)

-- `read_block` is the read of so many bytes from the device node, behind the collection word.
unfoldable pub sec_int_handler : (ℕ → List ℕ) → List SecChannel → List SecChannel × List (Option ℕ)
sec_int_handler read_block cs = set_int_regs (read_block (bytes_to_read (length cs))) 0 cs

-- The bytes as one number, the first byte lowest.
abbrev pub le_value : List ℕ → ℕ
le_value [] = 0
le_value (b ∷ bs) = b + 256 * le_value bs

abbrev pub AllBytes : List ℕ → Type 0
AllBytes [] = Unit
AllBytes (b ∷ bs) = (b < 256) × AllBytes bs

-- Four bits of a number, from position `4 * k` on.
abbrev pub nibble : ℕ → ℕ → ℕ
nibble zero v = v % 16
nibble (suc k) v = nibble k (v / 16)

-- The read covers the bytes of all channels, in whole words, with less than a word too many.
pub bytes_to_read_lem :
    (n k : ℕ)
    → k < n
    → (k / 2 < bytes_to_read n) × (bytes_to_read n % 4 ≡ 0) × (2 * bytes_to_read n < n + 8)
unfolding bytes_to_read
bytes_to_read_lem n k h =
    let count : calc_byte_count_from_ec_channels n ≡ (n + 1) / 2 =
      unfold calc_byte_count_from_ec_channels in ground (arith, bit_and-one n) in
    rw count (
      unfold calc_32bit_stuffed_count_from_byte_count in
      ground (arith, bit_and_three ((n + 1) / 2)))

irq_reg_val-nil : (k : ℕ) → irq_reg_val [] k ≡ 0
unfolding irq_reg_val
irq_reg_val-nil k = ground (arith, bit_and_nibble 0, bit_and_high_nibble 0)

nibble-zero : (k : ℕ) → nibble k 0 ≡ 0
nibble-zero zero = refl
nibble-zero (suc k) = nibble-zero k

irq_reg_val-step :
    (b : ℕ) (bs : List ℕ) (k : ℕ) → irq_reg_val (b ∷ bs) (suc (suc k)) ≡ irq_reg_val bs k
unfolding irq_reg_val
irq_reg_val-step b bs k =
    let half : suc (suc k) / 2 ≡ suc (k / 2) = omega arith in
    let odd : bit_and (suc (suc k)) 1 ≡ bit_and k 1 =
      omega (arith, bit_and-one (suc (suc k)), bit_and-one k) in
    rw (half, odd) refl

irq_reg_val-nibble : (bs : List ℕ) (k : ℕ) → AllBytes bs → irq_reg_val bs k ≡ nibble k (le_value bs)
irq_reg_val-nibble [] k h = irq_reg_val-nil k ∙ sym (nibble-zero k)
irq_reg_val-nibble (b ∷ bs) zero h = unfold irq_reg_val in omega (arith, bit_and_nibble b)
irq_reg_val-nibble (b ∷ bs) (suc zero) h =
    unfold irq_reg_val in omega (arith, bit_and_high_nibble b)
irq_reg_val-nibble (b ∷ bs) (suc (suc k)) h =
    let rest : (b + 256 * le_value bs) / 16 / 16 ≡ le_value bs = omega (arith, h.0) in
    irq_reg_val-step b bs k ∙ irq_reg_val-nibble bs k h.1 ∙ sym (ap (nibble k) rest)

set_int_regs-get :
    (regs : List ℕ) (from k : ℕ) (cs : List SecChannel) (c : SecChannel)
    → get_elem? cs k ≡ some c
    → get_elem? (set_int_regs regs from cs).0 k
      ≡ some (set_int_reg (irq_reg_val regs (from + k)) c).0
unfolding set_int_regs
set_int_regs-get regs from k [] c e = cc
set_int_regs-get regs from zero (d ∷ cs) c e =
    let same : from + 0 ≡ from = omega arith in rw same (ground arith)
set_int_regs-get regs from (suc k) (d ∷ cs) c e =
    let next : from + suc k ≡ from + 1 + k = omega arith in
    rw next (set_int_regs-get regs (from + 1) k cs c e)

-- Channel `k` receives the `k`-th group of four bits of the bytes read, taken as one number with the
-- lowest byte first, and adds them to the bits that are pending; nothing else of a channel changes.
pub sec_int_handler_lem :
    (read_block : ℕ → List ℕ) (cs : List SecChannel) (k : ℕ) (c : SecChannel)
    → AllBytes (read_block (bytes_to_read (length cs)))
    → get_elem? cs k ≡ some c
    → get_elem? (sec_int_handler read_block cs).0 k
      ≡ some (record c {
        int_reg = record {
          value =
              bit_or c.int_reg.value (nibble k (le_value (read_block (bytes_to_read (length cs)))));
        };
      })
unfolding sec_int_handler
sec_int_handler_lem read_block cs k c bytes e =
    let regs = read_block (bytes_to_read (length cs)) in
    let first : 0 + k ≡ k = omega arith in
    set_int_regs-get regs 0 k cs c e
    ∙ rw (first, irq_reg_val-nibble regs k bytes) (unfold set_int_reg set_value in refl)
