-- ===== src/Sec/Conf.antt =====
-- The configuration register of an error calculator: the words that `setSync`, `setMux` and
-- `setCmdId` of sec1000d/lib/scpi-interfaces/secchannel.cpp write back.
use zenux_services.Prelude.{
  ℕ, zero, suc, ◌+◌, ◌-◌, ◌*◌, ◌%◌, ◌^◌, ◌<◌, bit_and, bit_or, ◌≡◌, refl, Bool, true, not, ◌&&◌,
  ◌||◌, ◌∙◌, arith, ltb, leb, if◌then◌else◌, List, [], ◌∷◌, get_or,
}
use zenux_services.Prelude.Bits.{
  test_bit, test_bit-or, test_bit-and, eq_of_bits, bit_or-lt, bit_and-lt, pass_below,
  pass_below→pass, same, same→eq,
}

-- The bit numbers of the register.
abbrev en_n : ℕ
en_n = 8

abbrev en_p : ℕ
en_p = 9

abbrev direction : ℕ
direction = 15

abbrev bit_single : ℕ
bit_single = 16

abbrev sssto : ℕ
sssto = 17

abbrev ssarm : ℕ
ssarm = 19

abbrev cnt2carry : ℕ
cnt2carry = 23

-- SINGLEERRORMASTER, CONTERRORMASTER, ERRORMEASSLAVE, FLANKCOUNT.
unfoldable pub sec_configs : List ℕ
sec_configs =
    (2 ^ en_n + 2 ^ bit_single + 2 ^ cnt2carry)
    ∷ (2 ^ en_n + 2 ^ cnt2carry)
    ∷ (2 ^ en_n + 2 ^ direction + 2 ^ bit_single + 3 * 2 ^ sssto + 2 * 2 ^ ssarm)
    ∷ (2 ^ bit_single + 2 ^ direction + 2 ^ en_p + 2 ^ en_n)
    ∷ []

abbrev pub sec_config_count : ℕ
sec_config_count = 4

-- `(reg & 0xFFFFFF00) | (chnIndex+1)`
unfoldable pub conf_sync : ℕ → ℕ → ℕ
conf_sync chn_index reg = bit_or (bit_and reg 0xFFFFFF00) (chn_index + 1)

-- The `qint8` that `mux` returns is promoted to `int` before it is shifted.
unfoldable pub mux_field : ℕ → ℕ
mux_field mux = (if ltb mux 128 then mux else mux + 2 ^ 32 - 256) * 2 ^ 10 % 2 ^ 32

-- `(reg & 0xFFFF83FF) | (mux << 10)`
unfoldable pub conf_mux : ℕ → ℕ → ℕ
conf_mux mux reg = bit_or (bit_and reg 0xFFFF83FF) (mux_field mux)

-- `(reg & 0x00007CFF) | SecConfigs[cmdId]`
unfoldable pub conf_cmd_id : ℕ → ℕ → ℕ
conf_cmd_id cmd_id reg = bit_or (bit_and reg 0x00007CFF) (get_or sec_configs cmd_id 0)

-- Membership of a bit number in the field that starts at `lo` and ends before `hi`.
abbrev pub in_field : ℕ → ℕ → ℕ → Bool
in_field lo hi i = leb lo i && ltb i hi

sync_mask : pass_below 32 (λ i. same (test_bit 0xFFFFFF00 i) (not (in_field 0 8 i))) ≡ true
unfolding pass_below test_bit
sync_mask = refl

sync_value :
    pass_below 256 (λ v. pass_below 32 (λ i. same (test_bit v i) (in_field 0 8 i && test_bit v i)))
    ≡ true
unfolding pass_below test_bit
sync_value = refl

mux_mask : pass_below 32 (λ i. same (test_bit 0xFFFF83FF i) (not (in_field 10 15 i))) ≡ true
unfolding pass_below test_bit
mux_mask = refl

mux_value :
    pass_below 32 (λ m.
      pass_below 32
        (λ i. same (test_bit (mux_field m) i) (in_field 10 15 i && test_bit m (i - 10))))
    ≡ true
unfolding pass_below test_bit mux_field
mux_value = refl

-- The bits that CMDID keeps: the synchronisation channel and the multiplexer.
abbrev pub kept_by_cmd_id : ℕ → Bool
kept_by_cmd_id i = in_field 0 8 i || in_field 10 15 i

cmd_id_mask : pass_below 32 (λ i. same (test_bit 0x00007CFF i) (kept_by_cmd_id i)) ≡ true
unfolding pass_below test_bit
cmd_id_mask = refl

cmd_id_value :
    pass_below 4 (λ k. pass_below 32 (λ i.
      same
        (test_bit (get_or sec_configs k 0) i)
        (not (kept_by_cmd_id i) && test_bit (get_or sec_configs k 0) i)))
    ≡ true
unfolding pass_below test_bit sec_configs
cmd_id_value = refl

mask_bit :
    (p : ℕ → Bool) (mask i : ℕ)
    → pass_below 32 (λ j. same (test_bit mask j) (p j)) ≡ true
    → i < 32
    → test_bit mask i ≡ p i
mask_bit p mask i table lt = same→eq _ _ (pass_below→pass 32 _ i table lt)

value_bit :
    (n : ℕ) (value : ℕ → ℕ) (p : ℕ → ℕ → Bool) (m i : ℕ)
    → pass_below n (λ k. pass_below 32 (λ j. same (test_bit (value k) j) (p k j))) ≡ true
    → m < n
    → i < 32
    → test_bit (value m) i ≡ p m i
value_bit n value p m i table mlt lt =
    same→eq _ _ (pass_below→pass 32 _ i (pass_below→pass n _ m table mlt) lt)

-- Each bit of the word that SYNC writes back: bits 0 to 7 hold the channel, the others are kept.
pub conf_sync_bits :
    (c r i : ℕ)
    → c < 255
    → i < 32
    → test_bit (conf_sync c r) i ≡ (if in_field 0 8 i then test_bit (c + 1) i else test_bit r i)
unfolding conf_sync
conf_sync_bits c r i clt lt =
    test_bit-or (bit_and r 0xFFFFFF00) (c + 1) i
    ∙ ground (
      arith,
      test_bit-and r 0xFFFFFF00 i,
      mask_bit (λ j. not (in_field 0 8 j)) 0xFFFFFF00 i sync_mask lt,
      value_bit 256 (λ v. v) (λ v j. in_field 0 8 j && test_bit v j) (c + 1) i sync_value
          (omega arith) lt,
    )

-- Each bit of the word that MUX writes back, for an input number of five bits.
pub conf_mux_bits :
    (m r i : ℕ)
    → m < 32
    → i < 32
    → test_bit (conf_mux m r) i ≡ (if in_field 10 15 i then test_bit m (i - 10) else test_bit r i)
unfolding conf_mux
conf_mux_bits m r i mlt lt =
    test_bit-or (bit_and r 0xFFFF83FF) (mux_field m) i
    ∙ ground (
      arith,
      test_bit-and r 0xFFFF83FF i,
      mask_bit (λ j. not (in_field 10 15 j)) 0xFFFF83FF i mux_mask lt,
      value_bit 32 mux_field (λ v j. in_field 10 15 j && test_bit v (j - 10)) m i mux_value mlt lt,
    )

-- Each bit of the word that CMDID writes back: the channel and the multiplexer are kept, all else is
-- the configuration.
pub conf_cmd_id_bits :
    (k r i : ℕ)
    → k < sec_config_count
    → i < 32
    → test_bit (conf_cmd_id k r) i
      ≡ (if kept_by_cmd_id i then test_bit r i else test_bit (get_or sec_configs k 0) i)
unfolding conf_cmd_id
conf_cmd_id_bits k r i klt lt =
    test_bit-or (bit_and r 0x00007CFF) (get_or sec_configs k 0) i
    ∙ ground (
      arith,
      test_bit-and r 0x00007CFF i,
      mask_bit kept_by_cmd_id 0x00007CFF i cmd_id_mask lt,
      value_bit 4 (λ v. get_or sec_configs v 0)
          (λ v j. not (kept_by_cmd_id j) && test_bit (get_or sec_configs v 0) j) k i cmd_id_value
          klt lt,
    )

conf_sync-lt : (c r : ℕ) → c < 255 → r < 2 ^ 32 → conf_sync c r < 2 ^ 32
unfolding conf_sync
conf_sync-lt c r h lt =
    bit_or-lt 32 (bit_and r 0xFFFFFF00) (c + 1) (bit_and-lt 32 r 0xFFFFFF00 lt) (omega arith)

conf_mux-lt : (m r : ℕ) → r < 2 ^ 32 → conf_mux m r < 2 ^ 32
unfolding conf_mux mux_field
conf_mux-lt m r lt =
    bit_or-lt 32 (bit_and r 0xFFFF83FF) (mux_field m) (bit_and-lt 32 r 0xFFFF83FF lt) (omega arith)

sec_configs-lt : (k : ℕ) → get_or sec_configs k 0 < 2 ^ 32
unfolding sec_configs
sec_configs-lt zero = omega arith
sec_configs-lt (suc zero) = omega arith
sec_configs-lt (suc (suc zero)) = omega arith
sec_configs-lt (suc (suc (suc zero))) = omega arith
sec_configs-lt (suc (suc (suc (suc k)))) = omega arith

conf_cmd_id-lt : (k r : ℕ) → r < 2 ^ 32 → conf_cmd_id k r < 2 ^ 32
unfolding conf_cmd_id
conf_cmd_id-lt k r lt =
    bit_or-lt 32 (bit_and r 0x00007CFF) (get_or sec_configs k 0) (bit_and-lt 32 r 0x00007CFF lt)
      (sec_configs-lt k)

-- The three fields are independent: SYNC, MUX and CMDID commute, pair by pair.
conf_comm :
    (c m k r : ℕ)
    → c < 255
    → m < 32
    → k < sec_config_count
    → r < 2 ^ 32
    → (conf_sync c (conf_mux m r) ≡ conf_mux m (conf_sync c r))
      × (conf_sync c (conf_cmd_id k r) ≡ conf_cmd_id k (conf_sync c r))
      × (conf_mux m (conf_cmd_id k r) ≡ conf_cmd_id k (conf_mux m r))
conf_comm c m k r cl ml kl rl = (
  eq_of_bits 32 _ _ (conf_sync-lt c _ cl (conf_mux-lt m r rl))
      (conf_mux-lt m _ (conf_sync-lt c r cl rl))
      λ i lt. ground (
        arith,
        conf_sync_bits c (conf_mux m r) i cl lt,
        conf_mux_bits m r i ml lt,
        conf_mux_bits m (conf_sync c r) i ml lt,
        conf_sync_bits c r i cl lt,
      ),
  eq_of_bits 32 _ _ (conf_sync-lt c _ cl (conf_cmd_id-lt k r rl))
      (conf_cmd_id-lt k _ (conf_sync-lt c r cl rl))
      λ i lt. ground (
        arith,
        conf_sync_bits c (conf_cmd_id k r) i cl lt,
        conf_cmd_id_bits k r i kl lt,
        conf_cmd_id_bits k (conf_sync c r) i kl lt,
        conf_sync_bits c r i cl lt,
      ),
  eq_of_bits 32 _ _ (conf_mux-lt m _ (conf_cmd_id-lt k r rl))
      (conf_cmd_id-lt k _ (conf_mux-lt m r rl))
      λ i lt. ground (
        arith,
        conf_mux_bits m (conf_cmd_id k r) i ml lt,
        conf_cmd_id_bits k r i kl lt,
        conf_cmd_id_bits k (conf_mux m r) i kl lt,
        conf_mux_bits m r i ml lt,
      ),
)
