-- ===== src/Notifier.antt =====
-- zenux-service-common/lib/async-notifications/notificationvalue.cpp: an interrupt word that reports
-- the bits that rise.
use Prim.Native.Nat.{bit_xor}
use zenux_services.Prelude.{
  ℕ, ◌-◌, ◌^◌, ◌<◌, bit_and, bit_or, ◌≡◌, ◌∙◌, not, ◌&&◌, ◌||◌, Option, none, some, arith, ltb,
  if◌then◌else◌, ap,
}
use zenux_services.Prelude.Bits.{
  test_bit, test_bit-or, test_bit-and, test_bit-xor, test_bit-complement,
}

pub record NotificationValue : Type 0 where
  pub value : ℕ

unfoldable pub new_value : ℕ → NotificationValue
new_value val = record { value = val }

-- `risingEdge` carries the second part, if it is emitted.
unfoldable pub set_value : NotificationValue → ℕ → NotificationValue × Option ℕ
set_value n val =
    let changed_bit_mask = bit_xor n.value val in
    let rising_edge_bits = bit_and changed_bit_mask val in
    (
      record n { value = bit_or n.value val },
      if ltb 0 rising_edge_bits then some rising_edge_bits else none,
    )

unfoldable pub clr_value : NotificationValue → ℕ → NotificationValue
clr_value n val = record n { value = bit_and n.value (2 ^ 32 - 1 - val) }

-- The bits that an emission reports; none of them without an emission.
abbrev pub reported : Option ℕ → ℕ
reported none = 0
reported (some bits) = bits

reported-set_value :
    (n : NotificationValue) (val : ℕ)
    → reported (set_value n val).1 ≡ bit_and (bit_xor n.value val) val
unfolding set_value
reported-set_value n val = ground arith

-- A bit is set after `setValue` if it was set or is set in the argument, and it is reported exactly
-- if it is set in the argument and was not set before.
pub set_value_lem :
    (n : NotificationValue) (val i : ℕ)
    → (test_bit (set_value n val).0.value i ≡ (test_bit n.value i || test_bit val i))
      × (test_bit (reported (set_value n val).1) i ≡ (test_bit val i && not (test_bit n.value i)))
set_value_lem n val i = (
  unfold set_value in test_bit-or n.value val i,
  rw (reported-set_value n val)
      (test_bit-and (bit_xor n.value val) val i ∙ ground (arith, test_bit-xor n.value val i)),
)

clr_value_lem :
    (n : NotificationValue) (val i : ℕ)
    → val < 2 ^ 32
    → i < 32
    → test_bit (clr_value n val).value i ≡ (test_bit n.value i && not (test_bit val i))
unfolding clr_value
clr_value_lem n val i p lt =
    test_bit-and n.value (2 ^ 32 - 1 - val) i
    ∙ ap (λ b. test_bit n.value i && b) (test_bit-complement 32 val i p lt)

-- After an acknowledge of the bits `done`, the next value reports an interrupt again exactly if it
-- was acknowledged or had not been pending.
pub set_value-clr_value :
    (n : NotificationValue) (done val i : ℕ)
    → done < 2 ^ 32
    → i < 32
    → test_bit (reported (set_value (clr_value n done) val).1) i
      ≡ (test_bit val i && (test_bit done i || not (test_bit n.value i)))
set_value-clr_value n done val i p lt =
    ground (arith, (set_value_lem (clr_value n done) val i).1, clr_value_lem n done i p lt)
