-- ===== src/Clamp/Views.antt =====
-- What the interface keeps of one channel, and what a read of the plugs does to it.
use zenux_services.Prelude.{
  ℕ, ◌+◌, ◌-◌, ◌/◌, ◌%◌, ◌^◌, ◌<◌, ◌≡◌, ◌≢◌, refl, Bool, true, false, Option, none, some, arith,
  if◌then◌else◌,
}
use zenux_services.Prelude.Bits.{test_bit, test_bit-or, test_bit-and, test_bit-complement}
use zenux_services.Prelude.Maps.{is_some}
use zenux_services.Prelude.Text.{
  Text, ne→eq_text, lookup, lookup-insert_self, lookup-insert_ne, lookup-remove_self,
  lookup-remove_ne,
}
use zenux_services.Settings.{ChannelSettings, bmask, bmask-lt, test_bit-bmask}
use zenux_services.Clamp.Interface.{
  Clamp, ClampInterface, ClampIo, generate_and_notify_clamp_channel_list, add_clamp, try_add_clamp,
  take_clamp,
}

-- A channel in the status word and in the hash.
pub record ClampView : Type 0 where
  pub is_set : Bool
  pub there : Option Clamp

unfoldable pub clamp_view : ClampInterface → ℕ → Text → ClampView
clamp_view h n name = record {
  is_set = test_bit h.clamp_status n;
  there = lookup name h.clamp_hash;
}

unfoldable pub added_view : ClampIo → ℕ → ChannelSettings → ClampView → ClampView
added_view io count s v =
    let clamp = io.new_clamp s ((s.ctrl_channel + 256 - count / 2) % 256) in
    if io.is_memory_plugged s.mux_channel_no
    then record { is_set = true; there = some clamp }
    else v

unfoldable pub removed_view : ClampView → ClampView
removed_view v = if is_some v.there then record { is_set = false; there = none } else v

unfoldable pub replug : Bool → ClampIo → ℕ → ChannelSettings → ClampView → ClampView
replug changes io count s v =
    if changes then if v.is_set then removed_view v else added_view io count s v else v

pub view-try_add_clamp :
    (io : ClampIo) (count : ℕ) (s : ChannelSettings) (n : ℕ) (h : ClampInterface)
    → n < 16
    → clamp_view (try_add_clamp io count s n h) n s.name_mx
      ≡ added_view io count s (clamp_view h n s.name_mx)
unfolding clamp_view try_add_clamp add_clamp generate_and_notify_clamp_channel_list added_view
view-try_add_clamp io count s n h fits = ground (
  arith,
  test_bit-or h.clamp_status (bmask n) n,
  test_bit-bmask n n fits,
  lookup-insert_self s.name_mx (io.new_clamp s ((s.ctrl_channel + 256 - count / 2) % 256))
      h.clamp_hash,
)

pub view-try_add_clamp_ne :
    (io : ClampIo) (count : ℕ) (s : ChannelSettings) (k n : ℕ) (name : Text) (h : ClampInterface)
    → k < 16
    → k ≢ n
    → s.name_mx ≢ name
    → clamp_view (try_add_clamp io count s k h) n name ≡ clamp_view h n name
unfolding clamp_view try_add_clamp add_clamp generate_and_notify_clamp_channel_list
view-try_add_clamp_ne io count s k n name h fits ne other = ground (
  arith,
  test_bit-or h.clamp_status (bmask k) n,
  test_bit-bmask k n fits,
  lookup-insert_ne s.name_mx name (io.new_clamp s ((s.ctrl_channel + 256 - count / 2) % 256))
      h.clamp_hash (ne→eq_text s.name_mx name other),
)

pub view-take_clamp :
    (name : Text) (n : ℕ) (o : Option Clamp) (h : ClampInterface)
    → n < 16
    → lookup name h.clamp_hash ≡ o
    → clamp_view (take_clamp name (bmask n) o h) n name ≡ removed_view (clamp_view h n name)
unfolding clamp_view take_clamp generate_and_notify_clamp_channel_list removed_view is_some
view-take_clamp name n none h fits e = ground arith
view-take_clamp name n (some c) h fits e = ground (
  arith,
  test_bit-and h.clamp_status (2 ^ 16 - 1 - bmask n) n,
  test_bit-complement 16 (bmask n) n (bmask-lt n) fits,
  test_bit-bmask n n fits,
  lookup-remove_self name h.clamp_hash,
)

pub view-take_clamp_ne :
    (name other : Text) (k n : ℕ) (o : Option Clamp) (h : ClampInterface)
    → k < 16
    → n < 16
    → k ≢ n
    → name ≢ other
    → clamp_view (take_clamp name (bmask k) o h) n other ≡ clamp_view h n other
unfolding clamp_view take_clamp generate_and_notify_clamp_channel_list
view-take_clamp_ne name other k n none h fits low ne apart = refl
view-take_clamp_ne name other k n (some c) h fits low ne apart = ground (
  arith,
  test_bit-and h.clamp_status (2 ^ 16 - 1 - bmask k) n,
  test_bit-complement 16 (bmask k) n (bmask-lt k) low,
  test_bit-bmask k n fits,
  lookup-remove_ne name other h.clamp_hash (ne→eq_text name other apart),
)
