-- ===== src/Hotplug/Lifecycle.antt =====
-- Sequences of events of the container: the bits of the plugs are read, or a bootloader stopper's time
-- is up.
use zenux_services.Prelude.{
  ℕ, ◌<◌, ◌≡◌, ◌≢◌, refl, ◌∙◌, Bool, true, false, ◌&&◌, Option, none, some, List, [], ◌∷◌, arith,
  ◌==◌, ==_iff, if◌then◌else◌, Bool-cases, inl, inr,
}
use zenux_services.Prelude.Bits.{test_bit}
use zenux_services.Prelude.Int.{ℤ, pos, negsuc}
use zenux_services.Prelude.Maps.{
  find_key, remove_key, is_some, contains_int, find_key-put_key, find_key-remove_key,
  contains_int-insert_int,
}
use zenux_services.Settings.{ChannelSettings, has_bit, has_bit_lem, setting_of, Distinct}
use zenux_services.Hotplug.Container.{
  PendingChannelInfo, Hotplug, EmobIo, has_answer, detect, stop_assumed, on_bootloader_stop_assumed,
  start_actualize_emob_controllers,
}
use zenux_services.Hotplug.Views.{View, view, occupied, plug, plug_view, view-start_actualize}

pub data Event : Type 0 where
  actualize : ℕ → Event
  boot_stopped : EmobIo → ℕ → Event

abbrev pub empty_hotplug : Hotplug
empty_hotplug = record { controllers = []; pending = []; without = []; signals = 0 }

-- `detect` as the view of its channel has it.
unfoldable pub detect_view : EmobIo → PendingChannelInfo → View → View
detect_view io info v =
    let mux = info.mux_channel in
    let found = record v {
      in_controllers = some (record { channel_m_name = info.pending_name; controllers = mux });
    } in
    if has_answer (io.read_ctrl_version mux)
    then if io.get_emob_controller mux && has_answer (io.read_emob_instrument_sub_type mux)
      then found
      else v
    else record v { is_without = true }

unfoldable pub boot_view : EmobIo → Option PendingChannelInfo → View → View
boot_view io none v = v
boot_view io (some info) v = detect_view io info (record v { in_pending = none })

view-detect :
    (io : EmobIo) (c d : ℕ) (info : PendingChannelInfo) (h : Hotplug)
    → view (detect io c info h) d ≡ (if c == d then detect_view io info (view h d) else view h d)
unfolding view detect detect_view
view-detect io c d info h = ground (
  arith,
  find_key-put_key c d
      (record { channel_m_name = info.pending_name; controllers = info.mux_channel }) h.controllers,
  contains_int-insert_int c d h.without,
)

view-stop_assumed :
    (io : EmobIo) (c d : ℕ) (o : Option PendingChannelInfo) (h : Hotplug)
    → find_key c h.pending ≡ o
    → view (stop_assumed io c o h) d ≡ (if c == d then boot_view io o (view h d) else view h d)
unfolding stop_assumed boot_view
view-stop_assumed io c d none h e = ground arith
view-stop_assumed io c d (some info) h e =
    let taken = record h { pending = remove_key c h.pending } in
    view-detect io c d info taken ∙ unfold view in ground (arith, find_key-remove_key c d h.pending)

pub view-boot_self :
    (io : EmobIo) (c : ℕ) (h : Hotplug)
    → view (on_bootloader_stop_assumed io c h) c ≡ boot_view io (view h c).in_pending (view h c)
unfolding on_bootloader_stop_assumed view
view-boot_self io c h =
    view-stop_assumed io c c (find_key c h.pending) h refl ∙ unfold view in ground arith

pub view-boot_ne :
    (io : EmobIo) (c d : ℕ) (h : Hotplug)
    → c ≢ d
    → view (on_bootloader_stop_assumed io c h) d ≡ view h d
unfolding on_bootloader_stop_assumed
view-boot_ne io c d h ne = view-stop_assumed io c d (find_key c h.pending) h refl ∙ ground arith

unfoldable pub step : List ChannelSettings → Event → Hotplug → Hotplug
step ss (actualize mask) h = start_actualize_emob_controllers mask ss h
step ss (boot_stopped io c) h = on_bootloader_stop_assumed io c h

unfoldable pub run : List ChannelSettings → List Event → Hotplug → Hotplug
run ss [] h = h
run ss (e ∷ es) h = run ss es (step ss e h)

-- A channel is in one table at most.
abbrev pub IsExclusive : View → Type 0
IsExclusive v =
    ((is_some v.in_pending && is_some v.in_controllers) ≡ false)
    × ((is_some v.in_pending && v.is_without) ≡ false)
    × ((is_some v.in_controllers && v.is_without) ≡ false)

plug-IsExclusive :
    (b : Bool) (s : ChannelSettings) (v : View) → IsExclusive v → IsExclusive (plug b s v)
unfolding plug occupied is_some
plug-IsExclusive true s v x = ground arith
plug-IsExclusive false s v x = ground arith

plug_view-IsExclusive :
    (mask : ℕ) (s : ChannelSettings) (p : ℤ) (v : View)
    → IsExclusive v
    → IsExclusive (plug_view mask s p v)
unfolding plug_view
plug_view-IsExclusive mask s (negsuc n) v x = x
plug_view-IsExclusive mask s (pos n) v x = plug-IsExclusive (has_bit mask n) s v x

boot_view-IsExclusive :
    (io : EmobIo) (o : Option PendingChannelInfo) (v : View)
    → v.in_pending ≡ o
    → IsExclusive v
    → IsExclusive (boot_view io o v)
unfolding boot_view detect_view is_some
boot_view-IsExclusive io none v e x = x
boot_view-IsExclusive io (some info) v e x = ground arith

step-IsExclusive :
    (ss : List ChannelSettings) (e : Event) (h : Hotplug) (c : ℕ) (s : ChannelSettings)
    → Distinct ss
    → setting_of c ss ≡ some s
    → IsExclusive (view h c)
    → IsExclusive (view (step ss e h) c)
unfolding step
step-IsExclusive ss (actualize mask) h c s distinct found x =
    rw (view-start_actualize mask ss h c s distinct found)
      (plug_view-IsExclusive mask s s.plugged_bit (view h c) x)
step-IsExclusive ss (boot_stopped io d) h c s distinct found x = elim (Bool-cases (d == c)) [
  | inl e ↦
      let d≡c : d ≡ c = (==_iff d c).0 e in
      rw (d≡c, view-boot_self io c h)
        (boot_view-IsExclusive io (view h c).in_pending (view h c) refl x)
  | inr e ↦ rw (view-boot_ne io d c h (λ same. cc ((==_iff d c).1 same))) x
]

run-IsExclusive :
    (ss : List ChannelSettings) (es : List Event) (h : Hotplug) (c : ℕ) (s : ChannelSettings)
    → Distinct ss
    → setting_of c ss ≡ some s
    → IsExclusive (view h c)
    → IsExclusive (view (run ss es h) c)
unfolding run
run-IsExclusive ss [] h c s distinct found x = x
run-IsExclusive ss (e ∷ es) h c s distinct found x =
    run-IsExclusive ss es (step ss e h) c s distinct found
      (step-IsExclusive ss e h c s distinct found x)

empty-IsExclusive : (c : ℕ) → IsExclusive (view empty_hotplug c)
unfolding view find_key contains_int is_some
empty-IsExclusive c = (refl, refl, refl)

pub occupied-plug : (b : Bool) (s : ChannelSettings) (v : View) → occupied (plug b s v) ≡ b
unfolding plug occupied is_some
occupied-plug true s v = ground arith
occupied-plug false s v = refl

pub plug_kept :
    (b : Bool) (s : ChannelSettings) (v : View) → occupied v ≡ true → b ≡ true → plug b s v ≡ v
unfolding plug
plug_kept true s v was is = rw was refl
plug_kept false s v was is = cc

-- After any sequence of events and another read of the plugs, a channel with a plug bit is known exactly
-- if its bit is set, it is in one of the three tables at most, and a channel that was known and is still
-- plugged stays where it was. The settings have to have distinct numbers.
pub start_actualize_lem :
    (ss : List ChannelSettings) (es : List Event) (mask c n : ℕ) (s : ChannelSettings)
    → Distinct ss
    → setting_of c ss ≡ some s
    → s.plugged_bit ≡ pos n
    → n < 16
    → let before = view (run ss es empty_hotplug) c in
      let after = view (start_actualize_emob_controllers mask ss (run ss es empty_hotplug)) c in
      (occupied after ≡ test_bit mask n)
      × IsExclusive after
      × (occupied before ≡ true → test_bit mask n ≡ true → after ≡ before)
unfolding plug_view
start_actualize_lem ss es mask c n s distinct found plugged fits =
    let h = run ss es empty_hotplug in
    let start : view (start_actualize_emob_controllers mask ss h) c
        ≡ plug (test_bit mask n) s (view h c) =
      view-start_actualize mask ss h c s distinct found
      ∙ rw (plugged, has_bit_lem mask n fits) refl in
    rw start (
      occupied-plug (test_bit mask n) s (view h c),
      plug-IsExclusive (test_bit mask n) s (view h c)
          (run-IsExclusive ss es empty_hotplug c s distinct found (empty-IsExclusive c)),
      plug_kept (test_bit mask n) s (view h c),
    )
