-- ===== src/Hotplug/Availability.antt =====
-- Sequences of events of `HotPluggableControllerContainer`, and the controller of one channel in them.
use zenux_services.Prelude.{
  ℕ, ◌<◌, ◌≡◌, ◌≢◌, refl, ap, ◌∙◌, Bool, true, false, none, some, List, [], ◌∷◌, arith, ◌==◌,
  ==_iff, Bool-cases, inl, inr,
}
use zenux_services.Prelude.Bits.{test_bit}
use zenux_services.Prelude.Int.{ℤ, pos}
use zenux_services.Prelude.Text.{lookup}
use zenux_services.Prelude.Maps.{is_some}
use zenux_services.Settings.{ChannelSettings, has_bit_lem, setting_of, Distinct, DistinctNames}
use zenux_services.Hotplug.Container.{
  PendingChannelInfo, Hotplug, EmobIo, has_answer, get_current_controllers,
  on_bootloader_stop_assumed, start_actualize_emob_controllers,
}
use zenux_services.Hotplug.Views.{
  View, view, occupied, info_of, named_of, plug, plug_view, view-start_actualize,
}
use zenux_services.Hotplug.Lifecycle.{
  Event, actualize, boot_stopped, step, run, empty_hotplug, boot_view, detect_view, view-boot_self,
  view-boot_ne, plug_kept,
}
use zenux_services.Hotplug.Detection.{Distinct-Found, run-Fits, collect_lem}

-- The plug with bit `n` is in whenever the plugs are read.
abbrev pub StaysPlugged : ℕ → List Event → Type 0
StaysPlugged n [] = Unit
StaysPlugged n (actualize mask ∷ es) = (test_bit mask n ≡ true) × StaysPlugged n es
StaysPlugged n (boot_stopped io d ∷ es) = StaysPlugged n es

-- No bootloader stopper of channel `c` is done.
abbrev pub StillWaits : ℕ → List Event → Type 0
StillWaits c [] = Unit
StillWaits c (actualize mask ∷ es) = StillWaits c es
StillWaits c (boot_stopped io d ∷ es) = (d ≢ c) × StillWaits c es

-- The controllers on a multiplexer channel answer as an EMOB does.
abbrev pub Answers : EmobIo → ℤ → Type 0
Answers io mux =
    (has_answer (io.read_ctrl_version mux) ≡ true)
    × (io.get_emob_controller mux ≡ true)
    × (has_answer (io.read_emob_instrument_sub_type mux) ≡ true)

plug_new :
    (b : Bool) (s : ChannelSettings) (v : View)
    → occupied v ≡ false
    → b ≡ true
    → plug b s v ≡ record v { in_pending = some (info_of s) }
unfolding plug
plug_new true s v free on = rw free refl
plug_new false s v free on = cc

occupied_pending :
    (v : View) (info : PendingChannelInfo) → occupied (record v { in_pending = some info }) ≡ true
unfolding occupied is_some
occupied_pending v info = refl

boot-Answers :
    (io : EmobIo) (s : ChannelSettings) (v : View)
    → Answers io s.mux_channel_no
    → boot_view io (some (info_of s)) v
      ≡ record v { in_pending = none; in_controllers = some (named_of s) }
unfolding boot_view detect_view
boot-Answers io s v (a, b, d) = rw (a, b, d) refl

module _ (ss : List ChannelSettings) (c n : ℕ) (s : ChannelSettings) (distinct : Distinct ss)
    (found : setting_of c ss ≡ some s) (plugged : s.plugged_bit ≡ pos n) (fits : n < 16) where
  view-actualize :
      (mask : ℕ) (h : Hotplug)
      → view (start_actualize_emob_controllers mask ss h) c ≡ plug (test_bit mask n) s (view h c)
  unfolding plug_view
  view-actualize mask h =
      view-start_actualize mask ss h c s distinct found ∙ rw (plugged, has_bit_lem mask n fits) refl

  waits :
      (es : List Event) (h : Hotplug)
      → StaysPlugged n es
      → StillWaits c es
      → occupied (view h c) ≡ true
      → view (run ss es h) c ≡ view h c
  unfolding run step
  waits [] h p w o = refl
  waits (actualize mask ∷ es) h p w o =
      let h' = start_actualize_emob_controllers mask ss h in
      let kept : view h' c ≡ view h c =
        view-actualize mask h ∙ plug_kept (test_bit mask n) s (view h c) o p.0 in
      waits es h' p.1 w (ap occupied kept ∙ o) ∙ kept
  waits (boot_stopped io d ∷ es) h p w o =
      let h' = on_bootloader_stop_assumed io d h in
      let kept : view h' c ≡ view h c = view-boot_ne io d c h w.0 in
      waits es h' p w.1 (ap occupied kept ∙ o) ∙ kept

  stays :
      (es : List Event) (h : Hotplug)
      → StaysPlugged n es
      → (view h c).in_pending ≡ none
      → (view h c).in_controllers ≡ some (named_of s)
      → view (run ss es h) c ≡ view h c
  unfolding run step boot_view
  stays [] h p none_waits there = refl
  stays (actualize mask ∷ es) h p none_waits there =
      let h' = start_actualize_emob_controllers mask ss h in
      let o : occupied (view h c) ≡ true = unfold occupied is_some in ground arith in
      let kept : view h' c ≡ view h c =
        view-actualize mask h ∙ plug_kept (test_bit mask n) s (view h c) o p.0 in
      stays es h' p.1 (ap View.in_pending kept ∙ none_waits) (ap View.in_controllers kept ∙ there)
      ∙ kept
  stays (boot_stopped io d ∷ es) h p none_waits there =
      let h' = on_bootloader_stop_assumed io d h in
      let kept : view h' c ≡ view h c = elim (Bool-cases (d == c)) [
        | inl e ↦
            let d≡c : d ≡ c = (==_iff d c).0 e in
            ap (λ k. view (on_bootloader_stop_assumed io k h) c) d≡c
            ∙ view-boot_self io c h
            ∙ ap (λ o. boot_view io o (view h c)) none_waits
        | inr e ↦ view-boot_ne io d c h (λ same. cc ((==_iff d c).1 same))
      ] in
      stays es h' p (ap View.in_pending kept ∙ none_waits) (ap View.in_controllers kept ∙ there)
      ∙ kept

  -- From the time when the plug is read to the end of the boot.
  detected :
      (io : EmobIo) (mask : ℕ) (es : List Event) (h : Hotplug)
      → occupied (view h c) ≡ false
      → test_bit mask n ≡ true
      → StaysPlugged n es
      → StillWaits c es
      → Answers io s.mux_channel_no
      → view
          (on_bootloader_stop_assumed io c (run ss es (start_actualize_emob_controllers mask ss h)))
          c
        ≡ record (view h c) { in_pending = none; in_controllers = some (named_of s) }
  detected io mask es h free on p w answers =
      let h1 = start_actualize_emob_controllers mask ss h in
      let h2 = run ss es h1 in
      let waiting : View = record (view h c) { in_pending = some (info_of s) } in
      let added : view h1 c ≡ waiting =
        view-actualize mask h ∙ plug_new (test_bit mask n) s (view h c) free on in
      let kept : view h2 c ≡ waiting =
        waits es h1 p w (ap occupied added ∙ occupied_pending (view h c) (info_of s)) ∙ added in
      view-boot_self io c h2
      ∙ ap (λ v. boot_view io v.in_pending v) kept
      ∙ boot-Answers io s waiting answers

  -- A channel that is in no table when its plug is read as set gets a boot time, and if its controllers
  -- answer then, they are found under the name of the channel, whatever happens to other channels
  -- meanwhile and afterwards, as long as each read of the plugs finds the plug in. The settings have to
  -- have distinct numbers and distinct names.
  pub available :
      (before es after : List Event) (io : EmobIo) (mask : ℕ)
      → DistinctNames ss
      → occupied (view (run ss before empty_hotplug) c) ≡ false
      → test_bit mask n ≡ true
      → StaysPlugged n es
      → StillWaits c es
      → Answers io s.mux_channel_no
      → StaysPlugged n after
      → lookup s.name_mx (
          get_current_controllers (
            run ss after (
              run ss
                (boot_stopped io c ∷ [])
                (run ss es (run ss (actualize mask ∷ []) (run ss before empty_hotplug))))))
        ≡ some s.mux_channel_no
  unfolding run step get_current_controllers
  available before es after io mask names free on p w answers p' =
      let h = run ss before empty_hotplug in
      let h1 = run ss es (start_actualize_emob_controllers mask ss h) in
      let h2 = on_bootloader_stop_assumed io c h1 in
      let h3 = run ss after h2 in
      let up = detected io mask es h free on p w answers in
      let there = stays after h2 p' (ap View.in_pending up) (ap View.in_controllers up) ∙ up in
      let all = Distinct-Found ss distinct in
      let f = run-Fits ss after h2 all (
        run-Fits ss (boot_stopped io c ∷ []) h1 all (
          run-Fits ss es (start_actualize_emob_controllers mask ss h) all (
            run-Fits ss (actualize mask ∷ []) h all
              (run-Fits ss before empty_hotplug all (tt, tt))))) in
      collect_lem ss c s h3.controllers [] names found f.1
        (inr (unfold is_some view in ap is_some (ap View.in_controllers there)))
