-- ===== src/Hotplug/Views.antt =====
-- What the container keeps of one channel, and what the loop over the channels does to it.
use zenux_services.Prelude.{
  ℕ, ◌≡◌, ◌≢◌, refl, ap, ◌∙◌, subst, Bool, true, false, ◌||◌, Option, none, some, List, [], ◌∷◌,
  arith, ◌==◌, ==_iff, if◌then◌else◌, Bool-cases, inl, inr,
}
use zenux_services.Prelude.Int.{ℤ, pos, negsuc}
use zenux_services.Prelude.Maps.{
  find_key, is_some, contains_int, find_key-put_key, find_key-remove_key, contains_int-remove_int,
}
use zenux_services.Settings.{ChannelSettings, has_bit, setting_of, Absent, Distinct}
use zenux_services.Hotplug.Container.{
  PendingChannelInfo, NamedHotControllers, Hotplug, is_channel_known, start_adding_controller,
  remove_channel, actualize_plugged, start_actualize_emob_controllers,
}

-- A channel in the three tables.
pub record View : Type 0 where
  pub in_pending : Option PendingChannelInfo
  pub in_controllers : Option NamedHotControllers
  pub is_without : Bool

unfoldable pub view : Hotplug → ℕ → View
view h c = record {
  in_pending = find_key c h.pending;
  in_controllers = find_key c h.controllers;
  is_without = contains_int c h.without;
}

abbrev pub nowhere : View
nowhere = record { in_pending = none; in_controllers = none; is_without = false }

unfoldable pub occupied : View → Bool
occupied v = is_some v.in_pending || is_some v.in_controllers || v.is_without

abbrev pub info_of : ChannelSettings → PendingChannelInfo
info_of s = record { pending_name = s.name_mx; mux_channel = s.mux_channel_no }

abbrev pub named_of : ChannelSettings → NamedHotControllers
named_of s = record { channel_m_name = s.name_mx; controllers = s.mux_channel_no }

-- A plugged channel that is in no table starts to be added; a channel whose plug is out leaves all.
unfoldable pub plug : Bool → ChannelSettings → View → View
plug true s v = if occupied v then v else record v { in_pending = some (info_of s) }
plug false s v = nowhere

unfoldable pub plug_view : ℕ → ChannelSettings → ℤ → View → View
plug_view mask s (negsuc n) v = v
plug_view mask s (pos n) v = plug (has_bit mask n) s v

view-remove_channel : (c : ℕ) (h : Hotplug) → view (remove_channel c h) c ≡ nowhere
unfolding view remove_channel is_some
view-remove_channel c h = ground (
  arith,
  find_key-remove_key c c h.pending,
  find_key-remove_key c c h.controllers,
  contains_int-remove_int c c h.without,
)

view-remove_channel_ne : (c d : ℕ) (h : Hotplug) → c ≢ d → view (remove_channel c h) d ≡ view h d
unfolding view remove_channel is_some
view-remove_channel_ne c d h ne = ground (
  arith,
  find_key-remove_key c d h.pending,
  find_key-remove_key c d h.controllers,
  contains_int-remove_int c d h.without,
)

view-start_adding_controller :
    (s : ChannelSettings) (d : ℕ) (h : Hotplug)
    → view (start_adding_controller s h) d ≡ (
        if s.ctrl_channel == d
        then record (view h d) { in_pending = some (info_of s) }
        else view h d)
unfolding view start_adding_controller
view-start_adding_controller s d h =
    ground (arith, find_key-put_key s.ctrl_channel d (info_of s) h.pending)

known-occupied : (c : ℕ) (h : Hotplug) → is_channel_known c h ≡ occupied (view h c)
unfolding is_channel_known occupied view
known-occupied c h = refl

view-actualize_plugged :
    (mask : ℕ) (s : ChannelSettings) (p : ℤ) (h : Hotplug)
    → view (actualize_plugged mask s p h) s.ctrl_channel
      ≡ plug_view mask s p (view h s.ctrl_channel)
unfolding actualize_plugged plug_view plug
view-actualize_plugged mask s (negsuc n) h = refl
view-actualize_plugged mask s (pos n) h = elim (Bool-cases (has_bit mask n)) [
  | inl e ↦ rw e (
      ground
        (arith, known-occupied s.ctrl_channel h, view-start_adding_controller s s.ctrl_channel h))
  | inr e ↦ rw e (view-remove_channel s.ctrl_channel h)
]

view-actualize_plugged_ne :
    (mask : ℕ) (s : ChannelSettings) (p : ℤ) (h : Hotplug) (d : ℕ)
    → s.ctrl_channel ≢ d
    → view (actualize_plugged mask s p h) d ≡ view h d
unfolding actualize_plugged
view-actualize_plugged_ne mask s (negsuc n) h d ne = refl
view-actualize_plugged_ne mask s (pos n) h d ne = elim (Bool-cases (has_bit mask n)) [
  | inl e ↦ rw e (ground (arith, view-start_adding_controller s d h))
  | inr e ↦ rw e (view-remove_channel_ne s.ctrl_channel d h ne)
]

pub view-Absent :
    (mask : ℕ) (ss : List ChannelSettings) (h : Hotplug) (d : ℕ)
    → Absent d ss
    → view (start_actualize_emob_controllers mask ss h) d ≡ view h d
unfolding start_actualize_emob_controllers
view-Absent mask [] h d a = refl
view-Absent mask (s ∷ ss) h d a =
    view-Absent mask ss (actualize_plugged mask s s.plugged_bit h) d a.1
    ∙ view-actualize_plugged_ne mask s s.plugged_bit h d a.0

pub view-start_actualize :
    (mask : ℕ) (ss : List ChannelSettings) (h : Hotplug) (c : ℕ) (s : ChannelSettings)
    → Distinct ss
    → setting_of c ss ≡ some s
    → view (start_actualize_emob_controllers mask ss h) c
      ≡ plug_view mask s s.plugged_bit (view h c)
unfolding start_actualize_emob_controllers
view-start_actualize mask [] h c s distinct found = cc
view-start_actualize mask (t ∷ ss) h c s distinct found = elim (Bool-cases (t.ctrl_channel == c)) [
  | inl e ↦
      let t≡s : t ≡ s = ground arith in
      let t≡c : t.ctrl_channel ≡ c = (==_iff t.ctrl_channel c).0 e in
      view-Absent mask ss (actualize_plugged mask t t.plugged_bit h) c
        (subst (λ k. Absent k ss) t≡c distinct.0)
      ∙ subst
          (λ k.
            view (actualize_plugged mask t t.plugged_bit h) k
            ≡ plug_view mask t t.plugged_bit (view h k))
          t≡c (view-actualize_plugged mask t t.plugged_bit h)
      ∙ ap (λ u. plug_view mask u u.plugged_bit (view h c)) t≡s
  | inr e ↦
      view-start_actualize mask ss (actualize_plugged mask t t.plugged_bit h) c s distinct.1
        (ground arith)
      ∙ ap (plug_view mask s s.plugged_bit) (
          view-actualize_plugged_ne mask t t.plugged_bit h c
            (λ x. cc ((==_iff t.ctrl_channel c).1 x)))
]
