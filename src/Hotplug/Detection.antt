-- ===== src/Hotplug/Detection.antt =====
-- The way of `HotPluggableControllerContainer` from a plug to the entry in the list of controllers.
use zenux_services.Prelude.{
  ℕ, ◌≡◌, refl, ap, sym, ◌∙◌, true, false, ◌&&◌, Option, none, some, List, [], ◌∷◌, arith, ◌==◌,
  ==_iff, Bool-cases, inl, inr, ◌⊎◌,
}
use zenux_services.Prelude.Int.{ℤ, pos, negsuc}
use zenux_services.Prelude.Text.{
  Text, eq_text, eq_text→eq, eq_text_refl, lookup, insert, lookup-insert_self, lookup-insert_ne,
}
use zenux_services.Prelude.Maps.{
  find_key, remove_key, is_some, Entries, Entries-put_key, Entries-remove_key, Entries-find_key,
}
use zenux_services.Settings.{
  ChannelSettings, has_bit, setting_of, Absent, Distinct, DistinctNames, eq_of_name,
}
use zenux_services.Hotplug.Container.{
  is_channel_known, PendingChannelInfo, NamedHotControllers, Hotplug, EmobIo, has_answer, detect,
  stop_assumed, start_adding_controller, remove_channel, actualize_plugged, collect,
  on_bootloader_stop_assumed, start_actualize_emob_controllers,
}
use zenux_services.Hotplug.Views.{info_of, named_of}
use zenux_services.Hotplug.Lifecycle.{Event, actualize, boot_stopped, step, run}

-- An entry carries the name and the multiplexer channel of the settings of its number.
abbrev pub PendingFits : List ChannelSettings → ℕ → PendingChannelInfo → Type 0
PendingFits ss c info = (s : ChannelSettings) × (setting_of c ss ≡ some s) × (info ≡ info_of s)

abbrev pub ControllerFits : List ChannelSettings → ℕ → NamedHotControllers → Type 0
ControllerFits ss c n = (s : ChannelSettings) × (setting_of c ss ≡ some s) × (n ≡ named_of s)

abbrev pub Fits : List ChannelSettings → Hotplug → Type 0
Fits ss h = Entries (PendingFits ss) h.pending × Entries (ControllerFits ss) h.controllers

-- Each of the settings is the first one of its number.
abbrev pub Found : List ChannelSettings → List ChannelSettings → Type 0
Found ss [] = Unit
Found ss (t ∷ ts) = (setting_of t.ctrl_channel ss ≡ some t) × Found ss ts

Found-cons :
    (s : ChannelSettings) (ss ts : List ChannelSettings)
    → Absent s.ctrl_channel ts
    → Found ss ts
    → Found (s ∷ ss) ts
Found-cons s ss [] absent f = tt
Found-cons s ss (t ∷ ts) absent f = (ground arith, Found-cons s ss ts absent.1 f.1)

pub Distinct-Found : (ss : List ChannelSettings) → Distinct ss → Found ss ss
Distinct-Found [] d = tt
Distinct-Found (s ∷ ss) d = (ground arith, Found-cons s ss ss d.0 (Distinct-Found ss d.1))

module _ (ss : List ChannelSettings) where
  start_adding_controller-Fits :
      (s : ChannelSettings) (h : Hotplug)
      → setting_of s.ctrl_channel ss ≡ some s
      → Fits ss h
      → Fits ss (start_adding_controller s h)
  unfolding start_adding_controller
  start_adding_controller-Fits s h found f = (
    Entries-put_key (PendingFits ss) s.ctrl_channel (info_of s) h.pending (s, found, refl) f.0,
    f.1,
  )

  remove_channel-Fits : (c : ℕ) (h : Hotplug) → Fits ss h → Fits ss (remove_channel c h)
  unfolding remove_channel
  remove_channel-Fits c h f = (
    elim (Bool-cases (is_some (find_key c h.pending))) [
      | inl e ↦ rw e (Entries-remove_key (PendingFits ss) c h.pending f.0)
      | inr e ↦ rw e f.0
    ],
    elim (Bool-cases (is_some (find_key c h.controllers))) [
      | inl e ↦ rw e (Entries-remove_key (ControllerFits ss) c h.controllers f.1)
      | inr e ↦ rw e f.1
    ],
  )

  actualize_plugged-Fits :
      (mask : ℕ) (s : ChannelSettings) (p : ℤ) (h : Hotplug)
      → setting_of s.ctrl_channel ss ≡ some s
      → Fits ss h
      → Fits ss (actualize_plugged mask s p h)
  unfolding actualize_plugged
  actualize_plugged-Fits mask s (negsuc n) h found f = f
  actualize_plugged-Fits mask s (pos n) h found f = elim (Bool-cases (has_bit mask n)) [
    | inl e ↦ rw e (elim (Bool-cases (is_channel_known s.ctrl_channel h)) [
      | inl k ↦ rw k f
      | inr k ↦ rw k (start_adding_controller-Fits s h found f)
    ])
    | inr e ↦ rw e (remove_channel-Fits s.ctrl_channel h f)
  ]

  start_actualize-Fits :
      (mask : ℕ) (ts : List ChannelSettings) (h : Hotplug)
      → Found ss ts
      → Fits ss h
      → Fits ss (start_actualize_emob_controllers mask ts h)
  unfolding start_actualize_emob_controllers
  start_actualize-Fits mask [] h found f = f
  start_actualize-Fits mask (t ∷ ts) h found f =
      start_actualize-Fits mask ts (actualize_plugged mask t t.plugged_bit h) found.1
        (actualize_plugged-Fits mask t t.plugged_bit h found.0 f)

  detect-Fits :
      (io : EmobIo) (c : ℕ) (info : PendingChannelInfo) (h : Hotplug)
      → PendingFits ss c info
      → Fits ss h
      → Fits ss (detect io c info h)
  unfolding detect
  detect-Fits io c info h p f =
      let (s, found, e) = p in
      let named : NamedHotControllers = record {
        channel_m_name = info.pending_name;
        controllers = info.mux_channel;
      } in
      let fits : ControllerFits ss c named = (s, found, ground arith) in
      elim (Bool-cases (has_answer (io.read_ctrl_version info.mux_channel))) [
        | inl v ↦
            rw v
              (elim (Bool-cases (
                io.get_emob_controller info.mux_channel
                && has_answer (io.read_emob_instrument_sub_type info.mux_channel))) [
                  | inl t ↦
                      rw t (f.0, Entries-put_key (ControllerFits ss) c named h.controllers fits f.1)
                  | inr t ↦ rw t f
                ])
        | inr v ↦ rw v f
      ]

  stop_assumed-Fits :
      (io : EmobIo) (c : ℕ) (o : Option PendingChannelInfo) (h : Hotplug)
      → find_key c h.pending ≡ o
      → Fits ss h
      → Fits ss (stop_assumed io c o h)
  unfolding stop_assumed
  stop_assumed-Fits io c none h e f = f
  stop_assumed-Fits io c (some info) h e f =
      detect-Fits io c info (record h { pending = remove_key c h.pending })
        (Entries-find_key (PendingFits ss) c info h.pending f.0 e)
        (Entries-remove_key (PendingFits ss) c h.pending f.0, f.1)

  step-Fits : (e : Event) (h : Hotplug) → Found ss ss → Fits ss h → Fits ss (step ss e h)
  unfolding step on_bootloader_stop_assumed
  step-Fits (actualize mask) h found f = start_actualize-Fits mask ss h found f
  step-Fits (boot_stopped io c) h found f = stop_assumed-Fits io c (find_key c h.pending) h refl f

  pub run-Fits : (es : List Event) (h : Hotplug) → Found ss ss → Fits ss h → Fits ss (run ss es h)
  unfolding run
  run-Fits [] h found f = f
  run-Fits (e ∷ es) h found f = run-Fits es (step ss e h) found (step-Fits e h found f)

  other_entry :
      (c d : ℕ) (s : ChannelSettings) (n : NamedHotControllers)
      (cs : List (ℕ × NamedHotControllers))
      → setting_of c ss ≡ some s
      → ControllerFits ss d n
      → eq_text n.channel_m_name s.name_mx ≡ false
      → is_some (find_key c ((d, n) ∷ cs)) ≡ true
      → is_some (find_key c cs) ≡ true
  unfolding find_key
  other_entry c d s n cs found (t, found_t, e) other w = elim (Bool-cases (d == c)) [
    | inl f ↦
        let d≡c : d ≡ c = (==_iff d c).0 f in
        let t≡s : some t ≡ some s = sym found_t ∙ ap (λ k. setting_of k ss) d≡c ∙ found in
        let name : n.channel_m_name ≡ s.name_mx = cc in
        absurd (ground (arith, eq_text_refl s.name_mx))
    | inr f ↦ ground arith
  ]

  -- Every entry under the name of `s` is that of `s`.
  pub collect_lem :
      (c : ℕ) (s : ChannelSettings) (cs : List (ℕ × NamedHotControllers)) (map : List (Text × ℤ))
      → DistinctNames ss
      → setting_of c ss ≡ some s
      → Entries (ControllerFits ss) cs
      → (lookup s.name_mx map ≡ some s.mux_channel_no) ⊎ (is_some (find_key c cs) ≡ true)
      → lookup s.name_mx (collect cs map) ≡ some s.mux_channel_no
  unfolding collect find_key is_some
  collect_lem c s [] map names found f (inl e) = e
  collect_lem c s [] map names found f (inr e) = cc
  collect_lem c s ((d, n) ∷ cs) map names found f way =
      let (t, found_t, e) = f.0 in
      elim (Bool-cases (eq_text n.channel_m_name s.name_mx)) [
        | inl same ↦
            let n≡s : n.channel_m_name ≡ s.name_mx = eq_text→eq n.channel_m_name s.name_mx same in
            let t≡s : t ≡ s = eq_of_name d c t s ss names found_t found (cc) in
            let mux : n.controllers ≡ s.mux_channel_no = cc in
            collect_lem c s cs (insert n.channel_m_name n.controllers map) names found f.1
              (inl (rw (n≡s, mux) (lookup-insert_self s.name_mx s.mux_channel_no map)))
        | inr other ↦
            collect_lem c s cs (insert n.channel_m_name n.controllers map) names found f.1
              (elim way [
                | inl w ↦
                    inl (lookup-insert_ne n.channel_m_name s.name_mx n.controllers map other ∙ w)
                | inr w ↦ inr (other_entry c d s n cs found f.0 other w)
              ])
      ]
