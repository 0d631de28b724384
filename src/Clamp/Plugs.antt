-- ===== src/Clamp/Plugs.antt =====
-- The loop of `actualizeClampStatus` (clampinterface.cpp) over the channels.
use zenux_services.Prelude.{
  ℕ, ◌<◌, ◌≡◌, ◌≢◌, refl, ap, sym, ◌∙◌, subst, Bool, true, false, not, ◌&&◌, ◌||◌, some, List, [],
  ◌∷◌, arith, Bool-cases, inl, inr,
}
use zenux_services.Prelude.Bits.{test_bit, same}
use zenux_services.Prelude.Int.{ℤ, pos, negsuc}
use zenux_services.Prelude.Maps.{is_some}
use zenux_services.Prelude.Text.{Text, eq_text, eq_text_refl, lookup}
use zenux_services.Settings.{ChannelSettings, has_bit_lem, find_channel_setting_by_mx_name}
use zenux_services.Clamp.Interface.{
  ClampInterface, ClampIo, is_empty_text, handle_clamp_disconnected, actualize_plug,
  actualize_channel, actualize_channels,
}
use zenux_services.Clamp.Views.{
  ClampView, clamp_view, added_view, removed_view, replug, view-try_add_clamp,
  view-try_add_clamp_ne, view-take_clamp, view-take_clamp_ne,
}

-- No other channel has the name or the plug bit.
abbrev pub Others : Text → ℤ → List ChannelSettings → Type 0
Others name plug [] = Unit
Others name plug (t ∷ ts) =
    (t.name_mx ≢ name) × ((k : ℕ) → t.plugged_bit ≡ pos k → plug ≢ pos k) × Others name plug ts

-- The channels have names, which are those that the sense interface gives, and plug bits of 16 bits, and
-- no two share one or the other.
abbrev pub Wired : (ℕ → Text) → List ChannelSettings → Type 0
Wired channel_of [] = Unit
Wired channel_of (s ∷ ss) =
    (channel_of s.ctrl_channel ≡ s.name_mx)
    × (is_empty_text s.name_mx ≡ false)
    × ((k : ℕ) → s.plugged_bit ≡ pos k → k < 16)
    × Others s.name_mx s.plugged_bit ss
    × Wired channel_of ss

Others-found :
    (name : Text) (plug : ℤ) (ts : List ChannelSettings) (s : ChannelSettings)
    → Others name plug ts
    → find_channel_setting_by_mx_name s.name_mx ts ≡ some s
    → (k : ℕ) → s.plugged_bit ≡ pos k
    → plug ≢ pos k
unfolding find_channel_setting_by_mx_name
Others-found name plug [] s others found k e = cc
Others-found name plug (t ∷ ts) s others found k e =
    elim (Bool-cases (eq_text t.name_mx s.name_mx)) [
      | inl f ↦
          let t≡s : t ≡ s = ground arith in others.1 k (ap ChannelSettings.plugged_bit t≡s ∙ e)
      | inr f ↦ Others-found name plug ts s others.2 (ground arith) k e
    ]

module _ (channel_of : ℕ → Text) (io : ClampIo) (count : ℕ) where
  view-actualize_plug :
      (change : ℕ) (s : ChannelSettings) (n : ℕ) (h : ClampInterface)
      → n < 16
      → clamp_view (actualize_plug channel_of io count change s.name_mx s (pos n) h) n s.name_mx
        ≡ replug (test_bit change n) io count s (clamp_view h n s.name_mx)
  unfolding actualize_plug replug handle_clamp_disconnected
  view-actualize_plug change s n h fits = ground (
    arith,
    has_bit_lem change n fits,
    has_bit_lem h.clamp_status n fits,
    view-try_add_clamp io count s n h fits,
    view-take_clamp s.name_mx n (lookup s.name_mx h.clamp_hash) h fits refl,
    set_lem h n s.name_mx,
  )
    where
      set_lem :
          (h : ClampInterface) (n : ℕ) (name : Text)
          → (clamp_view h n name).is_set ≡ test_bit h.clamp_status n
      set_lem h n name = unfold clamp_view in refl

  view-actualize_plug_ne :
      (change : ℕ) (s : ChannelSettings) (k n : ℕ) (name : Text) (h : ClampInterface)
      → k < 16
      → n < 16
      → k ≢ n
      → s.name_mx ≢ name
      → clamp_view (actualize_plug channel_of io count change s.name_mx s (pos k) h) n name
        ≡ clamp_view h n name
  unfolding actualize_plug handle_clamp_disconnected
  view-actualize_plug_ne change s k n name h fits low ne apart = ground (
    arith,
    view-try_add_clamp_ne io count s k n name h fits ne apart,
    view-take_clamp_ne s.name_mx name k n (lookup s.name_mx h.clamp_hash) h fits low ne apart,
  )

  view-actualize_channel :
      (change : ℕ) (s : ChannelSettings) (n : ℕ) (h : ClampInterface)
      → channel_of s.ctrl_channel ≡ s.name_mx
      → is_empty_text s.name_mx ≡ false
      → s.plugged_bit ≡ pos n
      → n < 16
      → clamp_view (actualize_channel channel_of io count change s h) n s.name_mx
        ≡ replug (test_bit change n) io count s (clamp_view h n s.name_mx)
  unfolding actualize_channel
  view-actualize_channel change s n h named full plug fits =
      rw (named, full)
        (ap
            (λ p.
              clamp_view (actualize_plug channel_of io count change s.name_mx s p h) n s.name_mx)
            plug
          ∙ view-actualize_plug change s n h fits)

  -- Another channel, whatever its plug.
  view-actualize_plug_other :
      (change : ℕ) (t : ChannelSettings) (p : ℤ) (n : ℕ) (name : Text) (h : ClampInterface)
      → t.name_mx ≢ name
      → ((k : ℕ) → p ≡ pos k → k < 16)
      → ((k : ℕ) → p ≡ pos k → k ≢ n)
      → n < 16
      → clamp_view (actualize_plug channel_of io count change t.name_mx t p h) n name
        ≡ clamp_view h n name
  view-actualize_plug_other change t (negsuc k) n name h apart low ne fits =
      unfold actualize_plug in refl
  view-actualize_plug_other change t (pos k) n name h apart low ne fits =
      view-actualize_plug_ne change t k n name h (low k refl) fits (ne k refl) apart

  view-actualize_channel_other :
      (change : ℕ) (t : ChannelSettings) (n : ℕ) (name : Text) (h : ClampInterface)
      → channel_of t.ctrl_channel ≡ t.name_mx
      → t.name_mx ≢ name
      → ((k : ℕ) → t.plugged_bit ≡ pos k → k < 16)
      → ((k : ℕ) → t.plugged_bit ≡ pos k → k ≢ n)
      → n < 16
      → clamp_view (actualize_channel channel_of io count change t h) n name ≡ clamp_view h n name
  unfolding actualize_channel
  view-actualize_channel_other change t n name h named apart low ne fits =
      elim (Bool-cases (is_empty_text t.name_mx)) [
        | inl e ↦ rw (named, e) refl
        | inr e ↦
            rw (named, e)
              (view-actualize_plug_other change t t.plugged_bit n name h apart low ne fits)
      ]

  view-Others :
      (change : ℕ) (ts : List ChannelSettings) (n : ℕ) (name : Text) (h : ClampInterface)
      → Others name (pos n) ts
      → Wired channel_of ts
      → n < 16
      → clamp_view (actualize_channels channel_of io count change ts h) n name ≡ clamp_view h n name
  unfolding actualize_channels
  view-Others change [] n name h others wired fits = refl
  view-Others change (t ∷ ts) n name h others wired fits =
      view-Others change ts n name (actualize_channel channel_of io count change t h) others.2
        wired.4 fits
      ∙ view-actualize_channel_other change t n name h wired.0 others.0 wired.2
          (λ k e same. others.1 k e (ap pos (sym same))) fits

  pub view-actualize_channels :
      (change : ℕ) (ss : List ChannelSettings) (s : ChannelSettings) (n : ℕ) (h : ClampInterface)
      → Wired channel_of ss
      → find_channel_setting_by_mx_name s.name_mx ss ≡ some s
      → s.plugged_bit ≡ pos n
      → n < 16
      → clamp_view (actualize_channels channel_of io count change ss h) n s.name_mx
        ≡ replug (test_bit change n) io count s (clamp_view h n s.name_mx)
  unfolding actualize_channels find_channel_setting_by_mx_name
  view-actualize_channels change [] s n h wired found plug fits = cc
  view-actualize_channels change (t ∷ ts) s n h wired found plug fits =
      let h' = actualize_channel channel_of io count change t h in
      elim (Bool-cases (eq_text t.name_mx s.name_mx)) [
        | inl e ↦
            let t≡s : t ≡ s = ground arith in
            let others : Others s.name_mx (pos n) ts =
              subst (λ p. Others s.name_mx p ts) plug
                (subst (λ u. Others u.name_mx u.plugged_bit ts) t≡s wired.3) in
            view-Others change ts n s.name_mx h' others wired.4 fits
            ∙ ap (λ u. clamp_view (actualize_channel channel_of io count change u h) n s.name_mx)
                t≡s
            ∙ view-actualize_channel change s n h
                (subst (λ u. channel_of u.ctrl_channel ≡ u.name_mx) t≡s wired.0)
                (subst (λ u. is_empty_text u.name_mx ≡ false) t≡s wired.1) plug fits
        | inr e ↦
            let rest : find_channel_setting_by_mx_name s.name_mx ts ≡ some s = ground arith in
            view-actualize_channels change ts s n h' wired.4 rest plug fits
            ∙ ap (replug (test_bit change n) io count s) (
                view-actualize_channel_other change t n s.name_mx h wired.0
                  (λ same. ground (arith, eq_text_refl s.name_mx)) wired.2
                  (λ k e same.
                    Others-found t.name_mx t.plugged_bit ts s wired.3 rest n plug (e ∙ ap pos same))
                  fits)
      ]

-- The bit of a channel is set exactly if its clamp is there.
abbrev pub IsSound : ClampView → Type 0
IsSound v = v.is_set ≡ is_some v.there

pub replug_lem :
    (dev : Bool) (io : ClampIo) (count : ℕ) (s : ChannelSettings) (v : ClampView)
    → IsSound v
    → let w = replug (not (same dev v.is_set)) io count s v in
      (is_some w.there ≡ (dev && (is_some v.there || io.is_memory_plugged s.mux_channel_no)))
      × IsSound w
      × (dev ≡ true → is_some v.there ≡ true → w ≡ v)
unfolding replug added_view removed_view is_some
replug_lem true io count s v sound = ground arith
replug_lem false io count s v sound = ground arith
