-- ===== src/Dsp/Interrupts.antt =====
-- Interrupts of the DSP go to their clients: `ZDspClientContainer::handleDspInterrupt` of
-- zdsp1d/lib/zdspclientcontainer.cpp, after the read of the buffer. Statistics are left out.
use zenux_services.Prelude.{
  ℕ, ◌-◌, ◌/◌, ◌%◌, ◌^◌, ◌<◌, ◌≡◌, ◌≢◌, refl, sym, ap, ◌∙◌, subst, Bool, true, false, Option, none,
  some, List, [], ◌∷◌, ◌++◌, map, arith, ltb, ◌==◌, ==_iff, if◌then◌else◌, get_or, take, drop,
  Bool-cases, inl, inr,
}
use zenux_services.Prelude.Int.{pos, negsuc, as_int}
use zenux_services.Dsp.Clients.{Client, Container, find_by_id, find_client_by_interrupt}
use zenux_services.Dsp.Consistency.{IsConsistent, Apart, Unique, same_object, same_id, by_id}

-- A message "DSPINT:" with its number, and the client it goes to.
pub record Notification : Type 0 where
  pub object : ℕ
  pub parameter : ℕ

-- `pardsp[i] >> 16`, and the part that is sent.
abbrev pub process : ℕ → ℕ
process w = w / 2 ^ 16

abbrev pub message : ℕ → ℕ
message w = w % 2 ^ 16

abbrev pub is_super : Container → Client → Bool
is_super c k = elim c.dsp_super_client [ none ↦ false | some o ↦ k.object == o ]

-- Whether some word is for the super client.
unfoldable pub super_client_found : Container → List ℕ → Bool
super_client_found c [] = false
super_client_found c (w ∷ ws) = elim (find_client_by_interrupt (process w) c) [
  | none ↦ super_client_found c ws
  | some k ↦ if is_super c k then true else super_client_found c ws
]

-- The super client comes first, with the parameter of the last word.
unfoldable pub notify_super : Container → List ℕ → ℕ → List Notification
notify_super c words last = elim c.dsp_super_client [
  | none ↦ []
  | some o ↦
      if super_client_found c words
      then (record { object = o; parameter = message last }) ∷ []
      else []
]

-- One message, unless nobody is found, or the super client, which has been notified.
unfoldable pub notify : Container → ℕ → Option Client → List Notification → List Notification
notify c w none rest = rest
notify c w (some k) rest =
    if is_super c k then rest else (record { object = k.object; parameter = message w }) ∷ rest

unfoldable pub notify_others : Container → List ℕ → List Notification
notify_others c [] = []
notify_others c (w ∷ ws) = notify c w (find_client_by_interrupt (process w) c) (notify_others c ws)

abbrev pub dsp_interrupt_param_buffer_len : ℕ
dsp_interrupt_param_buffer_len = 20

-- The first word is the counter.
abbrev pub dsp_max_pending_interrupt_count : ℕ
dsp_max_pending_interrupt_count = dsp_interrupt_param_buffer_len - 1

-- `pardsp` is the buffer: the number of words, and the words.
unfoldable pub notifications : Container → List ℕ → List Notification
notifications c pardsp = elim (as_int (get_or pardsp 0 0)) [
  | negsuc n ↦ []
  | pos interrupt_count ↦
      let words = take interrupt_count (drop 1 pardsp) in
      if ltb dsp_max_pending_interrupt_count interrupt_count
      then []
      else notify_super c words (get_or pardsp interrupt_count 0) ++ notify_others c words
]

-- What a client receives.
abbrev pub received : ℕ → List Notification → List ℕ
received object [] = []
received object (n ∷ ns) =
    if n.object == object then n.parameter ∷ received object ns else received object ns

-- What the words say for an interrupt number.
abbrev pub addressed : ℕ → List ℕ → List ℕ
addressed id [] = []
addressed id (w ∷ ws) = if process w == id then message w ∷ addressed id ws else addressed id ws

abbrev pub AllWords : List ℕ → Type 0
AllWords [] = Unit
AllWords (w ∷ ws) = (w < 2 ^ 32) × AllWords ws

find_by_id-Apart :
    (id : ℕ) (k d : Client) (ks : List Client)
    → Apart same_object k ks
    → find_by_id id (map by_id ks) ≡ some d
    → d.object ≢ k.object
unfolding find_by_id
find_by_id-Apart id k d [] a e = cc
find_by_id-Apart id k d (p ∷ ks) a e = elim (Bool-cases (p.dsp_interrupt_id == id)) [
  | inl h ↦ let same : p ≡ d = ground arith in λ q. ground (arith, a.0, ap (λ t. t.object) same)
  | inr h ↦ find_by_id-Apart id k d ks a.2 (ground arith)
]

Apart-object :
    (p k : Client) (front back : List Client)
    → Apart same_object p (front ++ k ∷ back)
    → p.object ≢ k.object
Apart-object p k [] back a = ground (arith, a.0)
Apart-object p k (d ∷ front) back a = Apart-object p k front back a.2

find_by_id-object :
    (id : ℕ) (k d : Client) (front back : List Client)
    → Unique same_object (front ++ k ∷ back)
    → find_by_id id (map by_id (front ++ k ∷ back)) ≡ some d
    → d.object ≡ k.object
    → k.dsp_interrupt_id ≡ id
unfolding find_by_id
find_by_id-object id k d [] back u e same = elim (Bool-cases (k.dsp_interrupt_id == id)) [
  | inl h ↦ (==_iff k.dsp_interrupt_id id).0 h
  | inr h ↦ absurd (find_by_id-Apart id k d back u.0 (ground arith) same)
]
find_by_id-object id k d (p ∷ front) back u e same = elim (Bool-cases (p.dsp_interrupt_id == id)) [
  | inl h ↦
      let here : p ≡ d = ground arith in
      absurd (Apart-object p k front back u.0 (ap (λ t. t.object) here ∙ same))
  | inr h ↦ find_by_id-object id k d front back u.1 (ground arith) same
]

find_by_id-middle :
    (k : Client) (front back : List Client)
    → Unique same_id (front ++ k ∷ back)
    → find_by_id k.dsp_interrupt_id (map by_id (front ++ k ∷ back)) ≡ some k
unfolding find_by_id
find_by_id-middle k [] back u = rw ((==_iff k.dsp_interrupt_id k.dsp_interrupt_id).1 refl) refl
find_by_id-middle k (p ∷ front) back u =
    let other : same_id k p ≡ false = middle front u.0 in
    rw other (find_by_id-middle k front back u.1)
  where
    middle : (ks : List Client) → Apart same_id p (ks ++ k ∷ back) → same_id k p ≡ false
    middle [] a = a.1
    middle (d ∷ ks) a = middle ks a.2

received-notify_own :
    (c : Container) (k : Client) (w : ℕ) (rest : List Notification)
    → is_super c k ≡ false
    → received k.object (notify c w (some k) rest) ≡ message w ∷ received k.object rest
unfolding notify
received-notify_own c k w rest plain =
    let own : (k.object == k.object) ≡ true = (==_iff k.object k.object).1 refl in simp (plain, own)

received-notify_other :
    (c : Container) (k : Client) (w : ℕ) (o : Option Client) (rest : List Notification)
    → ((d : Client) → o ≡ some d → d.object ≢ k.object)
    → received k.object (notify c w o rest) ≡ received k.object rest
unfolding notify
received-notify_other c k w none rest h = refl
received-notify_other c k w (some d) rest h =
    let other : (d.object == k.object) ≡ false = ground (arith, h d refl) in
    elim (Bool-cases (is_super c d)) [ inl e ↦ simp e | inr e ↦ simp (e, other) ]

-- A client that is not the super client receives, by the second loop, exactly the words that carry
-- its interrupt number, each once and in their order.
pub received-notify_others :
    (c : Container) (k : Client) (front back : List Client) (words : List ℕ)
    → IsConsistent c
    → c.clients_chronological ≡ front ++ k ∷ back
    → is_super c k ≡ false
    → AllWords words
    → received k.object (notify_others c words) ≡ addressed k.dsp_interrupt_id words
unfolding notify_others
received-notify_others c k front back [] h at plain all = refl
received-notify_others c k front back (w ∷ ws) h at plain all =
    let rest = received-notify_others c k front back ws h at plain all.1 in
    let id : process w % 2 ^ 16 ≡ process w = omega (arith, all.0) in
    let table = h.ids ∙ ap (map by_id) at in
    let o = find_client_by_interrupt (process w) c in
    let look : o ≡ find_by_id (process w) (map by_id (front ++ k ∷ back)) =
      unfold find_client_by_interrupt in
      ap (λ i. find_by_id i c.clients_by_dsp_interrupt_id) id ∙ ap (find_by_id (process w)) table in
    elim (Bool-cases (process w == k.dsp_interrupt_id)) [
      | inl e ↦
          let same : process w ≡ k.dsp_interrupt_id = (==_iff _ _).0 e in
          let found =
            look
            ∙ ap (λ i. find_by_id i (map by_id (front ++ k ∷ back))) same
            ∙ find_by_id-middle k front back (subst (Unique same_id) at h.ids_unique) in
          ap (λ p. received k.object (notify c w p (notify_others c ws))) found
          ∙ received-notify_own c k w (notify_others c ws) plain
          ∙ rw e (ap (λ t. message w ∷ t) rest)
      | inr e ↦
          received-notify_other c k w o (notify_others c ws) (λ d f q. ground (
            arith,
            find_by_id-object (process w) k d front back
                (subst (Unique same_object) at h.objects_unique) (sym look ∙ f) q,
          ))
          ∙ rw e rest
    ]
