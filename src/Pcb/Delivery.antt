-- ===== src/Pcb/Delivery.antt =====
-- Registration, delivery and removal of the notifiers of `PCBServer` (pcbserver.cpp).
use mathlib.Core.List.{append-nil}
use zenux_services.Prelude.{
  ℕ, zero, suc, ◌≡◌, refl, ap, ◌∙◌, Bool, Option, none, some, List, [], ◌∷◌, ◌++◌, arith,
  if◌then◌else◌, ◌==◌, length, get_elem?, take, drop, take_all, Bool-cases, inl, inr, ◌⊎◌,
}
use zenux_services.Prelude.Text.{Text}
use zenux_services.Scpi.{ack, ScpiLib, ProtoCmd}
use zenux_services.Pcb.Notifiers.{
  Registered, Delegate, ScpiObjects, PcbState, is_client, registered_by, remove_at, remove_if,
  remove_backwards, do_unregister_notifier, on_notify_peer_connection_closed,
  on_establish_new_notifier, establish_all, register_with_value, on_notifier_changed,
}

-- All but the elements that pass a test.
abbrev pub reject {ℓ} : {A : Type ℓ} → (A → Bool) → List A → List A
reject p [] = []
reject p (x ∷ xs) = if p x then reject p xs else x ∷ reject p xs

module _ {ℓ} {A : Type ℓ} where
  remove_if-cons :
      (p : A → Bool) (i : ℕ) (x : A) (o : Option A) (xs : List A)
      → remove_if p (suc i) o (x ∷ xs) ≡ x ∷ remove_if p i o xs
  unfolding remove_at
  remove_if-cons p i x none xs = refl
  remove_if-cons p i x (some y) xs = ground arith

  drop_all : (xs : List A) → drop (length xs) xs ≡ []
  drop_all [] = refl
  drop_all (x ∷ xs) = drop_all xs

  -- The list from the end of the first `i` elements on.
  tail_lem :
      (p : A → Bool) (i : ℕ) (xs : List A)
      → reject p (take i (remove_if p i (get_elem? xs i) xs))
          ++ drop i (remove_if p i (get_elem? xs i) xs)
        ≡ reject p (take (suc i) xs) ++ drop (suc i) xs
  unfolding remove_at
  tail_lem p zero [] = refl
  tail_lem p zero (x ∷ xs) = elim (Bool-cases (p x)) [ inl e ↦ rw e refl | inr e ↦ rw e refl ]
  tail_lem p (suc i) [] = refl
  tail_lem p (suc i) (x ∷ xs) =
      let r = remove_if p i (get_elem? xs i) xs in
      ap (λ t. reject p (take (suc i) t) ++ drop (suc i) t)
        (remove_if-cons p i x (get_elem? xs i) xs)
      ∙ elim (Bool-cases (p x)) [
        | inl e ↦ rw e (tail_lem p i xs)
        | inr e ↦ rw e (ap (λ t. x ∷ t) (tail_lem p i xs))
      ]

  remove_backwards_from :
      (p : A → Bool) (i : ℕ) (xs : List A)
      → remove_backwards p i xs ≡ reject p (take i xs) ++ drop i xs
  unfolding remove_backwards
  remove_backwards_from p zero xs = refl
  remove_backwards_from p (suc i) xs =
      remove_backwards_from p i (remove_if p i (get_elem? xs i) xs) ∙ tail_lem p i xs

  -- The loop removes what passes the test and nothing else, in one pass.
  pub remove_backwards-length :
      (p : A → Bool) (xs : List A) → remove_backwards p (length xs) xs ≡ reject p xs
  remove_backwards-length p xs =
      remove_backwards_from p (length xs) xs
      ∙ rw (take_all (length xs) xs (omega arith), drop_all xs) (append-nil _)

-- The second list is the first one without the elements that satisfy `P`, in the same order.
pub data Without {ℓ} {A : Type ℓ} (P : A → Type 0) : List A → List A → Type ℓ where
  nothing : Without P [] []
  left_out : {x : A} {xs ys : List A} → P x → Without P xs ys → Without P (x ∷ xs) ys
  kept : {x : A} {xs ys : List A} → ¬ P x → Without P xs ys → Without P (x ∷ xs) (x ∷ ys)

-- An entry of the connection `peer`, for this identifier, or where one of the two identifiers is empty.
abbrev pub Concerns : ℕ → Text → ℕ → Text → Type 0
Concerns peer client_id net_peer id =
    (net_peer ≡ peer) × ((id ≡ client_id) ⊎ ((client_id ≡ []) ⊎ (id ≡ [])))

module _ (lib : ScpiLib) (objects : ScpiObjects) where
  -- The handlers of all delegates, without the subscribers that are concerned.
  abbrev pub AllWithout : ℕ → Text → List Delegate → List Delegate → Type 0
  AllWithout peer client_id [] [] = Unit
  AllWithout peer client_id [] (e ∷ es) = ⊥
  AllWithout peer client_id (d ∷ ds) [] = ⊥
  AllWithout peer client_id (d ∷ ds) (e ∷ es) =
      (e.command ≡ d.command)
      × Without (λ n. Concerns peer client_id n.net_peer n.client_id) d.subscriber_vector
          e.subscriber_vector
      × AllWithout peer client_id ds es

  unregistered-list :
      (peer : ℕ) (client_id : Text) (s : PcbState)
      → (do_unregister_notifier lib objects peer client_id s).notifier_register_list
        ≡ reject (registered_by peer client_id) s.notifier_register_list
  unfolding do_unregister_notifier
  unregistered-list peer client_id s =
      remove_backwards-length (registered_by peer client_id) s.notifier_register_list

  messages-reject :
      (irqreg notifier peer : ℕ) (list : List Registered)
      → on_notifier_changed irqreg notifier (reject (registered_by peer []) list)
        ≡ reject (λ m. peer == m.net_peer) (on_notifier_changed irqreg notifier list)
  unfolding on_notifier_changed is_client
  messages-reject irqreg notifier peer [] = refl
  messages-reject irqreg notifier peer (n ∷ ns) =
      ground (arith, messages-reject irqreg notifier peer ns)

  -- After a connection is closed, an interrupt is told to the same clients as before, in the same
  -- order, but to none on that connection.
  pub on_notifier_changed-closed :
      (irqreg notifier peer : ℕ) (s : PcbState)
      → on_notifier_changed irqreg notifier
          (on_notify_peer_connection_closed lib objects peer s).notifier_register_list
        ≡ reject
            (λ m. peer == m.net_peer)
            (on_notifier_changed irqreg notifier s.notifier_register_list)
  unfolding on_notify_peer_connection_closed
  on_notifier_changed-closed irqreg notifier peer s =
      ap (on_notifier_changed irqreg notifier) (unregistered-list peer [] s)
      ∙ messages-reject irqreg notifier peer s.notifier_register_list

  abbrev waits : ProtoCmd → PcbState → PcbState
  waits p s = record s {
    notifier_register_next =
        s.notifier_register_next ++ (record { net_peer = p.peer; client_id = p.client_id }) ∷ [];
  }

  registered :
      (p : ProtoCmd) (s : PcbState) (d : ℕ) (notifiers : List ℕ)
      → objects.get_scpi_object (lib.get_param p.input 0) ≡ some (d, notifiers)
      → register_with_value lib objects p s ≡ (establish_all lib objects notifiers (waits p s), ack)
  unfolding register_with_value
  registered p s d notifiers known = rw (known, register_with_value) refl

  -- If nobody waits, a client that registers for a query with one notifier gets that notifier, is
  -- told `ack`, and nobody waits afterwards.
  pub register_with_value_lem :
      (p : ProtoCmd) (d notifier : ℕ) (s : PcbState)
      → s.notifier_register_next ≡ []
      → objects.get_scpi_object (lib.get_param p.input 0) ≡ some (d, notifier ∷ [])
      → let (s', answer) = register_with_value lib objects p s in
        (answer ≡ ack)
        × (s'.notifier_register_list
            ≡ s.notifier_register_list
              ++ (record { net_peer = p.peer; client_id = p.client_id; not_value = notifier }) ∷ [])
        × (s'.notifier_register_next ≡ [])
  unfolding establish_all on_establish_new_notifier
  register_with_value_lem p d notifier s idle known =
      rw (registered p s d (notifier ∷ []) known) (simp idle (refl, refl, refl))

  -- If nobody waits, a query without a notifier is acknowledged and leaves its client waiting; the
  -- notifier of the next registration goes to that client, and the next one is left waiting.
  pub register_with_value-misled :
      (first second : ProtoCmd) (d e notifier : ℕ) (s : PcbState)
      → s.notifier_register_next ≡ []
      → objects.get_scpi_object (lib.get_param first.input 0) ≡ some (d, [])
      → objects.get_scpi_object (lib.get_param second.input 0) ≡ some (e, notifier ∷ [])
      → let (s1, one) = register_with_value lib objects first s in
        let (s2, two) = register_with_value lib objects second s1 in
        (one ≡ ack)
        × (two ≡ ack)
        × (s2.notifier_register_list
            ≡ s.notifier_register_list
              ++ (record {
                net_peer = first.peer;
                client_id = first.client_id;
                not_value = notifier;
              })
                ∷ [])
        × (s2.notifier_register_next
            ≡ (record { net_peer = second.peer; client_id = second.client_id }) ∷ [])
  unfolding establish_all on_establish_new_notifier
  register_with_value-misled first second d e notifier s idle one two =
      rw (registered first s d [] one, registered second (waits first s) e (notifier ∷ []) two)
        (simp idle (refl, refl, refl, refl))
