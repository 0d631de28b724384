-- ===== src/Pcb/Notifiers.antt =====
-- `PCBServer` of zenux-service-common/lib/scpi-interfaces/pcbserver.cpp: which client waits for which
-- interrupt. Connections of Qt signals are left out.
use zenux_services.Prelude.{
  ℕ, zero, suc, ◌-◌, ◌%◌, ◌^◌, Bool, true, false, ◌&&◌, ◌||◌, Option, none, some, List, [], ◌∷◌,
  ◌++◌, if◌then◌else◌, ◌==◌, length, get_elem?,
}
use zenux_services.Prelude.Int.{ℤ, pos, negsuc}
use zenux_services.Prelude.Text.{Text, eq_text, codes, decimal}
use zenux_services.Scpi.{Answer, ack, nak, value, ScpiLib, ProtoCmd}

-- `NotificationStructWithValue`, before and after the notifier is known. `not_value` is the address of
-- a `NotificationValue`.
pub record Waiting : Type 0 where
  pub net_peer : ℕ
  pub client_id : Text

pub record Registered : Type 0 where
  pub net_peer : ℕ
  pub client_id : Text
  pub not_value : ℕ

-- `ScpiNotificationSubscriber`
pub record Subscriber : Type 0 where
  pub net_peer : ℕ
  pub client_id : Text
  pub notifier_id : ℕ
  pub notify_with_value : Bool

-- A `ScpiDelegate` with its `ScpiNotificationSubscriberHandler`.
pub record Delegate : Type 0 where
  pub command : ℕ
  pub subscriber_vector : List Subscriber

-- The SCPI object that a query names: its delegate, and the notifiers that its execution hands to
-- `valNotifier`. The parser and the commands behind it are a parameter.
pub record ScpiObjects : Type 0 where
  pub get_scpi_object : Text → Option (ℕ × List ℕ)

pub record PcbState : Type 0 where
  pub notifier_register_next : List Waiting
  pub notifier_register_list : List Registered
  pub delegates : List Delegate

abbrev pub is_empty_text : Text → Bool
is_empty_text [] = true
is_empty_text (c ∷ s) = false

-- `removeAt`, and a loop that runs backwards over the first `i` positions.
module _ {ℓ} {A : Type ℓ} where
  unfoldable pub remove_at : ℕ → List A → List A
  remove_at i [] = []
  remove_at zero (x ∷ xs) = xs
  remove_at (suc i) (x ∷ xs) = x ∷ remove_at i xs

  abbrev pub remove_if : (A → Bool) → ℕ → Option A → List A → List A
  remove_if p i none list = list
  remove_if p i (some x) list = if p x then remove_at i list else list

  unfoldable pub remove_backwards : (A → Bool) → ℕ → List A → List A
  remove_backwards p zero list = list
  remove_backwards p (suc i) list = remove_backwards p i (remove_if p i (get_elem? list i) list)

-- The entry belongs to the client; an empty client stands for all of a connection.
unfoldable pub is_client : ℕ → Text → ℕ → Text → Bool
is_client peer client_id net_peer id =
    peer == net_peer && (is_empty_text client_id || is_empty_text id || eq_text id client_id)

abbrev pub registered_by : ℕ → Text → Registered → Bool
registered_by peer client_id n = is_client peer client_id n.net_peer n.client_id

abbrev pub subscribed_by : ℕ → Text → Subscriber → Bool
subscribed_by peer client_id n = is_client peer client_id n.net_peer n.client_id

unfoldable pub eq_subscriber : Subscriber → Subscriber → Bool
eq_subscriber a b =
    a.net_peer == b.net_peer && eq_text a.client_id b.client_id && a.notifier_id == b.notifier_id

unfoldable pub contains_subscriber : Subscriber → List Subscriber → Bool
contains_subscriber a [] = false
contains_subscriber a (b ∷ bs) = eq_subscriber b a || contains_subscriber a bs

unfoldable pub add_subscriber : Subscriber → List Subscriber → List Subscriber
add_subscriber a list = if contains_subscriber a list then list else list ++ a ∷ []

unfoldable pub remove_all_subscribers : ℕ → Text → List Subscriber → List Subscriber
remove_all_subscribers peer client_id list =
    remove_backwards (subscribed_by peer client_id) (length list) list

-- To the handler of one delegate, and from those of all.
unfoldable pub add_to_delegate : ℕ → Subscriber → List Delegate → List Delegate
add_to_delegate command a [] = []
add_to_delegate command a (d ∷ ds) =
    let found = record d { subscriber_vector = add_subscriber a d.subscriber_vector } in
    (if d.command == command then found else d) ∷ add_to_delegate command a ds

unfoldable pub on_remove_subscribers : ℕ → Text → List Delegate → List Delegate
on_remove_subscribers peer client_id [] = []
on_remove_subscribers peer client_id (d ∷ ds) =
    (record d { subscriber_vector = remove_all_subscribers peer client_id d.subscriber_vector })
    ∷ on_remove_subscribers peer client_id ds

-- `onNotifierChanged`: the messages, with the client and its connection.
pub record Message : Type 0 where
  pub net_peer : ℕ
  pub client_id : Text
  pub body : Text

unfoldable pub on_notifier_changed : ℕ → ℕ → List Registered → List Message
on_notifier_changed irqreg notifier [] = []
on_notifier_changed irqreg notifier (n ∷ ns) =
    let rest = on_notifier_changed irqreg notifier ns in
    let sent : Message = record {
      net_peer = n.net_peer;
      client_id = n.client_id;
      body = codes "IRQ:" ++ decimal irqreg;
    } in
    if n.not_value == notifier then sent ∷ rest else rest

module _ (lib : ScpiLib) (objects : ScpiObjects) where
  open objects use {get_scpi_object}

  unfoldable pub do_unregister_notifier : ℕ → Text → PcbState → PcbState
  do_unregister_notifier peer client_id s = record s {
    delegates = on_remove_subscribers peer client_id s.delegates;
    notifier_register_list =
        remove_backwards (registered_by peer client_id) (length s.notifier_register_list)
          s.notifier_register_list;
  }

  -- `onEstablishNewNotifier`: the first that waits gets the notifier.
  unfoldable pub on_establish_new_notifier : ℕ → PcbState → PcbState
  on_establish_new_notifier notifier s = elim s.notifier_register_next [
    | [] ↦ s
    | w ∷ ws ↦ record s {
      notifier_register_next = ws;
      notifier_register_list =
          s.notifier_register_list
          ++ (record { net_peer = w.net_peer; client_id = w.client_id; not_value = notifier }) ∷ [];
    }
  ]

  unfoldable pub establish_all : List ℕ → PcbState → PcbState
  establish_all [] s = s
  establish_all (n ∷ ns) s = establish_all ns (on_establish_new_notifier n s)

  -- `executeSCPI` of a delegate always returns true, so the entry that waits is not taken back.
  unfoldable pub register_with_value : ProtoCmd → PcbState → PcbState × Answer
  register_with_value p s = elim (get_scpi_object (lib.get_param p.input 0)) [
    | none ↦ (s, nak)
    | some (delegate, notifiers) ↦ (
      establish_all notifiers (record s {
        notifier_register_next =
            s.notifier_register_next
            ++ (record { net_peer = p.peer; client_id = p.client_id }) ∷ [];
      }),
      ack,
    )
  ]

  abbrev pub int_or_zero : Option ℤ → ℤ
  int_or_zero none = pos 0
  int_or_zero (some z) = z

  -- Passed as a `quint16`.
  abbrev pub to_quint16 : ℤ → ℕ
  to_quint16 (pos n) = n % 2 ^ 16
  to_quint16 (negsuc n) = 2 ^ 16 - 1 - n % 2 ^ 16

  abbrev pub is_not_zero : ℤ → Bool
  is_not_zero (pos zero) = false
  is_not_zero _ = true

  unfoldable pub register_subscriber : ProtoCmd → PcbState → PcbState × Answer
  register_subscriber p s = elim (get_scpi_object (lib.get_param p.input 0)) [
    | none ↦ (s, nak)
    | some (delegate, notifiers) ↦ (
      establish_all notifiers (record s {
        delegates =
            add_to_delegate delegate
              (record {
                net_peer = p.peer;
                client_id = p.client_id;
                notifier_id = to_quint16 (int_or_zero (lib.to_int (lib.get_param p.input 1)));
                notify_with_value =
                    lib.is_command p.input 3
                    && is_not_zero (int_or_zero (lib.to_int (lib.get_param p.input 2)));
              })
              s.delegates;
      }),
      ack,
    )
  ]

  -- No output is set if the number of parameters does not fit.
  unfoldable pub register_notifier : ProtoCmd → PcbState → PcbState × Answer
  register_notifier p s =
      if lib.is_command p.input 1
      then register_with_value p s
      else if lib.is_command p.input 2 || lib.is_command p.input 3
      then register_subscriber p s
      else (s, value [])

  unfoldable pub unregister_notifier : ProtoCmd → PcbState → PcbState × Answer
  unregister_notifier p s =
      if lib.is_command p.input 1 && is_empty_text (lib.get_param p.input 0)
      then (do_unregister_notifier p.peer p.client_id s, ack)
      else (s, nak)

  unfoldable pub on_notify_peer_connection_closed : ℕ → PcbState → PcbState
  on_notify_peer_connection_closed peer s = do_unregister_notifier peer [] s
