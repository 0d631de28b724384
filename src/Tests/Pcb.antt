-- ===== src/Tests/Pcb.antt =====
-- Runs of the PCB server's registrations.
use zenux_services.Prelude.{
  ℕ, ◌≡◌, refl, true, false, Option, some, List, [], ◌∷◌, ◌++◌, ◌==◌, length,
}
use zenux_services.Prelude.Int.{pos}
use zenux_services.Prelude.Text.{Text, codes}
use zenux_services.Scpi.{ack, ScpiLib, ProtoCmd}
use zenux_services.Pcb.Notifiers.{
  ScpiObjects, PcbState, on_notify_peer_connection_closed, register_with_value, on_notifier_changed,
}
use zenux_services.Pcb.Delivery.{
  reject, on_notifier_changed-closed, register_with_value_lem, register_with_value-misled,
}

abbrev simple_lib : ScpiLib
simple_lib = record {
  is_query = λ s. false;
  is_command = λ s n. true;
  get_param = λ s n. s;
  get_command_str = λ s. s;
  to_int = λ s. some (pos (length s));
  to_ulong = λ s. some (length s);
}

-- The empty query has no notifier; every other has the one at 77.
abbrev objects_by_length : Text → Option (ℕ × List ℕ)
objects_by_length [] = some (0, [])
objects_by_length (c ∷ s) = some (1, 77 ∷ [])

abbrev objects : ScpiObjects
objects = record { get_scpi_object = objects_by_length }

abbrev command : ℕ → Text → Text → ProtoCmd
command peer client_id input = record {
  peer = peer;
  with_output = true;
  client_id = client_id;
  type_query = false;
  type_cmd_p = true;
  input = input;
}

abbrev registered_state : PcbState
registered_state = record {
  notifier_register_next = [];
  notifier_register_list =
      (record { net_peer = 1; client_id = codes "a"; not_value = 77 })
      ∷ (record { net_peer = 2; client_id = codes "b"; not_value = 77 })
      ∷ (record { net_peer = 1; client_id = codes "c"; not_value = 78 })
      ∷ [];
  delegates =
      (record {
        command = 5;
        subscriber_vector =
            (record {
              net_peer = 1;
              client_id = codes "a";
              notifier_id = 3;
              notify_with_value = true;
            })
            ∷ [];
      })
      ∷ [];
}

on_notifier_changed-closed_example :
    on_notifier_changed 4 77
      (on_notify_peer_connection_closed simple_lib objects 1
        registered_state).notifier_register_list
    ≡ reject
        (λ m. 1 == m.net_peer)
        (on_notifier_changed 4 77 registered_state.notifier_register_list)
on_notifier_changed-closed_example =
    on_notifier_changed-closed simple_lib objects 4 77 1 registered_state

register_with_value_lem_example :
    let p = command 3 (codes "d") (codes "q") in
    let (s', answer) = register_with_value simple_lib objects p registered_state in
    (answer ≡ ack)
    × (s'.notifier_register_list
        ≡ registered_state.notifier_register_list
          ++ (record { net_peer = 3; client_id = codes "d"; not_value = 77 }) ∷ [])
    × (s'.notifier_register_next ≡ [])
register_with_value_lem_example =
    register_with_value_lem simple_lib objects (command 3 (codes "d") (codes "q")) 1 77
      registered_state refl refl

register_with_value-misled_example :
    let (s1, one) =
      register_with_value simple_lib objects (command 3 (codes "d") []) registered_state in
    let (s2, two) = register_with_value simple_lib objects (command 4 (codes "e") (codes "q")) s1 in
    (one ≡ ack)
    × (two ≡ ack)
    × (s2.notifier_register_list
        ≡ registered_state.notifier_register_list
          ++ (record { net_peer = 3; client_id = codes "d"; not_value = 77 }) ∷ [])
    × (s2.notifier_register_next ≡ (record { net_peer = 4; client_id = codes "e" }) ∷ [])
register_with_value-misled_example =
    register_with_value-misled simple_lib objects (command 3 (codes "d") [])
      (command 4 (codes "e") (codes "q")) 0 1 77 registered_state refl refl refl
