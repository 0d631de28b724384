-- ===== src/Tests/Dsp.antt =====
-- Runs of the DSP server's clients and of the layout of their variables.
use zenux_services.Prelude.{ℕ, ◌+◌, ◌<◌, ◌≡◌, refl, List, [], ◌∷◌, arith}
use zenux_services.Prelude.Text.{Text, codes, eq_text, lookup, insert}
use zenux_services.Dsp.Clients.{
  Client, Container, empty_container, add_client, del_clients, make_super_client, find_by_id,
  insert_id, calc_dsp_interrupt_id,
}
use zenux_services.Dsp.Consistency.{IsConsistent}
use zenux_services.Dsp.Lifecycle.{
  Reachable, started, client_added, super_made, Reachable-IsConsistent, others, del_clients_lem,
}
use zenux_services.Dsp.Layout.{
  dsp_data_type_int, Segment, module_local, module_global, module_aligned_memory, DspVar, Cursor,
  calc_clients, initial_cursor, get_mem_size, all_vars,
}
use zenux_services.Dsp.Placement.{Packed, local, calc_clients-Packed, global-overlaps}
use zenux_services.Dsp.Globals.{Shared, Extends, calc_clients-Shared}
use zenux_services.Dsp.Interrupts.{received, notify_others, addressed, received-notify_others}

-- Two clients on two connections; the second is the super client.
abbrev first_added : Container
first_added = add_client 100 1 (codes "a") empty_container

abbrev second_added : Container
second_added = add_client 200 2 (codes "b") first_added

abbrev two_clients : Container
two_clients = (make_super_client 200 second_added).0

abbrev client_a : Client
client_a = record {
  object = 100;
  dsp_interrupt_id = 1;
  vein_peer = 1;
  proxy_connection_id = codes "a";
}

abbrev client_b : Client
client_b = record {
  object = 200;
  dsp_interrupt_id = 2;
  vein_peer = 2;
  proxy_connection_id = codes "b";
}

two_clients-Reachable : Reachable two_clients
unfolding add_client lookup find_by_id calc_dsp_interrupt_id
two_clients-Reachable = super_made 200 second_added (
    client_added 200 2 (codes "b") first_added (omega arith, tt)
      (client_added 100 1 (codes "a") empty_container tt started))

Reachable-IsConsistent_example : IsConsistent two_clients
Reachable-IsConsistent_example = Reachable-IsConsistent two_clients two_clients-Reachable

del_clients_lem_example :
    ((del_clients 1 two_clients).clients_chronological ≡ others 1 two_clients.clients_chronological)
    × IsConsistent (del_clients 1 two_clients)
del_clients_lem_example = del_clients_lem 1 two_clients two_clients-Reachable

-- Two words for the first client, one for the super client between them.
abbrev words : List ℕ
words = 0x10007 ∷ 0x20009 ∷ 0x10008 ∷ []

received-notify_others_example : received 100 (notify_others two_clients words) ≡ addressed 1 words
unfolding add_client lookup find_by_id calc_dsp_interrupt_id make_super_client eq_text insert
    insert_id
received-notify_others_example =
    received-notify_others two_clients client_a [] (client_b ∷ []) words
      (Reachable-IsConsistent two_clients two_clients-Reachable) refl refl
      (omega arith, (omega arith, (omega arith, tt)))

first_words : addressed 1 words ≡ 7 ∷ 8 ∷ []
first_words = refl

abbrev dsp_var : Text → ℕ → Segment → DspVar
dsp_var name size segment = record {
  name = name;
  size = size;
  segment = segment;
  absolute_address = 0;
  data_type = dsp_data_type_int;
  offset_to_module_base = 0;
}

abbrev variables : List (List DspVar)
variables =
    (dsp_var (codes "X") 4 module_local
      ∷ dsp_var (codes "SHARED") 2 module_global
      ∷ dsp_var (codes "Y") 8 module_local
      ∷ [])
    ∷ (dsp_var (codes "SHARED") 2 module_global ∷ dsp_var (codes "Z") 3 module_local ∷ [])
    ∷ []

abbrev start : Cursor
start = record {
  local = 0x21000;
  aligned = 0x24000;
  global = 0x23FFF;
  global_variables = [];
  global_var_size = 0;
}

calc_clients-Packed_example :
    let (clients', c') = calc_clients variables start in
    Packed module_local 0x21000 (all_vars clients') c'.local
    × (c'.local ≡ 0x21000 + get_mem_size module_local (all_vars variables))
unfolding get_mem_size
calc_clients-Packed_example = calc_clients-Packed local variables start (omega arith)

calc_clients-Shared_example :
    let (clients', c') = calc_clients variables start in
    Shared c'.global_variables (all_vars clients')
    × Extends start.global_variables c'.global_variables
calc_clients-Shared_example = calc_clients-Shared variables start

-- A global variable of two words, as the clients use it.
global-overlaps_example :
    let g = dsp_var (codes "G") 2 module_global in
    let a = dsp_var (codes "A") 1 module_aligned_memory in
    (x y : DspVar) × (vs' : List DspVar) × (clients' : List (List DspVar)) × ((calc_clients
        ((g ∷ a ∷ []) ∷ [])
        (initial_cursor 0x21000 0x24000)).0
      ≡ (x ∷ y ∷ vs') ∷ clients')
    × (x.name ≡ g.name)
    × (y.name ≡ a.name)
    × (x.absolute_address + 1 ≡ 0x24000)
    × (y.absolute_address ≡ 0x24000)
    × (x.absolute_address < y.absolute_address + y.size)
    × (y.absolute_address < x.absolute_address + x.size)
global-overlaps_example =
    global-overlaps (dsp_var (codes "G") 2 module_global)
      (dsp_var (codes "A") 1 module_aligned_memory) [] [] 0x21000 0x24000 refl refl (omega arith)
      (omega arith) (omega arith) (omega arith)
