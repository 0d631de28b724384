-- ===== src/Dsp/Clients.antt =====
-- The clients of the DSP server: `ZDspClientContainer` of zdsp1d/lib/zdspclientcontainer.cpp.
use zenux_services.Prelude.{
  ℕ, ◌+◌, ◌%◌, ◌^◌, Bool, true, false, Option, none, some, List, [], ◌∷◌, ◌++◌, ◌==◌, if◌then◌else◌,
}
use zenux_services.Prelude.Text.{Text, eq_text, lookup, insert}

-- What the container reads of a `ZdspClient`. `object` is its address.
pub record Client : Type 0 where
  pub object : ℕ
  pub dsp_interrupt_id : ℕ
  pub vein_peer : ℕ
  pub proxy_connection_id : Text

pub record Container : Type 0 where
  pub clients_chronological : List Client
  pub clients_by_dsp_interrupt_id : List (ℕ × Client)
  pub clients_by_proxy_connection_id : List (Text × Client)
  pub dsp_super_client : Option ℕ
  pub current_dsp_interrupt_id : ℕ

abbrev pub empty_container : Container
empty_container = record {
  clients_chronological = [];
  clients_by_dsp_interrupt_id = [];
  clients_by_proxy_connection_id = [];
  dsp_super_client = none;
  current_dsp_interrupt_id = 0;
}

unfoldable pub find_by_id : ℕ → List (ℕ × Client) → Option Client
find_by_id id [] = none
find_by_id id ((j, k) ∷ m) = if j == id then some k else find_by_id id m

unfoldable pub insert_id : ℕ → Client → List (ℕ × Client) → List (ℕ × Client)
insert_id id k [] = (id, k) ∷ []
insert_id id k ((j, l) ∷ m) = if j == id then (j, k) ∷ m else (j, l) ∷ insert_id id k m

unfoldable pub remove_id : ℕ → List (ℕ × Client) → List (ℕ × Client)
remove_id id [] = []
remove_id id ((j, k) ∷ m) = if j == id then remove_id id m else (j, k) ∷ remove_id id m

unfoldable pub remove_proxy : Text → List (Text × Client) → List (Text × Client)
remove_proxy id [] = []
remove_proxy id ((j, k) ∷ m) =
    if eq_text j id then remove_proxy id m else (j, k) ∷ remove_proxy id m

-- `removeAll` of a pointer.
unfoldable pub remove_object : ℕ → List Client → List Client
remove_object object [] = []
remove_object object (k ∷ ks) =
    if k.object == object then remove_object object ks else k ∷ remove_object object ks

-- `findClient` for a connection and for an interrupt.
unfoldable pub find_client : Text → Container → Option Client
find_client id c = lookup id c.clients_by_proxy_connection_id

unfoldable pub find_client_by_interrupt : ℕ → Container → Option Client
find_client_by_interrupt id c = find_by_id (id % 2 ^ 16) c.clients_by_dsp_interrupt_id

-- A `quint16` that leaves out 0.
unfoldable pub calc_dsp_interrupt_id : ℕ → ℕ
calc_dsp_interrupt_id current = let next = (current + 1) % 2 ^ 16 in if next == 0 then 1 else next

abbrev pub is_empty {ℓ} : {A : Type ℓ} → List A → Bool
is_empty [] = true
is_empty (x ∷ xs) = false

unfoldable pub reset_interrupt_id_on_no_clients : Container → Container
reset_interrupt_id_on_no_clients c =
    if is_empty c.clients_by_dsp_interrupt_id then record c { current_dsp_interrupt_id = 0 } else c

-- `object` is where `new` puts the client, if one is created.
unfoldable pub add_client : ℕ → ℕ → Text → Container → Container
add_client object net_client id c =
    let next = calc_dsp_interrupt_id c.current_dsp_interrupt_id in
    let client : Client = record {
      object = object;
      dsp_interrupt_id = next;
      vein_peer = net_client;
      proxy_connection_id = id;
    } in
    let added = record c {
      clients_chronological = c.clients_chronological ++ client ∷ [];
      clients_by_dsp_interrupt_id = insert_id next client c.clients_by_dsp_interrupt_id;
      clients_by_proxy_connection_id = insert id client c.clients_by_proxy_connection_id;
      current_dsp_interrupt_id = next;
    } in
    let used = record c { current_dsp_interrupt_id = next } in
    elim (lookup id c.clients_by_proxy_connection_id) [
      | some k ↦ c
      | none ↦ elim (find_by_id next c.clients_by_dsp_interrupt_id) [ some k ↦ used | none ↦ added ]
    ]

unfoldable pub make_super_client : ℕ → Container → Container × Bool
make_super_client object c = elim c.dsp_super_client [
  | some k ↦ (c, false)
  | none ↦ (record c { dsp_super_client = some object }, true)
]

-- `QObject::destroyed` of the super client.
abbrev pub destroyed : ℕ → Option ℕ → Option ℕ
destroyed object none = none
destroyed object (some o) = if o == object then none else some o

unfoldable pub del_client : Text → Container → Container
del_client id c = elim (find_client id c) [
  | none ↦ c
  | some k ↦ reset_interrupt_id_on_no_clients (record {
    clients_chronological = remove_object k.object c.clients_chronological;
    clients_by_dsp_interrupt_id = remove_id k.dsp_interrupt_id c.clients_by_dsp_interrupt_id;
    clients_by_proxy_connection_id =
        remove_proxy k.proxy_connection_id c.clients_by_proxy_connection_id;
    dsp_super_client = destroyed k.object c.dsp_super_client;
    current_dsp_interrupt_id = c.current_dsp_interrupt_id;
  })
]

unfoldable pub clients_of_peer : ℕ → List Client → List Client
clients_of_peer peer [] = []
clients_of_peer peer (k ∷ ks) =
    if k.vein_peer == peer then k ∷ clients_of_peer peer ks else clients_of_peer peer ks

unfoldable pub del_each : List Client → Container → Container
del_each [] c = c
del_each (k ∷ ks) c = del_each ks (del_client k.proxy_connection_id c)

unfoldable pub del_clients : ℕ → Container → Container
del_clients peer c =
    reset_interrupt_id_on_no_clients (del_each (clients_of_peer peer c.clients_chronological) c)

abbrev pub destroyed_all : List Client → Option ℕ → Option ℕ
destroyed_all [] s = s
destroyed_all (k ∷ ks) s = destroyed_all ks (destroyed k.object s)

unfoldable pub del_all_clients : Container → Container
del_all_clients c = reset_interrupt_id_on_no_clients (record empty_container {
  dsp_super_client = destroyed_all c.clients_chronological c.dsp_super_client;
  current_dsp_interrupt_id = c.current_dsp_interrupt_id;
})
