-- ===== src/Client/Proxy.antt =====
-- `ProxyPrivate` (zenux-service-interfaces/lib/proxy/proxy_p.cpp): the clients of a process share a connection
-- for each address, and the identifier of a client routes what comes back. A client and a peer are the
-- addresses of their objects.
pub mod Tables
pub mod Consistency
pub mod Adding
pub mod Releasing
pub mod Routing
use zenux_services.Prelude.{
  ℕ, Bool, true, false, ◌&&◌, Option, none, some, List, [], ◌∷◌, ◌==◌, if◌then◌else◌,
}
use zenux_services.Prelude.Maps.{
  find_key, put_key, remove_key, remove_int, insert_int, contains_int,
}
use zenux_services.Prelude.Text.{Text, eq_text, lookup, insert, remove, keys}

-- `ProxyConnection`.
pub record ProxyConnection : Type 0 where
  pub ip : Text
  pub port : ℕ
  pub bin_uuid : Text
  pub net_client : ℕ

-- `m_ConnectionHash` and `m_ClientHash`; the peers that are not deleted, and those of them that are started.
pub record Proxy : Type 0 where
  pub connections : List (ℕ × ProxyConnection)
  pub clients : List (Text × ℕ)
  pub peers : List ℕ
  pub started : List ℕ

abbrev pub empty_proxy : Proxy
empty_proxy = record { connections = []; clients = []; peers = []; started = [] }

abbrev pub is_at : Text → ℕ → ProxyConnection → Bool
is_at ip port k = eq_text k.ip ip && k.port == port

unfoldable pub search_connection : Text → ℕ → List (ℕ × ProxyConnection) → Option ℕ
search_connection ip port [] = none
search_connection ip port ((c, k) ∷ m) =
    if is_at ip port k then some k.net_client else search_connection ip port m

unfoldable pub get_clients_connected_to_peer : ℕ → List (ℕ × ProxyConnection) → List ℕ
get_clients_connected_to_peer peer [] = []
get_clients_connected_to_peer peer ((c, k) ∷ m) =
    let rest = get_clients_connected_to_peer peer m in
    if k.net_client == peer then c ∷ rest else rest

-- The peer of an address; `fresh` is the address of the object that `new` gives.
unfoldable pub get_proxy_net_peer : ℕ → Option ℕ → Proxy → Proxy × ℕ
get_proxy_net_peer fresh none p = (record p { peers = fresh ∷ p.peers }, fresh)
get_proxy_net_peer fresh (some peer) p = (p, peer)

unfoldable pub add_connection : ℕ → ProxyConnection → Proxy → Proxy
add_connection client k p = record p {
  connections = put_key client k p.connections;
  clients = insert k.bin_uuid client p.clients;
}

unfoldable pub get_connection_smart : Text → ℕ → Text → ℕ → ℕ → Proxy → Proxy
get_connection_smart ip port uuid client fresh p =
    let (p', peer) = get_proxy_net_peer fresh (search_connection ip port p.connections) p in
    add_connection client (record { ip = ip; port = port; bin_uuid = uuid; net_client = peer }) p'

-- What `startConnectionSmart` does: it tells the client that it is connected, starts its peer, or waits. For
-- a client without a connection it follows a null pointer, here `wait`.
pub data Start : Type 0 where
  tell : ℕ → Start
  start : ℕ → Text → ℕ → Start
  wait : Start

unfoldable pub start_with : (ℕ → Bool) → ℕ → Option ProxyConnection → Proxy → Proxy × Start
start_with is_connected client none p = (p, wait)
start_with is_connected client (some k) p =
    let if_started = if is_connected k.net_client then tell client else wait in
    if contains_int k.net_client p.started
    then (p, if_started)
    else (record p { started = insert_int k.net_client p.started }, start k.net_client k.ip k.port)

unfoldable pub start_connection_smart : (ℕ → Bool) → ℕ → Proxy → Proxy × Start
start_connection_smart is_connected client p =
    start_with is_connected client (find_key client p.connections) p

-- `QHash::key`: the first key that is mapped to the client, or the empty one.
abbrev pub is_mapped_to : ℕ → Option ℕ → Bool
is_mapped_to client none = false
is_mapped_to client (some c) = c == client

unfoldable pub first_key : ℕ → List Text → List (Text × ℕ) → Text
first_key client [] m = []
first_key client (u ∷ us) m =
    let rest = first_key client us m in if is_mapped_to client (lookup u m) then u else rest

unfoldable pub delete_peer_if : List ℕ → ℕ → Proxy → Proxy
delete_peer_if [] peer p = record p {
  peers = remove_int peer p.peers;
  started = remove_int peer p.started;
}
delete_peer_if (c ∷ cs) peer p = p

unfoldable pub delete_peer_on_all_clients_gone : ℕ → Proxy → Proxy
delete_peer_on_all_clients_gone peer p =
    delete_peer_if (get_clients_connected_to_peer peer p.connections) peer p

-- A message that leaves: the peer that sends it, and the identifier of the client in it.
pub record Sent : Type 0 where
  pub peer : ℕ
  pub client_id : Text

unfoldable pub release : ℕ → Option ProxyConnection → Proxy → Proxy × Option Sent
release client none p = (p, none)
release client (some k) p =
    let uuid = first_key client (keys p.clients) p.clients in
    let p' = record p {
      connections = remove_key client p.connections;
      clients = remove uuid p.clients;
    } in
    (
      delete_peer_on_all_clients_gone k.net_client p',
      some (record { peer = k.net_client; client_id = uuid }),
    )

-- It returns true exactly if it sends a message, which is RELEASE.
unfoldable pub release_connection : ℕ → Proxy → Proxy × Option Sent
release_connection client p = release client (find_key client p.connections) p

-- Without a connection `transmitCommand` follows a null pointer, here `none`; the number is
-- `NotZeroNumGen`'s.
unfoldable pub transmitted : Option ProxyConnection → Option Sent
transmitted none = none
transmitted (some k) = some (record { peer = k.net_client; client_id = k.bin_uuid })

unfoldable pub transmit_command : ℕ → Proxy → Option Sent
transmit_command client p = transmitted (find_key client p.connections)

-- The client that a message is passed to.
unfoldable pub handle_receive_message : Option Text → Proxy → Option ℕ
handle_receive_message none p = none
handle_receive_message (some id) p = lookup id p.clients

-- The clients that are told of an error, of a connection or of its end.
unfoldable pub receive_tcp_error : ℕ → Proxy → List ℕ
receive_tcp_error peer p = get_clients_connected_to_peer peer p.connections

unfoldable pub register_connection : ℕ → Proxy → List ℕ
register_connection peer p = get_clients_connected_to_peer peer p.connections

unfoldable pub register_disconnection : ℕ → Proxy → List ℕ
register_disconnection peer p = get_clients_connected_to_peer peer p.connections
