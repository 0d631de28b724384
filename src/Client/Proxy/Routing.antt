-- ===== src/Client/Proxy/Routing.antt =====
-- The life of the proxy: what a client sends and what comes back.
use zenux_services.Prelude.{
  ℕ, ◌≡◌, ap, Bool, Bool-cases, inl, inr, true, Option, none, some, List, ◌==◌,
}
use zenux_services.Prelude.Maps.{find_key, contains_int, insert_int}
use zenux_services.Prelude.Text.{Text}
use zenux_services.Client.Proxy.{
  ProxyConnection, Proxy, empty_proxy, is_at, get_connection_smart, start_with,
  start_connection_smart, release_connection, Sent, transmitted, transmit_command,
  handle_receive_message,
}
use zenux_services.Client.Proxy.Consistency.{IsRouted, empty_proxy-IsRouted}
use zenux_services.Client.Proxy.Adding.{IsFresh, get_connection_smart-IsRouted}
use zenux_services.Client.Proxy.Releasing.{release_connection-IsRouted}

-- Any sequence of calls; what `new` and `createUuid` give is not in use.
pub data Reachable : Proxy → Type 0 where
  no_calls : Reachable empty_proxy
  requested :
      (ip : Text) (port : ℕ) (uuid : Text) (client peer : ℕ) (p : Proxy)
      → IsFresh client uuid peer p
      → Reachable p
      → Reachable (get_connection_smart ip port uuid client peer p)
  begun :
      (is_connected : ℕ → Bool) (client : ℕ) (p : Proxy)
      → Reachable p
      → Reachable (start_connection_smart is_connected client p).0
  released : (client : ℕ) (p : Proxy) → Reachable p → Reachable (release_connection client p).0

start_connection_smart-IsRouted :
    (is_connected : ℕ → Bool) (client : ℕ) (p : Proxy)
    → IsRouted p
    → IsRouted (start_connection_smart is_connected client p).0
unfolding start_connection_smart
start_connection_smart-IsRouted is_connected client p h =
    by_connection (find_key client p.connections)
  where
    restarted : (peers : List ℕ) → IsRouted (record p { started = peers })
    restarted peers = record {
      proper = h.proper;
      registered = h.registered;
      owned = h.owned;
      alike = h.alike;
      alive = h.alive;
      used = h.used;
    }

    by_connection : (o : Option ProxyConnection) → IsRouted (start_with is_connected client o p).0
    by_connection none = unfold start_with in h
    by_connection (some k) =
        unfold start_with in
        elim (Bool-cases (contains_int k.net_client p.started)) [
          | inl e ↦ rw e h
          | inr e ↦ rw e (restarted (insert_int k.net_client p.started))
        ]

-- The tables and the peers of the proxy agree after any sequence of calls.
pub Reachable-IsRouted : (p : Proxy) → Reachable p → IsRouted p
Reachable-IsRouted _ no_calls = empty_proxy-IsRouted
Reachable-IsRouted _ (requested ip port uuid client peer p fresh r) =
    get_connection_smart-IsRouted ip port uuid client peer p (Reachable-IsRouted p r) fresh
Reachable-IsRouted _ (begun is_connected client p r) =
    start_connection_smart-IsRouted is_connected client p (Reachable-IsRouted p r)
Reachable-IsRouted _ (released client p r) =
    release_connection-IsRouted client p (Reachable-IsRouted p r)

-- After any sequence of calls, a message that carries the identifier with which a client's commands are
-- sent is passed to this client; the peer that sends them lives; and another client's commands go through
-- the same peer exactly if both asked for the same address.
pub handle_receive_message-transmit_command :
    (client other : ℕ) (k l : ProxyConnection) (p : Proxy)
    → Reachable p
    → find_key client p.connections ≡ some k
    → find_key other p.connections ≡ some l
    → let sent : Sent = record { peer = k.net_client; client_id = k.bin_uuid } in
      let sent' : Sent = record { peer = l.net_client; client_id = l.bin_uuid } in
      (transmit_command client p ≡ some sent)
      × (transmit_command other p ≡ some sent')
      × (handle_receive_message (some sent.client_id) p ≡ some client)
      × (contains_int sent.peer p.peers ≡ true)
      × ((sent.peer == sent'.peer) ≡ is_at k.ip k.port l)
unfolding transmit_command transmitted handle_receive_message
handle_receive_message-transmit_command client other k l p r e f =
    let h = Reachable-IsRouted p r in
    (
      ap transmitted e,
      ap transmitted f,
      h.registered client k e,
      h.alive client k e,
      h.alike client other k l e f,
    )
