-- ===== src/Client/Proxy/Releasing.antt =====
-- `releaseConnection` of `ProxyPrivate`, on the two tables and the peers.
use zenux_services.Prelude.{
  ℕ, ◌≡◌, refl, sym, ap, ◌∙◌, subst, true, false, ◌&&◌, not, Option, none, some, List, [], ◌∷◌,
  arith, ◌==◌, Bool-cases, inl, inr, ==_iff,
}
use zenux_services.Prelude.Maps.{
  find_key, remove_key, find_key-remove_key, contains_int, remove_int, contains_int-remove_int,
}
use zenux_services.Prelude.Text.{
  Text, eq_text, ne→eq_text, eq_text_refl, lookup, remove, keys, lookup-remove_ne,
}
use zenux_services.Client.Proxy.{
  ProxyConnection, Proxy, get_clients_connected_to_peer, first_key, delete_peer_if,
  delete_peer_on_all_clients_gone, release, release_connection,
}
use zenux_services.Client.Proxy.Tables.{
  remove_key-IsProper, found-remove_key, looked-remove, Holds, Uses, connected-Holds,
  connected-none, first_key_lem,
}
use zenux_services.Client.Proxy.Consistency.{Owned, IsRouted}

module _ (c : ℕ) (k : ProxyConnection) (p : Proxy) (h : IsRouted p)
    (there : find_key c p.connections ≡ some k) where
  abbrev uuid : Text
  uuid = first_key c (keys p.clients) p.clients

  abbrev rest : List (ℕ × ProxyConnection)
  rest = remove_key c p.connections

  looked : lookup uuid p.clients ≡ some c
  looked = first_key_lem k.bin_uuid c p.clients (h.registered c k there)

  -- The key that is found is the client's identifier.
  pub first_key-uuid : uuid ≡ k.bin_uuid
  first_key-uuid =
      let r = h.owned uuid c looked in
      let same : some r.connection ≡ some k = sym r.found ∙ there in
      let same' : r.connection ≡ k = cc in sym r.same_uuid ∙ ap (λ i. i.bin_uuid) same'

  remaining :
      (d : ℕ) (l : ProxyConnection)
      → (c == d) ≡ false
      → find_key d p.connections ≡ some l
      → find_key d rest ≡ some l
  remaining d l ne e = find_key-remove_key c d p.connections ∙ rw ne e

  registered' :
      (d : ℕ) (l : ProxyConnection)
      → find_key d rest ≡ some l
      → lookup l.bin_uuid (remove uuid p.clients) ≡ some d
  registered' d l e =
      let (ne, old) = found-remove_key c d l p.connections e in
      let mapped = h.registered d l old in
      lookup-remove_ne uuid l.bin_uuid p.clients (
        ne→eq_text uuid l.bin_uuid (λ same.
          let both : some c ≡ some d = sym looked ∙ ap (λ i. lookup i p.clients) same ∙ mapped in
          let c≡d : c ≡ d = cc in ground arith))
      ∙ mapped

  owned' : (u : Text) (d : ℕ) → lookup u (remove uuid p.clients) ≡ some d → Owned u d rest
  owned' u d e =
      let (ne, old) = looked-remove u uuid d p.clients e in
      let r = h.owned u d old in
      record {
        connection = r.connection;
        found = remaining d r.connection (apart d r.connection u r.found r.same_uuid ne) r.found;
        same_uuid = r.same_uuid;
      }
    where
      apart :
          (d : ℕ) (l : ProxyConnection) (u : Text)
          → find_key d p.connections ≡ some l
          → l.bin_uuid ≡ u
          → eq_text uuid u ≡ false
          → (c == d) ≡ false
      apart d l u found same ne = elim (Bool-cases (c == d)) [
        | inl f ↦
            let c≡d : c ≡ d = (==_iff c d).0 f in
            let both : some k ≡ some l =
              sym there ∙ ap (λ i. find_key i p.connections) c≡d ∙ found in
            let k≡l : k ≡ l = cc in
            let uuid≡u : uuid ≡ u = first_key-uuid ∙ ap (λ i. i.bin_uuid) k≡l ∙ same in
            let clash : true ≡ false =
              sym (eq_text_refl u) ∙ ap (λ i. eq_text i u) (sym uuid≡u) ∙ ne in
            cc
        | inr f ↦ f
      ]

  -- What used a peer still uses it, if it was not the client that goes.
  still : (q : ℕ) → (k.net_client == q) ≡ false → Holds (Uses q) p.connections → Holds (Uses q) rest
  still q ne r = record {
    key = r.key;
    connection = r.connection;
    found = remaining r.key r.connection (apart r.key r.connection r.found r.holds) r.found;
    holds = r.holds;
  }
    where
      apart :
          (d : ℕ) (l : ProxyConnection)
          → find_key d p.connections ≡ some l
          → l.net_client ≡ q
          → (c == d) ≡ false
      apart d l found same = elim (Bool-cases (c == d)) [
        | inl f ↦
            let c≡d : c ≡ d = (==_iff c d).0 f in
            let both : some k ≡ some l =
              sym there ∙ ap (λ i. find_key i p.connections) c≡d ∙ found in
            let k≡l : k ≡ l = cc in
            let same' : k.net_client ≡ q = ap (λ i. i.net_client) k≡l ∙ same in ground arith
        | inr f ↦ f
      ]

  module _ (peers started : List ℕ)
      (alive' : (d : ℕ) (l : ProxyConnection)
        → find_key d rest ≡ some l
        → contains_int l.net_client peers ≡ true)
      (used' : (q : ℕ) → contains_int q peers ≡ true → Holds (Uses q) rest) where
    released : IsRouted (record {
      connections = rest;
      clients = remove uuid p.clients;
      peers = peers;
      started = started;
    })
    released = record {
      proper = remove_key-IsProper c p.connections h.proper;
      registered = registered';
      owned = owned';
      alike = λ d e l n f g.
          h.alike d e l n (found-remove_key c d l p.connections f).1
            (found-remove_key c e n p.connections g).1;
      alive = alive';
      used = used';
    }

  by_clients :
      (clients : List ℕ)
      → get_clients_connected_to_peer k.net_client rest ≡ clients
      → IsRouted (
          delete_peer_if clients k.net_client
            (record p { connections = rest; clients = remove uuid p.clients }))
  unfolding delete_peer_if
  by_clients [] none_left =
      released (remove_int k.net_client p.peers) (remove_int k.net_client p.started)
        (λ d l e.
          let living = h.alive d l (found-remove_key c d l p.connections e).1 in
          let ne = connected-none k.net_client d l rest none_left e in
          contains_int-remove_int k.net_client l.net_client p.peers ∙ ground (arith, living, ne))
        (λ q living.
          let both : (not (k.net_client == q) && contains_int q p.peers) ≡ true =
            sym (contains_int-remove_int k.net_client q p.peers) ∙ living in
          still q (ground arith) (h.used q (ground arith)))
  by_clients (d ∷ ds) some_left =
      released p.peers p.started (λ e l f. h.alive e l (found-remove_key c e l p.connections f).1)
        (λ q living. elim (Bool-cases (k.net_client == q)) [
          | inl f ↦
              subst (λ i. Holds (Uses i) rest) ((==_iff k.net_client q).0 f)
                (connected-Holds k.net_client d ds rest
                  (remove_key-IsProper c p.connections h.proper) some_left)
          | inr f ↦ still q f (h.used q living)
        ])

pub release_connection-IsRouted :
    (client : ℕ) (p : Proxy) → IsRouted p → IsRouted (release_connection client p).0
unfolding release_connection
release_connection-IsRouted client p h = by_connection (find_key client p.connections) refl
  where
    by_connection :
        (o : Option ProxyConnection)
        → find_key client p.connections ≡ o
        → IsRouted (release client o p).0
    by_connection none e = unfold release in h
    by_connection (some k) e =
        unfold release delete_peer_on_all_clients_gone in
        by_clients client k p h e
          (get_clients_connected_to_peer k.net_client (remove_key client p.connections)) refl
