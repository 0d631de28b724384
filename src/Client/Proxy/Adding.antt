-- ===== src/Client/Proxy/Adding.antt =====
-- `getConnectionSmart` of `ProxyPrivate`, on the two tables and the peers.
use zenux_services.Prelude.{
  ℕ, ◌≡◌, ◌⊎◌, refl, sym, ap, ◌∙◌, subst, true, false, Option, none, some, List, ◌∷◌, arith, ◌==◌,
  Bool-cases, inl, inr, ==_iff,
}
use zenux_services.Prelude.Maps.{find_key, put_key, find_key-put_key, contains_int}
use zenux_services.Prelude.Text.{
  Text, ne→eq_text, eq_text→eq, lookup, insert, lookup-insert_self, lookup-insert_ne,
}
use zenux_services.Client.Proxy.{
  ProxyConnection, Proxy, is_at, search_connection, add_connection, get_proxy_net_peer,
  get_connection_smart,
}
use zenux_services.Client.Proxy.Tables.{
  put_key-IsProper, found-put_key, looked-insert, Holds, Uses, search_connection-Holds,
  search_connection-none,
}
use zenux_services.Client.Proxy.Consistency.{Owned, IsRouted, is_at_self, is_at_sym}

module _ (c : ℕ) (k : ProxyConnection) (p : Proxy) (h : IsRouted p)
    (free : find_key c p.connections ≡ none) (fresh : lookup k.bin_uuid p.clients ≡ none) where
  new_found : find_key c (put_key c k p.connections) ≡ some k
  new_found = find_key-put_key c c k p.connections ∙ ground arith

  old_found :
      (d : ℕ) (l : ProxyConnection)
      → find_key d p.connections ≡ some l
      → find_key d (put_key c k p.connections) ≡ some l
  old_found d l e = elim (Bool-cases (c == d)) [
    | inl f ↦
        let c≡d : c ≡ d = (==_iff c d).0 f in
        let clash : none ≡ some l = sym free ∙ ap (λ i. find_key i p.connections) c≡d ∙ e in cc
    | inr f ↦ find_key-put_key c d k p.connections ∙ rw f e
  ]

  kept :
      (P : ProxyConnection → Type 0) → Holds P p.connections → Holds P (put_key c k p.connections)
  kept P r = record {
    key = r.key;
    connection = r.connection;
    found = old_found r.key r.connection r.found;
    holds = r.holds;
  }

  registered' :
      (d : ℕ) (l : ProxyConnection)
      → find_key d (put_key c k p.connections) ≡ some l
      → lookup l.bin_uuid (insert k.bin_uuid c p.clients) ≡ some d
  registered' d l e = elim (found-put_key c d k l p.connections e) [
    | inl (c≡d, k≡l) ↦
        ap (λ i. lookup i.bin_uuid (insert k.bin_uuid c p.clients)) (sym k≡l)
        ∙ lookup-insert_self k.bin_uuid c p.clients
        ∙ ap (λ i. some i) c≡d
    | inr (f, old) ↦
        let there = h.registered d l old in
        lookup-insert_ne k.bin_uuid l.bin_uuid c p.clients (
          ne→eq_text k.bin_uuid l.bin_uuid (λ same.
            let clash : none ≡ some d = sym fresh ∙ ap (λ i. lookup i p.clients) same ∙ there in
            cc))
        ∙ there
  ]

  owned' :
      (u : Text) (d : ℕ)
      → lookup u (insert k.bin_uuid c p.clients) ≡ some d
      → Owned u d (put_key c k p.connections)
  owned' u d e = elim (looked-insert u k.bin_uuid c d p.clients e) [
    | inl (same, c≡d) ↦ record {
      connection = k;
      found = ap (λ i. find_key i (put_key c k p.connections)) (sym c≡d) ∙ new_found;
      same_uuid = same;
    }
    | inr (f, old) ↦
        let r = h.owned u d old in
        record {
          connection = r.connection;
          found = old_found d r.connection r.found;
          same_uuid = r.same_uuid;
        }
  ]

  module _ (peers : List ℕ)
      (alike_new : (d : ℕ) (l : ProxyConnection)
        → find_key d p.connections ≡ some l
        → (k.net_client == l.net_client) ≡ is_at k.ip k.port l)
      (alive_new : contains_int k.net_client peers ≡ true)
      (alive_old : (q : ℕ) → contains_int q p.peers ≡ true → contains_int q peers ≡ true)
      (no_other : (q : ℕ)
        → contains_int q peers ≡ true
        → (contains_int q p.peers ≡ true) ⊎ (k.net_client ≡ q)) where
    alike' :
        (d e : ℕ) (l n : ProxyConnection)
        → find_key d (put_key c k p.connections) ≡ some l
        → find_key e (put_key c k p.connections) ≡ some n
        → (l.net_client == n.net_client) ≡ is_at l.ip l.port n
    alike' d e l n f g = elim (found-put_key c d k l p.connections f) [
      | inl (c≡d, k≡l) ↦ elim (found-put_key c e k n p.connections g) [
        | inl (c≡e, k≡n) ↦
            subst (λ i. (i.net_client == n.net_client) ≡ is_at i.ip i.port n) (sym k≡n ∙ k≡l)
              (rw (is_at_self n) (ground arith))
        | inr (b, old) ↦
            subst (λ i. (i.net_client == n.net_client) ≡ is_at i.ip i.port n) k≡l
              (alike_new e n old)
      ]
      | inr (b, old) ↦ elim (found-put_key c e k n p.connections g) [
        | inl (c≡e, k≡n) ↦
            subst (λ i. (l.net_client == i.net_client) ≡ is_at l.ip l.port i) k≡n
              (==_sym l.net_client k.net_client ∙ alike_new d l old ∙ is_at_sym k l)
        | inr (b', old') ↦ h.alike d e l n old old'
      ]
    ]
      where
        ==_sym : (a b : ℕ) → (a == b) ≡ (b == a)
        ==_sym a b = ground arith

    alive' :
        (d : ℕ) (l : ProxyConnection)
        → find_key d (put_key c k p.connections) ≡ some l
        → contains_int l.net_client peers ≡ true
    alive' d l e = elim (found-put_key c d k l p.connections e) [
      | inl (c≡d, k≡l) ↦ subst (λ i. contains_int i.net_client peers ≡ true) k≡l alive_new
      | inr (f, old) ↦ alive_old l.net_client (h.alive d l old)
    ]

    used' : (q : ℕ) → contains_int q peers ≡ true → Holds (Uses q) (put_key c k p.connections)
    used' q e = elim (no_other q e) [
      | inl old ↦ kept (Uses q) (h.used q old)
      | inr same ↦ record { key = c; connection = k; found = new_found; holds = same }
    ]

    add_connection-IsRouted : IsRouted (add_connection c k (record p { peers = peers }))
    unfolding add_connection
    add_connection-IsRouted = record {
      proper = put_key-IsProper c k p.connections free h.proper;
      registered = registered';
      owned = owned';
      alike = alike';
      alive = alive';
      used = used';
    }

other :
    (q i : ℕ) (peers : List ℕ)
    → contains_int q peers ≡ false
    → contains_int i peers ≡ true
    → (q == i) ≡ false
other q i peers out there = elim (Bool-cases (q == i)) [
  | inl f ↦
      let q≡i : q ≡ i = (==_iff q i).0 f in
      let clash : false ≡ true = sym out ∙ ap (λ n. contains_int n peers) q≡i ∙ there in cc
  | inr f ↦ f
]

one_more :
    (peer q : ℕ) (peers : List ℕ)
    → contains_int q (peer ∷ peers) ≡ true
    → (contains_int q peers ≡ true) ⊎ (peer ≡ q)
unfolding contains_int
one_more peer q peers e = elim (Bool-cases (peer == q)) [
  | inl f ↦ inr ((==_iff peer q).0 f)
  | inr f ↦ inl (rw f at e)
]

same_place :
    (ip : Text) (port : ℕ) (k l : ProxyConnection)
    → is_at ip port k ≡ true
    → is_at k.ip k.port l ≡ is_at ip port l
same_place ip port k l e =
    let same_ip : k.ip ≡ ip = eq_text→eq k.ip ip (ground arith) in
    let same_port : k.port ≡ port = (==_iff k.port port).0 (ground arith) in
    rw (same_ip, same_port) refl

-- A client and an identifier that are not in the tables, and a peer that does not live.
pub record IsFresh (client : ℕ) (uuid : Text) (peer : ℕ) (p : Proxy) : Type 0 where
  pub free : find_key client p.connections ≡ none
  pub fresh_uuid : lookup uuid p.clients ≡ none
  pub fresh_peer : contains_int peer p.peers ≡ false

pub get_connection_smart-IsRouted :
    (ip : Text) (port : ℕ) (uuid : Text) (client peer : ℕ) (p : Proxy)
    → IsRouted p
    → IsFresh client uuid peer p
    → IsRouted (get_connection_smart ip port uuid client peer p)
unfolding get_connection_smart
get_connection_smart-IsRouted ip port uuid client peer p h new =
    by_search (search_connection ip port p.connections) refl
  where
    connection : ℕ → ProxyConnection
    connection q = record { ip = ip; port = port; bin_uuid = uuid; net_client = q }

    by_search :
        (found : Option ℕ)
        → search_connection ip port p.connections ≡ found
        → let (p', q) = get_proxy_net_peer peer found p in
          IsRouted (
            add_connection client
              (record { ip = ip; port = port; bin_uuid = uuid; net_client = q })
              p')
    by_search none e =
        unfold get_proxy_net_peer in
        add_connection-IsRouted client (connection peer) p h new.free new.fresh_uuid
          (peer ∷ p.peers)
          (λ d l there.
            let living = h.alive d l there in
            let away : is_at ip port l ≡ false =
              search_connection-none ip port d l p.connections e there in
            other peer l.net_client p.peers new.fresh_peer living ∙ sym away)
          (unfold contains_int in ground arith)
          (λ q living. unfold contains_int in ground (arith, living))
          (λ q living. one_more peer q p.peers living)
    by_search (some q) e =
        unfold get_proxy_net_peer in
        let r = search_connection-Holds ip port q p.connections h.proper e in
        add_connection-IsRouted client (connection q) p h new.free new.fresh_uuid p.peers
          (λ d l there.
            subst (λ i. (i == l.net_client) ≡ is_at ip port l) r.holds.1
              (h.alike r.key d r.connection l r.found there
                ∙ same_place ip port r.connection l r.holds.0))
          (subst (λ i. contains_int i p.peers ≡ true) r.holds.1
            (h.alive r.key r.connection r.found))
          (λ i living. living) (λ i living. inl living)
