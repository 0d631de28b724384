-- ===== src/Dsp/Lifecycle.antt =====
-- The life of the clients: sequences of calls of `ZDspClientContainer`, and a lost connection.
use mathlib.Core.List.{append_assoc}
use zenux_services.Prelude.{
  ℕ, ◌≡◌, refl, sym, ap, ◌∙◌, subst, false, Bool-cases, inl, inr, none, some, List, [], ◌∷◌, ◌++◌,
  map, ◌==◌, if◌then◌else◌,
}
use zenux_services.Prelude.Text.{Text, lookup, eq_text_refl}
use zenux_services.Dsp.Clients.{
  Client, Container, empty_container, find_client, add_client, make_super_client, del_client,
  clients_of_peer, del_each, del_clients, del_all_clients,
}
use zenux_services.Dsp.Consistency.{IsConsistent, Apart, Unique, same_proxy, by_proxy}
use zenux_services.Dsp.Consistency.Calls.{
  Fresh, add_client-IsConsistent, del_client-IsConsistent, del_clients-IsConsistent,
  del_all_clients-IsConsistent, make_super_client-IsConsistent, empty_container-IsConsistent,
  place_lem, removed, del_client-some, clients-reset,
}

-- Any sequence of calls, each `new` at an address where no client lives.
pub data Reachable : Container → Type 0 where
  started : Reachable empty_container
  client_added :
      (object peer : ℕ) (id : Text) (c : Container)
      → Fresh object c.clients_chronological
      → Reachable c
      → Reachable (add_client object peer id c)
  super_made : (object : ℕ) (c : Container) → Reachable c → Reachable (make_super_client object c).0
  client_deleted : (id : Text) (c : Container) → Reachable c → Reachable (del_client id c)
  peer_lost : (peer : ℕ) (c : Container) → Reachable c → Reachable (del_clients peer c)
  all_deleted : (c : Container) → Reachable c → Reachable (del_all_clients c)

-- After any sequence of calls, the two tables list exactly the clients of the list under their keys,
-- no two clients share an address, an interrupt number or a connection, and each interrupt number
-- has 16 bits and is not 0.
pub Reachable-IsConsistent : (c : Container) → Reachable c → IsConsistent c
Reachable-IsConsistent _ started = empty_container-IsConsistent none 0
Reachable-IsConsistent _ (client_added object peer id c fresh r) =
    add_client-IsConsistent object peer id c (Reachable-IsConsistent c r) fresh
Reachable-IsConsistent _ (super_made object c r) =
    make_super_client-IsConsistent object c (Reachable-IsConsistent c r)
Reachable-IsConsistent _ (client_deleted id c r) =
    del_client-IsConsistent id c (Reachable-IsConsistent c r)
Reachable-IsConsistent _ (peer_lost peer c r) =
    del_clients-IsConsistent peer c (Reachable-IsConsistent c r)
Reachable-IsConsistent _ (all_deleted c r) = del_all_clients-IsConsistent c

-- The clients of other connections.
abbrev pub others : ℕ → List Client → List Client
others peer [] = []
others peer (k ∷ ks) = if k.vein_peer == peer then others peer ks else k ∷ others peer ks

lookup-middle :
    (front back : List Client) (k : Client)
    → Unique same_proxy (front ++ k ∷ back)
    → lookup k.proxy_connection_id (map by_proxy (front ++ k ∷ back)) ≡ some k
unfolding lookup
lookup-middle [] back k u = rw (eq_text_refl k.proxy_connection_id) refl
lookup-middle (d ∷ front) back k u =
    let other : same_proxy k d ≡ false = middle front u.0 in
    rw other (lookup-middle front back k u.1)
  where
    middle : (ks : List Client) → Apart same_proxy d (ks ++ k ∷ back) → same_proxy k d ≡ false
    middle [] a = a.1
    middle (e ∷ ks) a = middle ks a.2

del_each-others :
    (peer : ℕ) (keep rest : List Client) (c : Container)
    → IsConsistent c
    → c.clients_chronological ≡ keep ++ rest
    → (del_each (clients_of_peer peer rest) c).clients_chronological ≡ keep ++ others peer rest
unfolding clients_of_peer del_each
del_each-others peer keep [] c h at = at
del_each-others peer keep (k ∷ rest) c h at = elim (Bool-cases (k.vein_peer == peer)) [
  | inl e ↦
      let found : find_client k.proxy_connection_id c ≡ some k =
        unfold find_client in
        ap (lookup k.proxy_connection_id) (h.proxies ∙ ap (map by_proxy) at)
        ∙ lookup-middle keep rest k (subst (Unique same_proxy) at h.proxies_unique) in
      let gone = del_client-some k.proxy_connection_id c k found in
      let next = del_client k.proxy_connection_id c in
      rw e (
        del_each-others peer keep rest next (del_client-IsConsistent k.proxy_connection_id c h) (
          ap (λ t. t.clients_chronological) gone
          ∙ clients-reset (removed k c)
          ∙ (place_lem k keep rest c h at).0))
  | inr e ↦ rw e (
      del_each-others peer (keep ++ k ∷ []) rest c h (at ∙ sym (append_assoc keep (k ∷ []) rest))
      ∙ append_assoc keep (k ∷ []) (others peer rest))
]

-- A lost connection takes all its clients and no other, and the tables stay consistent.
pub del_clients_lem :
    (peer : ℕ) (c : Container)
    → Reachable c
    → ((del_clients peer c).clients_chronological ≡ others peer c.clients_chronological)
      × IsConsistent (del_clients peer c)
unfolding del_clients
del_clients_lem peer c r =
    let h = Reachable-IsConsistent c r in
    (
      clients-reset (del_each (clients_of_peer peer c.clients_chronological) c)
          ∙ del_each-others peer [] c.clients_chronological c h refl,
      del_clients-IsConsistent peer c h,
    )
