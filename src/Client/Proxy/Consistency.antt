-- ===== src/Client/Proxy/Consistency.antt =====
-- What it means that the two tables of `ProxyPrivate` and its peers agree.
use zenux_services.Prelude.{
  ℕ, ◌≡◌, refl, sym, ◌∙◌, true, some, List, [], arith, ◌==◌, Bool-cases, inl, inr,
}
use zenux_services.Prelude.Maps.{find_key, contains_int}
use zenux_services.Prelude.Text.{Text, eq_text, eq_text_refl, eq_text→eq, lookup}
use zenux_services.Client.Proxy.{ProxyConnection, Proxy, is_at, empty_proxy}
use zenux_services.Client.Proxy.Tables.{IsProper, Holds, Uses}

-- A client has a connection with this identifier.
pub record Owned (u : Text) (c : ℕ) (m : List (ℕ × ProxyConnection)) : Type 0 where
  pub connection : ProxyConnection
  pub found : find_key c m ≡ some connection
  pub same_uuid : connection.bin_uuid ≡ u

-- The client table lists the clients under their identifiers; two connections have the same peer exactly
-- if they have the same address; and the peers are those of the connections.
pub record IsRouted (p : Proxy) : Type 0 where
  pub proper : IsProper p.connections
  pub registered :
      (c : ℕ) (k : ProxyConnection)
      → find_key c p.connections ≡ some k
      → lookup k.bin_uuid p.clients ≡ some c
  pub owned : (u : Text) (c : ℕ) → lookup u p.clients ≡ some c → Owned u c p.connections
  pub alike :
      (c d : ℕ) (k l : ProxyConnection)
      → find_key c p.connections ≡ some k
      → find_key d p.connections ≡ some l
      → (k.net_client == l.net_client) ≡ is_at k.ip k.port l
  pub alive :
      (c : ℕ) (k : ProxyConnection)
      → find_key c p.connections ≡ some k
      → contains_int k.net_client p.peers ≡ true
  pub used : (q : ℕ) → contains_int q p.peers ≡ true → Holds (Uses q) p.connections

nothing_found : {A : Type 0} (c : ℕ) (k : ProxyConnection) → find_key c [] ≡ some k → A
unfolding find_key
nothing_found c k e = cc

pub empty_proxy-IsRouted : IsRouted empty_proxy
unfolding lookup contains_int
empty_proxy-IsRouted = record {
  proper = tt;
  registered = λ c k e. nothing_found c k e;
  owned = λ u c e. cc;
  alike = λ c d k l e f. nothing_found c k e;
  alive = λ c k e. nothing_found c k e;
  used = λ q e. cc;
}

pub is_at_self : (k : ProxyConnection) → is_at k.ip k.port k ≡ true
is_at_self k = ground (arith, eq_text_refl k.ip)

pub is_at_sym : (k l : ProxyConnection) → is_at k.ip k.port l ≡ is_at l.ip l.port k
is_at_sym k l = ground (arith, eq_text_sym k.ip l.ip)
  where
    eq_text_sym : (s t : Text) → eq_text t s ≡ eq_text s t
    eq_text_sym s t = elim (Bool-cases (eq_text s t)) [
      | inl e ↦ rw (eq_text→eq s t e) refl
      | inr e ↦ elim (Bool-cases (eq_text t s)) [
        | inl f ↦ rw (eq_text→eq t s f) refl
        | inr f ↦ f ∙ sym e
      ]
    ]
