-- ===== src/Client/Proxy/Tables.antt =====
-- The lookups of `ProxyPrivate` in its tables: `search_connection`, `get_clients_connected_to_peer` and
-- `first_key`.
use zenux_services.Prelude.{
  ℕ, ◌≡◌, ◌⊎◌, refl, sym, ap, ◌∙◌, subst, true, false, Option, none, some, List, [], ◌∷◌, arith,
  ◌==◌, ltb, if◌then◌else◌, Bool-cases, inl, inr, ==_iff,
}
use zenux_services.Prelude.Maps.{
  find_key, put_key, remove_key, find_key-put_key, find_key-remove_key,
}
use zenux_services.Prelude.Text.{
  Text, eq_text, eq_text→eq, lookup, insert, remove, lookup-insert_self, lookup-insert_ne,
  lookup-remove_self, lookup-remove_ne, keys, contains_text,
}
use zenux_services.Client.Proxy.{
  ProxyConnection, is_at, search_connection, get_clients_connected_to_peer, is_mapped_to, first_key,
}

-- No key stands twice.
module _ {ℓ} {V : Type ℓ} where
  abbrev pub IsProper : List (ℕ × V) → Type ℓ
  IsProper [] = Unit
  IsProper ((j, v) ∷ m) = (find_key j m ≡ none) × IsProper m

  pub put_key-IsProper :
      (k : ℕ) (v : V) (m : List (ℕ × V))
      → find_key k m ≡ none
      → IsProper m
      → IsProper (put_key k v m)
  unfolding put_key find_key
  put_key-IsProper k v [] free h = (refl, tt)
  put_key-IsProper k v ((j, w) ∷ m) free h =
      let apart : (j == k) ≡ false = ground arith in
      let apart' : (k == j) ≡ false = ground arith in
      let free' : find_key k m ≡ none = ground arith in
      let kept : find_key j (put_key k v m) ≡ none = find_key-put_key k j v m ∙ rw apart' h.0 in
      elim (Bool-cases (ltb k j)) [
        | inl f ↦ rw (apart, f) (free, h)
        | inr f ↦ rw (apart, f) (kept, put_key-IsProper k v m free' h.1)
      ]

  pub remove_key-IsProper : (k : ℕ) (m : List (ℕ × V)) → IsProper m → IsProper (remove_key k m)
  unfolding remove_key
  remove_key-IsProper k [] h = tt
  remove_key-IsProper k ((j, w) ∷ m) h = elim (Bool-cases (j == k)) [
    | inl e ↦ rw e (remove_key-IsProper k m h.1)
    | inr e ↦ rw e (find_key-remove_key k j m ∙ ground (arith, h.0), remove_key-IsProper k m h.1)
  ]

  -- What is found behind the head is found in the whole table.
  pub find_key-behind :
      (c j : ℕ) (k w : V) (m : List (ℕ × V))
      → IsProper ((j, w) ∷ m)
      → find_key c m ≡ some k
      → find_key c ((j, w) ∷ m) ≡ some k
  unfolding find_key
  find_key-behind c j k w m h found = elim (Bool-cases (j == c)) [
    | inl e ↦
        let j≡c : j ≡ c = (==_iff j c).0 e in
        let clash : none ≡ some k = sym h.0 ∙ ap (λ i. find_key i m) j≡c ∙ found in cc
    | inr e ↦ rw e found
  ]

module _ {ℓ} {V : Type ℓ} where
  pub found-put_key :
      (c d : ℕ) (k l : V) (m : List (ℕ × V))
      → find_key d (put_key c k m) ≡ some l
      → ((c ≡ d) × (k ≡ l)) ⊎ (((c == d) ≡ false) × (find_key d m ≡ some l))
  found-put_key c d k l m e =
      let cases : (if c == d then some k else find_key d m) ≡ some l =
        sym (find_key-put_key c d k m) ∙ e in
      elim (Bool-cases (c == d)) [
        | inl f ↦ let same : some k ≡ some l = rw f at cases in inl ((==_iff c d).0 f, cc)
        | inr f ↦ inr (f, rw f at cases)
      ]

  pub found-remove_key :
      (c d : ℕ) (l : V) (m : List (ℕ × V))
      → find_key d (remove_key c m) ≡ some l
      → ((c == d) ≡ false) × (find_key d m ≡ some l)
  found-remove_key c d l m e =
      let cases : (if c == d then none else find_key d m) ≡ some l =
        sym (find_key-remove_key c d m) ∙ e in
      elim (Bool-cases (c == d)) [
        | inl f ↦ let clash : none ≡ some l = rw f at cases in cc
        | inr f ↦ (f, rw f at cases)
      ]

pub looked-insert :
    (u v : Text) (c d : ℕ) (m : List (Text × ℕ))
    → lookup u (insert v c m) ≡ some d
    → ((v ≡ u) × (c ≡ d)) ⊎ ((eq_text v u ≡ false) × (lookup u m ≡ some d))
looked-insert u v c d m e = elim (Bool-cases (eq_text v u)) [
  | inl f ↦
      let v≡u = eq_text→eq v u f in
      let same : some c ≡ some d =
        sym (lookup-insert_self v c m) ∙ ap (λ i. lookup i (insert v c m)) v≡u ∙ e in
      inl (v≡u, cc)
  | inr f ↦ inr (f, sym (lookup-insert_ne v u c m f) ∙ e)
]

pub looked-remove :
    (u v : Text) (d : ℕ) (m : List (Text × ℕ))
    → lookup u (remove v m) ≡ some d
    → (eq_text v u ≡ false) × (lookup u m ≡ some d)
looked-remove u v d m e = elim (Bool-cases (eq_text v u)) [
  | inl f ↦
      let v≡u = eq_text→eq v u f in
      let clash : none ≡ some d =
        sym (lookup-remove_self v m) ∙ ap (λ i. lookup i (remove v m)) v≡u ∙ e in
      cc
  | inr f ↦ (f, sym (lookup-remove_ne v u m f) ∙ e)
]

-- A connection of the table with some property.
pub record Holds (P : ProxyConnection → Type 0) (m : List (ℕ × ProxyConnection)) : Type 0 where
  pub key : ℕ
  pub connection : ProxyConnection
  pub found : find_key key m ≡ some connection
  pub holds : P connection

Holds-behind :
    (P : ProxyConnection → Type 0) (j : ℕ) (w : ProxyConnection) (m : List (ℕ × ProxyConnection))
    → IsProper ((j, w) ∷ m)
    → Holds P m
    → Holds P ((j, w) ∷ m)
Holds-behind P j w m h r = record {
  key = r.key;
  connection = r.connection;
  found = find_key-behind r.key j r.connection w m h r.found;
  holds = r.holds;
}

Holds-head :
    (P : ProxyConnection → Type 0) (j : ℕ) (w : ProxyConnection) (m : List (ℕ × ProxyConnection))
    → P w
    → Holds P ((j, w) ∷ m)
Holds-head P j w m p = record {
  key = j;
  connection = w;
  found = unfold find_key in ground arith;
  holds = p;
}

abbrev pub IsAt : Text → ℕ → ℕ → ProxyConnection → Type 0
IsAt ip port peer k = (is_at ip port k ≡ true) × (k.net_client ≡ peer)

abbrev pub Uses : ℕ → ProxyConnection → Type 0
Uses peer k = k.net_client ≡ peer

pub search_connection-Holds :
    (ip : Text) (port peer : ℕ) (m : List (ℕ × ProxyConnection))
    → IsProper m
    → search_connection ip port m ≡ some peer
    → Holds (IsAt ip port peer) m
unfolding search_connection
search_connection-Holds ip port peer [] h e = cc
search_connection-Holds ip port peer ((j, w) ∷ m) h e = elim (Bool-cases (is_at ip port w)) [
  | inl b ↦
      let same : some w.net_client ≡ some peer = rw b at e in
      Holds-head (IsAt ip port peer) j w m (b, cc)
  | inr b ↦
      let later : search_connection ip port m ≡ some peer = rw b at e in
      Holds-behind (IsAt ip port peer) j w m h (search_connection-Holds ip port peer m h.1 later)
]

pub search_connection-none :
    (ip : Text) (port c : ℕ) (k : ProxyConnection) (m : List (ℕ × ProxyConnection))
    → search_connection ip port m ≡ none
    → find_key c m ≡ some k
    → is_at ip port k ≡ false
unfolding search_connection find_key
search_connection-none ip port c k [] e found = cc
search_connection-none ip port c k ((j, w) ∷ m) e found = elim (Bool-cases (is_at ip port w)) [
  | inl b ↦ let clash : some w.net_client ≡ none = rw b at e in cc
  | inr b ↦ elim (Bool-cases (j == c)) [
    | inl f ↦
        let same : some w ≡ some k = rw f at found in
        let w≡k : w ≡ k = cc in subst (λ i. is_at ip port i ≡ false) w≡k b
    | inr f ↦
        let later : search_connection ip port m ≡ none = rw b at e in
        let found' : find_key c m ≡ some k = rw f at found in
        search_connection-none ip port c k m later found'
  ]
]

pub connected-Holds :
    (peer c : ℕ) (cs : List ℕ) (m : List (ℕ × ProxyConnection))
    → IsProper m
    → get_clients_connected_to_peer peer m ≡ c ∷ cs
    → Holds (Uses peer) m
unfolding get_clients_connected_to_peer
connected-Holds peer c cs [] h e = cc
connected-Holds peer c cs ((j, w) ∷ m) h e = elim (Bool-cases (w.net_client == peer)) [
  | inl b ↦ Holds-head (Uses peer) j w m ((==_iff w.net_client peer).0 b)
  | inr b ↦
      let later : get_clients_connected_to_peer peer m ≡ c ∷ cs = rw b at e in
      Holds-behind (Uses peer) j w m h (connected-Holds peer c cs m h.1 later)
]

pub connected-none :
    (peer c : ℕ) (k : ProxyConnection) (m : List (ℕ × ProxyConnection))
    → get_clients_connected_to_peer peer m ≡ []
    → find_key c m ≡ some k
    → (k.net_client == peer) ≡ false
unfolding get_clients_connected_to_peer find_key
connected-none peer c k [] e found = cc
connected-none peer c k ((j, w) ∷ m) e found = elim (Bool-cases (w.net_client == peer)) [
  | inl b ↦ let clash : j ∷ get_clients_connected_to_peer peer m ≡ [] = rw b at e in cc
  | inr b ↦ elim (Bool-cases (j == c)) [
    | inl f ↦
        let same : some w ≡ some k = rw f at found in
        let w≡k : w ≡ k = cc in subst (λ i. (i.net_client == peer) ≡ false) w≡k b
    | inr f ↦
        let later : get_clients_connected_to_peer peer m ≡ [] = rw b at e in
        let found' : find_key c m ≡ some k = rw f at found in connected-none peer c k m later found'
  ]
]

contains_text-lookup :
    (u : Text) (c : ℕ) (m : List (Text × ℕ)) → lookup u m ≡ some c → contains_text u (keys m) ≡ true
unfolding lookup contains_text keys
contains_text-lookup u c [] e = cc
contains_text-lookup u c ((j, d) ∷ m) e = ground (arith, e, contains_text-lookup u c m)

-- The key that is found is mapped to the client.
lookup-first_key :
    (u : Text) (c : ℕ) (us : List Text) (m : List (Text × ℕ))
    → contains_text u us ≡ true
    → lookup u m ≡ some c
    → lookup (first_key c us m) m ≡ some c
unfolding first_key contains_text
lookup-first_key u c [] m there e = cc
lookup-first_key u c (v ∷ us) m there e = elim (Bool-cases (is_mapped_to c (lookup v m))) [
  | inl b ↦ rw b (mapped (lookup v m) b)
  | inr b ↦ rw b (elim (Bool-cases (eq_text v u)) [
    | inl f ↦
        let v≡u : v ≡ u = eq_text→eq v u f in
        let here : is_mapped_to c (some c) ≡ false =
          subst (λ o. is_mapped_to c o ≡ false) (ap (λ i. lookup i m) v≡u ∙ e) b in
        ground arith
    | inr f ↦
        let there' : contains_text u us ≡ true = ground arith in lookup-first_key u c us m there' e
  ])
]
  where
    mapped : (o : Option ℕ) → is_mapped_to c o ≡ true → o ≡ some c
    mapped none b = cc
    mapped (some d) b = ap some ((==_iff d c).0 b)

pub first_key_lem :
    (u : Text) (c : ℕ) (m : List (Text × ℕ))
    → lookup u m ≡ some c
    → lookup (first_key c (keys m) m) m ≡ some c
first_key_lem u c m e = lookup-first_key u c (keys m) m (contains_text-lookup u c m e) e
