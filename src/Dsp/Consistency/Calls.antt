-- ===== src/Dsp/Consistency/Calls.antt =====
-- The tables of `ZDspClientContainer` under each of its calls.
use zenux_services.Prelude.{
  ℕ, ◌≡◌, ◌≢◌, refl, sym, ap, ◌∙◌, subst, Bool, true, false, Option, none, some, List, [], ◌∷◌,
  ◌++◌, map, arith, ==_iff, Bool-cases, Option-cases, inl, inr, ◌<◌, ◌^◌, if◌then◌else◌,
}
use zenux_services.Prelude.Text.{Text, lookup, insert, eq_text_refl}
use zenux_services.Dsp.Clients.{
  Client, Container, empty_container, find_by_id, find_client, insert_id, remove_id, remove_proxy,
  remove_object, calc_dsp_interrupt_id, is_empty, reset_interrupt_id_on_no_clients, add_client,
  make_super_client, destroyed, del_client, clients_of_peer, del_each, del_clients, del_all_clients,
}
use zenux_services.Dsp.Consistency.{
  same_object, same_id, same_proxy, Apart, Unique, Unique-snoc, Unique-drop, reject-Unique, by_id,
  by_proxy, ValidIds, ValidIds-snoc, ValidIds-drop, IsConsistent, remove_object-reject,
  remove_id-reject, remove_proxy-reject, lookup-place, find_by_id-none, lookup-none, insert_id-new,
  insert-new, map-snoc, calc_dsp_interrupt_id_lem,
}

abbrev pub Fresh : ℕ → List Client → Type 0
Fresh object [] = Unit
Fresh object (k ∷ ks) = (k.object ≢ object) × Fresh object ks

Fresh-Apart : (d : Client) (ks : List Client) → Fresh d.object ks → Apart same_object d ks
Fresh-Apart d [] f = tt
Fresh-Apart d (k ∷ ks) f = (ground (arith, f.0), ground (arith, f.0), Fresh-Apart d ks f.1)

-- The container with one more client.
added : Client → Container → Container
added d c = record c {
  clients_chronological = c.clients_chronological ++ d ∷ [];
  clients_by_dsp_interrupt_id = insert_id d.dsp_interrupt_id d c.clients_by_dsp_interrupt_id;
  clients_by_proxy_connection_id = insert d.proxy_connection_id d c.clients_by_proxy_connection_id;
  current_dsp_interrupt_id = d.dsp_interrupt_id;
}

added-IsConsistent :
    (d : Client) (c : Container)
    → IsConsistent c
    → Fresh d.object c.clients_chronological
    → d.dsp_interrupt_id ≢ 0
    → d.dsp_interrupt_id < 2 ^ 16
    → lookup d.proxy_connection_id c.clients_by_proxy_connection_id ≡ none
    → find_by_id d.dsp_interrupt_id c.clients_by_dsp_interrupt_id ≡ none
    → IsConsistent (added d c)
unfolding added
added-IsConsistent d c h fresh nonzero short no_proxy no_id =
    let ks = c.clients_chronological in
    let no_proxy' = subst (λ m. lookup d.proxy_connection_id m ≡ none) h.proxies no_proxy in
    let no_id' = subst (λ m. find_by_id d.dsp_interrupt_id m ≡ none) h.ids no_id in
    record {
      ids =
          ap (insert_id d.dsp_interrupt_id d) h.ids
          ∙ insert_id-new d.dsp_interrupt_id d ks no_id'
          ∙ sym (map-snoc by_id ks d);
      proxies =
          ap (insert d.proxy_connection_id d) h.proxies
          ∙ insert-new d.proxy_connection_id d ks no_proxy'
          ∙ sym (map-snoc by_proxy ks d);
      objects_unique = Unique-snoc same_object d ks (Fresh-Apart d ks fresh) h.objects_unique;
      ids_unique =
          Unique-snoc same_id d ks (find_by_id-none d.dsp_interrupt_id d ks refl no_id')
            h.ids_unique;
      proxies_unique =
          Unique-snoc same_proxy d ks (lookup-none d.proxy_connection_id d ks refl no_proxy')
            h.proxies_unique;
      ids_valid = ValidIds-snoc d ks nonzero short h.ids_valid;
    }

IsConsistent-current :
    (n : ℕ) (c : Container)
    → IsConsistent c
    → IsConsistent (record c { current_dsp_interrupt_id = n })
IsConsistent-current n c h = record {
  ids = h.ids;
  proxies = h.proxies;
  objects_unique = h.objects_unique;
  ids_unique = h.ids_unique;
  proxies_unique = h.proxies_unique;
  ids_valid = h.ids_valid;
}

IsConsistent-reset :
    (c : Container) → IsConsistent c → IsConsistent (reset_interrupt_id_on_no_clients c)
unfolding reset_interrupt_id_on_no_clients
IsConsistent-reset c h = step (is_empty c.clients_by_dsp_interrupt_id)
  where
    step : (b : Bool) → IsConsistent (if b then record c { current_dsp_interrupt_id = 0 } else c)
    step true = IsConsistent-current 0 c h
    step false = h

pub add_client-IsConsistent :
    (object peer : ℕ) (id : Text) (c : Container)
    → IsConsistent c
    → Fresh object c.clients_chronological
    → IsConsistent (add_client object peer id c)
unfolding add_client added
add_client-IsConsistent object peer id c h fresh =
    let next = calc_dsp_interrupt_id c.current_dsp_interrupt_id in
    let (nonzero, short) = calc_dsp_interrupt_id_lem c.current_dsp_interrupt_id in
    let d : Client = record {
      object = object;
      dsp_interrupt_id = next;
      vein_peer = peer;
      proxy_connection_id = id;
    } in
    step d (lookup id c.clients_by_proxy_connection_id)
      (find_by_id next c.clients_by_dsp_interrupt_id) (added-IsConsistent d c h fresh nonzero short)
  where
    step :
        (d : Client) (by_name : Option Client) (by_number : Option Client)
        → (by_name ≡ none → by_number ≡ none → IsConsistent (added d c))
        → IsConsistent (elim by_name [
          | some k ↦ c
          | none ↦ elim by_number [
            | some k ↦ record c { current_dsp_interrupt_id = d.dsp_interrupt_id }
            | none ↦ added d c
          ]
        ])
    step d (some k) o new = h
    step d none (some k) new = IsConsistent-current d.dsp_interrupt_id c h
    step d none none new = new refl refl

-- What `del_client` leaves of the tables, given the place of the client.
pub place_lem :
    (k : Client) (front back : List Client) (c : Container)
    → IsConsistent c
    → c.clients_chronological ≡ front ++ k ∷ back
    → (remove_object k.object c.clients_chronological ≡ front ++ back)
      × (remove_id k.dsp_interrupt_id c.clients_by_dsp_interrupt_id ≡ map by_id (front ++ back))
      × (remove_proxy k.proxy_connection_id c.clients_by_proxy_connection_id
          ≡ map by_proxy (front ++ back))
place_lem k front back c h at = (
  ap (remove_object k.object) at
      ∙ remove_object-reject k (front ++ k ∷ back)
      ∙ reject-Unique same_object k front back ((==_iff k.object k.object).1 refl)
          (subst (Unique same_object) at h.objects_unique),
  ap (remove_id k.dsp_interrupt_id) (h.ids ∙ ap (map by_id) at)
      ∙ remove_id-reject k (front ++ k ∷ back)
      ∙ ap (map by_id) (
          reject-Unique same_id k front back ((==_iff k.dsp_interrupt_id k.dsp_interrupt_id).1 refl)
            (subst (Unique same_id) at h.ids_unique)),
  ap (remove_proxy k.proxy_connection_id) (h.proxies ∙ ap (map by_proxy) at)
      ∙ remove_proxy-reject k (front ++ k ∷ back)
      ∙ ap (map by_proxy) (
          reject-Unique same_proxy k front back (eq_text_refl k.proxy_connection_id)
            (subst (Unique same_proxy) at h.proxies_unique)),
)

abbrev pub removed : Client → Container → Container
removed k c = record {
  clients_chronological = remove_object k.object c.clients_chronological;
  clients_by_dsp_interrupt_id = remove_id k.dsp_interrupt_id c.clients_by_dsp_interrupt_id;
  clients_by_proxy_connection_id =
      remove_proxy k.proxy_connection_id c.clients_by_proxy_connection_id;
  dsp_super_client = destroyed k.object c.dsp_super_client;
  current_dsp_interrupt_id = c.current_dsp_interrupt_id;
}

removed-IsConsistent :
    (k : Client) (front back : List Client) (c : Container)
    → IsConsistent c
    → c.clients_chronological ≡ front ++ k ∷ back
    → IsConsistent (removed k c)
removed-IsConsistent k front back c h at =
    let (objects, ids, proxies) = place_lem k front back c h at in
    record {
      ids = ids ∙ ap (map by_id) (sym objects);
      proxies = proxies ∙ ap (map by_proxy) (sym objects);
      objects_unique =
          subst (Unique same_object) (sym objects)
            (Unique-drop same_object k front back (subst (Unique same_object) at h.objects_unique));
      ids_unique =
          subst (Unique same_id) (sym objects)
            (Unique-drop same_id k front back (subst (Unique same_id) at h.ids_unique));
      proxies_unique =
          subst (Unique same_proxy) (sym objects)
            (Unique-drop same_proxy k front back (subst (Unique same_proxy) at h.proxies_unique));
      ids_valid =
          subst ValidIds (sym objects) (ValidIds-drop k front back (subst ValidIds at h.ids_valid));
    }

pub del_client-some :
    (id : Text) (c : Container) (k : Client)
    → find_client id c ≡ some k
    → del_client id c ≡ reset_interrupt_id_on_no_clients (removed k c)
unfolding del_client
del_client-some id c k e =
    ap
      (λ (o : Option Client). elim o as (λ x. Container) [
        | none ↦ c
        | some d ↦ reset_interrupt_id_on_no_clients (removed d c)
      ])
      e

del_client-none : (id : Text) (c : Container) → find_client id c ≡ none → del_client id c ≡ c
unfolding del_client
del_client-none id c e =
    ap
      (λ (o : Option Client). elim o as (λ x. Container) [
        | none ↦ c
        | some d ↦ reset_interrupt_id_on_no_clients (removed d c)
      ])
      e

pub clients-reset :
    (c : Container)
    → (reset_interrupt_id_on_no_clients c).clients_chronological ≡ c.clients_chronological
unfolding reset_interrupt_id_on_no_clients
clients-reset c = elim (Bool-cases (is_empty c.clients_by_dsp_interrupt_id)) [
  | inl e ↦ simp e
  | inr e ↦ simp e
]

-- A client that is found goes, all others stay in their order, and the tables stay consistent.
pub del_client-found :
    (id : Text) (c : Container) (k : Client)
    → IsConsistent c
    → find_client id c ≡ some k
    → (front back : List Client) × (c.clients_chronological ≡ front ++ k ∷ back)
      × (k.proxy_connection_id ≡ id)
      × ((del_client id c).clients_chronological ≡ front ++ back)
      × IsConsistent (del_client id c)
unfolding find_client
del_client-found id c k h e =
    let (front, back, at, key) =
      lookup-place id c.clients_chronological k (subst (λ m. lookup id m ≡ some k) h.proxies e) in
    let gone = del_client-some id c k e in
    (
      front,
      back,
      at,
      key,
      ap (λ t. t.clients_chronological) gone
          ∙ clients-reset (removed k c)
          ∙ (place_lem k front back c h at).0,
      subst IsConsistent (sym gone)
          (IsConsistent-reset (removed k c) (removed-IsConsistent k front back c h at)),
    )

pub del_client-IsConsistent :
    (id : Text) (c : Container) → IsConsistent c → IsConsistent (del_client id c)
del_client-IsConsistent id c h = elim (Option-cases (find_client id c)) [
  | inl e ↦ subst IsConsistent (sym (del_client-none id c e)) h
  | inr (k, e) ↦ (del_client-found id c k h e).5
]

del_each-IsConsistent :
    (ks : List Client) (c : Container) → IsConsistent c → IsConsistent (del_each ks c)
unfolding del_each
del_each-IsConsistent [] c h = h
del_each-IsConsistent (k ∷ ks) c h =
    del_each-IsConsistent ks (del_client k.proxy_connection_id c)
      (del_client-IsConsistent k.proxy_connection_id c h)

pub del_clients-IsConsistent :
    (peer : ℕ) (c : Container) → IsConsistent c → IsConsistent (del_clients peer c)
unfolding del_clients
del_clients-IsConsistent peer c h =
    let ks = clients_of_peer peer c.clients_chronological in
    IsConsistent-reset (del_each ks c) (del_each-IsConsistent ks c h)

pub empty_container-IsConsistent :
    (super : Option ℕ) (n : ℕ)
    → IsConsistent
        (record empty_container { dsp_super_client = super; current_dsp_interrupt_id = n })
empty_container-IsConsistent super n = record {
  ids = refl;
  proxies = refl;
  objects_unique = tt;
  ids_unique = tt;
  proxies_unique = tt;
  ids_valid = tt;
}

pub del_all_clients-IsConsistent : (c : Container) → IsConsistent (del_all_clients c)
unfolding del_all_clients
del_all_clients-IsConsistent c =
    IsConsistent-reset _ (empty_container-IsConsistent _ c.current_dsp_interrupt_id)

pub make_super_client-IsConsistent :
    (object : ℕ) (c : Container) → IsConsistent c → IsConsistent (make_super_client object c).0
unfolding make_super_client
make_super_client-IsConsistent object c h = step c.dsp_super_client
  where
    step :
        (o : Option ℕ)
        → IsConsistent
            (elim o as (λ x. Container × Bool) [
              | some k ↦ (c, false)
              | none ↦ (record c { dsp_super_client = some object }, true)
            ]).0
    step (some k) = h
    step none = record {
      ids = h.ids;
      proxies = h.proxies;
      objects_unique = h.objects_unique;
      ids_unique = h.ids_unique;
      proxies_unique = h.proxies_unique;
      ids_valid = h.ids_valid;
    }
