-- ===== src/Sec/RoundTrip.antt =====
-- `SET` and `FREE` of one client, one after the other.
use zenux_services.Prelude.{
  ℕ, zero, suc, ◌+◌, ◌≤◌, ◌<◌, ◌≡◌, true, false, ◌||◌, List, [], ◌∷◌, ◌++◌, map, arith, refl, sym,
  ap, subst, ◌∙◌, ◌==◌, Bool-cases, inl, inr, some,
}
use zenux_services.Prelude.Text.{Text, lookup, lookup-insert_self}
use zenux_services.Scpi.{ProtoCmd}
use zenux_services.Sec.Device.{DeviceNode}
use zenux_services.Sec.Channel.{SecSettings, SecChannel, is_free, new_channel, reset_interrupt}
use zenux_services.Sec.Allocation.{
  Pool, select, allocate, free_channels_from_a_client, init_channels, init_pool,
}
use zenux_services.Sec.Select.{
  first_free, free_count, occupy, listed, left-select, names-select, set_all-select,
}
use zenux_services.Sec.Release.{release, freed, in_list, numbers, free_channels_lem}

-- The channels are numbered from `k` on.
abbrev pub Numbered : ℕ → List SecChannel → Type 0
Numbered k [] = Unit
Numbered k (c ∷ cs) = (c.nr ≡ k) × Numbered (suc k) cs

init_channels-Numbered :
    (dev : DeviceNode) (settings : SecSettings) (n k : ℕ) (s : dev.State)
    → Numbered k (init_channels dev settings n k s).0
unfolding init_channels reset_interrupt new_channel
init_channels-Numbered dev settings zero k s = tt
init_channels-Numbered dev settings (suc n) k s =
    let next : k + 1 ≡ suc k = omega arith in
    (refl, rw (← next) (init_channels-Numbered dev settings n (k + 1) _))

-- The constructor numbers the channels from 0 on.
pub init_pool-Numbered :
    (dev : DeviceNode) (settings : SecSettings) (s : dev.State)
    → Numbered 0 (init_pool dev settings s).channels
unfolding init_pool
init_pool-Numbered dev settings s = init_channels-Numbered dev settings settings.number 0 s

-- Channel by channel: the same occupancy, and an occupied channel has not been touched.
abbrev pub Restored : List SecChannel → List SecChannel → Type 0
Restored [] [] = Unit
Restored [] (d ∷ ds) = ⊥
Restored (c ∷ cs) [] = ⊥
Restored (c ∷ cs) (d ∷ ds) =
    ((is_free d ≡ is_free c) × (is_free c ≡ false → d ≡ c)) × Restored cs ds

abbrev Below : ℕ → List ℕ → Type 0
Below k [] = Unit
Below k (n ∷ ns) = (n < k) × Below k ns

in_list-Below : (k : ℕ) (ns : List ℕ) → Below k ns → in_list k ns ≡ false
in_list-Below k [] b = refl
in_list-Below k (n ∷ ns) b = ground (arith, in_list-Below k ns b.1)

in_list-append : (k : ℕ) (ns ms : List ℕ) → in_list k (ns ++ ms) ≡ (in_list k ns || in_list k ms)
in_list-append k [] ms = refl
in_list-append k (n ∷ ns) ms = ground (arith, in_list-append k ns ms)

Below-suc : (k : ℕ) (ns : List ℕ) → Below k ns → Below (suc k) ns
Below-suc k [] b = tt
Below-suc k (n ∷ ns) b = (omega arith, Below-suc k ns b.1)

Below-snoc : (k : ℕ) (ns : List ℕ) → Below k ns → Below (suc k) (ns ++ k ∷ [])
Below-snoc k [] b = (omega arith, tt)
Below-snoc k (n ∷ ns) b = (omega arith, Below-snoc k ns b.1)

first_free-above :
    (n k j : ℕ) (cs : List SecChannel)
    → k < j
    → Numbered j cs
    → in_list k (numbers (first_free n cs)) ≡ false
unfolding first_free
first_free-above zero k j cs lt num = refl
first_free-above (suc n) k j [] lt num = refl
first_free-above (suc n) k j (c ∷ cs) lt num = elim (Bool-cases (is_free c)) [
  | inl f ↦ rw f (ground (arith, first_free-above n k (suc j) cs (omega arith) num.1))
  | inr f ↦ rw f (first_free-above (suc n) k (suc j) cs (omega arith) num.1)
]

regroup : (ns : List ℕ) (k : ℕ) (ms : List ℕ) → ns ++ k ∷ ms ≡ (ns ++ k ∷ []) ++ ms
regroup [] k ms = refl
regroup (n ∷ ns) k ms = ap (λ t. n ∷ t) (regroup ns k ms)

-- A channel whose number is not on the list stays.
release_other : (ns : List ℕ) (c : SecChannel) → in_list c.nr ns ≡ false → release ns c ≡ c
release_other ns c h = rw h refl

release_hit : (ns : List ℕ) (c : SecChannel) → in_list c.nr ns ≡ true → release ns c ≡ freed c
release_hit ns c h = rw h refl

Restored-release :
    (ns : List ℕ) (k : ℕ) (cs : List SecChannel)
    → Numbered k cs
    → Below k ns
    → Restored cs (map (release ns) cs)
Restored-release ns k [] num b = tt
Restored-release ns k (c ∷ cs) num b =
    let stays : release ns c ≡ c = release_other ns c (rw num.0 (in_list-Below k ns b)) in
    ((ap is_free stays, λ q. stays), Restored-release ns (suc k) cs num.1 (Below-suc k ns b))

append-nil : (ns : List ℕ) → ns ++ [] ≡ ns
append-nil [] = refl
append-nil (n ∷ ns) = ap (λ t. n ∷ t) (append-nil ns)

release-occupy :
    (id : Text) (n k : ℕ) (cs : List SecChannel) (ns : List ℕ)
    → Numbered k cs
    → Below k ns
    → Restored cs (map (release (ns ++ numbers (first_free n cs))) (occupy id n cs))
unfolding first_free occupy
release-occupy id zero k cs ns num b = rw append-nil (Restored-release ns k cs num b)
release-occupy id (suc n) k [] ns num b = tt
release-occupy id (suc n) k (c ∷ cs) ns num b = elim (Bool-cases (is_free c)) [
  | inl f ↦
      let rest = numbers (first_free n cs) in
      let c' : SecChannel = record c { client_id = id; is_set = true } in
      let hit : in_list c.nr (ns ++ c.nr ∷ rest) ≡ true =
        ground (arith, in_list-append c.nr ns (c.nr ∷ rest)) in
      rw f (
        (ap is_free (release_hit (ns ++ c.nr ∷ rest) c' hit) ∙ unfold is_free in sym f, λ q. cc),
        subst (λ ms. Restored cs (map (release ms) (occupy id n cs))) (sym (regroup ns c.nr rest))
            (release-occupy id n (suc k) cs (ns ++ c.nr ∷ []) num.1 (rw num.0 (Below-snoc k ns b))),
      )
  | inr f ↦
      let rest = numbers (first_free (suc n) cs) in
      let stays : release (ns ++ rest) c ≡ c = release_other (ns ++ rest) c (
        ground (
          arith,
          in_list-append c.nr ns rest,
          in_list-Below k ns b,
          first_free-above (suc n) k (suc k) cs (omega arith) num.1,
        )) in
      rw f (
        (ap is_free stays, λ q. stays),
        release-occupy id (suc n) (suc k) cs ns num.1 (Below-suc k ns b),
      )
]

allocate-entry :
    (dev : DeviceNode) (n : ℕ) (p : ProtoCmd) (pool : Pool dev.State)
    → suc n ≤ free_count pool.channels
    → let pool' = (allocate dev (suc n) p pool).0 in
      (lookup p.client_id pool'.client_hash ≡ some (listed (first_free (suc n) pool.channels)))
      × (pool'.channels ≡ occupy p.client_id (suc n) pool.channels)
unfolding allocate
allocate-entry dev n p pool enough =
    let left = left-select 0 n pool.channels in
    let none_left : ((select 0 (suc n) pool.channels).left == 0) ≡ true = ground arith in
    rw none_left (
      lookup-insert_self p.client_id (select 0 (suc n) pool.channels).names pool.client_hash
          ∙ ap some (names-select 0 n pool.channels),
      set_all-select p.client_id 0 n [] pool.channels refl,
    )

-- If a client is given `n` channels (`n` is not 0, and so many are free) and then gives its channels
-- back, the call succeeds, every channel is as free or occupied as before, and the channels that
-- were occupied before have not been touched. The channels are numbered by position, as the
-- constructor leaves them.
pub free-allocate :
    (dev : DeviceNode) (n : ℕ) (p : ProtoCmd) (pool : Pool dev.State)
    → Numbered 0 pool.channels
    → 0 < n
    → n ≤ free_count pool.channels
    → let (pool', done) = free_channels_from_a_client dev p.client_id (allocate dev n p pool).0 in
      (done ≡ true) × Restored pool.channels pool'.channels
free-allocate dev zero p pool num h enough = elim h [ ]
free-allocate dev (suc n) p pool num h enough =
    let (entry, taken) = allocate-entry dev n p pool enough in
    let ds = first_free (suc n) pool.channels in
    let (done, released, _) =
      free_channels_lem dev p.client_id ds (allocate dev (suc n) p pool).0 entry in
    (
      done,
      subst (Restored pool.channels) (sym (released ∙ ap (map (release (numbers ds))) taken))
          (release-occupy p.client_id (suc n) 0 pool.channels [] num tt),
    )
