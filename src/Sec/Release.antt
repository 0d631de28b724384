-- ===== src/Sec/Release.antt =====
-- `FREE` and a lost connection: what `freeChannelsFromAClient` gives back.
use zenux_services.Prelude.{
  ℕ, ◌≡◌, Bool, true, false, ◌||◌, List, [], ◌∷◌, ◌++◌, map, arith, refl, sym, ap, ◌∙◌,
  if◌then◌else◌, ◌==◌, ==_iff, Bool-cases, inl, inr, some,
}
use zenux_services.Prelude.Text.{
  Text, eq_text, eq_text_refl, ne→eq_text, Free, Free-decimal, decimal, decimal-injective, split,
  split-cons, lookup,
}
use zenux_services.Sec.Device.{DeviceNode}
use zenux_services.Sec.Channel.{SecChannel, get_name, free}
use zenux_services.Sec.Allocation.{Pool, free_named, free_names, free_channels_from_a_client}
use zenux_services.Sec.Select.{listed}

-- A channel given back.
abbrev pub freed : SecChannel → SecChannel
freed c = record c { is_set = false }

-- The channels of the given numbers are given back.
abbrev pub in_list : ℕ → List ℕ → Bool
in_list k [] = false
in_list k (n ∷ ns) = k == n || in_list k ns

abbrev pub release : List ℕ → SecChannel → SecChannel
release ns c = if in_list c.nr ns then freed c else c

eq_name : (c d : SecChannel) → eq_text (get_name c) (get_name d) ≡ (c.nr == d.nr)
unfolding get_name eq_text
eq_name c d = elim (Bool-cases (c.nr == d.nr)) [
  | inl e ↦ rw (e, (==_iff c.nr d.nr).0 e) (eq_text_refl (decimal d.nr))
  | inr e ↦ rw e (
      ne→eq_text (decimal c.nr) (decimal d.nr) (λ q. ground (arith, decimal-injective c.nr d.nr q)))
]

free-freed : (dev : DeviceNode) (c : SecChannel) (s : dev.State) → (free dev c s).0 ≡ freed c
unfolding free
free-freed dev c s = ground arith

abbrev pub numbers : List SecChannel → List ℕ
numbers = map (λ c. c.nr)

Free-get_name : (c : SecChannel) → Free b';' (get_name c)
unfolding get_name
Free-get_name c = (omega arith, (omega arith, Free-decimal b';' c.nr (omega arith)))

-- The names come back, with an empty text behind the last ";".
split-listed : (ds : List SecChannel) → split b';' (listed ds) ≡ map get_name ds ++ [] ∷ []
unfolding listed
split-listed [] = unfold split in refl
split-listed (d ∷ ds) =
    split-cons b';' (get_name d) (listed ds) (Free-get_name d)
    ∙ ap (λ t. get_name d ∷ t) (split-listed ds)

module _ (dev : DeviceNode) where
  free_named-release :
      (d : SecChannel) (cs : List SecChannel) (s : dev.State)
      → (free_named dev (get_name d) cs s).0 ≡ map (release (d.nr ∷ [])) cs
  unfolding free_named
  free_named-release d [] s = refl
  free_named-release d (c ∷ cs) s = elim (Bool-cases (c.nr == d.nr)) [
    | inl e ↦
        rw (eq_name c d, e) (λ i. free-freed dev c s i ∷ free_named-release d cs (free dev c s).1 i)
    | inr e ↦ rw (eq_name c d, e) (ap (λ t. c ∷ t) (free_named-release d cs s))
  ]

  free_named-nil : (cs : List SecChannel) (s : dev.State) → (free_named dev [] cs s).0 ≡ cs
  unfolding free_named get_name eq_text
  free_named-nil [] s = refl
  free_named-nil (c ∷ cs) s = ap (λ t. c ∷ t) (free_named-nil cs s)

  release-cons :
      (k : ℕ) (ns : List ℕ) (c : SecChannel) → release ns (release (k ∷ []) c) ≡ release (k ∷ ns) c
  release-cons k ns c = ground arith

  map-release :
      (k : ℕ) (ns : List ℕ) (cs : List SecChannel)
      → map (release ns) (map (release (k ∷ [])) cs) ≡ map (release (k ∷ ns)) cs
  map-release k ns [] = refl
  map-release k ns (c ∷ cs) = λ i. release-cons k ns c i ∷ map-release k ns cs i

  free_names-release :
      (ds cs : List SecChannel) (s : dev.State)
      → (free_names dev (map get_name ds ++ [] ∷ []) cs s).0 ≡ map (release (numbers ds)) cs
  unfolding free_names
  free_names-release [] cs s = free_named-nil cs s ∙ sym (map-id cs)
    where
      map-id : (xs : List SecChannel) → map (release []) xs ≡ xs
      map-id [] = refl
      map-id (x ∷ xs) = ap (λ t. x ∷ t) (map-id xs)
  free_names-release (d ∷ ds) cs s =
      free_names-release ds (free_named dev (get_name d) cs s).0
        (free_named dev (get_name d) cs s).1
      ∙ ap (map (release (numbers ds))) (free_named-release d cs s)
      ∙ map-release d.nr (numbers ds) cs

  -- A client whose entry lists the channels `ds` gives back every channel of these numbers, whoever
  -- owns it now; the other channels stay as they are. The entry stays, so that it works again.
  pub free_channels_lem :
      (id : Text) (ds : List SecChannel) (pool : Pool dev.State)
      → lookup id pool.client_hash ≡ some (listed ds)
      → let (pool', done) = free_channels_from_a_client dev id pool in
        (done ≡ true)
        × (pool'.channels ≡ map (release (numbers ds)) pool.channels)
        × (lookup id pool'.client_hash ≡ some (listed ds))
  unfolding free_channels_from_a_client
  free_channels_lem id ds pool h =
      rw (h, free_channels_from_a_client)
        (
          refl,
          ap (λ names. (free_names dev names pool.channels pool.state).0) (split-listed ds)
              ∙ free_names-release ds pool.channels pool.state,
          h,
        )
