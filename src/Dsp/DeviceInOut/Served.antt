-- ===== src/Dsp/DeviceInOut/Served.antt =====
-- The answer of `readDspVarList` to the text of `VarListShort`.
use mathlib.Core.List.{append_assoc}
use zenux_services.Prelude.{
  ℕ, zero, suc, ◌+◌, ◌<◌, ◌≡◌, ◌≢◌, refl, sym, ap, subst, ◌∙◌, Bool, true, false, Option, none,
  some, List, [], ◌∷◌, ◌++◌, arith, if◌then◌else◌, length, ◌^◌,
}
use zenux_services.Prelude.Int.{pos}
use zenux_services.Prelude.Text.{
  Text, decimal, decimal_not_nil, Free, Free-decimal_above, join, split, skip_empty, split-join,
  terminated,
}
use zenux_services.Dsp.Layout.{DspVar, dsp_data_type_int}
use zenux_services.Dsp.Resolver.{get_dsp_var}
use zenux_services.Dsp.DeviceInOut.{
  ValueLib, DeviceNode, read_var_from_dsp, read_counted, read_name_and_count, read_one_dsp_var,
  show_value, show_values, paired, with_entry, read_entries,
}
use zenux_services.Dsp.DeviceInOut.Written.{AreWords}
use zenux_services.Client.VarGroup.{GroupLib, ClientVar, short_entries}
use zenux_services.Client.VarGroup.Stored.{words_text, entries_of, AreReadOf}

entry_text :
    (name upper shown words rest : Text)
    → name ≡ upper
    → shown ≡ words ++ b';' ∷ []
    → name ++ b':' ∷ (shown ++ rest) ≡ (upper ++ b':' ∷ words) ++ b';' ∷ rest
entry_text name upper shown words rest same e =
    let tail : shown ++ rest ≡ words ++ b';' ∷ rest =
      ap (λ t. t ++ rest) e ∙ append_assoc words (b';' ∷ []) rest in
    ap (λ n. n ++ b':' ∷ (shown ++ rest)) same
    ∙ ap (λ t. upper ++ b':' ∷ t) tail
    ∙ sym (append_assoc upper (b':' ∷ words) (b';' ∷ rest))

-- Where a variable stands for the server, and what the texts need of its name.
pub record IsReadable (client : GroupLib) (lib : ValueLib) (var_hash : List (Text × DspVar))
    (address : Text → ℕ) (v : ClientVar) : Type 0 where
  pub is_integer : v.data_type ≡ dsp_data_type_int
  pub server_var : DspVar
  pub found : get_dsp_var lib.numbers var_hash v.name ≡ some server_var
  pub same_name : server_var.name ≡ client.to_upper v.name
  pub same_type : server_var.data_type ≡ dsp_data_type_int
  pub addressed : server_var.absolute_address ≡ address v.name
  pub named : v.name ≢ []
  pub no_comma : Free b',' v.name
  pub no_semicolon : Free b';' v.name
  pub filled : 0 < length v.values
  pub countable : length v.values < 2 ^ 31

abbrev pub AreReadable :
    GroupLib → ValueLib → List (Text × DspVar) → (Text → ℕ) → List ClientVar → Type 0
AreReadable client lib var_hash address [] = Unit
AreReadable client lib var_hash address (v ∷ vs) =
    IsReadable client lib var_hash address v × AreReadable client lib var_hash address vs

-- The device gives the words that are asked for.
abbrev pub GivesWords : DeviceNode → Type 0
GivesWords node =
    (n : ℕ) (s : node.State) (ws : List ℕ)
    → (node.read n s).1 ≡ some ws
    → (length ws ≡ n) × AreWords ws

-- A read at an address.
abbrev pub read_words : (node : DeviceNode) → ℕ → ℕ → node.State → node.State × Option (List ℕ)
read_words node adr n s =
    let (s', found) = node.lseek adr s in
    let after = node.read n s' in if found then after else (s', none)

abbrev pub with_words :
    {S : Type 0}
    → ClientVar
    → S × Option (List ℕ)
    → S × Option (List ClientVar)
    → S × Option (List ClientVar)
with_words v (s', none) rest = (s', none)
with_words v (s', some ws) (s'', none) = (s'', none)
with_words v (s', some ws) (s'', some us) = (s'', some (record v { values = ws } ∷ us))

-- The variables with the words that stand at their addresses, read one after the other until a read fails.
abbrev pub read_each :
    (node : DeviceNode)
    → (Text → ℕ)
    → List ClientVar
    → node.State
    → node.State × Option (List ClientVar)
read_each node address [] s = (s, some [])
read_each node address (v ∷ vs) s =
    let one = read_words node (address v.name) (length v.values) s in
    with_words v one (read_each node address vs one.0)

abbrev pub requests_of : List ClientVar → List Text
requests_of [] = []
requests_of (v ∷ vs) = (v.name ++ b',' ∷ decimal (length v.values)) ∷ requests_of vs

pub short_entries_0 : (n : ℕ) (vs : List ClientVar) → short_entries 0 n vs ≡ requests_of vs
unfolding short_entries
short_entries_0 n [] = refl
short_entries_0 n (v ∷ vs) =
    ap (λ r. (v.name ++ b',' ∷ decimal (length v.values)) ∷ r)
      (short_entries_0 (n + length v.values) vs)

abbrev pub answered :
    (client : GroupLib) (node : DeviceNode)
    → node.State × Option (List ClientVar)
    → node.State × Option Text
answered client node (s', none) = (s', none)
answered client node (s', some us) = (s', some (terminated b';' (entries_of client us)))

module _ (client : GroupLib) (lib : ValueLib) (var_hash : List (Text × DspVar)) (address : Text → ℕ)
    (counts : (n : ℕ) → n < 2 ^ 31 → lib.numbers.to_int_10 (decimal n) ≡ some (pos n))
    (node : DeviceNode) (gives : GivesWords node) where
  read_counted-pos :
      (sv : DspVar) (n : ℕ) (s : node.State)
      → 0 < n
      → let r = read_words node sv.absolute_address n s in
        read_counted lib node var_hash (some sv) (some (pos n)) s ≡ paired lib node var_hash sv r
  unfolding read_counted read_var_from_dsp
  read_counted-pos sv zero s h = absurd (omega arith)
  read_counted-pos sv (suc n) s h = refl

  show_values-int :
      (ws : List ℕ)
      → ws ≢ []
      → show_values lib node var_hash dsp_data_type_int ws ≡ words_text ws ++ b';' ∷ []
  unfolding show_values show_value join
  show_values-int [] ne = absurd (ne refl)
  show_values-int (w ∷ []) ne = refl
  show_values-int (w ∷ x ∷ ws) ne =
      ap (λ t. decimal w ++ b',' ∷ t) (show_values-int (x ∷ ws) (λ e. cc))
      ∙ sym (append_assoc (decimal w) (b',' ∷ words_text (x ∷ ws)) (b';' ∷ []))

  -- One variable, whether its words were read or not.
  joined :
      (v : ClientVar) (sv : DspVar) (s' : node.State) (o : Option (List ℕ))
      (q : node.State × Option (List ClientVar))
      → sv.name ≡ client.to_upper v.name
      → sv.data_type ≡ dsp_data_type_int
      → ((ws : List ℕ) → o ≡ some ws → ws ≢ [])
      → with_entry lib node var_hash (paired lib node var_hash sv (s', o)) (answered client node q)
        ≡ answered client node (with_words v (s', o) q)
  unfolding with_entry paired
  joined v sv s' none q same int filled = refl
  joined v sv s' (some ws) (s'', none) same int filled = refl
  joined v sv s' (some ws) (s'', some us) same int filled =
      let rest = terminated b';' (entries_of client us) in
      let shown : show_values lib node var_hash sv.data_type ws ≡ words_text ws ++ b';' ∷ [] =
        ap (λ type. show_values lib node var_hash type ws) int
        ∙ show_values-int ws (filled ws refl) in
      unfold terminated in
      ap (λ t. (s'', some t))
        (entry_text sv.name (client.to_upper v.name) (show_values lib node var_hash sv.data_type ws)
          (words_text ws) rest same shown)

  read_one_dsp_var-served :
      (v : ClientVar) (s : node.State) (h : IsReadable client lib var_hash address v)
      → let r = read_words node (address v.name) (length v.values) s in
        read_one_dsp_var lib node var_hash (v.name ++ b',' ∷ decimal (length v.values)) s
        ≡ paired lib node var_hash h.server_var r
  unfolding read_one_dsp_var join
  read_one_dsp_var-served v s h =
      let n = length v.values in
      let parts : skip_empty (split b',' (v.name ++ b',' ∷ decimal n)) ≡ v.name ∷ decimal n ∷ [] =
        split-join b',' (v.name ∷ decimal n ∷ [])
          (h.named, h.no_comma, (decimal_not_nil n, Free-decimal_above b',' n (omega arith), tt)) in
      ap (λ l. read_name_and_count lib node var_hash l s) parts
      ∙ unfold read_name_and_count in
        rw (h.found, counts n h.countable)
          (read_counted-pos h.server_var n s h.filled
            ∙ ap (λ a. paired lib node var_hash h.server_var (read_words node a n s)) h.addressed)

  not_empty :
      (v : ClientVar) (s : node.State)
      → 0 < length v.values
      → (ws : List ℕ) → (read_words node (address v.name) (length v.values) s).1 ≡ some ws
      → (length ws ≡ length v.values) × AreWords ws × (ws ≢ [])
  not_empty v s positive ws e = by_found (node.lseek (address v.name) s).1 e
    where
      by_found :
          (b : Bool)
          → (if b
              then node.read (length v.values) (node.lseek (address v.name) s).0
              else ((node.lseek (address v.name) s).0, none)).1
            ≡ some ws
          → (length ws ≡ length v.values) × AreWords ws × (ws ≢ [])
      by_found true e =
          let (many, words) = gives (length v.values) (node.lseek (address v.name) s).0 ws e in
          (many, words, λ f. absurd (omega (arith, many, ap length f)))
      by_found false e = cc

  paired-state :
      (sv : DspVar) (r : node.State × Option (List ℕ)) → (paired lib node var_hash sv r).0 ≡ r.0
  unfolding paired
  paired-state sv (s, none) = refl
  paired-state sv (s, some ws) = refl

  pub read_entries-served :
      (vs : List ClientVar) (s : node.State)
      → AreReadable client lib var_hash address vs
      → read_entries lib node var_hash (requests_of vs) s
        ≡ answered client node (read_each node address vs s)
  unfolding read_entries
  read_entries-served [] s h = unfold terminated in refl
  read_entries-served (v ∷ vs) s h =
      let one = read_words node (address v.name) (length v.values) s in
      ap (λ o. with_entry lib node var_hash o (read_entries lib node var_hash (requests_of vs) o.0))
        (read_one_dsp_var-served v s h.0)
      ∙ ap
          (λ t.
            with_entry lib node var_hash (paired lib node var_hash h.0.server_var one)
              (read_entries lib node var_hash (requests_of vs) t))
          (paired-state h.0.server_var one)
      ∙ ap (with_entry lib node var_hash (paired lib node var_hash h.0.server_var one))
          (read_entries-served vs one.0 h.1)
      ∙ joined v h.0.server_var one.0 one.1 (read_each node address vs one.0) h.0.same_name
          h.0.same_type (λ ws e. (not_empty v s h.0.filled ws e).2)

  pub read_each-AreReadOf :
      (vs us : List ClientVar) (s : node.State)
      → AreReadable client lib var_hash address vs
      → (read_each node address vs s).1 ≡ some us
      → AreReadOf vs us
  read_each-AreReadOf [] us s h e = let nil : [] ≡ us = cc in subst (AreReadOf []) nil tt
  read_each-AreReadOf (v ∷ vs) us s h e =
      let one = read_words node (address v.name) (length v.values) s in
      by_results (λ rest f. read_each-AreReadOf vs rest one.0 h.1 f) one.1
        (read_each node address vs one.0).1 refl refl e
    where
      by_results :
          ((rest : List ClientVar)
            → (read_each node address vs (read_words node (address v.name) (length v.values) s).0).1
              ≡ some rest
            → AreReadOf vs rest)
          → (o : Option (List ℕ)) (q : Option (List ClientVar))
          → (read_words node (address v.name) (length v.values) s).1 ≡ o
          → (read_each node address vs (read_words node (address v.name) (length v.values) s).0).1
            ≡ q
          → (with_words v
              ((read_words node (address v.name) (length v.values) s).0, o)
              (
                (read_each node address vs
                    (read_words node (address v.name) (length v.values) s).0).0,
                q,
              )).1
            ≡ some us
          → AreReadOf (v ∷ vs) us
      by_results go none q a b e = cc
      by_results go (some ws) none a b e = cc
      by_results go (some ws) (some rest) a b e =
          let (many, words, filled) = not_empty v s h.0.filled ws a in
          let us' : record v { values = ws } ∷ rest ≡ us = cc in
          subst (AreReadOf (v ∷ vs)) us' (
            record { same = refl; as_many = many; not_empty = filled; are_words = words },
            go rest b,
          )
