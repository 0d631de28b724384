-- ===== src/Dsp/DeviceInOut/ReadBack.antt =====
-- The text of `VarListShort` of a client, the answer of `readDspVarList` of the server, and what
-- `setVarData` does with it.
use zenux_services.Prelude.{
  ℕ, ◌^◌, ◌<◌, ◌≡◌, ◌≢◌, refl, sym, ap, subst, ◌∙◌, Option, none, some, List, [], ◌∷◌, ◌++◌, arith,
  length,
}
use zenux_services.Prelude.Int.{pos}
use zenux_services.Prelude.Text.{
  Text, codes, decimal, Free, Free-append, Free-decimal, AreParts, split, skip_empty, terminated,
  split-terminated,
}
use zenux_services.Scpi.{scpi_answer}
use zenux_services.Dsp.Layout.{DspVar}
use zenux_services.Dsp.DeviceInOut.{
  ValueLib, DeviceNode, read_entries, answer_or_errexec, read_dsp_var_list,
}
use zenux_services.Client.VarGroup.{
  GroupLib, ClientVar, VarGroup, short_entries, var_list_short, set_var_data,
}
use zenux_services.Client.VarGroup.Stored.{
  words_text, entries_of, Free-words_text, AreIntegers, AreNew, AreReadOf, set_entries-read,
}
use zenux_services.Dsp.DeviceInOut.Served.{
  requests_of, short_entries_0, answered, read_entries-served, read_each-AreReadOf, AreReadable,
  GivesWords, read_each,
}

not_nil : (s t : Text) (c : ℕ) → s ++ c ∷ t ≢ []
not_nil [] t c e = cc
not_nil (x ∷ s) t c e = cc

requests-AreParts :
    (client : GroupLib) (lib : ValueLib) (var_hash : List (Text × DspVar)) (address : Text → ℕ)
    (vs : List ClientVar)
    → AreReadable client lib var_hash address vs
    → AreParts b';' (requests_of vs)
requests-AreParts client lib var_hash address [] h = tt
requests-AreParts client lib var_hash address (v ∷ vs) h =
    let n = length v.values in
    (
      not_nil v.name (decimal n) b',',
      Free-append b';' v.name (b',' ∷ decimal n) h.0.no_semicolon
          (ground arith, Free-decimal b';' n (omega arith)),
      requests-AreParts client lib var_hash address vs h.1,
    )

AreReadable-AreIntegers :
    (client : GroupLib) (lib : ValueLib) (var_hash : List (Text × DspVar)) (address : Text → ℕ)
    (vs : List ClientVar)
    → AreReadable client lib var_hash address vs
    → AreIntegers vs
AreReadable-AreIntegers client lib var_hash address [] h = tt
AreReadable-AreIntegers client lib var_hash address (v ∷ vs) h =
    (h.0.is_integer, AreReadable-AreIntegers client lib var_hash address vs h.1)

entries-AreParts :
    (client : GroupLib) (ns : List Text) (vs us : List ClientVar)
    → AreReadOf vs us
    → AreNew client ns vs
    → AreParts b';' (entries_of client us)
entries-AreParts client ns [] [] h new = tt
entries-AreParts client ns [] (u ∷ us) h new = absurd h
entries-AreParts client ns (v ∷ vs) [] h new = absurd h
entries-AreParts client ns (v ∷ vs) (u ∷ us) h new =
    let same_name : v.name ≡ u.name = sym (ap (λ i. i.name) h.0.same) in
    let free : Free b';' (client.to_upper u.name) =
      subst (λ n. Free b';' (client.to_upper n)) same_name new.0.no_semicolon in
    (
      not_nil (client.to_upper u.name) (words_text u.values) b':',
      Free-append b';' (client.to_upper u.name) (b':' ∷ words_text u.values) free
          (ground arith, Free-words_text b';' u.values (omega arith)),
      entries-AreParts client (ns ++ client.to_upper v.name ∷ []) vs us h.1 new.2,
    )

module _ (client : GroupLib) (reads : (n : ℕ) → n < 2 ^ 32 → client.to_uint (decimal n) ≡ n) where
  set_var_data-entries :
      (g : VarGroup) (us : List ClientVar)
      → AreReadOf g.vars us
      → AreIntegers g.vars
      → AreNew client [] g.vars
      → set_var_data client (terminated b';' (entries_of client us)) g
        ≡ some (record g { vars = us })
  unfolding set_var_data
  set_var_data-entries g us h ints new =
      rw
        (
          set_var_data,
          split-terminated b';' (entries_of client us) (entries-AreParts client [] g.vars us h new),
        )
        (rw (set_var_data, set_entries-read client reads [] g.vars us [] refl h ints new) refl)

  by_read :
      (lib : ValueLib) (node : DeviceNode) (var_hash : List (Text × DspVar)) (g : VarGroup)
      (r : node.State × Option (List ClientVar))
      → AreIntegers g.vars
      → AreNew client [] g.vars
      → ((us : List ClientVar) → r.1 ≡ some us → AreReadOf g.vars us)
      → ((answered client node r).0 ≡ r.0)
        × ((us : List ClientVar)
            → r.1 ≡ some us
            → set_var_data client (answer_or_errexec lib node var_hash (answered client node r).1) g
              ≡ some (record g { vars = us }))
        × (r.1 ≡ none
            → answer_or_errexec lib node var_hash (answered client node r).1 ≡ codes "errexec")
  unfolding answer_or_errexec scpi_answer
  by_read lib node var_hash g (s, none) ints new all = (refl, λ us f. cc, λ f. refl)
  by_read lib node var_hash g (s, some vs) ints new all = (
    refl,
    λ us f.
        let vs≡us : vs ≡ us = cc in
        subst
          (λ l.
            set_var_data client (terminated b';' (entries_of client vs)) g
            ≡ some (record g { vars = l }))
          vs≡us (set_var_data-entries g vs (all vs refl) ints new),
    λ f. cc,
  )

-- What reading a group of integer variables does, whatever the device answers: the server reads each variable
-- at its address until a read fails. If none fails, its answer sets the variables of the client to the
-- words that were read, and if one fails, the answer is an error. The server has to know the variables
-- as integers, under their names in capitals, which are all different and hold no separator; the
-- server has to read the decimal digits of a number below 2 ^ 31, as the sizes of the variables are, and
-- the client those of a word; and the device gives as many words as are asked for.
pub set_var_data-read_dsp_var_list :
    (client : GroupLib) (lib : ValueLib) (var_hash : List (Text × DspVar)) (address : Text → ℕ)
    → ((n : ℕ) → n < 2 ^ 32 → client.to_uint (decimal n) ≡ n)
    → ((n : ℕ) → n < 2 ^ 31 → lib.numbers.to_int_10 (decimal n) ≡ some (pos n))
    → (node : DeviceNode) → GivesWords node
    → (g : VarGroup) (s : node.State) → AreReadable client lib var_hash address g.vars
    → AreNew client [] g.vars
    → let answer = read_dsp_var_list lib node var_hash (var_list_short 0 g) s in
      let read = read_each node address g.vars s in
      (answer.0 ≡ read.0)
      × ((us : List ClientVar)
          → read.1 ≡ some us
          → set_var_data client answer.1 g ≡ some (record g { vars = us }))
      × (read.1 ≡ none → answer.1 ≡ codes "errexec")
unfolding read_dsp_var_list var_list_short
set_var_data-read_dsp_var_list client lib var_hash address reads counts node gives g s h new =
    let requested : skip_empty (split b';' (terminated b';' (short_entries 0 0 g.vars)))
        ≡ requests_of g.vars =
      ap (λ es. skip_empty (split b';' (terminated b';' es))) (short_entries_0 0 g.vars)
      ∙ split-terminated b';' (requests_of g.vars)
          (requests-AreParts client lib var_hash address g.vars h) in
    let served : read_entries lib node var_hash
          (skip_empty (split b';' (terminated b';' (short_entries 0 0 g.vars)))) s
        ≡ answered client node (read_each node address g.vars s) =
      ap (λ es. read_entries lib node var_hash es s) requested
      ∙ read_entries-served client lib var_hash address counts node gives g.vars s h in
    rw served (
      by_read client reads lib node var_hash g (read_each node address g.vars s)
        (AreReadable-AreIntegers client lib var_hash address g.vars h) new
        (λ us. read_each-AreReadOf client lib var_hash address counts node gives g.vars us s h))
