-- ===== src/Client/VarGroup/Stored.antt =====
-- The answers that `setVarData` stores: an entry for each variable, its name and its words in decimal digits.
use mathlib.Core.List.{append_assoc}
use zenux_services.Prelude.{
  ℕ, ◌^◌, ◌<◌, ◌≤◌, ◌≡◌, ◌≢◌, refl, sym, ap, subst, ◌∙◌, false, some, List, [], ◌∷◌, ◌++◌, map,
  arith, length,
}
use zenux_services.Prelude.Text.{
  Text, decimal, eq_text, eq_text_refl, Free, Free-append, Free-decimal, AreParts, AreParts-decimal,
  join, split, split-cons, split-Free, remove_char,
}
use zenux_services.Dsp.Layout.{dsp_data_type_int}
use zenux_services.Dsp.DeviceInOut.Written.{AreWords}
use zenux_services.Client.VarGroup.{
  GroupLib, ClientVar, is_int, read_word, overwrite, section, set_var, set_entries,
}

-- The text of a variable's words, and the entry of an answer.
abbrev pub words_text : List ℕ → Text
words_text ws = join b',' (map decimal ws)

abbrev pub entry_of : GroupLib → ClientVar → Text
entry_of client v = client.to_upper v.name ++ b':' ∷ words_text v.values

abbrev pub entries_of : GroupLib → List ClientVar → List Text
entries_of client [] = []
entries_of client (v ∷ vs) = entry_of client v ∷ entries_of client vs

-- The parts of a joined text, where none needs to be skipped.
split-joined :
    (sep : ℕ) (s : Text) (ss : List Text)
    → AreParts sep (s ∷ ss)
    → split sep (join sep (s ∷ ss)) ≡ s ∷ ss
unfolding join
split-joined sep s [] h = split-Free sep s h.1
split-joined sep s (t ∷ ts) h =
    split-cons sep s (join sep (t ∷ ts)) h.1 ∙ ap (λ r. s ∷ r) (split-joined sep t ts h.2)

pub Free-words_text : (sep : ℕ) (ws : List ℕ) → 58 ≤ sep → Free sep (words_text ws)
unfolding join
Free-words_text sep [] h = tt
Free-words_text sep (w ∷ []) h = Free-decimal sep w h
Free-words_text sep (w ∷ x ∷ ws) h =
    Free-append sep (decimal w) (b',' ∷ words_text (x ∷ ws)) (Free-decimal sep w h)
      (ground arith, Free-words_text sep (x ∷ ws) h)

remove_char-Free : (c : ℕ) (s : Text) → Free c s → remove_char c s ≡ s
unfolding remove_char
remove_char-Free c [] h = refl
remove_char-Free c (x ∷ s) h = ground (arith, h.0, remove_char-Free c s h.1)

-- A name that the client looks for in an answer.
pub record IsName (s : Text) : Type 0 where
  pub no_colon : Free b':' s
  pub no_semicolon : Free b';' s

-- A variable that has been read: as before, with words of 32 bits in place of the old ones.
pub record IsReadOf (v u : ClientVar) : Type 0 where
  pub same : u ≡ record v { values = u.values }
  pub as_many : length u.values ≡ length v.values
  pub not_empty : u.values ≢ []
  pub are_words : AreWords u.values

module _ (client : GroupLib) (reads : (n : ℕ) → n < 2 ^ 32 → client.to_uint (decimal n) ≡ n) where
  read_word-decimal : (w : ℕ) → w < 2 ^ 32 → read_word client dsp_data_type_int (decimal w) ≡ w
  unfolding read_word is_int
  read_word-decimal w small =
      ap client.to_uint (remove_char-Free b';' (decimal w) (Free-decimal b';' w (omega arith)))
      ∙ reads w small

  overwrite-decimal :
      (ws old : List ℕ)
      → AreWords ws
      → length ws ≡ length old
      → overwrite client dsp_data_type_int (map decimal ws) old ≡ some ws
  unfolding overwrite
  overwrite-decimal [] [] h e = refl
  overwrite-decimal [] (x ∷ old) h e = absurd (omega (arith))
  overwrite-decimal (w ∷ ws) [] h e = absurd (omega (arith))
  overwrite-decimal (w ∷ ws) (x ∷ old) h e =
      rw (overwrite-decimal ws old h.1 (omega (arith)))
        (ap (λ n. some (n ∷ ws)) (read_word-decimal w h.0))

  -- The entry gives its parts back.
  split-words : (ws : List ℕ) → ws ≢ [] → split b',' (words_text ws) ≡ map decimal ws
  split-words [] ne = absurd (ne refl)
  split-words (w ∷ ws) ne =
      split-joined b',' (decimal w) (map decimal ws) (AreParts-decimal b',' (w ∷ ws) (omega arith))

  split-entry :
      (name : Text) (ws : List ℕ)
      → Free b':' name
      → split b':' (name ++ b':' ∷ words_text ws) ≡ name ∷ words_text ws ∷ []
  split-entry name ws free =
      split-cons b':' name (words_text ws) free
      ∙ ap (λ r. name ∷ r) (split-Free b':' (words_text ws) (Free-words_text b':' ws (omega arith)))

abbrev pub names : GroupLib → List ClientVar → List Text
names client [] = []
names client (v ∷ vs) = client.to_upper v.name ∷ names client vs

-- No text of the list is `name`.
abbrev pub Lack : Text → List Text → Type 0
Lack name [] = Unit
Lack name (n ∷ ns) = (eq_text n name ≡ false) × Lack name ns

-- The names are names of answers, and each differs from those before it.
abbrev pub AreNew : GroupLib → List Text → List ClientVar → Type 0
AreNew client ns [] = Unit
AreNew client ns (v ∷ vs) =
    IsName (client.to_upper v.name)
    × Lack (client.to_upper v.name) ns
    × AreNew client (ns ++ client.to_upper v.name ∷ []) vs

-- Each variable has been read.
abbrev pub AreReadOf : List ClientVar → List ClientVar → Type 0
AreReadOf [] [] = Unit
AreReadOf [] (u ∷ us) = ⊥
AreReadOf (v ∷ vs) [] = ⊥
AreReadOf (v ∷ vs) (u ∷ us) = IsReadOf v u × AreReadOf vs us

abbrev pub AreIntegers : List ClientVar → Type 0
AreIntegers [] = Unit
AreIntegers (v ∷ vs) = (v.data_type ≡ dsp_data_type_int) × AreIntegers vs

names-append :
    (client : GroupLib) (done : List ClientVar) (u : ClientVar)
    → names client (done ++ u ∷ []) ≡ names client done ++ client.to_upper u.name ∷ []
names-append client [] u = refl
names-append client (d ∷ done) u = ap (λ r. client.to_upper d.name ∷ r) (names-append client done u)

set_var-found :
    (client : GroupLib) (texts : List Text) (done rest : List ClientVar) (v : ClientVar)
    (new : List ℕ)
    → Lack (client.to_upper v.name) (names client done)
    → overwrite client v.data_type texts v.values ≡ some new
    → set_var client (client.to_upper v.name) texts (done ++ v ∷ rest)
      ≡ some (done ++ record v { values = new } ∷ rest)
unfolding set_var
set_var-found client texts [] rest v new lack e = rw (eq_text_refl (client.to_upper v.name), e) refl
set_var-found client texts (d ∷ done) rest v new lack e =
    rw (lack.0, set_var-found client texts done rest v new lack.1 e) refl

set_entries-cons :
    (client : GroupLib) (e name values : Text) (es : List Text) (vs new : List ClientVar)
    → split b':' e ≡ name ∷ values ∷ []
    → set_var client name (split b',' values) vs ≡ some new
    → set_entries client (e ∷ es) vs ≡ set_entries client es new
unfolding set_entries section
set_entries-cons client e name values es vs new p q = rw (set_entries, p) (rw (set_entries, q) refl)

module _ (client : GroupLib) (reads : (n : ℕ) → n < 2 ^ 32 → client.to_uint (decimal n) ≡ n) where
  set_var-entry :
      (done rest : List ClientVar) (v u : ClientVar)
      → IsReadOf v u
      → v.data_type ≡ dsp_data_type_int
      → Lack (client.to_upper v.name) (names client done)
      → set_var client
          (client.to_upper v.name)
          (split b',' (words_text u.values))
          (done ++ v ∷ rest)
        ≡ some (done ++ u ∷ rest)
  set_var-entry done rest v u h is_integer lack =
      set_var-found client (split b',' (words_text u.values)) done rest v u.values lack (
        ap (λ texts. overwrite client v.data_type texts v.values)
          (split-words client reads u.values h.not_empty)
        ∙ ap (λ type. overwrite client type (map decimal u.values) v.values) is_integer
        ∙ overwrite-decimal client reads u.values v.values h.are_words h.as_many)
      ∙ ap (λ i. some (done ++ i ∷ rest)) (sym h.same)

  pub set_entries-read :
      (done vs us : List ClientVar) (ns : List Text)
      → names client done ≡ ns
      → AreReadOf vs us
      → AreIntegers vs
      → AreNew client ns vs
      → set_entries client (entries_of client us) (done ++ vs) ≡ some (done ++ us)
  unfolding set_entries
  set_entries-read done [] [] ns e h ints new = refl
  set_entries-read done [] (u ∷ us) ns e h ints new = absurd h
  set_entries-read done (v ∷ vs) [] ns e h ints new = absurd h
  set_entries-read done (v ∷ vs) (u ∷ us) ns e h ints new =
      let same_name : u.name ≡ v.name = ap (λ i. i.name) h.0.same in
      let lack : Lack (client.to_upper v.name) (names client done) =
        subst (Lack (client.to_upper v.name)) (sym e) new.1 in
      let parts : split b':' (entry_of client u)
          ≡ client.to_upper v.name ∷ words_text u.values ∷ [] =
        ap (λ n. split b':' (client.to_upper n ++ b':' ∷ words_text u.values)) same_name
        ∙ split-entry client reads (client.to_upper v.name) u.values new.0.no_colon in
      let names' : names client (done ++ u ∷ []) ≡ ns ++ client.to_upper v.name ∷ [] =
        names-append client done u
        ∙ ap (λ n. names client done ++ client.to_upper n ∷ []) same_name
        ∙ ap (λ l. l ++ client.to_upper v.name ∷ []) e in
      let next : set_entries client (entries_of client us) (done ++ u ∷ vs)
          ≡ some (done ++ u ∷ us) =
        ap (set_entries client (entries_of client us)) (sym (append_assoc done (u ∷ []) vs))
        ∙ set_entries-read (done ++ u ∷ []) vs us (ns ++ client.to_upper v.name ∷ []) names' h.1
            ints.1 new.2
        ∙ ap (λ l. some l) (append_assoc done (u ∷ []) us) in
      set_entries-cons client (entry_of client u) (client.to_upper v.name) (words_text u.values)
        (entries_of client us) (done ++ v ∷ vs) (done ++ u ∷ vs) parts
        (set_var-entry done vs v u h.0 ints.0 lack)
      ∙ next
