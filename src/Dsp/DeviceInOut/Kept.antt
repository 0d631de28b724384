-- ===== src/Dsp/DeviceInOut/Kept.antt =====
-- `readOneDspVar` and `writeDspVars` of zdsp1d/lib/dspvardevicenodeinout.cpp on a memory of words.
use zenux_services.Prelude.{
  ap, ◌++◌, ℕ, zero, suc, ◌+◌, ◌<◌, ◌≤◌, ◌^◌, ◌≡◌, ◌⊎◌, inl, inr, refl, sym, subst, ◌∙◌, true,
  Option, none, some, List, [], ◌∷◌, length, arith, Bool-cases, Option-cases,
}
use zenux_services.Prelude.Int.{ℤ, pos, negsuc}
use zenux_services.Prelude.Text.{Text, codes, split, skip_empty}
use zenux_services.Dsp.Layout.{DspVar, DspDataType}
use zenux_services.Dsp.Resolver.{get_dsp_var, get_var_address}
use zenux_services.Dsp.Compiler.{word_of_int}
use zenux_services.Dsp.DeviceInOut.{
  ValueLib, DeviceNode, stream_value, stream_values, get_var_type, write_at, write_entry,
  write_entries, write_dsp_vars, read_var_from_dsp, paired, read_counted, read_name_and_count,
  read_one_dsp_var, first_word, read_one_dsp_var_int,
}

-- The word `b` is not one of the `n` words from `a` on.
abbrev pub Outside : ℕ → ℕ → ℕ → Type 0
Outside a n b = (b < a) ⊎ (a + n ≤ b)

-- The `n` words from `a` on.
abbrev pub words_from : (ℕ → ℕ) → ℕ → ℕ → List ℕ
words_from m zero a = []
words_from m (suc n) a = m a ∷ words_from m n (suc a)

-- What the operations of the device node do to the memory behind it, by words of 32 bits: reading and seeking
-- nothing, writing nothing outside the words that it is given, and all of these if it succeeds.
pub record IsDspMemory (node : DeviceNode) : Type 0 where
  pub word_at : node.State → ℕ → ℕ
  pub lseek_kept : (a : ℕ) (s : node.State) (b : ℕ) → word_at (node.lseek a s).0 b ≡ word_at s b
  pub read_kept : (n : ℕ) (s : node.State) (b : ℕ) → word_at (node.read n s).0 b ≡ word_at s b
  pub write_outside :
      (a : ℕ) (ws : List ℕ) (s : node.State) (b : ℕ)
      → Outside a (length ws) b
      → word_at (node.write a ws s).0 b ≡ word_at s b
  pub write_done :
      (a : ℕ) (ws : List ℕ) (s : node.State)
      → a + length ws ≤ 2 ^ 32
      → (node.write a ws s).1 ≡ true
      → words_from (word_at (node.write a ws s).0) (length ws) a ≡ ws

pub words_from-kept :
    (m m' : ℕ → ℕ) (n a : ℕ)
    → ((b : ℕ) → a ≤ b → b < a + n → m' b ≡ m b)
    → words_from m' n a ≡ words_from m n a
words_from-kept m m' zero a same = refl
words_from-kept m m' (suc n) a same =
    let here = same a (omega arith) (omega arith) in
    let rest = words_from-kept m m' n (suc a) (λ b low high. same b (omega arith) (omega arith)) in
    cc

module _ (lib : ValueLib) (var_hash : List (Text × DspVar)) where
  -- Where a variable is written.
  abbrev pub written_at : Text → ℕ
  written_at name = word_of_int 32 (get_var_address lib.numbers var_hash name)

  length-stream_values :
      (type : DspDataType) (vs : List Text) (ws : List ℕ)
      → stream_values lib type vs ≡ some ws
      → length ws ≡ length vs
  unfolding stream_values
  length-stream_values type [] ws e = ground arith
  length-stream_values type (v ∷ vs) ws e = elim (Option-cases (stream_value lib type v)) [
    | inl bad ↦ absurd (ground (arith, bad))
    | inr (w, one) ↦ elim (Option-cases (stream_values lib type vs)) [
      | inl bad ↦ absurd (ground (arith, bad))
      | inr (us, rest) ↦ let ih = length-stream_values type vs us rest in ground (arith, ih)
    ]
  ]

  -- An entry of a text of variables whose values do not reach the word `b`.
  abbrev pub Spares : ℕ → List Text → Type 0
  Spares b [] = Unit
  Spares b (name ∷ vs) = Outside (written_at name) (length vs) b

  abbrev pub AllSpare : ℕ → List Text → Type 0
  AllSpare b [] = Unit
  AllSpare b (e ∷ es) = Spares b (skip_empty (split b',' e)) × AllSpare b es

  module _ (node : DeviceNode) (memory : IsDspMemory node) where
    open memory use {word_at}

    write_at-kept :
        (adr : ℤ) (ws : List ℕ) (s : node.State) (b : ℕ)
        → Outside (word_of_int 32 adr) (length ws) b
        → word_at (write_at lib node var_hash adr (some ws) s).0 b ≡ word_at s b
    unfolding write_at
    write_at-kept (pos n) ws s b out = memory.write_outside (word_of_int 32 (pos n)) ws s b out
    write_at-kept (negsuc zero) ws s b out = refl
    write_at-kept (negsuc (suc n)) ws s b out =
        memory.write_outside (word_of_int 32 (negsuc (suc n))) ws s b out

    write_at-none : (adr : ℤ) (s : node.State) → (write_at lib node var_hash adr none s).0 ≡ s
    unfolding write_at
    write_at-none (pos n) s = refl
    write_at-none (negsuc zero) s = refl
    write_at-none (negsuc (suc n)) s = refl

    write_entry-kept :
        (e : List Text) (s : node.State) (b : ℕ)
        → Spares b e
        → word_at (write_entry lib node var_hash e s).0 b ≡ word_at s b
    unfolding write_entry
    write_entry-kept [] s b out = refl
    write_entry-kept (name ∷ []) s b out = refl
    write_entry-kept (name ∷ v ∷ vs) s b out =
        let type = get_var_type lib var_hash name in
        let adr = get_var_address lib.numbers var_hash name in
        elim (Option-cases (stream_values lib type (v ∷ vs))) [
          | inl e ↦ rw (e, write_at-none adr s) refl
          | inr (ws, e) ↦
              let same = length-stream_values type (v ∷ vs) ws e in
              rw e (
                write_at-kept adr ws s b
                  (subst (λ n. Outside (word_of_int 32 adr) n b) (sym same) out))
        ]

    write_entries-kept :
        (es : List Text) (s : node.State) (b : ℕ)
        → AllSpare b es
        → word_at (write_entries lib node var_hash es s).0 b ≡ word_at s b
    unfolding write_entries
    write_entries-kept [] s b out = refl
    write_entries-kept (e ∷ es) s b (here, there) =
        let r = write_entry lib node var_hash (skip_empty (split b',' e)) s in
        let one = write_entry-kept (skip_empty (split b',' e)) s b here in
        let rest = write_entries-kept es r.0 b there in
        elim (Bool-cases r.1) [ inl ok ↦ rw ok (rest ∙ one) | inr bad ↦ rw bad one ]

    -- Writing variables changes no word but those of the values, at the addresses of the names.
    pub write_dsp_vars-kept :
        (vars : Text) (s : node.State) (b : ℕ)
        → AllSpare b (skip_empty (split b';' vars))
        → word_at (write_dsp_vars lib node var_hash vars s).0 b ≡ word_at s b
    unfolding write_dsp_vars
    write_dsp_vars-kept vars s b out = write_entries-kept (skip_empty (split b';' vars)) s b out

    read_var_from_dsp-kept :
        (v : DspVar) (n : ℕ) (s : node.State) (b : ℕ)
        → word_at (read_var_from_dsp lib node var_hash v n s).0 b ≡ word_at s b
    unfolding read_var_from_dsp
    read_var_from_dsp-kept v n s b =
        let r = node.lseek v.absolute_address s in
        let sought = memory.lseek_kept v.absolute_address s b in
        elim (Bool-cases r.1) [
          | inl ok ↦ rw ok (memory.read_kept n r.0 b ∙ sought)
          | inr bad ↦ rw bad sought
        ]

    paired-state :
        (v : DspVar) (r : node.State × Option (List ℕ)) → (paired lib node var_hash v r).0 ≡ r.0
    unfolding paired
    paired-state v (s, none) = refl
    paired-state v (s, some ws) = refl

    first_word-state :
        (r : node.State × Option (DspVar × List ℕ)) → (first_word lib node var_hash r).0 ≡ r.0
    unfolding first_word
    first_word-state (s, none) = refl
    first_word-state (s, some (v, [])) = refl
    first_word-state (s, some (v, w ∷ ws)) = refl

    read_counted-kept :
        (o : Option DspVar) (count : Option ℤ) (s : node.State) (b : ℕ)
        → word_at (read_counted lib node var_hash o count s).0 b ≡ word_at s b
    unfolding read_counted
    read_counted-kept none count s b = refl
    read_counted-kept (some v) none s b = refl
    read_counted-kept (some v) (some (negsuc n)) s b = refl
    read_counted-kept (some v) (some (pos zero)) s b = refl
    read_counted-kept (some v) (some (pos (suc n))) s b =
        ap (λ t. word_at t b) (paired-state v (read_var_from_dsp lib node var_hash v (suc n) s))
        ∙ read_var_from_dsp-kept v (suc n) s b

    read_name_and_count-kept :
        (e : List Text) (s : node.State) (b : ℕ)
        → word_at (read_name_and_count lib node var_hash e s).0 b ≡ word_at s b
    unfolding read_name_and_count
    read_name_and_count-kept [] s b = refl
    read_name_and_count-kept (name ∷ []) s b = refl
    read_name_and_count-kept (name ∷ count ∷ rest) s b =
        read_counted-kept (get_dsp_var lib.numbers var_hash name) (lib.numbers.to_int_10 count) s b

    -- Reading a variable changes no word.
    pub read_one_dsp_var_int-kept :
        (name : Text) (s : node.State) (b : ℕ)
        → word_at (read_one_dsp_var_int lib node var_hash name s).0 b ≡ word_at s b
    unfolding read_one_dsp_var_int read_one_dsp_var
    read_one_dsp_var_int-kept name s b =
        let parts = skip_empty (split b',' (name ++ codes ",1")) in
        ap (λ t. word_at t b) (first_word-state (read_name_and_count lib node var_hash parts s))
        ∙ read_name_and_count-kept parts s b
