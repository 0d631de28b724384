-- ===== src/Dsp/DeviceInOut/Written.antt =====
-- The text of `writeCommand` of a client, and what `writeDspVars` of the server does with it.
use mathlib.Core.List.{append-nil}
use zenux_services.Prelude.{
  ℕ, ◌%◌, ◌^◌, ◌<◌, ◌≡◌, ◌≢◌, ◌⊎◌, inl, inr, refl, sym, ap, subst, ◌∙◌, Bool, true, false, none,
  some, List, [], ◌∷◌, ◌++◌, map, arith, if◌then◌else◌,
}
use zenux_services.Prelude.Int.{pos}
use zenux_services.Prelude.Text.{
  Text, decimal, Free, Free-append, Free-decimal, AreParts, AreParts-decimal, join, split,
  skip_empty, split-join, split-terminated,
}
use zenux_services.Dsp.Layout.{DspVar, dsp_data_type_int}
use zenux_services.Dsp.Resolver.{get_var_address}
use zenux_services.Dsp.DeviceInOut.{
  ValueLib, DeviceNode, ulong_value, try_stream_integer_value, stream_value, stream_values,
  get_var_type, write_at, write_entry, write_entries, write_dsp_vars,
}
use zenux_services.Client.VarGroup.{
  GroupLib, ClientVar, VarGroup, is_int, show_word, comma_values, write_parts, write_command,
}

-- The words of a variable have 32 bits.
abbrev pub AreWords : List ℕ → Type 0
AreWords [] = Unit
AreWords (w ∷ ws) = (w < 2 ^ 32) × AreWords ws

-- `toLong` reads what a `long` holds, and `toULong` the rest of the words.
abbrev pub ReadsWords : ValueLib → Type 0
ReadsWords lib =
    (n : ℕ)
    → n < 2 ^ 32
    → (lib.to_long (decimal n) ≡ some (pos n))
      ⊎ ((lib.to_long (decimal n) ≡ none) × (lib.to_ulong (decimal n) ≡ some n))

-- The server knows an integer variable of this name, at an address.
pub record IsServed (lib : ValueLib) (var_hash : List (Text × DspVar)) (address : Text → ℕ)
    (v : ClientVar) : Type 0 where
  pub is_integer : v.data_type ≡ dsp_data_type_int
  pub same_type : get_var_type lib var_hash v.name ≡ dsp_data_type_int
  pub addressed : get_var_address lib.numbers var_hash v.name ≡ pos (address v.name)
  pub named : v.name ≢ []
  pub no_comma : Free b',' v.name
  pub no_semicolon : Free b';' v.name
  pub filled : v.values ≢ []
  pub are_words : AreWords v.values

abbrev pub AreServed : ValueLib → List (Text × DspVar) → (Text → ℕ) → List ClientVar → Type 0
AreServed lib var_hash address [] = Unit
AreServed lib var_hash address (v ∷ vs) =
    IsServed lib var_hash address v × AreServed lib var_hash address vs

-- The variables one after the other, each at its address, up to the first write that fails.
abbrev pub write_each :
    (node : DeviceNode) → (Text → ℕ) → List ClientVar → node.State → node.State × Bool
write_each node address [] s = (s, true)
write_each node address (v ∷ vs) s =
    let (s', written) = node.write (address v.name % 2 ^ 32) v.values s in
    let rest = write_each node address vs s' in if written then rest else (s', false)

module _ (client : GroupLib) where
  join-comma_values :
      (name : Text) (ws : List ℕ)
      → name ++ comma_values client dsp_data_type_int ws ≡ join b',' (name ∷ map decimal ws)
  unfolding comma_values show_word is_int join
  join-comma_values name [] = append-nil name
  join-comma_values name (w ∷ ws) = ap (λ t. name ++ b',' ∷ t) (join-comma_values (decimal w) ws)

  Free-comma_values : (ws : List ℕ) → Free b';' (comma_values client dsp_data_type_int ws)
  unfolding comma_values show_word is_int
  Free-comma_values [] = tt
  Free-comma_values (w ∷ ws) = (
    ground arith,
    Free-append b';' (decimal w) (comma_values client dsp_data_type_int ws)
        (Free-decimal b';' w (omega arith)) (Free-comma_values ws),
  )

  module _ (lib : ValueLib) (var_hash : List (Text × DspVar)) (address : Text → ℕ) where
    entry_text :
        (v : ClientVar)
        → IsServed lib var_hash address v
        → skip_empty (split b',' (v.name ++ comma_values client v.data_type v.values))
          ≡ v.name ∷ map decimal v.values
    entry_text v h =
        ap (λ type. skip_empty (split b',' (v.name ++ comma_values client type v.values)))
          h.is_integer
        ∙ ap (λ t. skip_empty (split b',' t)) (join-comma_values v.name v.values)
        ∙ split-join b',' (v.name ∷ map decimal v.values)
            (h.named, h.no_comma, AreParts-decimal b',' v.values (omega arith))

    entries-AreParts :
        (vs : List ClientVar)
        → AreServed lib var_hash address vs
        → AreParts b';' (write_parts client vs)
    unfolding write_parts
    entries-AreParts [] h = tt
    entries-AreParts (v ∷ vs) h = (
      not_nil v.name (comma_values client v.data_type v.values) h.0.named,
      Free-append b';' v.name (comma_values client v.data_type v.values) h.0.no_semicolon (
          subst (λ type. Free b';' (comma_values client type v.values)) (sym h.0.is_integer)
            (Free-comma_values v.values)),
      entries-AreParts vs h.1,
    )
      where
        not_nil : (s t : Text) → s ≢ [] → s ++ t ≢ []
        not_nil [] t ne = absurd (ne refl)
        not_nil (c ∷ s) t ne = λ e. cc

    module _ (reads : ReadsWords lib) (node : DeviceNode) where
      stream_value-decimal :
          (w : ℕ) → w < 2 ^ 32 → stream_value lib dsp_data_type_int (decimal w) ≡ some w
      unfolding stream_value try_stream_integer_value ulong_value
      stream_value-decimal w small = elim (reads w small) [
        | inl e ↦ rw e (ap (λ n. some n) (ground arith))
        | inr e ↦ rw (e.0, ulong_value, e.1) (ap (λ n. some n) (ground arith))
      ]

      stream_values-decimal :
          (ws : List ℕ)
          → AreWords ws
          → stream_values lib dsp_data_type_int (map decimal ws) ≡ some ws
      unfolding stream_values
      stream_values-decimal [] h = refl
      stream_values-decimal (w ∷ ws) h =
          rw (stream_values, stream_value-decimal w h.0, stream_values-decimal ws h.1) refl

      write_entry-served :
          (v : ClientVar) (ws : List ℕ) (s : node.State)
          → IsServed lib var_hash address v
          → ws ≢ []
          → AreWords ws
          → write_entry lib node var_hash (v.name ∷ map decimal ws) s
            ≡ node.write (address v.name % 2 ^ 32) ws s
      unfolding write_entry
      write_entry-served v [] s h ne words = absurd (ne refl)
      write_entry-served v (w ∷ ws) s h ne words =
          rw (h.addressed, h.same_type, stream_values-decimal (w ∷ ws) words)
            (unfold write_at in refl)

      write_entries-served :
          (vs : List ClientVar) (s : node.State)
          → AreServed lib var_hash address vs
          → write_entries lib node var_hash (write_parts client vs) s ≡ write_each node address vs s
      unfolding write_entries write_parts
      write_entries-served [] s h = refl
      write_entries-served (v ∷ vs) s h =
          rw (entry_text v h.0, write_entry-served v v.values s h.0 h.0.filled h.0.are_words)
            (rw (write_entries-served vs (node.write (address v.name % 2 ^ 32) v.values s).0 h.1)
              refl)

-- The text that a group of integer variables sends has each of them written at its address, one after the
-- other, until a write fails: the words on the device are those of the client. The server has to know the
-- variables as integers and to read the decimal digits of a word, the names hold no comma or
-- semicolon, and no variable is empty.
pub write_dsp_vars-write_command :
    (client : GroupLib) (lib : ValueLib) (var_hash : List (Text × DspVar)) (address : Text → ℕ)
    → ReadsWords lib
    → (node : DeviceNode) (g : VarGroup) (s : node.State) → AreServed lib var_hash address g.vars
    → write_dsp_vars lib node var_hash (write_command client g) s ≡ write_each node address g.vars s
unfolding write_dsp_vars write_command
write_dsp_vars-write_command client lib var_hash address reads node g s h =
    ap (λ es. write_entries lib node var_hash es s)
      (split-terminated b';' (write_parts client g.vars)
        (entries-AreParts client lib var_hash address g.vars h))
    ∙ write_entries-served client lib var_hash address reads node g.vars s h
