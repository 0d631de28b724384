-- ===== src/Tests/DspVars.antt =====
-- Variables of a client that are written to a device and read from it.
use zenux_services.Prelude.{
  ◌≤◌, ◌⊎◌, inr, ltb, ◌<◌, length, subst, suc, zero, ℕ, ◌≡◌, refl, ap, true, none, some, List, [],
  ◌∷◌, arith, inl, Option, ◌^◌, if◌then◌else◌,
}
use zenux_services.Prelude.Int.{ℤ, pos}
use zenux_services.Prelude.Text.{
  decimal, Text, codes, value_from, value_from-decimal, lookup, split, skip_empty, remove_char,
  eq_text,
}
use zenux_services.Dsp.Layout.{DspVar, dsp_data_type_int, module_local}
use zenux_services.Dsp.Resolver.{
  NumberLib, get_dsp_var, get_var_address, first_summand, at_offset, calc_var_offset, offset_behind,
  starts_with,
}
use zenux_services.Dsp.DeviceInOut.{
  ValueLib, DeviceNode, get_var_type, type_of, write_dsp_vars, read_dsp_var_list,
}
use zenux_services.Dsp.DeviceInOut.Written.{
  AreWords, AreServed, ReadsWords, write_dsp_vars-write_command,
}
use zenux_services.Client.VarGroup.{
  GroupLib, VarGroup, ClientVar, write_command, zeros, set_var_data, var_list_short,
}
use zenux_services.Client.VarGroup.Stored.{AreNew}
use zenux_services.Dsp.DeviceInOut.Served.{AreReadable, GivesWords, read_each}
use zenux_services.Dsp.DeviceInOut.ReadBack.{set_var_data-read_dsp_var_list}

-- As `toInt`, none above 2 ^ 31 - 1; and as `toUInt`, 0 above 2 ^ 32 - 1.
abbrev bounded_int : Text → Option ℤ
bounded_int s = let n = value_from 0 s in if ltb n (2 ^ 31) then some (pos n) else none

abbrev bounded_uint : Text → ℕ
bounded_uint s = let n = value_from 0 s in if ltb n (2 ^ 32) then n else 0

bounded_int-decimal : (n : ℕ) → n < 2 ^ 31 → bounded_int (decimal n) ≡ some (pos n)
bounded_int-decimal n h = rw (value_from-decimal n) (ground arith)

bounded_int-above : (n : ℕ) → 2 ^ 31 ≤ n → bounded_int (decimal n) ≡ none
bounded_int-above n h = rw (value_from-decimal n) (ground arith)

bounded_uint-decimal : (n : ℕ) → n < 2 ^ 32 → bounded_uint (decimal n) ≡ n
bounded_uint-decimal n h = rw (value_from-decimal n) (ground arith)

abbrev number_lib : NumberLib
number_lib = record { to_upper = λ s. s; to_int_10 = bounded_int; to_int_16 = λ s. none }

abbrev pub value_lib : ValueLib
value_lib = record {
  numbers = number_lib;
  to_long = bounded_int;
  to_ulong = λ s. some (bounded_uint s);
  to_float = λ s. none;
  show_float = λ w. [];
}

abbrev group_lib : GroupLib
group_lib = record {
  to_upper = λ s. s;
  to_uint = bounded_uint;
  to_float = λ s. 0;
  show_float = λ w. [];
}

-- The device keeps the last address and what was written.
abbrev recorder : DeviceNode
recorder = record {
  State = List (ℕ × List ℕ);
  lseek = λ adr s. (s, true);
  read = λ n s. (s, some (0 ∷ []));
  write = λ adr ws s. ((adr, ws) ∷ s, true);
}

abbrev server_a : DspVar
server_a = record {
  name = codes "A";
  size = 2;
  segment = module_local;
  absolute_address = 0x20;
  data_type = dsp_data_type_int;
  offset_to_module_base = 0;
}

abbrev server_vars : List (Text × DspVar)
server_vars = (codes "A", server_a) ∷ []

abbrev group_a : VarGroup
group_a = record {
  group_name = codes "G";
  vars =
      record {
        name = codes "A";
        segment = module_local;
        data_type = dsp_data_type_int;
        values = 7 ∷ 0xFFFFFFFF ∷ [];
      }
      ∷ [];
}

value_lib-ReadsWords : ReadsWords value_lib
value_lib-ReadsWords n h =
    let sides : (n < 2 ^ 31) ⊎ (2 ^ 31 ≤ n) = omega arith in
    elim sides [
      | inl low ↦ inl (bounded_int-decimal n low)
      | inr high ↦ inr (bounded_int-above n high, ap (λ m. some m) (bounded_uint-decimal n h))
    ]

group_a-AreServed : AreServed value_lib server_vars (λ name. 0x20) group_a.vars
unfolding get_var_type type_of get_dsp_var get_var_address first_summand lookup split skip_empty
    remove_char at_offset calc_var_offset offset_behind starts_with eq_text
group_a-AreServed = (
  record {
    is_integer = refl;
    same_type = refl;
    addressed = refl;
    named = λ e. cc;
    no_comma = (λ e. ground arith, tt);
    no_semicolon = (λ e. ground arith, tt);
    filled = λ e. cc;
    are_words = (ground arith, (ground arith, tt));
  },
  tt,
)

write_dsp_vars-write_command_example :
    write_dsp_vars value_lib recorder server_vars (write_command group_lib group_a) []
    ≡ ((0x20, 7 ∷ 0xFFFFFFFF ∷ []) ∷ [], true)
write_dsp_vars-write_command_example =
    write_dsp_vars-write_command group_lib value_lib server_vars (λ name. 0x20) value_lib-ReadsWords
      recorder group_a [] group_a-AreServed

-- A device that gives as many zeros as are asked for.
abbrev zero_node : DeviceNode
zero_node = record {
  State = List ℕ;
  lseek = λ adr s. (adr ∷ s, true);
  read = λ n s. (s, some (zeros n));
  write = λ adr ws s. (s, true);
}

zeros-AreWords : (n : ℕ) → (length (zeros n) ≡ n) × AreWords (zeros n)
unfolding zeros
zeros-AreWords zero = (refl, tt)
zeros-AreWords (suc n) =
    let (many, words) = zeros-AreWords n in (ground (arith, many), (ground arith, words))

zero_node-GivesWords : GivesWords zero_node
zero_node-GivesWords n s ws e =
    let same : zeros n ≡ ws = cc in subst (λ l. (length l ≡ n) × AreWords l) same (zeros-AreWords n)

group_a-AreReadable : AreReadable group_lib value_lib server_vars (λ name. 0x20) group_a.vars
unfolding get_dsp_var first_summand lookup split skip_empty remove_char eq_text
group_a-AreReadable = (
  record {
    is_integer = refl;
    server_var = server_a;
    found = refl;
    same_name = refl;
    same_type = refl;
    addressed = refl;
    named = λ e. cc;
    no_comma = (λ e. ground arith, tt);
    no_semicolon = (λ e. ground arith, tt);
    filled = ground arith;
    countable = ground arith;
  },
  tt,
)

group_a-AreNew : AreNew group_lib [] group_a.vars
group_a-AreNew =
    (record { no_colon = (λ e. ground arith, tt); no_semicolon = (λ e. ground arith, tt) }, tt, tt)

set_var_data-read_dsp_var_list_example :
    let answer = read_dsp_var_list value_lib zero_node server_vars (var_list_short 0 group_a) [] in
    let read = read_each zero_node (λ name. 0x20) group_a.vars [] in
    (answer.0 ≡ read.0)
    × ((us : List ClientVar)
        → read.1 ≡ some us
        → set_var_data group_lib answer.1 group_a ≡ some (record group_a { vars = us }))
    × (read.1 ≡ none → answer.1 ≡ codes "errexec")
set_var_data-read_dsp_var_list_example =
    set_var_data-read_dsp_var_list group_lib value_lib server_vars (λ name. 0x20)
      bounded_uint-decimal bounded_int-decimal zero_node zero_node-GivesWords group_a []
      group_a-AreReadable group_a-AreNew
