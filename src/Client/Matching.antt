-- ===== src/Client/Matching.antt =====
-- The requests of `cInterfacePrivate` that are still open, and the answers that arrive among others.
use zenux_services.Prelude.{
  ℕ, ◌+◌, ◌-◌, ◌^◌, ◌<◌, ◌≤◌, ◌≡◌, ◌≢◌, refl, ap, ◌∙◌, false, Option, none, some, List, [], ◌∷◌,
  arith, ◌==◌, leb, if◌then◌else◌,
}
use zenux_services.Prelude.Maps.{find_key, find_key-put_key, find_key-remove_key}
use zenux_services.Client.Messages.{
  next_msg_nr, Reply, NetMessage, AnswerDecoded, Pending, taken, text_or_empty, take_cmd,
  decode_reply, decode_protobuff_answer, Session, send, Event, sent, received, sent_elsewhere, step,
  run, requests, Unanswered,
}

-- The numbers are 1 to this one.
abbrev last_nr : ℕ
last_nr = 2 ^ 32 - 1

-- The number `j` requests after `nr`.
shift : ℕ → ℕ → ℕ
shift nr j = if leb (nr + j) last_nr then nr + j else nr + j - last_nr

next-shift :
    (nr j : ℕ)
    → 0 < nr
    → nr ≤ last_nr
    → j + 1 < last_nr
    → next_msg_nr (shift nr j) ≡ shift nr (j + 1)
unfolding next_msg_nr shift
next-shift nr j pos most low = ground arith

shift-ne : (nr j : ℕ) → 0 < nr → nr ≤ last_nr → j + 1 < last_nr → shift nr (j + 1) ≢ nr
unfolding shift
shift-ne nr j pos most low e = ground arith

next_msg_nr_bounds : (n : ℕ) → (0 < next_msg_nr n) × (next_msg_nr n ≤ last_nr)
unfolding next_msg_nr
next_msg_nr_bounds n = (ground arith, ground arith)

-- A message with another number leaves the entry.
find_key-decode :
    (interrupt : Option ℕ) (m : NetMessage) (nr : ℕ) (list : Pending)
    → m.message_nr ≢ nr
    → find_key nr (decode_protobuff_answer interrupt m list).0 ≡ find_key nr list
unfolding decode_protobuff_answer
find_key-decode interrupt m nr list ne = by_reply interrupt m.message_nr m.reply ne
  where
    by_reply :
        (interrupt : Option ℕ) (other : ℕ) (r : Option Reply)
        → other ≢ nr
        → find_key nr (decode_reply interrupt other r list).0 ≡ find_key nr list
    by_reply interrupt other none ne = unfold decode_reply in refl
    by_reply none other (some r) ne =
        unfold decode_reply take_cmd in ground (arith, find_key-remove_key other nr list)
    by_reply (some i) other (some r) ne =
        unfold decode_reply take_cmd in ground (arith, find_key-remove_key other nr list)

-- The answer that a pending request gets.
abbrev pub answer_of : ℕ → ℕ → Reply → AnswerDecoded
answer_of nr cmd r = record {
  msg_nr = nr;
  msg_body = text_or_empty r.body;
  reply_type = r.rtype;
  cmd_send_enum_val = cmd;
}

decode_reply_lem :
    (interrupt : Option ℕ) (nr cmd : ℕ) (list : Pending) (r : Reply)
    → 0 < nr
    → find_key nr list ≡ some cmd
    → ((decode_reply interrupt nr (some r) list).1 ≡ some (answer_of nr cmd r))
      × (find_key nr (decode_reply interrupt nr (some r) list).0 ≡ none)
unfolding decode_reply take_cmd taken
decode_reply_lem none nr cmd list r pos there =
    (rw there refl, find_key-remove_key nr nr list ∙ ground arith)
decode_reply_lem (some i) nr cmd list r pos there =
    let not_zero : (nr == 0) ≡ false = ground arith in
    (rw (not_zero, there) refl, rw not_zero (find_key-remove_key nr nr list ∙ ground arith))

module _ (interrupt : Option ℕ) (nr cmd : ℕ) (pos : 0 < nr) (most : nr ≤ last_nr) where
  -- An entry stays while its number is not given again and no message carries it.
  waits :
      (es : List Event) (j : ℕ) (s : Session)
      → s.msg_nr ≡ shift nr j
      → j + requests es < last_nr
      → Unanswered nr es
      → find_key nr s.pending ≡ some cmd
      → find_key nr (run interrupt es s).pending ≡ some cmd
  unfolding run step send
  waits [] j s at room quiet there = there
  waits (sent c ∷ es) j s at room quiet there =
      let next : next_msg_nr s.msg_nr ≡ shift nr (j + 1) =
        ap next_msg_nr at ∙ next-shift nr j pos most (omega arith) in
      let other = shift-ne nr j pos most (omega arith) in
      waits es (j + 1) (send c s) next (omega arith) quiet
        (find_key-put_key (next_msg_nr s.msg_nr) nr c s.pending ∙ ground (arith, there))
  waits (received m ∷ es) j s at room quiet there =
      waits es j (step interrupt (received m) s) at room quiet.1
        (find_key-decode interrupt m nr s.pending quiet.0 ∙ there)
  waits (sent_elsewhere ∷ es) j s at room quiet there =
      let next : next_msg_nr s.msg_nr ≡ shift nr (j + 1) =
        ap next_msg_nr at ∙ next-shift nr j pos most (omega arith) in
      waits es (j + 1) (step interrupt sent_elsewhere s) next (omega arith) quiet there

  decoded :
      (m : NetMessage) (r : Reply) (list : Pending)
      → m.message_nr ≡ nr
      → m.reply ≡ some r
      → find_key nr list ≡ some cmd
      → ((decode_protobuff_answer interrupt m list).1 ≡ some (answer_of nr cmd r))
        × (find_key nr (decode_protobuff_answer interrupt m list).0 ≡ none)
  unfolding decode_protobuff_answer
  decoded m r list e f there = rw (e, f) (decode_reply_lem interrupt nr cmd list r pos there)

-- The answer to a request is decoded with the command that was sent, and with the text and type of the
-- reply, whatever other requests are sent and other messages are received before it; then the request
-- is no longer pending. Fewer than 2 ^ 32 - 1 requests may be sent meanwhile in the process.
pub decode_protobuff_answer_lem :
    (interrupt : Option ℕ) (cmd : ℕ) (es : List Event) (s : Session) (m : NetMessage) (r : Reply)
    → requests es < 2 ^ 32 - 1
    → let nr = next_msg_nr s.msg_nr in
      Unanswered nr es
      → m.message_nr ≡ nr
      → m.reply ≡ some r
      → let answer = decode_protobuff_answer interrupt m (run interrupt es (send cmd s)).pending in
        (answer.1 ≡ some (answer_of nr cmd r)) × (find_key nr answer.0 ≡ none)
unfolding send
decode_protobuff_answer_lem interrupt cmd es s m r room quiet e f =
    let nr = next_msg_nr s.msg_nr in
    let (pos, most) = next_msg_nr_bounds s.msg_nr in
    let start : nr ≡ shift nr 0 = unfold shift in ground arith in
    decoded interrupt nr cmd pos most m r (run interrupt es (send cmd s)).pending e f (
      waits interrupt nr cmd pos most es 0 (send cmd s) start (omega arith) quiet
        (find_key-put_key nr nr cmd s.pending ∙ ground arith))
