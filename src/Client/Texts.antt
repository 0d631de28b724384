-- ===== src/Client/Texts.antt =====
-- Interfaces that pass every answer on as a text, as `receiveAnswer` of
-- zenux-service-interfaces/lib/secinterface_p.cpp and rminterface_p.cpp.
use zenux_services.Prelude.{
  ℕ, ◌-◌, ◌^◌, ◌<◌, ◌≡◌, refl, ap, ◌∙◌, Bool, true, false, ◌||◌, Option, none, some, List, [], ◌∷◌,
  ◌==◌, if◌then◌else◌,
}
use zenux_services.Prelude.Maps.{find_key}
use zenux_services.Prelude.Text.{Text}
use zenux_services.Client.Messages.{
  next_msg_nr, Reply, NetMessage, AnswerDecoded, text_or_empty, decode_protobuff_answer, send,
  Session, Event, run, requests, Unanswered, Pending,
}
use zenux_services.Client.Matching.{decode_protobuff_answer_lem, answer_of}

abbrev pub is_among : ℕ → List ℕ → Bool
is_among n [] = false
is_among n (k ∷ ks) = n == k || is_among n ks

-- The arguments of the signal `serverAnswer`.
pub record TextAnswer : Type 0 where
  pub number : ℕ
  pub reply_kind : ℕ
  pub answer : Text

abbrev pub text_answer_of : ℕ → Reply → TextAnswer
text_answer_of nr r = record { number = nr; reply_kind = r.rtype; answer = text_or_empty r.body }

-- The `switch`: `is_label` tells which commands have a label, all with the same branch.
unfoldable pub text_emitted : (ℕ → Bool) → Option AnswerDecoded → Option TextAnswer
text_emitted is_label none = none
text_emitted is_label (some a) =
    if is_label a.cmd_send_enum_val
    then some (record { number = a.msg_nr; reply_kind = a.reply_type; answer = a.msg_body })
    else none

-- No message is taken for an interrupt.
unfoldable pub receive_text_answer : (ℕ → Bool) → NetMessage → Pending → Pending × Option TextAnswer
receive_text_answer is_label message pending =
    let (pending', decoded) = decode_protobuff_answer none message pending in
    (pending', text_emitted is_label decoded)

text_emitted-answer_of :
    (is_label : ℕ → Bool) (cmd nr : ℕ) (r : Reply)
    → is_label cmd ≡ true
    → text_emitted is_label (some (answer_of nr cmd r)) ≡ some (text_answer_of nr r)
unfolding text_emitted
text_emitted-answer_of is_label cmd nr r e = rw e refl

-- A request whose command has a label is answered by its text.
pub receive_text_answer_lem :
    (is_label : ℕ → Bool) (cmd : ℕ)
    → is_label cmd ≡ true
    → (es : List Event) (s : Session) (m : NetMessage) (r : Reply) → requests es < 2 ^ 32 - 1
    → let nr = next_msg_nr s.msg_nr in
      Unanswered nr es
      → m.message_nr ≡ nr
      → m.reply ≡ some r
      → let received = receive_text_answer is_label m (run none es (send cmd s)).pending in
        (received.1 ≡ some (text_answer_of nr r)) × (find_key nr received.0 ≡ none)
unfolding receive_text_answer
receive_text_answer_lem is_label cmd label es s m r room quiet e f =
    let (decoded, gone) = decode_protobuff_answer_lem none cmd es s m r room quiet e f in
    (
      ap (text_emitted is_label) decoded
          ∙ text_emitted-answer_of is_label cmd (next_msg_nr s.msg_nr) r label,
      gone,
    )
