-- ===== src/Client/Messages.antt =====
-- Requests and answers: `NotZeroNumGen` (zenux-service-common/lib/notzeronumgen.cpp) and
-- `cInterfacePrivate` (zenux-service-interfaces/lib/interface_p.cpp).
use zenux_services.Prelude.{
  ℕ, suc, ◌+◌, ◌%◌, ◌^◌, ◌≢◌, Option, none, some, List, [], ◌∷◌, ◌==◌, if◌then◌else◌,
}
use zenux_services.Prelude.Maps.{find_key, put_key, remove_key}
use zenux_services.Prelude.Text.{Text}

-- `getMsgNrFromObject` counts up in 32 bits and skips 0.
unfoldable pub next_msg_nr : ℕ → ℕ
next_msg_nr msg_nr =
    let next = (msg_nr + 1) % 2 ^ 32 in if next == 0 then (next + 1) % 2 ^ 32 else next

-- `NetMessage`, as an answer: its number, and the reply with its type and body, where it has one.
pub record Reply : Type 0 where
  pub rtype : ℕ
  pub body : Option Text

pub record NetMessage : Type 0 where
  pub message_nr : ℕ
  pub reply : Option Reply

-- `TAnswerDecoded`.
pub record AnswerDecoded : Type 0 where
  pub msg_nr : ℕ
  pub msg_body : Text
  pub reply_type : ℕ
  pub cmd_send_enum_val : ℕ

-- An interface: `m_MsgNrCmdList`, from the numbers of requests to the commands that were sent.
abbrev pub Pending : Type 0
Pending = List (ℕ × ℕ)

-- The value that `take` returns, which is 0 for a number that is not in the hash.
unfoldable pub taken : Option ℕ → ℕ
taken none = 0
taken (some cmd) = cmd

abbrev pub text_or_empty : Option Text → Text
text_or_empty none = []
text_or_empty (some t) = t

-- The command of an answer: an interrupt has the number 0, if the interface knows interrupts.
unfoldable pub take_cmd : Option ℕ → ℕ → Pending → Pending × ℕ
take_cmd none nr list = (remove_key nr list, taken (find_key nr list))
take_cmd (some interrupt) nr list =
    if nr == 0 then (list, interrupt) else (remove_key nr list, taken (find_key nr list))

-- `decodeProtobuffAnswer`; without a reply there is no answer.
unfoldable pub decode_reply : Option ℕ → ℕ → Option Reply → Pending → Pending × Option AnswerDecoded
decode_reply interrupt nr none list = (list, none)
decode_reply interrupt nr (some r) list =
    let (list', cmd) = take_cmd interrupt nr list in
    (
      list',
      some (record {
        msg_nr = nr;
        msg_body = text_or_empty r.body;
        reply_type = r.rtype;
        cmd_send_enum_val = cmd;
      }),
    )

unfoldable pub decode_protobuff_answer :
    Option ℕ → NetMessage → Pending → Pending × Option AnswerDecoded
decode_protobuff_answer interrupt message list =
    decode_reply interrupt message.message_nr message.reply list

-- The counter of the process, and the pending requests of one interface.
pub record Session : Type 0 where
  pub msg_nr : ℕ
  pub pending : Pending

-- `msgnr = sendCommand(...); m_MsgNrCmdList[msgnr] = cmd;`, as every call of an interface has it.
unfoldable pub send : ℕ → Session → Session
send cmd s =
    let nr = next_msg_nr s.msg_nr in record { msg_nr = nr; pending = put_key nr cmd s.pending }

-- What happens in a process: this interface sends a request or gets a message, or another interface,
-- which shares the counter, sends one.
pub data Event : Type 0 where
  sent : ℕ → Event
  received : NetMessage → Event
  sent_elsewhere : Event

unfoldable pub step : Option ℕ → Event → Session → Session
step interrupt (sent cmd) s = send cmd s
step interrupt (received message) s = record s {
  pending = (decode_protobuff_answer interrupt message s.pending).0;
}
step interrupt sent_elsewhere s = record s { msg_nr = next_msg_nr s.msg_nr }

unfoldable pub run : Option ℕ → List Event → Session → Session
run interrupt [] s = s
run interrupt (e ∷ es) s = run interrupt es (step interrupt e s)

-- The requests of a sequence of events.
abbrev pub requests : List Event → ℕ
requests [] = 0
requests (sent cmd ∷ es) = suc (requests es)
requests (received message ∷ es) = requests es
requests (sent_elsewhere ∷ es) = suc (requests es)

-- No message has the number `nr`.
abbrev pub Unanswered : ℕ → List Event → Type 0
Unanswered nr [] = Unit
Unanswered nr (sent cmd ∷ es) = Unanswered nr es
Unanswered nr (received message ∷ es) = (message.message_nr ≢ nr) × Unanswered nr es
Unanswered nr (sent_elsewhere ∷ es) = Unanswered nr es
