-- ===== src/Client/Pcb/Receive.antt =====
-- A call of the PCB interface and its answer, `receiveAnswer` of pcbinterface_p.cpp.
use zenux_services.Prelude.{ℕ, ◌-◌, ◌^◌, ◌<◌, ◌≡◌, refl, ap, ◌∙◌, Option, none, some, List}
use zenux_services.Prelude.Maps.{find_key}
use zenux_services.Prelude.Text.{Text}
use zenux_services.Client.Messages.{
  next_msg_nr, Reply, NetMessage, AnswerDecoded, text_or_empty, decode_protobuff_answer, Session,
  send, Event, run, requests, Unanswered, Pending,
}
use zenux_services.Client.Matching.{decode_protobuff_answer_lem, answer_of}
use zenux_services.Client.Pcb.Commands.{pcb_number, pcbinterrupt, pcb_command-pcb_number}
use zenux_services.Client.Pcb.Calls.{PcbCall, pcb_request}
use zenux_services.Client.Pcb.Answers.{VariantLib, convert, answer_for, emitted, receive_answer}
use zenux_services.Client.Pcb.Declared.{answered_as, conversion-pcb_request}

-- A call: the request is sent, and its command is kept under the number of the message.
unfoldable pub call : {D : Type 0} → (D → Text) → PcbCall D → Session → Session
call show c s = send (pcb_number (pcb_request show c).kind) s

-- The number that an interrupt is taken for.
abbrev pub interrupt : Option ℕ
interrupt = some (pcb_number pcbinterrupt)

module _ {D : Type 0} (lib : VariantLib D) where
  receive_answer-decoded :
      (m : NetMessage) (list : Pending) (a : AnswerDecoded)
      → (decode_protobuff_answer interrupt m list).1 ≡ some a
      → (receive_answer lib m list).1 ≡ emitted lib (some a)
  unfolding receive_answer
  receive_answer-decoded m list a e = ap (emitted lib) e

  emitted-call :
      (show : D → Text) (c : PcbCall D) (nr : ℕ) (r : Reply)
      → emitted lib (some (answer_of nr (pcb_number (pcb_request show c).kind) r))
        ≡ some (record {
          number = nr;
          reply_kind = r.rtype;
          answer = convert lib (answered_as c) (text_or_empty r.body);
        })
  unfolding emitted answer_for
  emitted-call show c nr r =
      rw (pcb_command-pcb_number (pcb_request show c).kind, conversion-pcb_request show c) refl

-- The answer to a call is passed to the client with the number of the call, the type of the reply, and its text
-- as a value: of the kind that the comment in pcbinterface.h names, but a double for getADCRejection, whose
-- comment names an int; and where no comment names a kind, an int for getAuthorizationStatus,
-- getAccumulatorStatus and getAccuStateOfCharge, and else a text. Other calls and messages may come in
-- between, with fewer than 2 ^ 32 - 1 requests in the process, and none of these messages may carry
-- the number. Then the call waits for no more answers.
pub receive_answer_lem :
    {D : Type 0} (lib : VariantLib D) (show : D → Text) (c : PcbCall D) (es : List Event)
    (s : Session) (m : NetMessage) (r : Reply)
    → requests es < 2 ^ 32 - 1
    → let nr = next_msg_nr s.msg_nr in
      Unanswered nr es
      → m.message_nr ≡ nr
      → m.reply ≡ some r
      → let received = receive_answer lib m (run interrupt es (call show c s)).pending in
        (received.1
          ≡ some (record {
            number = nr;
            reply_kind = r.rtype;
            answer = convert lib (answered_as c) (text_or_empty r.body);
          }))
        × (find_key nr received.0 ≡ none)
unfolding receive_answer call
receive_answer_lem lib show c es s m r room quiet e f =
    let nr = next_msg_nr s.msg_nr in
    let cmd = pcb_number (pcb_request show c).kind in
    let (decoded, gone) = decode_protobuff_answer_lem interrupt cmd es s m r room quiet e f in
    (
      receive_answer-decoded lib m (run interrupt es (send cmd s)).pending (answer_of nr cmd r)
            decoded
          ∙ emitted-call lib show c nr r,
      gone,
    )
