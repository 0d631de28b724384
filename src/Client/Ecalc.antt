-- ===== src/Client/Ecalc.antt =====
-- The client of sec1000d: `cSECInterfacePrivate` of zenux-service-interfaces/lib/secinterface_p.cpp. It takes
-- no message for an interrupt. A name that is put into a text is taken to have no `%`.
use zenux_services.Prelude.{
  ℕ, ◌-◌, ◌^◌, ◌<◌, ◌≡◌, refl, Bool, true, Option, none, some, List, [], ◌∷◌, ◌++◌, map,
}
use zenux_services.Prelude.Int.{ℤ}
use zenux_services.Prelude.Maps.{find_key}
use zenux_services.Prelude.Text.{Text, codes, decimal, split}
use zenux_services.Client.Messages.{
  next_msg_nr, Reply, NetMessage, Session, send, Event, run, requests, Unanswered, Pending,
}
use zenux_services.Client.Texts.{
  is_among, TextAnswer, text_answer_of, receive_text_answer, receive_text_answer_lem,
}
use zenux_services.Client.Pcb.Calls.{arg_int}

pub data EcalcCommand : Type 0 where
  setecalcunit freeecalcunit writeregister readregister setsync setmux : EcalcCommand
  setcmdid startecalc stopecalc regnotifier unregnotifier intacknowledge : EcalcCommand
  transparentcommand : EcalcCommand

unfoldable pub ecalc_number : EcalcCommand → ℕ
ecalc_number setecalcunit = 0
ecalc_number freeecalcunit = 1
ecalc_number writeregister = 2
ecalc_number readregister = 3
ecalc_number setsync = 4
ecalc_number setmux = 5
ecalc_number setcmdid = 6
ecalc_number startecalc = 7
ecalc_number stopecalc = 8
ecalc_number regnotifier = 9
ecalc_number unregnotifier = 10
ecalc_number intacknowledge = 11
ecalc_number transparentcommand = 12

abbrev pub ecalc_commands : List EcalcCommand
ecalc_commands =
    setecalcunit ∷ freeecalcunit ∷ writeregister ∷ readregister ∷ setsync ∷ setmux ∷ setcmdid
    ∷ startecalc ∷ stopecalc ∷ regnotifier ∷ unregnotifier ∷ intacknowledge ∷ transparentcommand
    ∷ []

-- The labels of the `switch` of `receiveAnswer`.
unfoldable pub is_ecalc_command : ℕ → Bool
unfolding ecalc_number
is_ecalc_command n = is_among n (map ecalc_number ecalc_commands)

is_ecalc_command-ecalc_number : (c : EcalcCommand) → is_ecalc_command (ecalc_number c) ≡ true
unfolding is_ecalc_command ecalc_number
is_ecalc_command-ecalc_number setecalcunit = refl
is_ecalc_command-ecalc_number freeecalcunit = refl
is_ecalc_command-ecalc_number writeregister = refl
is_ecalc_command-ecalc_number readregister = refl
is_ecalc_command-ecalc_number setsync = refl
is_ecalc_command-ecalc_number setmux = refl
is_ecalc_command-ecalc_number setcmdid = refl
is_ecalc_command-ecalc_number startecalc = refl
is_ecalc_command-ecalc_number stopecalc = refl
is_ecalc_command-ecalc_number regnotifier = refl
is_ecalc_command-ecalc_number unregnotifier = refl
is_ecalc_command-ecalc_number intacknowledge = refl
is_ecalc_command-ecalc_number transparentcommand = refl

-- What is sent, and what is kept until the answer comes.
pub record EcalcRequest : Type 0 where
  pub command : Text
  pub parameter : Option Text
  pub kind : EcalcCommand

abbrev pub ecalc_plain : Text → EcalcCommand → EcalcRequest
ecalc_plain text c = record { command = text; parameter = none; kind = c }

abbrev pub ecalc_with : Text → Text → EcalcCommand → EcalcRequest
ecalc_with text par c = record { command = text; parameter = some par; kind = c }

-- `transparentCommand` sends what is before the first space and what is between it and the second.
unfoldable pub ecalc_transparent : Text → List Text → EcalcRequest
ecalc_transparent cmd (first ∷ second ∷ rest) = ecalc_with first second transparentcommand
ecalc_transparent cmd other = ecalc_plain cmd transparentcommand

pub data EcalcCall : Type 0 where
  set_ecalc_unit : ℤ → EcalcCall
  free_ecalc_units : EcalcCall
  write_register : Text → ℕ → ℕ → EcalcCall
  read_register : Text → ℕ → EcalcCall
  set_sync : Text → Text → EcalcCall
  set_mux : Text → Text → EcalcCall
  set_cmdid : Text → ℕ → EcalcCall
  start : Text → EcalcCall
  stop : Text → EcalcCall
  int_ack : Text → ℕ → EcalcCall
  register_notifier : Text → EcalcCall
  unregister_notifiers : EcalcCall
  transparent_command : Text → EcalcCall

unfoldable pub ecalc_request : EcalcCall → EcalcRequest
ecalc_request (set_ecalc_unit count) =
    ecalc_with (codes "ECAL:SET") (arg_int count ++ codes ";") setecalcunit
ecalc_request free_ecalc_units = ecalc_plain (codes "ECAL:FREE") freeecalcunit
ecalc_request (write_register chn register value) =
    ecalc_with (codes "ECAL:" ++ chn ++ codes ":R" ++ decimal register) (decimal value ++ codes ";")
      writeregister
ecalc_request (read_register chn register) =
    ecalc_plain (codes "ECAL:" ++ chn ++ codes ":R" ++ decimal register ++ codes "?") readregister
ecalc_request (set_sync chn sync_chn) =
    ecalc_with (codes "ECAL:" ++ chn ++ codes ":SYNC") (sync_chn ++ codes ";") setsync
ecalc_request (set_mux chn inp_name) =
    ecalc_with (codes "ECAL:" ++ chn ++ codes ":MUX") (inp_name ++ codes ";") setmux
ecalc_request (set_cmdid chn cmdid) =
    ecalc_with (codes "ECAL:" ++ chn ++ codes ":CMDID") (decimal cmdid ++ codes ";") setcmdid
ecalc_request (start chn) = ecalc_plain (codes "ECAL:" ++ chn ++ codes ":START") startecalc
ecalc_request (stop chn) = ecalc_plain (codes "ECAL:" ++ chn ++ codes ":STOP") stopecalc
ecalc_request (int_ack chn interrupts) =
    ecalc_with (codes "ECAL:" ++ chn ++ codes ":INT") (decimal interrupts ++ codes ";")
      intacknowledge
ecalc_request (register_notifier query) =
    ecalc_with (codes "SERV:REG") (query ++ codes ";") regnotifier
ecalc_request unregister_notifiers = ecalc_plain (codes "SERV:UNR;") unregnotifier
ecalc_request (transparent_command cmd) = ecalc_transparent cmd (split b' ' cmd)

unfoldable pub receive_ecalc_answer : NetMessage → Pending → Pending × Option TextAnswer
receive_ecalc_answer = receive_text_answer is_ecalc_command

unfoldable pub ecalc_call : EcalcCall → Session → Session
ecalc_call c s = send (ecalc_number (ecalc_request c).kind) s

-- The answer to a call is passed to the client with the number of the call, the type of the reply and its
-- text, whatever other calls and messages come in between; fewer than 2 ^ 32 - 1 requests may be sent
-- meanwhile in the process, and none of these messages may carry the number. Then the call waits
-- for no more answers.
pub receive_ecalc_answer_lem :
    (c : EcalcCall) (es : List Event) (s : Session) (m : NetMessage) (r : Reply)
    → requests es < 2 ^ 32 - 1
    → let nr = next_msg_nr s.msg_nr in
      Unanswered nr es
      → m.message_nr ≡ nr
      → m.reply ≡ some r
      → let received = receive_ecalc_answer m (run none es (ecalc_call c s)).pending in
        (received.1 ≡ some (text_answer_of nr r)) × (find_key nr received.0 ≡ none)
unfolding receive_ecalc_answer ecalc_call
receive_ecalc_answer_lem c =
    let cmd = (ecalc_request c).kind in
    receive_text_answer_lem is_ecalc_command (ecalc_number cmd) (is_ecalc_command-ecalc_number cmd)
