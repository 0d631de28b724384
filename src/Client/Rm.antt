-- ===== src/Client/Rm.antt =====
-- The client of the resource manager: `cRMInterfacePrivate` of zenux-service-interfaces/lib/rminterface_p.cpp.
-- `rmIdent` sends its text as the body of a reply IDENT, which `is_ident` marks. A name that is put into a text is taken to have no `%`.
use zenux_services.Prelude.{
  ℕ, ◌-◌, ◌^◌, ◌<◌, ◌≡◌, refl, Bool, true, false, Option, none, some, List, [], ◌∷◌, ◌++◌, map,
}
use zenux_services.Prelude.Int.{ℤ}
use zenux_services.Prelude.Maps.{find_key}
use zenux_services.Prelude.Text.{Text, codes, decimal, split}
use zenux_services.Client.Messages.{
  next_msg_nr, Reply, NetMessage, Session, send, Event, run, requests, Unanswered, Pending,
}
use zenux_services.Client.Texts.{
  is_among, TextAnswer, text_answer_of, receive_text_answer, receive_text_answer_lem,
}
use zenux_services.Client.Pcb.Calls.{arg_int}

pub data RmCommand : Type 0 where
  rmident rmscpi addresource removeresource getresourcetypes getresources : RmCommand
  getresourceinfo setresource freeresource : RmCommand

unfoldable pub rm_number : RmCommand → ℕ
rm_number rmident = 0
rm_number rmscpi = 1
rm_number addresource = 2
rm_number removeresource = 3
rm_number getresourcetypes = 4
rm_number getresources = 5
rm_number getresourceinfo = 6
rm_number setresource = 7
rm_number freeresource = 8

abbrev pub rm_commands : List RmCommand
rm_commands =
    rmident ∷ rmscpi ∷ addresource ∷ removeresource ∷ getresourcetypes ∷ getresources
    ∷ getresourceinfo ∷ setresource ∷ freeresource ∷ []

-- The labels of the `switch` of `receiveAnswer`.
unfoldable pub is_rm_command : ℕ → Bool
unfolding rm_number
is_rm_command n = is_among n (map rm_number rm_commands)

is_rm_command-rm_number : (c : RmCommand) → is_rm_command (rm_number c) ≡ true
unfolding is_rm_command rm_number
is_rm_command-rm_number rmident = refl
is_rm_command-rm_number rmscpi = refl
is_rm_command-rm_number addresource = refl
is_rm_command-rm_number removeresource = refl
is_rm_command-rm_number getresourcetypes = refl
is_rm_command-rm_number getresources = refl
is_rm_command-rm_number getresourceinfo = refl
is_rm_command-rm_number setresource = refl
is_rm_command-rm_number freeresource = refl

-- What is sent, and what is kept until the answer comes.
pub record RmRequest : Type 0 where
  pub command : Text
  pub parameter : Option Text
  pub kind : RmCommand
  pub is_ident : Bool

abbrev pub rm_plain : Text → RmCommand → RmRequest
rm_plain text c = record { command = text; parameter = none; kind = c; is_ident = false }

abbrev pub rm_with : Text → Text → RmCommand → RmRequest
rm_with text par c = record { command = text; parameter = some par; kind = c; is_ident = false }

-- `scpiCommand` sends what is before the first space and what is between it and the second.
unfoldable pub rm_transparent : Text → List Text → RmRequest
rm_transparent cmd (first ∷ second ∷ rest) = rm_with first second rmscpi
rm_transparent cmd other = rm_plain cmd rmscpi

pub data RmCall : Type 0 where
  add_resource : Text → Text → ℤ → Text → ℕ → RmCall
  remove_resource : Text → Text → RmCall
  get_resource_types : RmCall
  get_resources : Text → RmCall
  get_resource_info : Text → Text → RmCall
  set_resource : Text → Text → ℤ → RmCall
  free_resource : Text → Text → RmCall
  rm_ident : Text → RmCall
  scpi_command : Text → RmCall

unfoldable pub rm_request : RmCall → RmRequest
rm_request (add_resource res_type res_name count description port) =
    rm_with (codes "RES:ADD")
      (res_type
        ++ codes ";"
        ++ res_name
        ++ codes ";"
        ++ arg_int count
        ++ codes ";"
        ++ description
        ++ codes ";"
        ++ decimal port
        ++ codes ";")
      addresource
rm_request (remove_resource res_type res_name) =
    rm_with (codes "RES:REM") (res_type ++ codes ";" ++ res_name ++ codes ";") removeresource
rm_request get_resource_types = rm_plain (codes "RES:TYPE:CAT?") getresourcetypes
rm_request (get_resources res_type) =
    rm_plain (codes "RES:" ++ res_type ++ codes ":CAT?") getresources
rm_request (get_resource_info res_type res_name) =
    rm_plain (codes "RES:" ++ res_type ++ codes ":" ++ res_name ++ codes "?") getresources
rm_request (set_resource res_type res_name count) =
    rm_with (codes "RES:" ++ res_type ++ codes ":" ++ res_name)
      (codes "SET;" ++ arg_int count ++ codes ";") setresource
rm_request (free_resource res_type res_name) =
    rm_with (codes "RES:" ++ res_type ++ codes ":" ++ res_name) (codes "FREE;") freeresource
rm_request (rm_ident res_name) = record {
  command = res_name;
  parameter = none;
  kind = rmident;
  is_ident = true;
}
rm_request (scpi_command cmd) = rm_transparent cmd (split b' ' cmd)

unfoldable pub receive_rm_answer : NetMessage → Pending → Pending × Option TextAnswer
receive_rm_answer = receive_text_answer is_rm_command

unfoldable pub rm_call : RmCall → Session → Session
rm_call c s = send (rm_number (rm_request c).kind) s

-- The answer to a call is passed to the client with the number of the call, the type of the reply and its
-- text, whatever other calls and messages come in between; fewer than 2 ^ 32 - 1 requests may be sent
-- meanwhile in the process, and none of these messages may carry the number. Then the call waits
-- for no more answers.
receive_rm_answer_lem :
    (c : RmCall) (es : List Event) (s : Session) (m : NetMessage) (r : Reply)
    → requests es < 2 ^ 32 - 1
    → let nr = next_msg_nr s.msg_nr in
      Unanswered nr es
      → m.message_nr ≡ nr
      → m.reply ≡ some r
      → let received = receive_rm_answer m (run none es (rm_call c s)).pending in
        (received.1 ≡ some (text_answer_of nr r)) × (find_key nr received.0 ≡ none)
unfolding receive_rm_answer rm_call
receive_rm_answer_lem c =
    let cmd = (rm_request c).kind in
    receive_text_answer_lem is_rm_command (rm_number cmd) (is_rm_command-rm_number cmd)
