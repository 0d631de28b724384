-- ===== src/Tests/Client.antt =====
-- A call of the PCB interface, and a proxy with two clients.
use zenux_services.Prelude.{
  ℕ, ◌-◌, ◌^◌, ◌%◌, ◌≡◌, refl, true, Option, none, some, List, [], ◌∷◌, arith, ◌==◌,
}
use zenux_services.Prelude.Int.{ℤ, pos}
use zenux_services.Prelude.Maps.{find_key, put_key, contains_int}
use zenux_services.Prelude.Text.{Text, codes, lookup, insert, eq_text, split}
use zenux_services.Client.Messages.{
  next_msg_nr, Reply, NetMessage, Session, Event, received, sent_elsewhere, run,
}
use zenux_services.Client.Pcb.Calls.{
  PcbCall, channel_call, get_dsp_channel, transparent_command, transparent, request_with,
  direct_request,
}
use zenux_services.Client.Pcb.Commands.{transparentcommand}
use zenux_services.Client.Pcb.Answers.{VariantLib, convert, receive_answer}
use zenux_services.Client.Pcb.Declared.{answered_as}
use zenux_services.Client.Pcb.Receive.{call, interrupt, receive_answer_lem}
use zenux_services.Client.Texts.{text_answer_of}
use zenux_services.Client.Ecalc.{
  EcalcCall, read_register, receive_ecalc_answer, ecalc_call, receive_ecalc_answer_lem,
}
use zenux_services.Client.Proxy.{
  ProxyConnection, Proxy, empty_proxy, is_at, search_connection, add_connection, get_proxy_net_peer,
  get_connection_smart, transmit_command, handle_receive_message,
}
use zenux_services.Client.Proxy.Consistency.{IsRouted}
use zenux_services.Client.Proxy.Routing.{
  Reachable, no_calls, requested, Reachable-IsRouted, handle_receive_message-transmit_command,
}

-- A body of one digit is a number.
abbrev digit : Text → Option ℤ
digit [] = none
digit (c ∷ t) = some (pos (c % 16))

abbrev digit_lib : VariantLib ℕ
digit_lib = record { to_int = digit; to_double = λ t. 0 }

abbrev show_0 : ℕ → Text
show_0 n = codes "0"

-- The next number is 1, after the largest one.
abbrev at_the_end : Session
at_the_end = record { msg_nr = 2 ^ 32 - 1; pending = [] }

abbrev channel_3 : Reply
channel_3 = record { rtype = 2; body = some (codes "3") }

abbrev answer_1 : NetMessage
answer_1 = record { message_nr = 1; reply = some channel_3 }

abbrev answer_7 : NetMessage
answer_7 = record { message_nr = 7; reply = some channel_3 }

abbrev meanwhile : List Event
meanwhile = sent_elsewhere ∷ received answer_7 ∷ []

abbrev dsp_channel : PcbCall ℕ
dsp_channel = channel_call (get_dsp_channel (codes "m0"))

wrapped : 1 ≡ next_msg_nr (2 ^ 32 - 1)
unfolding next_msg_nr
wrapped = refl

receive_answer_lem_example :
    let received =
      receive_answer digit_lib answer_1
        (run interrupt meanwhile (call show_0 dsp_channel at_the_end)).pending in
    (received.1
      ≡ some (record {
        number = next_msg_nr (2 ^ 32 - 1);
        reply_kind = 2;
        answer = convert digit_lib (answered_as dsp_channel) (codes "3");
      }))
    × (find_key (next_msg_nr (2 ^ 32 - 1)) received.0 ≡ none)
receive_answer_lem_example =
    receive_answer_lem digit_lib show_0 dsp_channel meanwhile at_the_end answer_1 channel_3
      (ground arith) (λ e. ground (arith, wrapped, e), tt) wrapped refl

abbrev register_3 : EcalcCall
register_3 = read_register (codes "EC0") 3

receive_ecalc_answer_lem_example :
    let received =
      receive_ecalc_answer answer_1
        (run none meanwhile (ecalc_call register_3 at_the_end)).pending in
    (received.1 ≡ some (text_answer_of (next_msg_nr (2 ^ 32 - 1)) channel_3))
    × (find_key (next_msg_nr (2 ^ 32 - 1)) received.0 ≡ none)
receive_ecalc_answer_lem_example =
    receive_ecalc_answer_lem register_3 meanwhile at_the_end answer_1 channel_3 (ground arith)
      (λ e. ground (arith, wrapped, e), tt) wrapped refl

-- What stands behind a second space is not sent.
transparent_command-cut :
    direct_request (transparent_command (codes "A b c"))
    ≡ request_with (codes "A") (codes "b") transparentcommand
unfolding direct_request transparent split
transparent_command-cut = refl

abbrev u_1 : Text
u_1 = codes "u1"

abbrev u_2 : Text
u_2 = codes "u2"

abbrev local : Text
local = codes "::1"

abbrev one_client : Proxy
one_client = get_connection_smart local 6307 u_1 10 100 empty_proxy

abbrev two_clients : Proxy
two_clients = get_connection_smart local 6307 u_2 11 101 one_client

abbrev first_connection : ProxyConnection
first_connection = record { ip = local; port = 6307; bin_uuid = u_1; net_client = 100 }

abbrev second_connection : ProxyConnection
second_connection = record { ip = local; port = 6307; bin_uuid = u_2; net_client = 100 }

two_clients-Reachable : Reachable two_clients
unfolding find_key lookup contains_int get_connection_smart search_connection get_proxy_net_peer
    add_connection put_key insert eq_text
two_clients-Reachable =
    requested local 6307 u_2 11 101 one_client
      (record { free = refl; fresh_uuid = refl; fresh_peer = refl })
      (requested local 6307 u_1 10 100 empty_proxy
        (record { free = refl; fresh_uuid = refl; fresh_peer = refl }) no_calls)

first_there : find_key 10 two_clients.connections ≡ some first_connection
unfolding find_key get_connection_smart search_connection get_proxy_net_peer add_connection put_key
    eq_text
first_there = refl

second_there : find_key 11 two_clients.connections ≡ some second_connection
unfolding find_key get_connection_smart search_connection get_proxy_net_peer add_connection put_key
    eq_text
second_there = refl

Reachable-IsRouted_example : IsRouted two_clients
Reachable-IsRouted_example = Reachable-IsRouted two_clients two_clients-Reachable

handle_receive_message-transmit_command_example :
    (transmit_command 10 two_clients ≡ some (record { peer = 100; client_id = u_1 }))
    × (transmit_command 11 two_clients ≡ some (record { peer = 100; client_id = u_2 }))
    × (handle_receive_message (some u_1) two_clients ≡ some 10)
    × (contains_int 100 two_clients.peers ≡ true)
    × ((100 == 100) ≡ is_at local 6307 second_connection)
handle_receive_message-transmit_command_example =
    handle_receive_message-transmit_command 10 11 first_connection second_connection two_clients
      two_clients-Reachable first_there second_there
