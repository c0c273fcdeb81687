-- ===== src/Tests/Looping.antt =====
-- The broker's loop: a client asks, another message comes in between, and the response comes.
use rpc_broker.Base.{ℕ, ◌≡◌, refl, ap, ◌⊎◌, Bool, true, false, not, List, [], ◌∷◌, arith}
use rpc_broker.Base.{codes, text_eq}
use rpc_broker.Base.{pos, int32}
use rpc_broker.Msgpack.{continue}
use rpc_broker.Example.Codec.{codec}
use rpc_broker.Example.Libraries.{env, env-IsLawful, net-IsUp, net-Reads}
use rpc_broker.Tests.Data.{
  client, books, server, request, response, response_fields, response-Decodes,
  response_headers-AllNamed,
}
use rpc_broker.Tests.Brokering.{client-Asks, response-Message}
use rpc_broker.Tests.Serving.{ack, ack-Arrives, request-Arrives}
use rpc_broker.Broker.Contract.{Books, Event, a_request, a_response, another}
use rpc_broker.Broker.Contract.Ledger.{Balanced}
use rpc_broker.Broker.Refines.{Brings, Keeps}
use rpc_broker.Broker.Refines.Runs.{
  Serves, Runs, Stopped, AllBring, read_all_refines, read_all-Balanced,
}
use rpc_broker.Broker.Refines.Answered.{Answered, request_is_Answered}
use rpc_broker.Broker.Loop.{wait_for_connections}
use rpc_broker.Common.Waiting.{Waiting, IsWaiting, Wakeup}
use rpc_broker.Broker.Loop.Serving.{read_all, Served, wait_for_connections_lem}
use rpc_broker.Broker.Handler.View.{state_of}
use rpc_broker.Common.Headers.{get_req_type}
use rpc_broker.Common.Headers.Kind.{get_req_type_lem}
use rpc_broker.Common.Pack.Laws.{int_header_of}
use rpc_broker.Common.Receive.Frames.{framed}
use rpc_broker.Common.Protocol.{
  request_type_hdr, message_id_hdr, sender_address_hdr, reply_port_hdr, operation_hdr,
  service_params_hdr, reply_hdr, service_request_response,
}
use rpc_broker.Outcome.{done}

abbrev first_books : Books
first_books = record { services = server ∷ []; pending = []; outbox = [] }

first_books-Keeps : Keeps (state_of books) first_books
first_books-Keeps = (false, true, [], refl)

request-Brings : Brings env (framed request []) (a_request request client)
unfolding request_type_hdr message_id_hdr sender_address_hdr reply_port_hdr operation_hdr
    service_params_hdr
request-Brings = (([], refl, refl, omega arith, omega arith, request-Arrives.1), client-Asks)

response-type : get_req_type codec response ≡ done service_request_response
unfolding request_type_hdr text_eq int32
response-type =
    get_req_type_lem codec response (int_header_of request_type_hdr service_request_response)
      response_fields continue response-Decodes response_headers-AllNamed.0

response-Brings : Brings env (framed response []) (a_response response (pos 7) (codes "add"))
unfolding request_type_hdr message_id_hdr operation_hdr reply_hdr
response-Brings = (([], refl, refl, omega arith, omega arith, response-type), response-Message)

ack-Brings : Brings env (framed ack []) another
unfolding request_type_hdr message_id_hdr
ack-Brings =
    (ack, pos 3, ([], refl, refl, omega arith, omega arith, ack-Arrives.1), refl, refl, refl)

abbrev two_events : List Event
two_events = a_request request client ∷ a_response response (pos 7) (codes "add") ∷ []

abbrev two_connections : List (List ℕ)
two_connections = framed request [] ∷ framed response [] ∷ []

two_events-AllBring : AllBring env two_connections two_events
two_events-AllBring = (request-Brings, (response-Brings, tt))

read_all_refines_example :
    Serves Runs two_events first_books (read_all env two_connections (state_of books))
read_all_refines_example =
    read_all_refines env env-IsLawful net-IsUp net-Reads two_connections two_events first_books
      (state_of books) two_events-AllBring first_books-Keeps

read_all-Balanced_example :
    Serves Balanced two_events first_books (read_all env two_connections (state_of books))
read_all-Balanced_example =
    read_all-Balanced env env-IsLawful net-IsUp net-Reads two_connections two_events first_books
      (state_of books) two_events-AllBring first_books-Keeps

request_is_Answered_example :
    Answered client response
      (read_all env (framed request [] ∷ framed ack [] ∷ framed response [] ∷ []) (state_of books))
    ⊎ Stopped Runs (a_request request client ∷ another ∷ []) first_books (
        read_all env (framed request [] ∷ framed ack [] ∷ framed response [] ∷ []) (state_of books))
request_is_Answered_example =
    request_is_Answered env env-IsLawful net-IsUp net-Reads client request response
      (framed request []) (framed ack [] ∷ []) (another ∷ []) (framed response []) first_books
      (state_of books) request-Brings (ack-Brings, tt) (tt, tt) response-Brings tt first_books-Keeps

-- A lock that is held or not, and `select` as POSIX has it.
abbrev pub one_lock : Waiting
one_lock = record {
  Lock = Bool;
  acquire_lock = λ held. (not held, true);
  release_lock = λ held. false;
}

abbrev pub one_lock_waits : IsWaiting one_lock
one_lock_waits = record {
  Free = λ held. held ≡ false;
  acquires = λ k f. ap not f;
  releases = λ k f. refl;
}

abbrev pub elsewhere : Wakeup
elsewhere = record { select = λ t. (pos 1, 60); is_ready = false; is_valid = false; incoming = [] }

abbrev pub asking : Wakeup
asking = record {
  select = λ t. (pos 1, 42);
  is_ready = true;
  is_valid = true;
  incoming = framed request [];
}

wait_for_connections_example :
    Served env one_lock one_lock_waits
      (read_all env (framed request [] ∷ []) (state_of books))
      (wait_for_connections env one_lock (done tt) (elsewhere ∷ asking ∷ []) false (state_of books))
wait_for_connections_example =
    wait_for_connections_lem env one_lock one_lock_waits (elsewhere ∷ asking ∷ []) false
      (state_of books) refl (((λ t. refl), λ i. i), (((λ t. refl), λ i. i), tt))
