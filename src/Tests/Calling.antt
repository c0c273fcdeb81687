-- ===== src/Tests/Calling.antt =====
-- Calls of the functions of the interface through the proxies.
use rpc_broker.Journey.Faulting.{negative_argument_faults}
use rpc_broker.Client.Pack.{client_headers}
use rpc_broker.Journey.RemoteCall.{remote_call_returns}
use rpc_broker.Server.Process.{read_and_process}
use rpc_broker.Tests.Data.{books, request_headers-AllFit}
use rpc_broker.Client.Proxy.Calling.{client_proxy}
use rpc_broker.Server.Proxy.Passing.{arguments_pass}
use rpc_broker.Broker.Handler.View.{View, state_of}
use rpc_broker.Example.Codec.{codec}
use rpc_broker.Server.Marshal.Requests.{received}
use rpc_broker.Common.Wire.Delivery.{frame}
use rpc_broker.Outcome.{done, fault}
use rpc_broker.Server.Marshal.{string, Call}
use rpc_broker.Example.Libraries.{env, strings, env-IsLawful, net-IsUp, net-Reads}
use rpc_broker.Server.Interface.{operations, add, echo_operation, add_operation}
use rpc_broker.Server.Proxy.Sending.{call_marshel_response_send}
use rpc_broker.Common.Prototypes.{all_passed, add_prototype, int_type, char_ptr}
use rpc_broker.Common.Protocol.{
  request_type_hdr, message_id_hdr, operation_hdr, sender_address_hdr, reply_hdr, reply_port_hdr,
  service_params_hdr,
}
use rpc_broker.Server.Respond.{reply_headers}
use rpc_broker.Server.Proxy.{Operation, param_gets}
use rpc_broker.Client.Proxy.{Caller, request_for}
use rpc_broker.Server.Proxy.Replies.{answer_of, sent_after, call_is_answered}
use rpc_broker.Journey.RoundTrip.{ready_for}
use rpc_broker.Common.Receive.Frames.{framed}
use rpc_broker.Broker.Handler.{read_data}
use rpc_broker.Stulibc.{to}
use rpc_broker.Base.{map}
use rpc_broker.Msgpack.{Header, AllFit, int, text, Packet, packet_of, pack_headers}
use rpc_broker.Base.{
  ℕ, zero, suc, ◌+◌, ◌-◌, ◌*◌, ◌/◌, ◌%◌, ◌^◌, ◌≤◌, ◌<◌, String, ◌≡◌, refl, sym, ap, ◌∙◌, subst, ◌≢◌,
  ◌↔◌, ◌⊎◌, inl, inr, Bool, true, false, not, ◌&&◌, ◌||◌, Option, none, some, List, [], ◌∷◌, ◌++◌,
  reverse, arith,
}
use rpc_broker.Base.{
  ltb, leb, ◌==◌, if◌then◌else◌, ltb→lt, lt→ltb, le→ltb, ==_iff, Bool-cases, Option-cases,
}
use rpc_broker.Base.{
  length, get_elem?, set, erase_idx, take, drop, replicate, find_idx, length-append, length-map,
  length-replicate, length-reverse, take-append, drop-append, length-erase_idx,
}
use rpc_broker.Base.{
  Text, codes, text_eq, text_eq_refl, text_eq→eq, text_eq-ne, until_nul, NoNul, until_nul-NoNul,
  NoNul-until_nul, length-until_nul,
}
use rpc_broker.Base.{
  ℤ, pos, negsuc, int32, rounds, int_eq, int_eq_refl, int_eq→eq, int32-small, InRange,
  int32-InRange,
}

abbrev pub caller : Caller
caller = record {
  client_address = codes "10.0.0.5";
  wait_response_port = codes "9091";
  broker_address = codes "10.0.0.1";
  broker_port = codes "9090";
}

abbrev pub offered_operations : List Operation
offered_operations = operations strings

abbrev sum_headers : List Header
sum_headers = reply_headers (codes "add") (pos 7) (int (pos 219))

pub sum_headers-AllFit : AllFit sum_headers
unfolding request_type_hdr message_id_hdr operation_hdr reply_hdr
sum_headers-AllFit = omega arith

arguments_pass_example :
    (all_passed (int_type ∷ char_ptr ∷ []) (pos 20, (to (codes "Stuart"), tt))
      ≡ done (int (pos 20) ∷ text (codes "Stuart") ∷ []))
    × (param_gets
          (int_type ∷ char_ptr ∷ [])
          (map received (int (pos 20) ∷ text (codes "Stuart") ∷ []))
        ≡ done (pos 20, (to (codes "Stuart"), tt)))
arguments_pass_example =
    arguments_pass (int_type ∷ char_ptr ∷ []) (pos 20, (to (codes "Stuart"), tt)) (omega arith)

call_is_answered_example :
    call_marshel_response_send env
      (codes "10.0.0.1")
      (codes "9090")
      true
      offered_operations
      (record {
        message_id = pos 7;
        operation = codes "echo";
        params = string (codes "Bruce Mathews") ∷ [];
      })
      []
    ≡ (
      done tt,
      frame (codes "10.0.0.1") (codes "9090") (
          packet_of (
            pack_headers codec
              (reply_headers (codes "echo") (pos 7) (text (codes "swehtaM ecurB"))))),
    )
unfolding text_eq request_type_hdr message_id_hdr operation_hdr reply_hdr
call_is_answered_example =
    call_is_answered env env-IsLawful net-IsUp (codes "10.0.0.1") (codes "9090") true
      offered_operations (echo_operation strings)
      (record {
        message_id = pos 7;
        operation = codes "echo";
        params = string (codes "Bruce Mathews") ∷ [];
      })
      (to (codes "Bruce Mathews"), tt) (to (codes "swehtaM ecurB")) [] refl refl refl (omega arith)
      (omega arith)

remote_call_returns_example :
    (asking : Packet) × (reply : Packet) × (w : View) × (call : Call) × (client_proxy env caller
        (pos 7)
        add_prototype
        (pos 20, (pos 199, tt))
        (ready_for (framed reply []))
        []
      ≡ (done (pos 219), frame (codes "10.0.0.1") (codes "9090") asking))
    × (read_data env (framed asking []) (state_of books) ≡ (done tt, state_of w))
    × (w.sent ≡ frame (codes "10.0.0.9") (codes "8181") asking)
    × (read_and_process env
          (answer_of env (codes "10.0.0.1") (codes "9090") false offered_operations)
          (framed asking [])
          (record { is_registered = true; calls = [] })
        ≡ (done tt, record { is_registered = true; calls = call ∷ [] }))
    × (sent_after env (codes "10.0.0.1") (codes "9090") false offered_operations (call ∷ []) []
        ≡ frame (codes "10.0.0.1") (codes "9090") reply)
    × (read_data env (framed reply []) (state_of w) ≡ (
      done tt,
      state_of (record w {
        requests = [];
        sent = w.sent ++ frame (codes "10.0.0.5") (codes "9091") reply;
      }),
    ))
unfolding request_type_hdr message_id_hdr sender_address_hdr reply_port_hdr operation_hdr
    service_params_hdr reply_hdr text_eq int32 add rpc_broker.Base.◌+ℤ◌
remote_call_returns_example =
    remote_call_returns env env-IsLawful net-IsUp net-Reads caller (codes "10.0.0.1") (codes "9090")
      false offered_operations add_operation (pos 20, (pos 199, tt)) (pos 219) 7 books [] [] [] []
      [] [] refl (omega arith) (omega arith) refl (omega arith) request_headers-AllFit (omega arith)
      sum_headers-AllFit (omega arith) refl

-- add(20, -1)
abbrev below_zero_headers : List Header
below_zero_headers =
    client_headers (codes "10.0.0.5") (codes "9091") (pos 7) (codes "add")
      (int (pos 20) ∷ int (negsuc 0) ∷ [])

below_zero_headers-AllFit : AllFit below_zero_headers
unfolding request_type_hdr message_id_hdr sender_address_hdr reply_port_hdr operation_hdr
    service_params_hdr
below_zero_headers-AllFit = omega arith

negative_argument_faults_example :
    (asking : Packet) × (request_for codec caller (pos 7) add_prototype (pos 20, (negsuc 0, tt))
      ≡ done asking.buffer)
    × (read_and_process env
          (answer_of env (codes "10.0.0.1") (codes "9090") false offered_operations)
          (framed asking [])
          (record { is_registered = true; calls = [] })
        ≡ (fault, record { is_registered = true; calls = [] }))
unfolding request_type_hdr message_id_hdr sender_address_hdr reply_port_hdr operation_hdr
    service_params_hdr text_eq
negative_argument_faults_example =
    negative_argument_faults env env-IsLawful net-Reads caller (codes "10.0.0.1") (codes "9090")
      false offered_operations add_operation (pos 20, (negsuc 0, tt)) 7 [] [] refl (omega arith)
      (omega arith) below_zero_headers-AllFit (omega arith)
