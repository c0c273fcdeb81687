-- ===== src/Tests/System.antt =====
-- One call, from its beginning to the delivery of its reply.
use rpc_broker.Broker.Handler.Requests.{on_service_request_run}
use rpc_broker.Common.Prototypes.{add_prototype}
use rpc_broker.Example.Codec.Laws.{codec-IsCodec}
use rpc_broker.Journey.{request_arrives, client_request-type, client_request-Asks}
use rpc_broker.Common.Wire.Delivery.{frame}
use rpc_broker.Broker.Handler.Reading.{read_data_lem}
use rpc_broker.Msgpack.Loop.Packed.{Decodes-pack_headers}
use rpc_broker.Journey.RemoteCall.{request_for_lem, proxy_answers}
use rpc_broker.Journey.Reply.{reply_arrives}
use rpc_broker.Server.Process.{read_and_process}
use rpc_broker.Server.Proxy.Sending.{call_marshel_response_send}
use rpc_broker.Common.Receive.Frames.{framed}
use rpc_broker.Broker.Handler.View.{state_of, View}
use rpc_broker.Example.Libraries.{env, env-IsLawful, net-IsUp, net-Reads}
use rpc_broker.Broker.State.{Broker}
use rpc_broker.Broker.Handler.{read_data, dispatch}
use rpc_broker.Broker.Find.Client.{Request}
use rpc_broker.Example.Codec.{codec}
use rpc_broker.Server.Interface.{add_operation, add}
use rpc_broker.Common.Protocol.{
  request_type_hdr, message_id_hdr, sender_address_hdr, reply_port_hdr, operation_hdr,
  service_params_hdr, reply_hdr, service_request,
}
use rpc_broker.Server.Proxy.Replies.{answer_of}
use rpc_broker.Base.{map}
use rpc_broker.Msgpack.{continue, header_value}
use rpc_broker.Msgpack.Loop.{Decodes}
use rpc_broker.System.{
  World, Asking, Among, Carried, request_to, reply_for, Reach, started, asked_for, brokered, served,
}
use rpc_broker.System.Invariant.{IsAsked}
use rpc_broker.System.Returning.{IsItsOwn, replies_return}
use rpc_broker.System.Lists.{AllOf}
use rpc_broker.Broker.Refines.{Keeps, view_of}
use rpc_broker.Broker.Contract.{Books, Delivery}
use rpc_broker.Tests.Calling.{caller, offered_operations, sum_headers-AllFit}
use rpc_broker.Tests.Data.{server, client, request_headers-AllFit, request_headers, books}
use rpc_broker.Server.Marshal.{Call}
use rpc_broker.Server.Marshal.Requests.{call_of}
use rpc_broker.Msgpack.{Packet, int}
use rpc_broker.Outcome.{done}
use rpc_broker.Base.{
  ℕ, zero, suc, ◌+◌, ◌-◌, ◌*◌, ◌/◌, ◌%◌, ◌^◌, ◌≤◌, ◌<◌, String, ◌≡◌, refl, sym, ap, ◌∙◌, subst, ◌≢◌,
  ◌↔◌, ◌⊎◌, inl, inr, Bool, true, false, not, ◌&&◌, ◌||◌, Option, none, some, List, [], ◌∷◌, ◌++◌,
  reverse, arith,
}
use rpc_broker.Base.{
  ltb, leb, ◌==◌, if◌then◌else◌, ltb→lt, lt→ltb, le→ltb, ==_iff, Bool-cases, Option-cases,
}
use rpc_broker.Base.{
  length, get_elem?, set, erase_idx, take, drop, replicate, find_idx, length-append, length-map,
  length-replicate, length-reverse, take-append, drop-append, length-erase_idx,
}
use rpc_broker.Base.{
  Text, codes, text_eq, text_eq_refl, text_eq→eq, text_eq-ne, until_nul, NoNul, until_nul-NoNul,
  NoNul-until_nul, length-until_nul,
}
use rpc_broker.Base.{
  ℤ, pos, negsuc, int32, rounds, int_eq, int_eq_refl, int_eq→eq, int32-small, InRange,
  int32-InRange,
}

abbrev asking_sum : Asking
asking_sum = record {
  caller = caller;
  id = 7;
  operation = add_operation;
  args = (pos 20, (pos 199, tt));
  result = pos 219;
}

abbrev its_request : Packet
its_request = request_to codec asking_sum

abbrev its_reply : Packet
its_reply = reply_for codec asking_sum

abbrev its_call : Call
its_call = call_of 7 (codes "add") (int (pos 20) ∷ int (pos 199) ∷ [])

abbrev seen : List Request → List Delivery → View
seen requests deliveries =
    view_of false true []
      (record { services = server ∷ []; pending = requests; outbox = deliveries })

abbrev holding : List Request → List Delivery → Broker
holding requests deliveries = state_of (seen requests deliveries)

abbrev to_server : Delivery
to_server = record { address = codes "10.0.0.9"; port = codes "8181"; packet = its_request }

abbrev to_client : Delivery
to_client = record { address = codes "10.0.0.5"; port = codes "9091"; packet = its_reply }

abbrev world : World
world = record {
  broker = holding [] (to_server ∷ to_client ∷ []);
  calls = its_call ∷ [];
  wire = its_reply ∷ its_request ∷ [];
  asks = asking_sum ∷ [];
}

sum-Carried : Carried codec offered_operations asking_sum
unfolding add rpc_broker.Base.◌+ℤ◌ text_eq request_type_hdr message_id_hdr sender_address_hdr
    reply_port_hdr operation_hdr service_params_hdr reply_hdr
sum-Carried = (
  refl,
  omega arith,
  omega arith,
  refl,
  omega arith,
  request_headers-AllFit,
  omega arith,
  sum_headers-AllFit,
  omega arith,
)

its_values : Decodes codec its_request (map header_value request_headers) continue
its_values = Decodes-pack_headers codec codec-IsCodec request_headers request_headers-AllFit

request_is_read :
    read_data env (framed its_request []) (holding [] [])
    ≡ (done tt, holding (client ∷ []) (to_server ∷ []))
unfolding dispatch int32 text_eq
request_is_read =
    read_data_lem env env-IsLawful net-Reads its_request [] service_request (holding [] []) refl
      (omega arith) (sum-Carried.6)
      (client_request-type env env-IsLawful its_request (codes "10.0.0.5") (codes "9091") 7
        (codes "add") (int (pos 20) ∷ int (pos 199) ∷ []) its_values)
    ∙ on_service_request_run env env-IsLawful net-IsUp its_request client (seen [] []) (client ∷ [])
        (client_request-Asks env env-IsLawful its_request (codes "10.0.0.5") (codes "9091") 7
          (codes "add") (int (pos 20) ∷ int (pos 199) ∷ []) refl its_values)
        refl

its_answer :
    call_marshel_response_send env
      (codes "10.0.0.1")
      (codes "9090")
      false
      offered_operations
      its_call
      []
    ≡ (done tt, frame (codes "10.0.0.1") (codes "9090") its_reply)
unfolding add rpc_broker.Base.◌+ℤ◌ text_eq
its_answer =
    proxy_answers env env-IsLawful net-IsUp net-Reads caller (codes "10.0.0.1") (codes "9090") false
      offered_operations add_operation (pos 20, (pos 199, tt)) (pos 219) 7 [] refl (omega arith)
      (omega arith) refl (omega arith) sum-Carried.8

call_is_made :
    read_and_process env
      (answer_of env (codes "10.0.0.1") (codes "9090") false offered_operations)
      (framed its_request [])
      (record { is_registered = true; calls = [] })
    ≡ (done tt, record { is_registered = true; calls = its_call ∷ [] })
call_is_made =
    let (rs, ins, handled, made) =
      request_arrives env env-IsLawful net-IsUp net-Reads
        (answer_of env (codes "10.0.0.1") (codes "9090") false offered_operations)
        (codes "10.0.0.5") (codes "9091") 7 (codes "add") (int (pos 20) ∷ int (pos 199) ∷ []) books
        [] [] [] request_headers-AllFit sum-Carried.6 (ap (λ w. w.0) its_answer) in
    made

reply_is_read :
    read_data env (framed its_reply []) (holding (client ∷ []) (to_server ∷ []))
    ≡ (done tt, holding [] (to_server ∷ to_client ∷ []))
unfolding int32 text_eq
reply_is_read =
    let (handled, waited, as_int, as_text) =
      reply_arrives env env-IsLawful net-IsUp net-Reads (codes "add") 7 (int (pos 219)) client []
        (seen (client ∷ []) (to_server ∷ [])) 0 [] [] [] sum_headers-AllFit sum-Carried.8 refl in
    handled

reached : Reach env (codes "10.0.0.1") (codes "9090") false offered_operations (server ∷ []) world
reached =
    brokered
      (served
        (brokered
          (asked_for started asking_sum its_request.buffer sum-Carried (
            request_for_lem env env-IsLawful net-IsUp net-Reads caller 7 add_prototype
              (pos 20, (pos 199, tt)) (omega arith)))
          its_request [] (holding (client ∷ []) (to_server ∷ [])) ([], [], refl) request_is_read)
        its_request [] (its_call ∷ []) (its_reply ∷ []) ([], [], refl) call_is_made
        (ap (λ w. w.1) its_answer))
      its_reply [] (holding [] (to_server ∷ to_client ∷ [])) ([], its_request ∷ [], refl)
      reply_is_read

only_one : (a x : Asking) → Among a (x ∷ []) → a ≡ x
only_one a x ([], after, e) = cc
only_one a x (y ∷ [], after, e) = absurd cc
only_one a x (y ∷ z ∷ before, after, e) = absurd cc

replies_return_example :
    (b : Books) × Keeps (holding [] (to_server ∷ to_client ∷ [])) b
    × AllOf (λ d. (a : Asking) × Among a (asking_sum ∷ []) × IsItsOwn codec a d) b.outbox
    × AllOf (IsAsked (asking_sum ∷ [])) (its_call ∷ [])
replies_return_example =
    replies_return env env-IsLawful net-IsUp net-Reads (codes "10.0.0.1") (codes "9090") false
      offered_operations (server ∷ []) world reached
      (λ a b in_a in_b ids names. only_one a asking_sum in_a ∙ sym (only_one b asking_sum in_b))
