-- ===== src/Tests/Registering.antt =====
-- A server registers two services, and is found.
use rpc_broker.Common.ByteOrder.{htonl}
use rpc_broker.Broker.Ack.Retry.{ack_loop_lem}
use rpc_broker.Common.Headers.{unpack_data}
use rpc_broker.Common.Wire.{send_req, send_data}
use rpc_broker.Env.{Env, IsLawful}
use rpc_broker.Common.Pack.{pack_map_int}
use rpc_broker.Broker.Database.{
  registration_query, registration_queries, service_query, service_queries, printf, decimal,
  registration_sql, service_sql,
}
use rpc_broker.Broker.Handler.Registrations.{reg_svc_req_lem, registered_is_found, NoneOffers}
use rpc_broker.Broker.Find.{find_server_for_req}
use rpc_broker.Example.Codec.Laws.{codec-IsCodec}
use rpc_broker.Broker.Unpack.Packed.{unpack_registration}
use rpc_broker.Common.Wire.Delivery.{frame, IsWhole}
use rpc_broker.Msgpack.{Packet, packet_of}
use rpc_broker.Broker.Handler.View.{state_of}
use rpc_broker.Broker.Handler.{reg_svc_req}
use rpc_broker.Outcome.{done, fault}
use rpc_broker.Broker.Handler.Overruns.{reg_svc_req-overrun}
use rpc_broker.Tests.Data.{
  server, offer, books, request, names, offer-Decodes, request_headers, request-Decodes,
  request_headers-AllNamed,
}
use rpc_broker.Example.Codec.{codec}
use rpc_broker.Stulibc.{Inserts, to, Sent}
use rpc_broker.Example.Libraries.{stulibc, env, stulibc-IsStulibc, env-IsLawful, net-IsUp, net}
use rpc_broker.Broker.Ack.{ack_loop, ack_packet}
use rpc_broker.Common.Protocol.{
  request_type_hdr, message_id_hdr, sender_address_hdr, reply_port_hdr, operation_hdr,
  service_params_hdr,
}
use rpc_broker.Broker.Find.Server.{Service, reg_of, contains}
use rpc_broker.Broker.Unpack.{unpack_service_registration_buffer}
use rpc_broker.Base.{◌≡◌, refl, true, List, [], ◌∷◌, arith, map, ◌+ℤ◌, ◌++◌}
use rpc_broker.Base.{ltb, if◌then◌else◌}
use rpc_broker.Base.{length}
use rpc_broker.Base.{Text, codes, text_eq}
use rpc_broker.Base.{pos}

unpack_registration_example :
    unpack_service_registration_buffer stulibc codec offer ≡ done (reg_of server)
unpack_registration_example =
    unpack_registration codec codec-IsCodec stulibc stulibc-IsStulibc offer (codes "10.0.0.9")
      (codes "8181") (codes "calc") names offer-Decodes (omega arith)

abbrev statements : List Text
statements =
    registration_query (codes "calc") (codes "10.0.0.9") (codes "8181") (pos 2)
    ∷ service_query (codes "echo")
    ∷ service_query (codes "add")
    ∷ codes "select * from ServiceRegistration;"
    ∷ []

statements-run : registration_queries env.qry_overrun (reg_of server) ≡ done statements
unfolding registration_queries service_queries printf registration_query service_query decimal
    registration_sql service_sql
statements-run = refl

ack-IsWhole : IsWhole (ack_packet env (pos 0))
unfolding ack_packet pack_map_int message_id_hdr request_type_hdr
ack-IsWhole = refl

reg_svc_req_example :
    (svcs : List Service) × Inserts server [] svcs
    × (reg_svc_req env offer (state_of (record books { services = [] })) ≡ (
      done tt,
      state_of (record books {
        services = svcs;
        executed = statements;
        sent = frame (codes "10.0.0.9") (codes "8181") (ack_packet env (pos 0));
      }),
    ))
reg_svc_req_example =
    reg_svc_req_lem env env-IsLawful net-IsUp offer (codes "10.0.0.9") (codes "8181") (codes "calc")
      names statements (record books { services = [] }) offer-Decodes (omega arith) statements-run
      ack-IsWhole

-- Writes past `qry` are faults.
abbrev strict : Env
strict = record env { qry_overrun = fault }

strict-IsLawful : IsLawful strict
strict-IsLawful = record { codec = codec-IsCodec; lists = stulibc-IsStulibc }

reg_svc_req-overrun_example :
    (svcs : List Service) × Inserts server [] svcs
    × (reg_svc_req strict offer (state_of (record books { services = [] }))
        ≡ (fault, state_of (record books { services = svcs })))
reg_svc_req-overrun_example =
    reg_svc_req-overrun strict strict-IsLawful offer (codes "10.0.0.9") (codes "8181")
      (codes "calc") names (record books { services = [] }) refl offer-Decodes (omega arith)

registered_is_found_example :
    (t : Service) × (passed_over : List Service) × (rest : List Service) × (server ∷ []
      ≡ passed_over ++ t ∷ rest)
    × (contains (codes "add") t.services ≡ true)
    × NoneOffers (codes "add") passed_over
    × (find_server_for_req stulibc codec request (map reg_of (server ∷ []))
        ≡ done (record { address = to t.address; port = to t.port }))
unfolding request_type_hdr message_id_hdr sender_address_hdr reply_port_hdr operation_hdr
    service_params_hdr text_eq
registered_is_found_example =
    registered_is_found env env-IsLawful request request_headers (codes "add") server []
      (server ∷ []) request-Decodes request_headers-AllNamed refl ([], [], refl, refl) refl

-- A network that takes nothing in its first four calls: the third attempt gets through.
abbrev flaky : Env
flaky = record env {
  net = record net { send = λ k bs. if ltb k 4 then pos 0 else pos (length bs) };
}

abbrev nothing : Packet
nothing = packet_of []

abbrev tried : List Sent → List Sent
tried sent = (send_req flaky.net codec nothing (to (codes "a")) (to (codes "p")) sent).1

ack_loop_example :
    ack_loop flaky 3 1 nothing (to (codes "a")) (to (codes "p")) []
    ≡ (done tt, tried (tried (tried [])))
unfolding send_req send_data unpack_data htonl ◌+ℤ◌
ack_loop_example =
    ack_loop_lem flaky nothing (to (codes "a")) (to (codes "p")) [] (tried []) (tried (tried []))
      (tried (tried (tried []))) (pos 0) (pos 0) (pos 4) refl refl refl
