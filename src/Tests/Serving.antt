-- ===== src/Tests/Serving.antt =====
-- A server that registers, is acknowledged, and serves the request of a client.
use rpc_broker.Base.{ℕ, ◌≡◌, refl, true, false, List, [], ◌∷◌, ◌++◌, arith}
use rpc_broker.Base.{Text, codes, text_eq}
use rpc_broker.Base.{ℤ, pos, int32}
use rpc_broker.Example.Codec.{codec}
use rpc_broker.Example.Codec.Laws.{codec-IsCodec}
use rpc_broker.Example.Libraries.{
  stulibc, net, env, stulibc-IsStulibc, net-Reads, env-IsLawful, net-IsUp,
}
use rpc_broker.Tests.Data.{request, request_fields, request-Decodes, request_headers-AllFit}
use rpc_broker.Msgpack.{Packet, Header, int, continue, pack_headers, packet_of, AllFit}
use rpc_broker.Msgpack.Loop.Packed.{Decodes-pack_headers}
use rpc_broker.Common.Headers.Kind.{get_req_type_lem}
use rpc_broker.Common.Headers.Lookup.{Named}
use rpc_broker.Common.Protocol.{
  request_type_hdr, message_id_hdr, sender_address_hdr, reply_port_hdr, operation_hdr,
  service_params_hdr, service_request, service_registration_ack, service_name_hdr,
  services_count_hdr, services_hdr,
}
use rpc_broker.Common.Pack.Laws.{int_header_of}
use rpc_broker.Common.ByteOrder.{htonl}
use rpc_broker.Common.Wire.Delivery.{frame}
use rpc_broker.Client.Pack.{pack_client_request_data}
use rpc_broker.Server.Marshal.{Call, number, unpack_marshal_call_send}
use rpc_broker.Server.Marshal.Requests.{request_becomes_call}
use rpc_broker.Server.Process.Serving.{
  receive-frame, Arrives, run, silent_until_registered, registered_serves,
}
use rpc_broker.Server.Register.{services, service_name_text}
use rpc_broker.Server.Register.Sending.{
  service_register_with_broker, service_register_with_broker_lem,
}
use rpc_broker.Broker.Unpack.{unpack_service_registration_buffer}
use rpc_broker.Broker.Unpack.Packed.{registered}
use rpc_broker.Broker.Find.Server.{reg_of}
use rpc_broker.Outcome.{Outcome, done}

abbrev pub answers : List Call → Call → Outcome (Unit {0})
answers calls call = done tt

abbrev pub add_call : Call
add_call = record {
  message_id = int32 7;
  operation = codes "add";
  params = number (pos 20) ∷ number (pos 199) ∷ [];
}

request_becomes_call_example :
    (sbuf : List ℕ) × (pack_client_request_data codec
        (codes "10.0.0.5")
        (codes "9091")
        (pos 7)
        (codes "add")
        (codes "%d%d")
        (int (pos 20) ∷ int (pos 199) ∷ [])
      ≡ done sbuf)
    × (unpack_marshal_call_send stulibc answers codec (packet_of sbuf) [] ≡ done (add_call ∷ []))
unfolding rpc_broker.Server.Marshal.int64
request_becomes_call_example =
    request_becomes_call codec codec-IsCodec stulibc stulibc-IsStulibc answers (codes "10.0.0.5")
      (codes "9091") 7 (codes "add") (int (pos 20) ∷ int (pos 199) ∷ []) [] request_headers-AllFit

abbrev pub framed : Packet → List ℕ
framed p = htonl p.len ++ (p.buffer ++ [])

abbrev pub ack_fields : List Header
ack_fields = int_header_of message_id_hdr (pos 0) ∷ []

abbrev pub ack_headers : List Header
ack_headers = int_header_of request_type_hdr service_registration_ack ∷ ack_fields

abbrev pub ack : Packet
ack = packet_of (pack_headers codec ack_headers)

ack_headers-AllFit : AllFit ack_headers
unfolding request_type_hdr message_id_hdr
ack_headers-AllFit = omega arith

type-Named : (kind : ℤ) → Named (int_header_of request_type_hdr kind)
unfolding request_type_hdr
type-Named kind = omega arith

pub ack-Arrives : Arrives env (framed ack) ack service_registration_ack
unfolding request_type_hdr message_id_hdr text_eq int32
ack-Arrives = (
  receive-frame net net-Reads ack [] refl (omega arith) (omega arith),
  get_req_type_lem codec ack (int_header_of request_type_hdr service_registration_ack) ack_fields
      continue (Decodes-pack_headers codec codec-IsCodec ack_headers ack_headers-AllFit)
      (type-Named service_registration_ack),
)

pub request-Arrives : Arrives env (framed request) request service_request
unfolding request_type_hdr message_id_hdr sender_address_hdr reply_port_hdr operation_hdr
    service_params_hdr text_eq int32
request-Arrives = (
  receive-frame net net-Reads request [] refl (omega arith) (omega arith),
  get_req_type_lem codec request (int_header_of request_type_hdr service_request) request_fields
      continue request-Decodes (type-Named service_request),
)

silent_until_registered_example :
    run env answers (framed request ∷ []) (record { is_registered = false; calls = [] })
    ≡ (done tt, record { is_registered = false; calls = [] })
silent_until_registered_example =
    silent_until_registered env env-IsLawful answers (framed request ∷ []) []
      ((request, service_request, request-Arrives, refl), tt)

registered_serves_example :
    run env answers
      (framed request ∷ framed ack ∷ framed request ∷ [])
      (record { is_registered = false; calls = [] })
    ≡ (done tt, record { is_registered = true; calls = add_call ∷ [] })
unfolding rpc_broker.Server.Marshal.int64
registered_serves_example =
    registered_serves env env-IsLawful answers (framed request ∷ []) (framed ack) (framed request)
      ack request [] (codes "10.0.0.5") (codes "9091") 7 (codes "add")
      (int (pos 20) ∷ int (pos 199) ∷ []) ((request, service_request, request-Arrives, refl), tt)
      ack-Arrives request-Arrives request-Decodes refl

abbrev offered : List Text
offered =
    codes "diffirence"
    ∷ codes "sayDog"
    ∷ codes "getServerDate"
    ∷ codes "sayHello"
    ∷ codes "add"
    ∷ codes "echo"
    ∷ codes "getBrokerName"
    ∷ []

service_register_with_broker_example :
    (packet : Packet) × (service_register_with_broker env
        (codes "10.0.0.1")
        (codes "9090")
        (codes "10.0.0.9")
        (codes "8181")
        services
        []
      ≡ (done tt, frame (codes "10.0.0.1") (codes "9090") packet))
    × (unpack_service_registration_buffer stulibc codec packet
        ≡ done (reg_of (registered (codes "10.0.0.9") (codes "8181") service_name_text offered)))
unfolding services service_name_text request_type_hdr sender_address_hdr reply_port_hdr
    service_name_hdr services_count_hdr services_hdr
service_register_with_broker_example =
    service_register_with_broker_lem env env-IsLawful net-IsUp (codes "10.0.0.1") (codes "9090")
      (codes "10.0.0.9") (codes "8181") offered [] (omega arith) (omega arith) (omega arith)
      (omega arith)
