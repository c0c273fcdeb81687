-- ===== src/Tests/Data.antt =====
-- The messages of the examples, packed by the example codec.
use rpc_broker.Example.Codec.Laws.{codec-IsCodec}
use rpc_broker.Msgpack.Loop.Packed.{Decodes-pack_headers}
use rpc_broker.Common.Headers.Lookup.{AllNamed}
use rpc_broker.Example.Codec.{codec}
use rpc_broker.Broker.Unpack.Packed.{registration_headers}
use rpc_broker.Common.Pack.Laws.{int_header_of, text_header_of}
use rpc_broker.Broker.Handler.View.{View}
use rpc_broker.Broker.Find.Server.{Service}
use rpc_broker.Msgpack.Loop.{Decodes}
use rpc_broker.Common.Protocol.{
  request_type_hdr, message_id_hdr, sender_address_hdr, service_request, service_request_response,
  reply_port_hdr, operation_hdr, service_params_hdr, reply_hdr, service_name_hdr,
  services_count_hdr, services_hdr,
}
use rpc_broker.Msgpack.{
  Header, Packet, packet_of, pack_headers, header_value, many, AllFit, continue, int,
}
use rpc_broker.Broker.Find.Client.{Request}
use rpc_broker.Base.{true, false, List, [], ◌∷◌, arith, map}
use rpc_broker.Base.{Text, codes}
use rpc_broker.Base.{pos}

abbrev pub client : Request
client = record {
  address = codes "10.0.0.5";
  port = codes "9091";
  operation = codes "add";
  message_id = pos 7;
}

abbrev pub request_fields : List Header
request_fields =
    int_header_of message_id_hdr (pos 7)
    ∷ text_header_of sender_address_hdr (codes "10.0.0.5")
    ∷ text_header_of reply_port_hdr (codes "9091")
    ∷ text_header_of operation_hdr (codes "add")
    ∷ record { name = service_params_hdr; content = many (int (pos 20) ∷ int (pos 199) ∷ []) }
    ∷ []

abbrev pub request_headers : List Header
request_headers = int_header_of request_type_hdr service_request ∷ request_fields

abbrev pub response_fields : List Header
response_fields =
    int_header_of message_id_hdr (pos 7)
    ∷ text_header_of operation_hdr (codes "add")
    ∷ int_header_of reply_hdr (pos 219)
    ∷ []

abbrev pub response_headers : List Header
response_headers = int_header_of request_type_hdr service_request_response ∷ response_fields

abbrev pub names : List Text
names = codes "echo" ∷ codes "add" ∷ []

abbrev pub offer_headers : List Header
offer_headers = registration_headers (codes "10.0.0.9") (codes "8181") (codes "calc") names

pub request_headers-AllNamed : AllNamed request_headers
unfolding request_type_hdr message_id_hdr sender_address_hdr reply_port_hdr operation_hdr
    service_params_hdr
request_headers-AllNamed = omega arith

pub request_headers-AllFit : AllFit request_headers
unfolding request_type_hdr message_id_hdr sender_address_hdr reply_port_hdr operation_hdr
    service_params_hdr
request_headers-AllFit = omega arith

pub response_headers-AllNamed : AllNamed response_headers
unfolding request_type_hdr message_id_hdr operation_hdr reply_hdr
response_headers-AllNamed = omega arith

pub response_headers-AllFit : AllFit response_headers
unfolding request_type_hdr message_id_hdr operation_hdr reply_hdr
response_headers-AllFit = omega arith

pub offer_headers-AllFit : AllFit offer_headers
unfolding request_type_hdr sender_address_hdr reply_port_hdr service_name_hdr services_count_hdr
    services_hdr
offer_headers-AllFit = omega arith

abbrev pub request : Packet
request = packet_of (pack_headers codec request_headers)

abbrev pub response : Packet
response = packet_of (pack_headers codec response_headers)

abbrev pub offer : Packet
offer = packet_of (pack_headers codec offer_headers)

pub request-Decodes : Decodes codec request (map header_value request_headers) continue
request-Decodes = Decodes-pack_headers codec codec-IsCodec request_headers request_headers-AllFit

pub response-Decodes : Decodes codec response (map header_value response_headers) continue
response-Decodes = Decodes-pack_headers codec codec-IsCodec response_headers response_headers-AllFit

pub offer-Decodes : Decodes codec offer (map header_value offer_headers) continue
offer-Decodes = Decodes-pack_headers codec codec-IsCodec offer_headers offer_headers-AllFit

abbrev pub server : Service
server = record {
  address = codes "10.0.0.9";
  port = codes "8181";
  name = codes "calc";
  services = names;
  spare = [];
}

abbrev pub books : View
books = record {
  verbose = false;
  wait_indef = true;
  services = server ∷ [];
  requests = [];
  executed = [];
  sent = [];
}
