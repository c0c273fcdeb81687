-- ===== src/Tests/Messages.antt =====
-- The readers of the headers, at a request that was packed.
use rpc_broker.Common.Headers.Ends.{readers_return}
use rpc_broker.Msgpack.{continue, Packet, packet_of}
use rpc_broker.Example.Codec.Laws.{codec-IsCodec}
use rpc_broker.Common.Headers.Lookup.{get_hdr_str_lem}
use rpc_broker.Stulibc.{to}
use rpc_broker.Outcome.{done, Ends}
use rpc_broker.Tests.Data.{request, request_headers, request-Decodes, request_headers-AllNamed}
use rpc_broker.Example.Codec.{codec}
use rpc_broker.Example.Libraries.{stulibc, stulibc-IsStulibc}
use rpc_broker.Common.Headers.{get_hdr_int, get_hdr_str, get_op_name, unpack_data}
use rpc_broker.Common.Protocol.{
  request_type_hdr, message_id_hdr, sender_address_hdr, operation_hdr, reply_port_hdr, reply_hdr,
  service_params_hdr,
}
use rpc_broker.Base.{◌≡◌, [], ◌∷◌}
use rpc_broker.Base.{codes, text_eq}

get_hdr_str_example : get_hdr_str stulibc codec request reply_port_hdr ≡ done (to (codes "9091"))
unfolding request_type_hdr message_id_hdr sender_address_hdr reply_port_hdr operation_hdr
    service_params_hdr text_eq
get_hdr_str_example =
    get_hdr_str_lem codec codec-IsCodec stulibc stulibc-IsStulibc request request_headers continue
      reply_port_hdr request-Decodes request_headers-AllNamed

-- A packet that no object starts with: 2 announces a map, and there is nothing behind it.
abbrev broken : Packet
broken = packet_of (2 ∷ [])

readers_return_example :
    Ends (get_hdr_int codec broken reply_hdr)
    × Ends (get_hdr_str stulibc codec broken reply_hdr)
    × Ends (get_op_name stulibc codec broken)
    × Ends (unpack_data codec broken)
readers_return_example =
    readers_return codec codec-IsCodec stulibc stulibc-IsStulibc broken reply_hdr
