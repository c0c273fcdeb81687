-- ===== src/Client/Pack.antt =====
-- client/pack_client_request_data.c
use mathlib.Core.List.{append_assoc, append-nil}
use rpc_broker.Common.Format.{pack_format, count_args}
use rpc_broker.Common.Pack.Laws.{int_header_of, text_header_of, pack_map_int_lem, pack_map_str_lem}
use rpc_broker.Common.Pack.{pack_map_str, pack_map_int}
use rpc_broker.Common.Format.Laws.{format_of, pack_format-format_of, count_args-format_of}
use rpc_broker.Outcome.{Outcome, done}
use rpc_broker.Common.Protocol.{
  service_params_hdr, operation_hdr, request_type_hdr, reply_port_hdr, service_request,
  sender_address_hdr, message_id_hdr,
}
use rpc_broker.Msgpack.{Msgpack, Scalar, Header, pack_headers, many}
use rpc_broker.Base.{ℕ, ◌≡◌, refl, ap, List, [], ◌∷◌, ◌++◌}
use rpc_broker.Base.{length}
use rpc_broker.Base.{Text}
use rpc_broker.Base.{ℤ}

-- `id` is what `rand()` gives, and the address and the port are the client's settings.
unfoldable pub pack_client_request_data :
    Msgpack → Text → Text → ℤ → Text → Text → List Scalar → Outcome (List ℕ)
pack_client_request_data m client_address wait_response_port id op fmt args =
    let sbuf = pack_map_str m operation_hdr op (
      pack_map_str m reply_port_hdr wait_response_port (
        pack_map_str m sender_address_hdr client_address (
          pack_map_int m message_id_hdr id
            (pack_map_int m request_type_hdr service_request [])))) in
    pack_format m fmt args (
      sbuf
      ++ (m.pack_map 1
          ++ (m.pack_str 6
              ++ (m.pack_str_body service_params_hdr ++ m.pack_array (count_args fmt)))))

abbrev pub client_headers : Text → Text → ℤ → Text → List Scalar → List Header
client_headers address port id op args =
    int_header_of request_type_hdr service_request
    ∷ int_header_of message_id_hdr id
    ∷ text_header_of sender_address_hdr address
    ∷ text_header_of reply_port_hdr port
    ∷ text_header_of operation_hdr op
    ∷ record { name = service_params_hdr; content = many args }
    ∷ []

length-service_params_hdr : length service_params_hdr ≡ 6
unfolding service_params_hdr
length-service_params_hdr = refl

-- With the format of its arguments, a client packs the headers of a request: the type, the id, where
-- it waits for the reply, the operation, and all arguments in their order.
pub pack_client_request_data_lem :
    (m : Msgpack) (address port : Text) (id : ℤ) (op : Text) (args : List Scalar)
    → pack_client_request_data m address port id op (format_of args) args
      ≡ done (pack_headers m (client_headers address port id op args))
unfolding pack_client_request_data
pack_client_request_data_lem m address port id op args =
    rw (pack_format-format_of m args, count_args-format_of args)
      (ap done (
        simp (
          pack_map_int_lem, pack_map_str_lem, length-service_params_hdr, append_assoc, append-nil,
        )))
