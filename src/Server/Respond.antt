-- ===== src/Server/Respond.antt =====
-- server/pack_client_response_data.c
use mathlib.Core.List.{append_assoc, append-nil}
use rpc_broker.Common.Format.{pack_format}
use rpc_broker.Common.Pack.Laws.{int_header_of, pack_map_int_lem, text_header_of, pack_map_str_lem}
use rpc_broker.Common.Pack.{pack_map_str, pack_map_int}
use rpc_broker.Common.Format.Laws.{format_of, pack_format-format_of}
use rpc_broker.Outcome.{Outcome, done}
use rpc_broker.Common.Protocol.{
  reply_hdr, operation_hdr, request_type_hdr, service_request_response, message_id_hdr,
}
use rpc_broker.Msgpack.{Msgpack, Scalar, Header, pack_headers, one}
use rpc_broker.Base.{ℕ, ◌≡◌, refl, ap, List, [], ◌∷◌, ◌++◌}
use rpc_broker.Base.{length}
use rpc_broker.Base.{Text}
use rpc_broker.Base.{ℤ}

unfoldable pub pack_client_response_data :
    Msgpack → Text → ℤ → Text → List Scalar → Outcome (List ℕ)
pack_client_response_data m op message_id fmt args =
    let sbuf = pack_map_str m operation_hdr op (
      pack_map_int m message_id_hdr message_id
        (pack_map_int m request_type_hdr service_request_response [])) in
    pack_format m fmt args (sbuf ++ (m.pack_map 1 ++ (m.pack_str 5 ++ m.pack_str_body reply_hdr)))

abbrev pub reply_headers : Text → ℤ → Scalar → List Header
reply_headers op id x =
    int_header_of request_type_hdr service_request_response
    ∷ int_header_of message_id_hdr id
    ∷ text_header_of operation_hdr op
    ∷ record { name = reply_hdr; content = one x }
    ∷ []

length-reply_hdr : length reply_hdr ≡ 5
unfolding reply_hdr
length-reply_hdr = refl

-- For one result, of either type, a server packs the headers of a response: the type, the id and the
-- operation of the request, and the result.
pub pack_client_response_data_lem :
    (m : Msgpack) (op : Text) (id : ℤ) (x : Scalar)
    → pack_client_response_data m op id (format_of (x ∷ [])) (x ∷ [])
      ≡ done (pack_headers m (reply_headers op id x))
unfolding pack_client_response_data
pack_client_response_data_lem m op id x = rw (pack_format-format_of m (x ∷ [])) (
    ap done (simp (pack_map_int_lem, pack_map_str_lem, length-reply_hdr, append_assoc, append-nil)))
