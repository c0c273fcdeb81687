-- ===== src/Common/Headers/Kind.antt =====
-- The type of a message is its first header.
use rpc_broker.Common.Headers.Lookup.{Named, extract_header_lem}
use rpc_broker.Msgpack.Loop.{Decodes}
use rpc_broker.Common.Protocol.{request_type_hdr, failed}
use rpc_broker.Common.Headers.{
  get_req_type, request_type, Packet, request_type_hdr, done, exited, failed,
}
use rpc_broker.Outcome.{Outcome, done, exited}
use rpc_broker.Msgpack.{
  Header, Msgpack, Content, Packet, one, content_value, UnpackReturn, int, text, header_value, many,
}
use rpc_broker.Base.{◌≡◌, refl, List, [], ◌∷◌, map}
use rpc_broker.Base.{if◌then◌else◌}
use rpc_broker.Base.{text_eq}
use rpc_broker.Base.{ℤ, pos, negsuc, int32}

-- The reference: an integer under the name "request-type", and otherwise the process ends.
abbrev pub kind_of : Header → Outcome ℤ
kind_of h = elim h.content [
  | one (int (pos n)) ↦ if text_eq request_type_hdr h.name then done (int32 n) else exited 1
  | _ ↦ exited 1
]

request_type_lem :
    (h : Header) (c : Content)
    → request_type (h.name, content_value c) ≡ kind_of (record h { content = c })
request_type_lem h (one (int (pos n))) = refl
request_type_lem h (one (int (negsuc n))) = refl
request_type_lem h (one (text t)) = refl
request_type_lem h (many xs) = refl

module _ (m : Msgpack) where
  -- Only the first header is read for the type, whatever follows it.
  pub get_req_type_lem :
      (p : Packet) (h : Header) (hs : List Header) (r : UnpackReturn)
      → Decodes m p (map header_value (h ∷ hs)) r
      → Named h
      → get_req_type m p ≡ kind_of h
  unfolding get_req_type
  get_req_type_lem p h hs r (off, e, d) n =
      rw (e, get_req_type, extract_header_lem h n) (request_type_lem h h.content)

  -- A packet with no object has the type FAILED.
  pub get_req_type-empty :
      (p : Packet) (r : UnpackReturn) → Decodes m p [] r → get_req_type m p ≡ done failed
  unfolding get_req_type
  get_req_type-empty p r e = rw (e, get_req_type)
