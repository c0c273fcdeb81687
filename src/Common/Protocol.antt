-- ===== src/Common/Protocol.antt =====
-- common/protocol.h
pub mod Names
use rpc_broker.Base.{
  ℕ, zero, suc, ◌+◌, ◌-◌, ◌*◌, ◌/◌, ◌%◌, ◌^◌, ◌≤◌, ◌<◌, String, ◌≡◌, refl, sym, ap, ◌∙◌, subst, ◌≢◌,
  ◌↔◌, ◌⊎◌, inl, inr, Bool, true, false, not, ◌&&◌, ◌||◌, Option, none, some, List, [], ◌∷◌, ◌++◌,
  reverse, arith,
}
use rpc_broker.Base.{
  ltb, leb, ◌==◌, if◌then◌else◌, ltb→lt, lt→ltb, le→ltb, ==_iff, Bool-cases, Option-cases,
}
use rpc_broker.Base.{
  length, get_elem?, set, erase_idx, take, drop, replicate, find_idx, length-append, length-map,
  length-replicate, length-reverse, take-append, drop-append, length-erase_idx,
}
use rpc_broker.Base.{
  Text, codes, text_eq, text_eq_refl, text_eq→eq, text_eq-ne, until_nul, NoNul, until_nul-NoNul,
  NoNul-until_nul, length-until_nul,
}
use rpc_broker.Base.{
  ℤ, pos, negsuc, int32, rounds, int_eq, int_eq_refl, int_eq→eq, int32-small, InRange,
  int32-InRange,
}

unfoldable pub message_id_hdr : Text
message_id_hdr = codes "message-id"

unfoldable pub operation_hdr : Text
operation_hdr = codes "op"

unfoldable pub reply_port_hdr : Text
reply_port_hdr = codes "reply-port"

unfoldable pub sender_address_hdr : Text
sender_address_hdr = codes "sender-address"

unfoldable pub service_name_hdr : Text
service_name_hdr = codes "service-name"

unfoldable pub services_count_hdr : Text
services_count_hdr = codes "services-count"

unfoldable pub reply_hdr : Text
reply_hdr = codes "reply"

unfoldable pub request_type_hdr : Text
request_type_hdr = codes "request-type"

unfoldable pub service_params_hdr : Text
service_params_hdr = codes "params"

unfoldable pub services_hdr : Text
services_hdr = codes "services"

abbrev pub max_header_name_size : ℕ
max_header_name_size = 20

abbrev pub max_port_chars : ℕ
max_port_chars = 20

abbrev pub max_address_chars : ℕ
max_address_chars = 29

-- enum RequestType, as the `int` that a message carries
abbrev pub service_request : ℤ
service_request = pos 0

abbrev pub service_request_response : ℤ
service_request_response = pos 1

abbrev pub service_registration : ℤ
service_registration = pos 2

abbrev pub service_registration_ack : ℤ
service_registration_ack = pos 3

abbrev pub failed : ℤ
failed = pos 4
