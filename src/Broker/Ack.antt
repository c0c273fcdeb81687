-- ===== src/Broker/Ack.antt =====
-- broker/register_service.c: send_svc_req_ack
pub mod Retry
use rpc_broker.Common.Wire.{send_req}
use rpc_broker.Common.Headers.{get_hdr_int, get_hdr_str}
use rpc_broker.Outcome.{spins}
use rpc_broker.Common.Protocol.{
  message_id_hdr, request_type_hdr, service_registration_ack, reply_port_hdr, sender_address_hdr,
}
use rpc_broker.Stulibc.{Ptr, Sent}
use rpc_broker.Msgpack.{Packet}
use rpc_broker.Common.Pack.{pack_map_int, sbuf_packet}
use rpc_broker.Env.{Env}
use rpc_broker.Base.{
  ℕ, zero, suc, ◌+◌, ◌-◌, ◌*◌, ◌/◌, ◌%◌, ◌^◌, ◌≤◌, ◌<◌, String, ◌≡◌, refl, sym, ap, ◌∙◌, subst, ◌≢◌,
  ◌↔◌, ◌⊎◌, inl, inr, Bool, true, false, not, ◌&&◌, ◌||◌, Option, none, some, List, [], ◌∷◌, ◌++◌,
  reverse, arith,
}
use rpc_broker.Base.{
  ltb, leb, ◌==◌, if◌then◌else◌, ltb→lt, lt→ltb, le→ltb, ==_iff, Bool-cases, Option-cases,
}
use rpc_broker.Base.{
  length, get_elem?, set, erase_idx, take, drop, replicate, find_idx, length-append, length-map,
  length-replicate, length-reverse, take-append, drop-append, length-erase_idx,
}
use rpc_broker.Base.{
  Text, codes, text_eq, text_eq_refl, text_eq→eq, text_eq-ne, until_nul, NoNul, until_nul-NoNul,
  NoNul-until_nul, length-until_nul,
}
use rpc_broker.Base.{
  ℤ, pos, negsuc, int32, rounds, int_eq, int_eq_refl, int_eq→eq, int32-small, InRange,
  int32-InRange,
}
use rpc_broker.Action.{◌>>=◌, ◌>>◌, Action, lift, pure}

module _ (e : Env) where
  -- The message: its type, and the id of the registration, which is 0 if it carries none.
  unfoldable pub ack_packet : ℤ → Packet
  ack_packet message_id = sbuf_packet (
      pack_map_int e.msgpack message_id_hdr message_id
        (pack_map_int e.msgpack request_type_hdr service_registration_ack []))

  -- The do-while loop: at most `fuel` more attempts, `tries` the attempts before plus one.
  unfoldable pub ack_loop : ℕ → ℕ → Packet → Ptr → Ptr → Action (List Sent) (Unit {0})
  ack_loop zero tries packet address port = lift spins
  ack_loop (suc fuel) tries packet address port =
      let again = ack_loop fuel (tries + 1) packet address port in
      do
        total_sent_bytes ← send_req e.net e.msgpack packet address port
        if int_eq total_sent_bytes (pos 0) && leb (tries + 1) 3 then again else pure tt

  unfoldable pub send_svc_req_ack : Packet → Action (List Sent) (Unit {0})
  send_svc_req_ack packet = do
    message_id ← lift (get_hdr_int e.msgpack packet message_id_hdr)
    reply_port ← lift (get_hdr_str e.stulibc e.msgpack packet reply_port_hdr)
    sender_address ← lift (get_hdr_str e.stulibc e.msgpack packet sender_address_hdr)
    ack_loop 3 1 (ack_packet message_id) sender_address reply_port
