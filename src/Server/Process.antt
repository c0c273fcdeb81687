-- ===== src/Server/Process.antt =====
-- server/server.c: ReadAndProcessDataOnSocket
pub mod Serving
use rpc_broker.Base.{
  ℕ, zero, suc, ◌+◌, ◌-◌, ◌*◌, ◌/◌, ◌%◌, ◌^◌, ◌≤◌, ◌<◌, String, ◌≡◌, refl, sym, ap, ◌∙◌, subst, ◌≢◌,
  ◌↔◌, ◌⊎◌, inl, inr, Bool, true, false, not, ◌&&◌, ◌||◌, Option, none, some, List, [], ◌∷◌, ◌++◌,
  reverse, arith,
}
use rpc_broker.Base.{
  ltb, leb, ◌==◌, if◌then◌else◌, ltb→lt, lt→ltb, le→ltb, ==_iff, Bool-cases, Option-cases,
}
use rpc_broker.Base.{
  length, get_elem?, set, erase_idx, take, drop, replicate, find_idx, length-append, length-map,
  length-replicate, length-reverse, take-append, drop-append, length-erase_idx,
}
use rpc_broker.Base.{
  Text, codes, text_eq, text_eq_refl, text_eq→eq, text_eq-ne, until_nul, NoNul, until_nul-NoNul,
  NoNul-until_nul, length-until_nul,
}
use rpc_broker.Base.{
  ℤ, pos, negsuc, int32, rounds, int_eq, int_eq_refl, int_eq→eq, int32-small, InRange,
  int32-InRange,
}
use rpc_broker.Env.{Env}
use rpc_broker.Msgpack.{Packet}
use rpc_broker.Server.Marshal.{Call, unpack_marshal_call_send}
use rpc_broker.Common.Headers.{get_req_type, unpack_data}
use rpc_broker.Common.Protocol.{service_request, service_registration_ack}
use rpc_broker.Common.Receive.{read_body}
use rpc_broker.Common.ByteOrder.{ntohl}
use rpc_broker.Stulibc.{Net}
use rpc_broker.Outcome.{Outcome, done, fault}
use rpc_broker.Action.{Action, pure, lift, gets, modify, ◌>>=◌, ◌>>◌}

-- `isRegistered`, and the calls that were made.
pub record Process : Type 0 where
  pub is_registered : Bool
  pub calls : List Call

module _ (net : Net) where
  -- The body is read before the lengths are tested.
  abbrev pub body_of : Option ℕ → List ℕ → Outcome Packet
  body_of none rest = fault
  body_of (some len) rest = read_body net len (net.net_readn rest len)

  abbrev pub packet_from : Option (List ℕ × List ℕ) → Outcome Packet
  packet_from none = fault
  packet_from (some (size, rest)) = body_of (ntohl size) rest

  unfoldable pub receive : List ℕ → Outcome Packet
  unfolding ntohl
  receive incoming = packet_from (net.net_readn incoming 4)

module _ (e : Env) (answer : List Call → Call → Outcome (Unit {0})) where
  open e use {msgpack as m, stulibc as l, net}

  abbrev pub serve : Packet → Action Process (Unit {0})
  serve packet = do
    calls ← gets (λ s. s.calls)
    calls' ← lift (unpack_marshal_call_send l answer m packet calls)
    modify λ s. record s { calls = calls' }

  -- Anything else is only reported.
  unfoldable pub act : Packet → ℤ → Action Process (Unit {0})
  act packet request_type =
      if int_eq request_type service_registration_ack
      then modify (λ s. record s { is_registered = true })
      else do
        is_registered ← gets (λ s. s.is_registered)
        if int_eq request_type service_request && is_registered then serve packet else pure tt

  unfoldable pub read_and_process : List ℕ → Action Process (Unit {0})
  read_and_process incoming = do
    packet ← lift (receive net incoming)
    lift (unpack_data m packet)
    request_type ← lift (get_req_type m packet)
    act packet request_type
