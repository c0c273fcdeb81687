-- ===== src/Common/Receive.antt =====
-- common/common.c: receiving a packet.
pub mod Frames
use rpc_broker.Msgpack.{Packet}
use rpc_broker.Outcome.{Outcome, done, fault}
use rpc_broker.Common.ByteOrder.{ntohl}
use rpc_broker.Stulibc.{Net}
use rpc_broker.Base.{
  ℕ, zero, suc, ◌+◌, ◌-◌, ◌*◌, ◌/◌, ◌%◌, ◌^◌, ◌≤◌, ◌<◌, String, ◌≡◌, refl, sym, ap, ◌∙◌, subst, ◌≢◌,
  ◌↔◌, ◌⊎◌, inl, inr, Bool, true, false, not, ◌&&◌, ◌||◌, Option, none, some, List, [], ◌∷◌, ◌++◌,
  reverse, arith,
}
use rpc_broker.Base.{
  ltb, leb, ◌==◌, if◌then◌else◌, ltb→lt, lt→ltb, le→ltb, ==_iff, Bool-cases, Option-cases,
}
use rpc_broker.Base.{
  length, get_elem?, set, erase_idx, take, drop, replicate, find_idx, length-append, length-map,
  length-replicate, length-reverse, take-append, drop-append, length-erase_idx,
}
use rpc_broker.Base.{
  Text, codes, text_eq, text_eq_refl, text_eq→eq, text_eq-ne, until_nul, NoNul, until_nul-NoNul,
  NoNul-until_nul, length-until_nul,
}
use rpc_broker.Base.{
  ℤ, pos, negsuc, int32, rounds, int_eq, int_eq_refl, int_eq→eq, int32-small, InRange,
  int32-InRange,
}
use rpc_broker.Outcome.{◌>>=◌, ◌>>◌}

module _ (net : Net) where
  -- `netError(1, errno, ...)` if the call before failed
  abbrev pub check : Bool → Outcome (Unit {0})
  check failed = if failed then net.net_error else done tt

  -- The second read. Bytes that were not read leave the buffer unset, so going on with them is a
  -- fault.
  abbrev pub whole : ℕ → List ℕ → Outcome Packet
  whole len body = if length body == len then done (record { len = len; buffer = body }) else fault

  abbrev pub read_body : ℕ → Option (List ℕ × List ℕ) → Outcome Packet
  read_body len none = do net.net_error; fault
  read_body len (some (body, rest)) = do check (length body == 0); whole len body

  abbrev read_rest : Option ℕ → List ℕ → Outcome Packet
  read_rest none rest = fault
  read_rest (some len) rest = read_body len (net.net_readn rest len)

  abbrev read_len : Option (List ℕ × List ℕ) → Outcome Packet
  read_len none = do net.net_error; fault
  read_len (some (size, rest)) = do check (length size == 0); read_rest (ntohl size) rest

  -- The packet that arrives on a socket with these bytes to come.
  unfoldable pub get_response : List ℕ → Outcome Packet
  unfolding ntohl
  get_response incoming = read_len (net.net_readn incoming 4)
