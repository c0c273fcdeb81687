-- ===== src/Common/Wire.antt =====
-- common/common.c: sending a packet, as its length in network byte order and its bytes.
pub mod Delivery
use rpc_broker.Common.Receive.{check}
use rpc_broker.Outcome.{done}
use rpc_broker.Action.{Action, lift, gets, pure}
use rpc_broker.Msgpack.{Msgpack, Packet}
use rpc_broker.Common.Headers.{unpack_data}
use rpc_broker.Common.ByteOrder.{htonl}
use rpc_broker.Stulibc.{Net, Ptr, Sent, given}
use rpc_broker.Base.{
  ℕ, zero, suc, ◌+◌, ◌-◌, ◌*◌, ◌/◌, ◌%◌, ◌^◌, ◌≤◌, ◌<◌, String, ◌≡◌, refl, sym, ap, ◌∙◌, subst, ◌≢◌,
  ◌↔◌, ◌⊎◌, inl, inr, Bool, true, false, not, ◌&&◌, ◌||◌, Option, none, some, List, [], ◌∷◌, ◌++◌,
  reverse, arith, is_negative, ◌+ℤ◌,
}
use rpc_broker.Base.{
  ltb, leb, ◌==◌, if◌then◌else◌, ltb→lt, lt→ltb, le→ltb, ==_iff, Bool-cases, Option-cases,
}
use rpc_broker.Base.{
  length, get_elem?, set, erase_idx, take, drop, replicate, find_idx, length-append, length-map,
  length-replicate, length-reverse, take-append, drop-append, length-erase_idx,
}
use rpc_broker.Base.{
  Text, codes, text_eq, text_eq_refl, text_eq→eq, text_eq-ne, until_nul, NoNul, until_nul-NoNul,
  NoNul-until_nul, length-until_nul,
}
use rpc_broker.Base.{
  ℤ, pos, negsuc, int32, rounds, int_eq, int_eq_refl, int_eq→eq, int32-small, InRange,
  int32-InRange,
}
use rpc_broker.Action.{◌>>=◌, ◌>>◌}

module _ (net : Net) where
  abbrev send : Option Text → Option Text → List ℕ → Action (List Sent) ℤ
  send address port bytes sent =
      let result = net.send (length sent) bytes in
      (
        done result,
        sent ++ record { address = address; port = port; bytes = bytes; result = result } ∷ [],
      )

  unfoldable pub send_data : Option Text → Option Text → Packet → Action (List Sent) ℤ
  unfolding htonl
  send_data address port packet = do
    size_sent ← send address port (htonl packet.len)
    lift (check net (is_negative size_sent))
    data_sent ← send address port (take packet.len packet.buffer)
    lift (check net (is_negative data_sent))
    pure (size_sent +ℤ data_sent)

  -- What is printed on the way is left out; the loop that prints it is run.
  unfoldable pub send_req : Msgpack → Packet → Ptr → Ptr → Action (List Sent) ℤ
  send_req m packet address port = do
    lift (unpack_data m packet)
    address' ← lift (given address)
    port' ← lift (given port)
    n ← gets length
    lift (net.net_tcp_client n address' port')
    send_data address' port' packet
