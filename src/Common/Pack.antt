-- ===== src/Common/Pack.antt =====
-- common/common.c: the functions that write one header. An sbuf is the bytes written so far.
pub mod Laws
use rpc_broker.Common.ByteOrder.{uint32}
use rpc_broker.Msgpack.{Msgpack, Packet, packet_of}
use rpc_broker.Base.{
  ℕ, zero, suc, ◌+◌, ◌-◌, ◌*◌, ◌/◌, ◌%◌, ◌^◌, ◌≤◌, ◌<◌, String, ◌≡◌, refl, sym, ap, ◌∙◌, subst, ◌≢◌,
  ◌↔◌, ◌⊎◌, inl, inr, Bool, true, false, not, ◌&&◌, ◌||◌, Option, none, some, List, [], ◌∷◌, ◌++◌,
  reverse, arith,
}
use rpc_broker.Base.{
  ltb, leb, ◌==◌, if◌then◌else◌, ltb→lt, lt→ltb, le→ltb, ==_iff, Bool-cases, Option-cases,
}
use rpc_broker.Base.{
  length, get_elem?, set, erase_idx, take, drop, replicate, find_idx, length-append, length-map,
  length-replicate, length-reverse, take-append, drop-append, length-erase_idx,
}
use rpc_broker.Base.{
  Text, codes, text_eq, text_eq_refl, text_eq→eq, text_eq-ne, until_nul, NoNul, until_nul-NoNul,
  NoNul-until_nul, length-until_nul,
}
use rpc_broker.Base.{
  ℤ, pos, negsuc, int32, rounds, int_eq, int_eq_refl, int_eq→eq, int32-small, InRange,
  int32-InRange,
}

module _ (m : Msgpack) where
  unfoldable pub pack_map_int : Text → ℤ → List ℕ → List ℕ
  pack_map_int key ival sbuf =
      sbuf
      ++ (m.pack_map 1 ++ (m.pack_str (length key) ++ (m.pack_str_body key ++ m.pack_int ival)))

  unfoldable pub pack_map_str : Text → Text → List ℕ → List ℕ
  pack_map_str key value sbuf =
      sbuf
      ++ (m.pack_map 1
          ++ (m.pack_str (length key)
              ++ (m.pack_str_body key ++ (m.pack_str (length value) ++ m.pack_str_body value))))

-- The packet that is sent from an sbuf: its size goes into a `uint32_t`.
abbrev pub sbuf_packet : List ℕ → Packet
sbuf_packet sbuf = record { len = length sbuf % uint32; buffer = sbuf }

-- The length of a buffer of less than 2^32 bytes is kept.
pub sbuf_packet_lem : (sbuf : List ℕ) → length sbuf < uint32 → sbuf_packet sbuf ≡ packet_of sbuf
sbuf_packet_lem sbuf h = ap (λ n. record { len = n; buffer = sbuf }) (omega (arith, h))
