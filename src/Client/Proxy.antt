-- ===== src/Client/Proxy.antt =====
-- client/client-proxy.c, which client/generate_proxy.pl makes from the prototypes of
-- server/server_interface.h.
pub mod Calling
use rpc_broker.Common.Protocol.{reply_hdr}
use rpc_broker.Common.Headers.{get_hdr_int, get_hdr_str}
use rpc_broker.Client.Pack.{pack_client_request_data}
use rpc_broker.Common.Prototypes.{
  Prototype, CType, Args, all_passed, ValueOf, conversions, int_type, char_ptr,
}
use rpc_broker.Stulibc.{Stulibc}
use rpc_broker.Msgpack.{Msgpack, Packet}
use rpc_broker.Outcome.{◌>>=◌, Outcome, fault}
use rpc_broker.Base.{
  ℕ, zero, suc, ◌+◌, ◌-◌, ◌*◌, ◌/◌, ◌%◌, ◌^◌, ◌≤◌, ◌<◌, String, ◌≡◌, refl, sym, ap, ◌∙◌, subst, ◌≢◌,
  ◌↔◌, ◌⊎◌, inl, inr, Bool, true, false, not, ◌&&◌, ◌||◌, Option, none, some, List, [], ◌∷◌, ◌++◌,
  reverse, arith,
}
use rpc_broker.Base.{
  ltb, leb, ◌==◌, if◌then◌else◌, ltb→lt, lt→ltb, le→ltb, ==_iff, Bool-cases, Option-cases,
}
use rpc_broker.Base.{
  length, get_elem?, set, erase_idx, take, drop, replicate, find_idx, length-append, length-map,
  length-replicate, length-reverse, take-append, drop-append, length-erase_idx,
}
use rpc_broker.Base.{
  Text, codes, text_eq, text_eq_refl, text_eq→eq, text_eq-ne, until_nul, NoNul, until_nul-NoNul,
  NoNul-until_nul, length-until_nul,
}
use rpc_broker.Base.{
  ℤ, pos, negsuc, int32, rounds, int_eq, int_eq_refl, int_eq→eq, int32-small, InRange,
  int32-InRange,
}

-- The C strings of the client's settings.
pub record Caller : Type 0 where
  pub client_address : Text
  pub wait_response_port : Text
  pub broker_address : Text
  pub broker_port : Text

-- `pack_client_request_data` with the name of the function and its arguments.
abbrev pub request_for : Msgpack → Caller → ℤ → (p : Prototype) → Args p.params → Outcome (List ℕ)
request_for m c id p args = all_passed p.params args >>= λ xs.
    pack_client_request_data m c.client_address c.wait_response_port id p.name
      (conversions p.params) xs

-- `get_hdr_int(result, REPLY_HDR)` and `get_hdr_str(result, REPLY_HDR)`. A result that was never set
-- is a fault.
abbrev pub result_in : Stulibc → Msgpack → (t : CType) → Option Packet → Outcome (ValueOf t)
result_in l m t none = fault
result_in l m int_type (some result) = get_hdr_int m result reply_hdr
result_in l m char_ptr (some result) = get_hdr_str l m result reply_hdr
