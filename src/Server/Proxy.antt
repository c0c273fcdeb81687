-- ===== src/Server/Proxy.antt =====
-- server/server-proxy.c, which server/generate_proxy.pl makes from the prototypes of
-- server/server_interface.h.
pub mod Sending
pub mod Answering
pub mod Passing
pub mod Replies
use rpc_broker.Stulibc.{to, null}
use rpc_broker.Server.Respond.{pack_client_response_data}
use rpc_broker.Outcome.{◌>>=◌, Outcome, done, fault}
use rpc_broker.Msgpack.{Msgpack, Scalar}
use rpc_broker.Server.Marshal.{Call, Param, number, string, missing}
use rpc_broker.Common.Prototypes.{
  Prototype, CType, Args, ValueOf, passed, conversions, int_type, char_ptr,
}
use rpc_broker.Base.{
  ℕ, zero, suc, ◌+◌, ◌-◌, ◌*◌, ◌/◌, ◌%◌, ◌^◌, ◌≤◌, ◌<◌, String, ◌≡◌, refl, sym, ap, ◌∙◌, subst, ◌≢◌,
  ◌↔◌, ◌⊎◌, inl, inr, Bool, true, false, not, ◌&&◌, ◌||◌, Option, none, some, List, [], ◌∷◌, ◌++◌,
  reverse, arith,
}
use rpc_broker.Base.{
  ltb, leb, ◌==◌, if◌then◌else◌, ltb→lt, lt→ltb, le→ltb, ==_iff, Bool-cases, Option-cases,
}
use rpc_broker.Base.{
  length, get_elem?, set, erase_idx, take, drop, replicate, find_idx, length-append, length-map,
  length-replicate, length-reverse, take-append, drop-append, length-erase_idx,
}
use rpc_broker.Base.{
  Text, codes, text_eq, text_eq_refl, text_eq→eq, text_eq-ne, until_nul, NoNul, until_nul-NoNul,
  NoNul-until_nul, length-until_nul,
}
use rpc_broker.Base.{
  ℤ, pos, negsuc, int32, rounds, int_eq, int_eq_refl, int_eq→eq, int32-small, InRange,
  int32-InRange,
}

-- A function of the interface, and what it does.
pub record Operation : Type 0 where
  pub prototype : Prototype
  pub body : Args prototype.params → Outcome (ValueOf prototype.result)

-- The low 32 bits of an `int64_t`, which are the first ones in memory.
abbrev pub low_half : ℤ → ℤ
low_half (pos n) = int32 n
low_half (negsuc n) = int32 (2 ^ 64 - 1 - n)

-- `*(int*) params[i]` and `(char*) params[i]`. To read a value as one of the other type is a fault.
abbrev pub param_as : (t : CType) → Param → Outcome (ValueOf t)
param_as int_type (number i) = done (low_half i)
param_as int_type (string t) = fault
param_as int_type missing = fault
param_as char_ptr (string t) = done (to t)
param_as char_ptr (number i) = fault
param_as char_ptr missing = done null

-- The parameters from the first one on; to read past the array is a fault.
abbrev pub param_gets : (ts : List CType) → List Param → Outcome (Args ts)
param_gets [] ps = done tt
param_gets (t ∷ ts) [] = fault
param_gets (t ∷ ts) (p ∷ ps) = param_as t p >>= λ v. param_gets ts ps >>= λ vs. done (v, vs)

-- The call of the function, and its result as an argument of `pack_client_response_data`.
abbrev pub result_of : Operation → Call → Outcome Scalar
result_of o call = param_gets o.prototype.params call.params >>= λ args.
    o.body args >>= λ v. passed o.prototype.result v

abbrev pub response_for : Msgpack → Operation → Call → Outcome (List ℕ)
response_for m o call = result_of o call >>= λ x.
    pack_client_response_data m call.operation call.message_id
      (conversions (o.prototype.result ∷ [])) (x ∷ [])
