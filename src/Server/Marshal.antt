-- ===== src/Server/Marshal.antt =====
-- server/unpack_marshal_call.c
pub mod Requests
pub mod Appending
use rpc_broker.Base.{
  ℕ, zero, suc, ◌+◌, ◌-◌, ◌*◌, ◌/◌, ◌%◌, ◌^◌, ◌≤◌, ◌<◌, String, ◌≡◌, refl, sym, ap, ◌∙◌, subst, ◌≢◌,
  ◌↔◌, ◌⊎◌, inl, inr, Bool, true, false, not, ◌&&◌, ◌||◌, Option, none, some, List, [], ◌∷◌, ◌++◌,
  reverse, arith,
}
use rpc_broker.Base.{
  ltb, leb, ◌==◌, if◌then◌else◌, ltb→lt, lt→ltb, le→ltb, ==_iff, Bool-cases, Option-cases,
}
use rpc_broker.Base.{
  length, get_elem?, set, erase_idx, take, drop, replicate, find_idx, length-append, length-map,
  length-replicate, length-reverse, take-append, drop-append, length-erase_idx,
}
use rpc_broker.Base.{
  Text, codes, text_eq, text_eq_refl, text_eq→eq, text_eq-ne, until_nul, NoNul, until_nul-NoNul,
  NoNul-until_nul, length-until_nul,
}
use rpc_broker.Base.{
  ℤ, pos, negsuc, int32, rounds, int_eq, int_eq_refl, int_eq→eq, int32-small, InRange,
  int32-InRange,
}
use rpc_broker.Msgpack.{Msgpack, Packet, Value, Values}
use rpc_broker.Msgpack.Loop.{Flow, next, Ending, drained, left, each_object}
use rpc_broker.Common.Headers.{extract_header}
use rpc_broker.Common.Protocol.{operation_hdr, message_id_hdr}
use rpc_broker.Stulibc.{Stulibc}
use rpc_broker.Outcome.{Outcome, done, fault, ◌>>=◌}

-- `params[i]`: a string, an `int64_t`, or the NULL that `calloc` left.
pub data Param : Type 0 where
  string : Text → Param
  number : ℤ → Param
  missing : Param

-- The arguments of `call_marshelResponse_send`, without the broker's address.
pub record Call : Type 0 where
  pub message_id : ℤ
  pub operation : Text
  pub params : List Param

-- The variables of the loop, `none` before they are set, and the calls up to now.
pub record Locals : Type 0 where
  pub message_id : Option ℤ
  pub operation : Option Text
  pub calls : List Call

-- `param.via.i64`: the bits of an unsigned integer, read as a signed one.
unfoldable pub int64 : ℕ → ℤ
int64 n = let r = n % 2 ^ 64 in if ltb r (2 ^ 63) then pos r else negsuc (2 ^ 64 - 1 - r)

abbrev pub param : Value → Param
param (Value.str bs) = string (until_nul bs)
param (Value.positive_integer n) = number (int64 n)
param _ = missing

abbrev pub params : Values → List Param
params Values.nothing = []
params (Values.item v vs) = param v ∷ params vs

-- Variables that were never set do not make a call.
abbrev pub prepared : Option ℤ → Option Text → List Param → Outcome Call
prepared (some id) (some op) ps = done (record { message_id = id; operation = op; params = ps })
prepared (some id) none ps = fault
prepared none op ps = fault

-- `answer` stands for the generated `call_marshelResponse_send`, after the calls before.
module _ (l : Stulibc) (answer : List Call → Call → Outcome (Unit {0})) where
  abbrev pub invoke : Locals → List Param → Outcome Locals
  invoke s ps = prepared s.message_id s.operation ps >>= λ call.
      answer s.calls call >>= λ u. done (record s { calls = s.calls ++ call ∷ [] })

  -- The branches, by whether the header is the operation, or the id.
  abbrev pub request_field : Bool → Bool → Locals → Value → Outcome Locals
  request_field is_op is_id s (Value.str bs) =
      done (if is_op then record s { operation = some (until_nul bs) } else s)
  request_field is_op is_id s (Value.positive_integer n) =
      done (if is_id then record s { message_id = some (int32 n) } else s)
  request_field is_op is_id s (Value.array vs) = invoke s (params vs)
  request_field is_op is_id s _ = done s

  unfoldable pub request_round : Locals → Value → Outcome (Flow Locals ⊥)
  unfolding extract_header
  request_round s obj = extract_header obj >>= λ kv.
      l.str_equals (some operation_hdr) (some kv.0) >>= λ is_op.
      l.str_equals (some message_id_hdr) (some kv.0) >>= λ is_id.
      request_field is_op is_id s kv.1 >>= λ s'. done (next s')

  -- Bytes that are no msgpack are only reported.
  abbrev pub request_result : Ending Locals ⊥ → Outcome (List Call)
  request_result (drained s r) = done s.calls
  request_result (left b) = fault

  unfoldable pub unpack_marshal_call_send : Msgpack → Packet → List Call → Outcome (List Call)
  unfolding each_object request_round
  unpack_marshal_call_send m packet calls =
      each_object m request_round packet
        (record { message_id = none; operation = none; calls = calls })
      >>= request_result
