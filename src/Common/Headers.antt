-- ===== src/Common/Headers.antt =====
-- common/common.c: the functions that read the headers of a packet.
pub mod Lookup
pub mod Kind
pub mod Ends
use rpc_broker.Outcome.{Outcome, done, ◌>>=◌, fault, exited}
use rpc_broker.Stulibc.{Stulibc, Ptr, unset, null, to}
use rpc_broker.Msgpack.Loop.{Ending, each_object, Flow, leave, next, drained, left}
use rpc_broker.Msgpack.{
  Value, Msgpack, Packet, success, Entries, stopped, parse_error, continue, nomem_error,
}
use rpc_broker.Common.Protocol.{max_header_name_size, request_type_hdr, operation_hdr, failed}
use rpc_broker.Base.{
  ℕ, zero, suc, ◌+◌, ◌-◌, ◌*◌, ◌/◌, ◌%◌, ◌^◌, ◌≤◌, ◌<◌, String, ◌≡◌, refl, sym, ap, ◌∙◌, subst, ◌≢◌,
  ◌↔◌, ◌⊎◌, inl, inr, Bool, true, false, not, ◌&&◌, ◌||◌, Option, none, some, List, [], ◌∷◌, ◌++◌,
  reverse, arith,
}
use rpc_broker.Base.{
  ltb, leb, ◌==◌, if◌then◌else◌, ltb→lt, lt→ltb, le→ltb, ==_iff, Bool-cases, Option-cases,
}
use rpc_broker.Base.{
  length, get_elem?, set, erase_idx, take, drop, replicate, find_idx, length-append, length-map,
  length-replicate, length-reverse, take-append, drop-append, length-erase_idx,
}
use rpc_broker.Base.{
  Text, codes, text_eq, text_eq_refl, text_eq→eq, text_eq-ne, until_nul, NoNul, until_nul-NoNul,
  NoNul-until_nul, length-until_nul,
}
use rpc_broker.Base.{
  ℤ, pos, negsuc, int32, rounds, int_eq, int_eq_refl, int_eq→eq, int32-small, InRange,
  int32-InRange,
}

-- The key is copied into `header_buffer`, which has 20 bytes, all zero; the callers then read it as
-- a C string. A key that does not leave a NUL there is a fault, and so is a key that is no string.
abbrev fits_name : List ℕ → Bool
fits_name k = leb (length k) max_header_name_size && ltb (length (until_nul k)) max_header_name_size

abbrev key_name : Value → Value → Outcome (Text × Value)
key_name (Value.str k) val = if fits_name k then done (until_nul k, val) else fault
key_name _ val = fault

unfoldable pub extract_header : Value → Outcome (Text × Value)
extract_header (Value.map (Entries.entry key val Entries.empty)) = key_name key val
extract_header _ = exited 1

abbrev request_type : Text × Value → Outcome ℤ
request_type (name, Value.positive_integer n) =
    if text_eq request_type_hdr name then done (int32 n) else exited 1
request_type (name, _) = exited 1

unfoldable pub get_req_type : Msgpack → Packet → Outcome ℤ
unfolding extract_header
get_req_type m pkt = elim (m.unpack_next pkt 0) [
  | success obj off ↦ extract_header obj >>= request_type
  | stopped r ↦ done failed
]

-- The value after one more object.
abbrev int_header : Text → ℤ → Text × Value → ℤ
int_header look value (name, Value.positive_integer n) =
    if text_eq look name then int32 n else value
int_header look value (name, _) = value

unfoldable pub int_round : Text → ℤ → Value → Outcome (Flow ℤ ⊥)
unfolding extract_header
int_round look value obj = extract_header obj >>= λ kv. done (next (int_header look value kv))

abbrev pub int_result : Ending ℤ ⊥ → Outcome ℤ
int_result (drained value parse_error) = exited 1
int_result (drained value continue) = done value
int_result (drained value nomem_error) = done value
int_result (left b) = fault

unfoldable pub get_hdr_int : Msgpack → Packet → Text → Outcome ℤ
unfolding each_object int_round
get_hdr_int m packet look = each_object m (int_round look) packet (pos 0) >>= int_result

module _ (l : Stulibc) where
  -- A string header with the name ends the loop.
  abbrev pub str_header : Text → Text × Value → Outcome (Flow (Unit {0}) Text)
  str_header look (name, Value.str bs) = l.str_equals (some look) (some name) >>= λ same.
      done (if same then leave (until_nul bs) else next tt)
  str_header look (name, _) = done (next tt)

  unfoldable pub str_round : Text → Unit {0} → Value → Outcome (Flow (Unit {0}) Text)
  unfolding extract_header
  str_round look u obj = extract_header obj >>= str_header look

  -- `str` is returned as it was declared, unset, if no header was found.
  abbrev pub str_result : Ending (Unit {0}) Text → Outcome Ptr
  str_result (drained u r) = done unset
  str_result (left t) = done (to t)

  unfoldable pub get_hdr_str : Msgpack → Packet → Text → Outcome Ptr
  unfolding each_object str_round
  get_hdr_str m packet look = each_object m (str_round look) packet tt >>= str_result

  abbrev op_value : Bool → Value → Flow (Unit {0}) Text
  op_value true (Value.str bs) = leave (until_nul bs)
  op_value _ val = next tt

  unfoldable pub op_round : Unit {0} → Value → Outcome (Flow (Unit {0}) Text)
  unfolding extract_header
  op_round u obj = extract_header obj >>= λ kv.
      l.str_equals (some operation_hdr) (some kv.0) >>= λ same. done (op_value same kv.1)

  abbrev pub op_result : Ending (Unit {0}) Text → Outcome Ptr
  op_result (drained u parse_error) = exited 1
  op_result (drained u continue) = done null
  op_result (drained u nomem_error) = done null
  op_result (left t) = done (to t)

  unfoldable pub get_op_name : Msgpack → Packet → Outcome Ptr
  unfolding each_object op_round
  get_op_name m packet = each_object m op_round packet tt >>= op_result

-- The objects that `unpack_data` prints when it is verbose, and whether it reports bad data.
abbrev pub display : List Value → Value → Outcome (Flow (List Value) ⊥)
display shown obj = done (next (shown ++ obj ∷ []))

abbrev pub displayed : Ending (List Value) ⊥ → Outcome (List Value × Bool)
displayed (drained shown parse_error) = done (shown, true)
displayed (drained shown continue) = done (shown, false)
displayed (drained shown nomem_error) = done (shown, false)
displayed (left b) = fault

unfoldable pub unpack_data : Msgpack → Packet → Outcome (List Value × Bool)
unfolding each_object
unpack_data m packet =
    if packet.len == 0 then done ([], false) else each_object m display packet [] >>= displayed
