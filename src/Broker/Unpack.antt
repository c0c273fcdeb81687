-- ===== src/Broker/Unpack.antt =====
-- broker/unpack_service_registration_buffer.c
pub mod Fields
pub mod Packed
use rpc_broker.Common.Protocol.{
  sender_address_hdr, services_count_hdr, reply_port_hdr, service_name_hdr,
}
use rpc_broker.Msgpack.Loop.{Ending, each_object, Flow, drained, next, left}
use rpc_broker.Common.Headers.{extract_header}
use rpc_broker.Msgpack.{Values, Value, Msgpack, Packet}
use rpc_broker.Stulibc.{Ptr, Stulibc, unset, to}
use rpc_broker.Broker.State.{ServiceReg, sending}
use rpc_broker.Base.{
  ℕ, zero, suc, ◌+◌, ◌-◌, ◌*◌, ◌/◌, ◌%◌, ◌^◌, ◌≤◌, ◌<◌, String, ◌≡◌, refl, sym, ap, ◌∙◌, subst, ◌≢◌,
  ◌↔◌, ◌⊎◌, inl, inr, Bool, true, false, not, ◌&&◌, ◌||◌, Option, none, some, List, [], ◌∷◌, ◌++◌,
  reverse, arith,
}
use rpc_broker.Base.{
  ltb, leb, ◌==◌, if◌then◌else◌, ltb→lt, lt→ltb, le→ltb, ==_iff, Bool-cases, Option-cases,
}
use rpc_broker.Base.{
  length, get_elem?, set, erase_idx, take, drop, replicate, find_idx, length-append, length-map,
  length-replicate, length-reverse, take-append, drop-append, length-erase_idx,
}
use rpc_broker.Base.{
  Text, codes, text_eq, text_eq_refl, text_eq→eq, text_eq-ne, until_nul, NoNul, until_nul-NoNul,
  NoNul-until_nul, length-until_nul,
}
use rpc_broker.Base.{
  ℤ, pos, negsuc, int32, rounds, int_eq, int_eq_refl, int_eq→eq, int32-small, InRange,
  int32-InRange,
}
use rpc_broker.Outcome.{◌>>=◌, Outcome, fault, done}

-- What `malloc` leaves in the new structure.
abbrev pub blank : ServiceReg
blank = record {
  address = unset;
  port = unset;
  services = none;
  service_name = unset;
  num_services = pos 0;
}

-- Room for the names: the block has 9 bytes for each, as a `size_t`, and a pointer takes 8.
abbrev pub allocated : ℕ → List Ptr
allocated n = replicate (9 * n % 2 ^ 64 / 8) unset

-- `services[i] = str`; a write outside the block is a fault.
abbrev pub store_service : ℕ → Text → Option (List Ptr) → Outcome (Option (List Ptr))
store_service i t none = fault
store_service i t (some cells) =
    if ltb i (length cells) then done (some (set cells i (to t))) else fault

-- The loop over the array, from index `i`. An element that is no string is read as one: a fault.
unfoldable pub store_services : ℕ → Values → Option (List Ptr) → Outcome (Option (List Ptr))
store_services i Values.nothing cells = done cells
store_services i (Values.item (Value.str bs) vs) cells =
    store_service i (until_nul bs) cells >>= store_services (suc i) vs
store_services i (Values.item _ vs) cells = fault

module _ (l : Stulibc) where
  -- if / else if over the names of the string headers
  abbrev text_field : Text → Text → ServiceReg → Outcome ServiceReg
  text_field name t reg = l.str_equals (some sender_address_hdr) (some name) >>= λ is_address.
      if is_address
      then done (record reg { address = to t })
      else (l.str_equals (some reply_port_hdr) (some name) >>= λ is_port.
          if is_port
          then done (record reg { port = to t })
          else (l.str_equals (some service_name_hdr) (some name) >>= λ is_name.
              if is_name then done (record reg { service_name = to t }) else done reg))

  unfoldable pub registration_field : ServiceReg → Text × Value → Outcome ServiceReg
  unfolding store_services
  registration_field reg (name, Value.str bs) = text_field name (until_nul bs) reg
  registration_field reg (name, Value.positive_integer n) =
      l.str_equals (some services_count_hdr) (some name) >>= λ is_count. done (
        if is_count
        then record reg { num_services = int32 n; services = some (allocated n) }
        else reg)
  registration_field reg (name, Value.array vs) =
      store_services 0 vs reg.services >>= λ cells. done (record reg { services = cells })
  registration_field reg (name, _) = done reg

  unfoldable pub registration_round : ServiceReg → Value → Outcome (Flow ServiceReg ⊥)
  unfolding extract_header registration_field
  registration_round reg obj =
      extract_header obj >>= λ kv. registration_field reg kv >>= λ reg'. done (next reg')

  -- Also after bytes that are no msgpack, which are only reported.
  abbrev registration_result : Ending ServiceReg ⊥ → Outcome ServiceReg
  registration_result (drained reg r) = done reg
  registration_result (left b) = fault

  unfoldable pub unpack_service_registration_buffer : Msgpack → Packet → Outcome ServiceReg
  unfolding each_object registration_round
  unpack_service_registration_buffer m payload =
      each_object m registration_round payload blank >>= registration_result
