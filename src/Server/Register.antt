-- ===== src/Server/Register.antt =====
-- server/service_register_with_broker.c
pub mod Packed
pub mod Sending
use rpc_broker.Common.Protocol.{
  service_name_hdr, reply_port_hdr, sender_address_hdr, request_type_hdr, service_registration,
  services_count_hdr, services_hdr,
}
use rpc_broker.Common.Pack.{pack_map_str, pack_map_int}
use rpc_broker.Env.{Env}
use rpc_broker.Stulibc.{Ptr, to, null, unset, given}
use rpc_broker.Base.{
  ℕ, zero, suc, ◌+◌, ◌-◌, ◌*◌, ◌/◌, ◌%◌, ◌^◌, ◌≤◌, ◌<◌, String, ◌≡◌, refl, sym, ap, ◌∙◌, subst, ◌≢◌,
  ◌↔◌, ◌⊎◌, inl, inr, Bool, true, false, not, ◌&&◌, ◌||◌, Option, none, some, List, [], ◌∷◌, ◌++◌,
  reverse, arith,
}
use rpc_broker.Base.{
  ltb, leb, ◌==◌, if◌then◌else◌, ltb→lt, lt→ltb, le→ltb, ==_iff, Bool-cases, Option-cases,
}
use rpc_broker.Base.{
  length, get_elem?, set, erase_idx, take, drop, replicate, find_idx, length-append, length-map,
  length-replicate, length-reverse, take-append, drop-append, length-erase_idx,
}
use rpc_broker.Base.{
  Text, codes, text_eq, text_eq_refl, text_eq→eq, text_eq-ne, until_nul, NoNul, until_nul-NoNul,
  NoNul-until_nul, length-until_nul,
}
use rpc_broker.Base.{
  ℤ, pos, negsuc, int32, rounds, int_eq, int_eq_refl, int_eq→eq, int32-small, InRange,
  int32-InRange,
}
use rpc_broker.Outcome.{◌>>=◌, Outcome, fault, done}

-- server/server_interface.c: the names, which a NULL ends
unfoldable pub services : List Ptr
services =
    to (codes "getBrokerName")
    ∷ to (codes "echo")
    ∷ to (codes "add")
    ∷ to (codes "sayHello")
    ∷ to (codes "getServerDate")
    ∷ to (codes "sayDog")
    ∷ to (codes "diffirence")
    ∷ null
    ∷ []

unfoldable pub service_name_text : Text
service_name_text = codes "theServiceName"

-- `while (services[i] != NULL) i++`, from index `i` on; running past the array is a fault.
unfoldable pub count_services : List Ptr → ℕ → Outcome ℕ
count_services [] i = fault
count_services (unset ∷ ps) i = fault
count_services (null ∷ ps) i = done i
count_services (to t ∷ ps) i = count_services ps (i + 1)

module _ (e : Env) where
  open e use {msgpack as m, stulibc as l}

  -- The body of the packing loop; `strlen` of a NULL is a fault.
  abbrev pack_service : Option Text → List ℕ → Outcome (List ℕ)
  pack_service none sbuf = if l.str_is_null_or_empty none then done sbuf else fault
  pack_service (some t) sbuf = done (
      if l.str_is_null_or_empty (some t)
      then sbuf
      else sbuf ++ (m.pack_str (length t) ++ m.pack_str_body t))

  abbrev pub pack_service_at : List Ptr → ℕ → List ℕ → Outcome (List ℕ)
  pack_service_at ps i sbuf = elim (get_elem? ps i) [
    | none ↦ fault
    | some p ↦ given p >>= λ t. pack_service t sbuf
  ]

  -- `while (i >= 0) { ...; i--; }`
  unfoldable pub pack_services : List Ptr → ℕ → List ℕ → Outcome (List ℕ)
  pack_services ps zero sbuf = pack_service_at ps zero sbuf
  pack_services ps (suc i) sbuf = pack_service_at ps (suc i) sbuf >>= pack_services ps i

  -- The message, of the services in the array.
  unfoldable pub registration_sbuf : Text → Text → List Ptr → Outcome (List ℕ)
  registration_sbuf address port ps =
      let sbuf = pack_map_str m service_name_hdr service_name_text (
        pack_map_str m reply_port_hdr port (
          pack_map_str m sender_address_hdr address
            (pack_map_int m request_type_hdr service_registration []))) in
      count_services ps 0 >>= λ i. pack_services ps i (
        pack_map_int m services_count_hdr (pos i) sbuf
        ++ (m.pack_map 1 ++ (m.pack_str 8 ++ (m.pack_str_body services_hdr ++ m.pack_array i))))
