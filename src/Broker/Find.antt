-- ===== src/Broker/Find.antt =====
-- broker/find_server_for_request.c and broker/find_client_for_response.c
pub mod Server
pub mod Client
use rpc_broker.Common.Protocol.{message_id_hdr, operation_hdr}
use rpc_broker.Msgpack.{Msgpack, Packet}
use rpc_broker.Common.Headers.{get_op_name, get_hdr_int, get_hdr_str}
use rpc_broker.Broker.State.{ServiceReg, ClientReg, Location}
use rpc_broker.Stulibc.{Ptr, Stulibc, given, null}
use rpc_broker.Base.{
  ℕ, zero, suc, ◌+◌, ◌-◌, ◌*◌, ◌/◌, ◌%◌, ◌^◌, ◌≤◌, ◌<◌, String, ◌≡◌, refl, sym, ap, ◌∙◌, subst, ◌≢◌,
  ◌↔◌, ◌⊎◌, inl, inr, Bool, true, false, not, ◌&&◌, ◌||◌, Option, none, some, List, [], ◌∷◌, ◌++◌,
  reverse, arith,
}
use rpc_broker.Base.{
  ltb, leb, ◌==◌, if◌then◌else◌, ltb→lt, lt→ltb, le→ltb, ==_iff, Bool-cases, Option-cases,
}
use rpc_broker.Base.{
  length, get_elem?, set, erase_idx, take, drop, replicate, find_idx, length-append, length-map,
  length-replicate, length-reverse, take-append, drop-append, length-erase_idx,
}
use rpc_broker.Base.{
  Text, codes, text_eq, text_eq_refl, text_eq→eq, text_eq-ne, until_nul, NoNul, until_nul-NoNul,
  NoNul-until_nul, length-until_nul,
}
use rpc_broker.Base.{
  ℤ, pos, negsuc, int32, rounds, int_eq, int_eq_refl, int_eq→eq, int32-small, InRange,
  int32-InRange,
}
use rpc_broker.Outcome.{◌>>=◌, Outcome, fault, done}

-- `services[i]`
abbrev pub service_at : Option (List Ptr) → ℕ → Outcome (Option Text)
service_at none i = fault
service_at (some cells) i = elim (get_elem? cells i) [ some p ↦ given p | none ↦ fault ]

module _ (l : Stulibc) where
  -- The inner loop: whether one of the next `n` services, from index `i`, is the operation.
  unfoldable pub offers : ℕ → ℕ → Option Text → Option (List Ptr) → Outcome Bool
  offers zero i op services = done false
  offers (suc n) i op services =
      let rest = offers n (suc i) op services in
      service_at services i >>= λ name.
      l.str_equals op name >>= λ same. if same then done true else rest

  -- The outer loop: the next `n` registrations, from index `j`.
  unfoldable pub search_server : ℕ → ℕ → Option Text → List ServiceReg → Outcome Location
  unfolding offers
  search_server zero j op repo = done (record { address = null; port = null })
  search_server (suc n) j op repo =
      let rest = search_server n (suc j) op repo in
      elim (l.list_get ServiceReg repo j) [
        | none ↦ fault
        | some reg ↦ offers (rounds reg.num_services) 0 op reg.services >>= λ found.
            if found then done (record { address = reg.address; port = reg.port }) else rest
      ]

  unfoldable pub find_server_for_req : Msgpack → Packet → List ServiceReg → Outcome Location
  unfolding get_op_name search_server
  find_server_for_req m packet repo = get_op_name l m packet >>= λ op_name.
      if length repo == 0
      then done (record { address = null; port = null })
      else (given op_name >>= λ op. search_server (length repo) 0 op repo)

  -- Whether a response, with this id and operation, answers a request.
  abbrev pub answers : ClientReg → ℤ → Ptr → Outcome Bool
  answers entry id requested =
      if int_eq id entry.message_id
      then (given requested >>= λ a. given entry.operation >>= λ b. l.str_equals a b)
      else done false

  -- The loop over the requests. The response's headers are read again in each round. The result is
  -- the location and what is left of the repository.
  unfoldable pub search_client :
      Msgpack → Packet → ℕ → ℕ → Location → List ClientReg → Outcome (Location × List ClientReg)
  unfolding get_hdr_int get_hdr_str
  search_client m packet zero j dest repo = done (dest, repo)
  search_client m packet (suc n) j dest repo =
      let rest = search_client m packet n (suc j) dest repo in
      elim (l.list_get ClientReg repo j) [
        | none ↦ fault
        | some entry ↦ get_hdr_int m packet message_id_hdr >>= λ id.
            get_hdr_str l m packet operation_hdr >>= λ requested.
            answers entry id requested >>= λ same.
            if same
            then done (
              record { address = entry.address; port = entry.port },
              l.list_delete_node ClientReg repo j,
            )
            else rest
      ]

  unfoldable pub find_client_for_response :
      Msgpack → Packet → Location → List ClientReg → Outcome (Location × List ClientReg)
  unfolding search_client
  find_client_for_response m packet dest repo = search_client m packet (length repo) 0 dest repo
