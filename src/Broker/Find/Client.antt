-- ===== src/Broker/Find/Client.antt =====
-- The search for a client takes the first request with the response's id and operation.
use mathlib.Core.List.{append_assoc, append-nil}
use rpc_broker.Broker.Find.{answers, search_client, find_client_for_response}
use rpc_broker.Common.Protocol.{message_id_hdr, operation_hdr}
use rpc_broker.Common.Headers.{get_hdr_int, get_hdr_str}
use rpc_broker.Stulibc.{to, Stulibc, IsStulibc}
use rpc_broker.Msgpack.{Msgpack, Packet}
use rpc_broker.Broker.State.{ClientReg, Location}
use rpc_broker.Base.{
  ℕ, suc, ◌<◌, ◌≡◌, refl, ◌∙◌, Bool, ◌&&◌, Option, none, some, List, [], ◌∷◌, ◌++◌, arith, map,
  get_elem?-append, erase_idx-append, shift, length-snoc, true, int_eq_refl, text_eq_refl,
}
use rpc_broker.Base.{if◌then◌else◌}
use rpc_broker.Base.{length, length-append, length-map}
use rpc_broker.Base.{Text, text_eq}
use rpc_broker.Base.{ℤ, int_eq}
use rpc_broker.Outcome.{done}

-- A client's request, as the broker keeps it.
pub record Request : Type 0 where
  pub address : Text
  pub port : Text
  pub operation : Text
  pub message_id : ℤ

abbrev pub creg_of : Request → ClientReg
creg_of r = record {
  address = to r.address;
  port = to r.port;
  operation = to r.operation;
  message_id = r.message_id;
}

abbrev pub is_for : ℤ → Text → Request → Bool
is_for id op r = int_eq id r.message_id && text_eq op r.operation

pub is_for_self : (r : Request) → is_for r.message_id r.operation r ≡ true
is_for_self r = rw (int_eq_refl r.message_id, text_eq_refl r.operation)

-- The request before the others that the search takes out.
abbrev pub put_back : Request → Option (Request × List Request) → Option (Request × List Request)
put_back r none = none
put_back r (some (q, rest)) = some (q, r ∷ rest)

-- The reference: the first request that the response is for, and the others in their order.
abbrev pub take_request : ℤ → Text → List Request → Option (Request × List Request)
take_request id op [] = none
take_request id op (r ∷ rs) =
    let later = put_back r (take_request id op rs) in if is_for id op r then some (r, rs) else later

-- What the search gives, behind the requests `pre` that it has passed over.
abbrev pub client_result :
    List ClientReg
    → Location
    → List Request
    → Option (Request × List Request)
    → Location × List ClientReg
client_result pre dest rs none = (dest, pre ++ map creg_of rs)
client_result pre dest rs (some (q, rest)) =
    (record { address = to q.address; port = to q.port }, pre ++ map creg_of rest)

client_result_shift :
    (pre : List ClientReg) (dest : Location) (r : Request) (rs : List Request)
    (o : Option (Request × List Request))
    → client_result (pre ++ creg_of r ∷ []) dest rs o
      ≡ client_result pre dest (r ∷ rs) (put_back r o)
client_result_shift pre dest r rs none = rw append_assoc
client_result_shift pre dest r rs (some (q, rest)) = rw append_assoc

module _ (m : Msgpack) (l : Stulibc) (sl : IsStulibc l) (packet : Packet) (id : ℤ) (op : Text) where
  module _ (ids : get_hdr_int m packet message_id_hdr ≡ done id)
      (ops : get_hdr_str l m packet operation_hdr ≡ done (to op)) where
    answers_lem : (r : Request) → answers l (creg_of r) id (to op) ≡ done (is_for id op r)
    answers_lem r = rw (sl.str_equals_lem op r.operation) (ground arith)

    search_client_lem :
        (dest : Location) (rs : List Request) (repo pre : List ClientReg) (j : ℕ)
        → repo ≡ pre ++ map creg_of rs
        → j ≡ length pre
        → search_client l m packet (length rs) j dest repo
          ≡ done (client_result pre dest rs (take_request id op rs))
    unfolding search_client
    search_client_lem dest [] repo pre j e h = rw (e, append-nil)
    search_client_lem dest (r ∷ rs) repo pre j e h =
        rw (at_j, ids, ops, answers_lem r, deleted)
          (ground (
            arith,
            client_result_shift pre dest r rs (take_request id op rs),
            search_client_lem dest rs repo (pre ++ creg_of r ∷ []) (suc j)
                (shift repo pre (creg_of r) (map creg_of rs) e)
                (omega (arith, h, length-snoc pre (creg_of r))),
          ))
      where
        at_j : l.list_get ClientReg repo j ≡ some (creg_of r)
        at_j =
            sl.list_get_lem ClientReg repo j
            ∙ (rw (e, h) (get_elem?-append pre (creg_of r) (map creg_of rs)))

        inside : j < length repo
        inside = rw (e, length-append pre (creg_of r ∷ map creg_of rs)) (omega (arith, h))

        deleted : l.list_delete_node ClientReg repo j ≡ pre ++ map creg_of rs
        deleted =
            sl.list_delete_node_lem ClientReg repo j inside
            ∙ (rw (e, h) (erase_idx-append pre (creg_of r) (map creg_of rs)))

    -- A response finds the first request with its id and operation, and takes it out of the
    -- repository; the others stay in their order. If there is none, nothing changes.
    pub find_client_for_response_lem :
        (dest : Location) (rs : List Request)
        → find_client_for_response l m packet dest (map creg_of rs)
          ≡ done (client_result [] dest rs (take_request id op rs))
    unfolding find_client_for_response
    find_client_for_response_lem dest rs =
        rw (length-map creg_of rs) (search_client_lem dest rs (map creg_of rs) [] 0 refl refl)
