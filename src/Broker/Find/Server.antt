-- ===== src/Broker/Find/Server.antt =====
-- The search for a server is the search for the first registration that offers the operation.
use rpc_broker.Common.Headers.{get_op_name}
use rpc_broker.Common.Protocol.{operation_hdr}
use rpc_broker.Common.Headers.Lookup.{AllNamed, first_text, get_op_name_lem, ptr_or}
use rpc_broker.Msgpack.Loop.{Decodes}
use rpc_broker.Msgpack.{Msgpack, IsCodec, Packet, Header, header_value, continue}
use rpc_broker.Broker.Find.{
  offers, search_server, done, service_at, Msgpack, find_server_for_req, Packet, operation_hdr,
  get_op_name,
}
use rpc_broker.Broker.State.{ServiceReg, Location}
use rpc_broker.Stulibc.{Ptr, Stulibc, to, null, IsStulibc}
use rpc_broker.Base.{
  ℕ, suc, ◌≡◌, refl, ap, ◌∙◌, Bool, false, ◌||◌, Option, none, some, List, [], ◌∷◌, ◌++◌, arith,
  map, get_elem?-append, shift, length-snoc,
}
use rpc_broker.Base.{◌==◌, if◌then◌else◌}
use rpc_broker.Base.{length, length-map}
use rpc_broker.Base.{Text, text_eq}
use rpc_broker.Base.{pos}
use rpc_broker.Outcome.{done}

-- A registration whose fields are all set: `spare` are the cells of its block past the names.
pub record Service : Type 0 where
  pub address : Text
  pub port : Text
  pub name : Text
  pub services : List Text
  pub spare : List Ptr

abbrev pub reg_of : Service → ServiceReg
reg_of s = record {
  address = to s.address;
  port = to s.port;
  services = some (map to s.services ++ s.spare);
  service_name = to s.name;
  num_services = pos (length s.services);
}

abbrev pub contains : Text → List Text → Bool
contains op [] = false
contains op (name ∷ names) = text_eq op name || contains op names

-- The reference: the first registration, in the order of the repository, that offers `op`.
abbrev pub find_service : Text → List Service → Option Service
find_service op [] = none
find_service op (s ∷ svcs) =
    let later = find_service op svcs in if contains op s.services then some s else later

abbrev pub location_of : Option Service → Location
location_of none = record { address = null; port = null }
location_of (some s) = record { address = to s.address; port = to s.port }

module _ (l : Stulibc) (sl : IsStulibc l) where
  offers_lem :
      (op : Text) (names : List Text) (spare cells pre : List Ptr) (i : ℕ)
      → cells ≡ pre ++ (map to names ++ spare)
      → i ≡ length pre
      → offers l (length names) i (some op) (some cells) ≡ done (contains op names)
  unfolding offers
  offers_lem op [] spare cells pre i e h = refl
  offers_lem op (name ∷ names) spare cells pre i e h =
      rw (at_i, sl.str_equals_lem op name)
        (ground (
          arith,
          offers_lem op names spare cells (pre ++ to name ∷ []) (suc i)
              (shift cells pre (to name) (map to names ++ spare) e)
              (omega (arith, h, length-snoc pre (to name))),
        ))
    where
      at_i : service_at (some cells) i ≡ done (some name)
      at_i = rw (e, h) (rw (get_elem?-append pre (to name) (map to names ++ spare), service_at))

  search_server_lem :
      (op : Text) (svcs : List Service) (repo pre : List ServiceReg) (j : ℕ)
      → repo ≡ pre ++ map reg_of svcs
      → j ≡ length pre
      → search_server l (length svcs) j (some op) repo ≡ done (location_of (find_service op svcs))
  unfolding search_server
  search_server_lem op [] repo pre j e h = refl
  search_server_lem op (s ∷ svcs) repo pre j e h =
      rw (at_j, offers_lem op s.services s.spare (map to s.services ++ s.spare) [] 0 refl refl)
        (ground (
          arith,
          search_server_lem op svcs repo (pre ++ reg_of s ∷ []) (suc j)
              (shift repo pre (reg_of s) (map reg_of svcs) e)
              (omega (arith, h, length-snoc pre (reg_of s))),
        ))
    where
      at_j : l.list_get ServiceReg repo j ≡ some (reg_of s)
      at_j =
          sl.list_get_lem ServiceReg repo j
          ∙ (rw (e, h) (get_elem?-append pre (reg_of s) (map reg_of svcs)))

module _ (m : Msgpack) (c : IsCodec m) (l : Stulibc) (sl : IsStulibc l) where
  empty :
      (op : Text) (svcs : List Service)
      → (if length svcs == 0
          then done (record { address = null; port = null })
          else done (location_of (find_service op svcs)))
        ≡ done (location_of (find_service op svcs))
  empty op [] = refl
  empty op (s ∷ svcs) = ground arith

  pub find_server-op_name :
      (packet : Packet) (op : Text) (svcs : List Service)
      → get_op_name l m packet ≡ done (to op)
      → find_server_for_req l m packet (map reg_of svcs) ≡ done (location_of (find_service op svcs))
  unfolding find_server_for_req
  find_server-op_name packet op svcs o =
      rw (o, length-map reg_of svcs)
        (rw (search_server_lem l sl op svcs (map reg_of svcs) [] 0 refl refl) (empty op svcs))

  -- A request for `op` is answered with the address of the first registration that offers `op`,
  -- and with NULL for address and port if no registration does, also if there is none at all.
  pub find_server_for_req_lem :
      (packet : Packet) (hs : List Header) (op : Text) (svcs : List Service)
      → Decodes m packet (map header_value hs) continue
      → AllNamed hs
      → first_text operation_hdr hs ≡ some op
      → find_server_for_req l m packet (map reg_of svcs) ≡ done (location_of (find_service op svcs))
  find_server_for_req_lem packet hs op svcs d n f =
      find_server-op_name packet op svcs
        (get_op_name_lem m c l sl packet hs d n ∙ ap (λ o. done (ptr_or null o)) f)
