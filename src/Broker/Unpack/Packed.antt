-- ===== src/Broker/Unpack/Packed.antt =====
-- The broker reads back the registration that a server packs.
use rpc_broker.Msgpack.Loop.Rounds.{each_object_lem}
use rpc_broker.Broker.Unpack.Fields.{
  field_type, field_count, field_address, field_port, field_name, store_services_lem,
}
use rpc_broker.Broker.State.{ServiceReg}
use rpc_broker.Msgpack.Loop.{each_value, next, drained, Decodes}
use rpc_broker.Common.Protocol.{
  request_type_hdr, service_registration, sender_address_hdr, reply_port_hdr, service_name_hdr,
  services_count_hdr, services_hdr,
}
use rpc_broker.Common.Protocol.Names.{
  request_type_hdr-IsName, sender_address_hdr-IsName, reply_port_hdr-IsName,
  service_name_hdr-IsName, services_count_hdr-IsName, services_hdr-IsName,
}
use rpc_broker.Common.Pack.Laws.{int_header_of, text_header_of}
use rpc_broker.Stulibc.{Stulibc, unset, IsStulibc, to}
use rpc_broker.Broker.Unpack.{
  allocated, unset, registration_round, ServiceReg, registration_field, blank, sender_address_hdr,
  reply_port_hdr, done, service_name_hdr, next, drained, services_count_hdr, to, store_services,
  Msgpack, unpack_service_registration_buffer, Packet,
}
use rpc_broker.Common.Headers.Lookup.{AllNamed, Named, extract_header_lem}
use rpc_broker.Broker.Find.Server.{Service, reg_of}
use rpc_broker.Msgpack.{
  Header, UnpackReturn, header_value, content_value, many, text, values, Msgpack, IsCodec, Packet,
  continue,
}
use rpc_broker.Base.{
  ℕ, ◌/◌, ◌<◌, ◌≡◌, refl, ap, ◌∙◌, some, List, [], ◌∷◌, ◌++◌, arith, map, replicate-add,
}
use rpc_broker.Base.{length, replicate, length-map}
use rpc_broker.Base.{Text, until_nul}
use rpc_broker.Base.{pos, int32, int32-small}
use rpc_broker.Outcome.{done}

-- The headers of a registration, in the order of the protocol.
abbrev pub registration_headers : Text → Text → Text → List Text → List Header
registration_headers address port name services =
    int_header_of request_type_hdr service_registration
    ∷ text_header_of sender_address_hdr address
    ∷ text_header_of reply_port_hdr port
    ∷ text_header_of service_name_hdr name
    ∷ int_header_of services_count_hdr (pos (length services))
    ∷ record { name = services_hdr; content = many (map text services) }
    ∷ []

-- The service that is registered by it: each string up to its first NUL. An eighth more cells than
-- names are allocated.
abbrev pub registered : Text → Text → Text → List Text → Service
registered address port name services = record {
  address = until_nul address;
  port = until_nul port;
  name = until_nul name;
  services = map until_nul services;
  spare = replicate (length services / 8) unset;
}

pub registration_headers-Named :
    (address port name : Text) (services : List Text)
    → AllNamed (registration_headers address port name services)
registration_headers-Named address port name services = search (
  request_type_hdr-IsName, sender_address_hdr-IsName, reply_port_hdr-IsName,
  service_name_hdr-IsName, services_count_hdr-IsName, services_hdr-IsName,
)

allocated_lem :
    (n : ℕ) → n < 2147483648 → allocated n ≡ replicate n unset ++ replicate (n / 8) unset
allocated_lem n few = ap (λ k. replicate k unset) (omega arith) ∙ replicate-add n (n / 8) unset

to_until : (names : List Text) → map to (map until_nul names) ≡ map (λ t. to (until_nul t)) names
to_until [] = refl
to_until (name ∷ names) = ap (◌∷◌ (to (until_nul name))) (to_until names)

-- The registration when all but the services' names has been read.
abbrev counted : Text → Text → Text → ℕ → ServiceReg
counted address port name n = record {
  address = to (until_nul address);
  port = to (until_nul port);
  services = some (allocated n);
  service_name = to (until_nul name);
  num_services = int32 n;
}

module _ (l : Stulibc) (sl : IsStulibc l) where
  round_lem :
      (h : Header) (reg reg' : ServiceReg)
      → Named h
      → registration_field l reg (h.name, content_value h.content) ≡ done reg'
      → registration_round l reg (header_value h) ≡ done (next reg')
  unfolding registration_round
  round_lem h reg reg' n f = rw (extract_header_lem h n, f)

  round_type :
      (reg : ServiceReg)
      → registration_round l reg
          (header_value (int_header_of request_type_hdr service_registration))
        ≡ done (next reg)
  round_type reg =
      round_lem (int_header_of request_type_hdr service_registration) reg reg
        request_type_hdr-IsName (field_type l sl 2 reg)

  round_address :
      (t : Text) (reg : ServiceReg)
      → registration_round l reg (header_value (text_header_of sender_address_hdr t))
        ≡ done (next (record reg { address = to (until_nul t) }))
  round_address t reg =
      round_lem (text_header_of sender_address_hdr t) reg _ sender_address_hdr-IsName
        (field_address l sl t reg)

  round_port :
      (t : Text) (reg : ServiceReg)
      → registration_round l reg (header_value (text_header_of reply_port_hdr t))
        ≡ done (next (record reg { port = to (until_nul t) }))
  round_port t reg =
      round_lem (text_header_of reply_port_hdr t) reg _ reply_port_hdr-IsName
        (field_port l sl t reg)

  round_name :
      (t : Text) (reg : ServiceReg)
      → registration_round l reg (header_value (text_header_of service_name_hdr t))
        ≡ done (next (record reg { service_name = to (until_nul t) }))
  round_name t reg =
      round_lem (text_header_of service_name_hdr t) reg _ service_name_hdr-IsName
        (field_name l sl t reg)

  round_count :
      (n : ℕ) (reg : ServiceReg)
      → registration_round l reg (header_value (int_header_of services_count_hdr (pos n)))
        ≡ done (next (record reg { num_services = int32 n; services = some (allocated n) }))
  round_count n reg =
      round_lem (int_header_of services_count_hdr (pos n)) reg _ services_count_hdr-IsName
        (field_count l sl n reg)

  round_services :
      (names : List Text) (reg : ServiceReg)
      → length names < 2147483648
      → reg.services ≡ some (allocated (length names))
      → registration_round l reg
          (header_value (record { name = services_hdr; content = many (map text names) }))
        ≡ done (
            next (record reg {
              services =
                  some (map (λ t. to (until_nul t)) names ++ replicate (length names / 8) unset);
            }))
  unfolding registration_field
  round_services names reg few e =
      round_lem (record { name = services_hdr; content = many (map text names) }) reg _
        services_hdr-IsName (rw stored)
    where
      stored :
          store_services 0 (values (map text names)) reg.services
          ≡ done (some (map (λ t. to (until_nul t)) names ++ replicate (length names / 8) unset))
      stored =
          ap (store_services 0 (values (map text names))) e
          ∙ store_services_lem names (allocated (length names)) [] 0 (length names / 8)
              (allocated_lem (length names) few) refl

  registration_rounds :
      (address port name : Text) (services : List Text) (r : UnpackReturn)
      → length services < 2147483648
      → each_value
          (registration_round l)
          (map header_value (registration_headers address port name services))
          r
          blank
        ≡ done (drained (reg_of (registered address port name services)) r)
  unfolding each_value
  registration_rounds address port name services r few = rw (
    round_type,
    round_address,
    round_port,
    round_name,
    round_count,
    round_services services (counted address port name (length services)) few refl,
    int32-small (length services) few,
    ← to_until services,
    length-map until_nul services,
  )

module _ (m : Msgpack) (c : IsCodec m) (l : Stulibc) (sl : IsStulibc l) where
  -- A packet that holds the headers of a registration of fewer than 2^31 services gives a registration with all its fields set:
  -- the address, the port, the name, and every service in its order, each up to its first NUL.
  pub unpack_registration :
      (packet : Packet) (address port name : Text) (services : List Text)
      → Decodes m packet
          (map header_value (registration_headers address port name services))
          continue
      → length services < 2147483648
      → unpack_service_registration_buffer l m packet
        ≡ done (reg_of (registered address port name services))
  unfolding unpack_service_registration_buffer
  unpack_registration packet address port name services d few = rw (
    each_object_lem m c (registration_round l) packet
        (map header_value (registration_headers address port name services)) continue blank d,
    registration_rounds l sl address port name services continue few,
  )
