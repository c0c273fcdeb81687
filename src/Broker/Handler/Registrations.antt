-- ===== src/Broker/Handler/Registrations.antt =====
-- A server's registration: it is written down, stored, and acknowledged.
use rpc_broker.Broker.Find.{find_server_for_req}
use rpc_broker.Stulibc.Insert.{Inserts-map}
use rpc_broker.Broker.Unpack.Packed.{
  registration_headers, registered, registration_headers-Named, unpack_registration,
}
use rpc_broker.Msgpack.Loop.{Decodes}
use rpc_broker.Common.Headers.Lookup.{
  first_text, last_int, get_hdr_int_lem, get_hdr_str_lem, ptr_or, AllNamed,
}
use rpc_broker.Broker.Ack.Retry.{ack_loop-up}
use rpc_broker.Broker.State.{ServiceReg}
use rpc_broker.Common.Wire.Delivery.{IsWhole, frame}
use rpc_broker.Common.Protocol.{
  message_id_hdr, reply_port_hdr, sender_address_hdr, request_type_hdr, service_name_hdr,
  services_count_hdr, services_hdr, operation_hdr,
}
use rpc_broker.Common.Headers.{get_hdr_int, get_hdr_str}
use rpc_broker.Broker.Database.{registration_queries}
use rpc_broker.Outcome.{done}
use rpc_broker.Broker.Unpack.{unpack_service_registration_buffer}
use rpc_broker.Broker.Handler.View.{View, state_of}
use rpc_broker.Broker.Find.Server.{
  Service, reg_of, contains, find_service, find_server_for_req_lem, location_of,
}
use rpc_broker.Msgpack.{Packet, header_value, continue, Header}
use rpc_broker.Broker.Ack.{send_svc_req_ack, ack_packet}
use rpc_broker.Broker.Printing.{print_service_repository}
use rpc_broker.Broker.State.{Broker}
use rpc_broker.Action.{pure}
use rpc_broker.Base.{Bool, false, if◌then◌else◌, subst, sym}
use rpc_broker.Broker.Handler.{
  perform_diagnostics, reg_svc_req, send_svc_req_ack, Packet, unpack_service_registration_buffer,
  registration_queries, get_hdr_int, message_id_hdr, get_hdr_str, reply_port_hdr,
  sender_address_hdr, ServiceReg, unset, operation_hdr, find_server_for_req,
}
use rpc_broker.Stulibc.{IsUp, to, Inserts, unset}
use rpc_broker.Env.{Env, IsLawful}
use rpc_broker.Base.{◌<◌, ◌≡◌, refl, ap, ◌∙◌, inl, inr, true, some, List, [], ◌∷◌, ◌++◌, map}
use rpc_broker.Base.{Bool-cases}
use rpc_broker.Base.{length}
use rpc_broker.Base.{Text, text_eq, until_nul}
use rpc_broker.Base.{ℤ, pos}

module _ (address port name : Text) (names : List Text) where
  -- A registration carries no message id.
  registration-message_id :
      last_int message_id_hdr (registration_headers address port name names) (pos 0) ≡ pos 0
  unfolding message_id_hdr request_type_hdr sender_address_hdr reply_port_hdr service_name_hdr
      services_count_hdr services_hdr text_eq
  registration-message_id = refl

  registration-reply_port :
      first_text reply_port_hdr (registration_headers address port name names)
      ≡ some (until_nul port)
  unfolding sender_address_hdr reply_port_hdr text_eq
  registration-reply_port = refl

  registration-sender_address :
      first_text sender_address_hdr (registration_headers address port name names)
      ≡ some (until_nul address)
  unfolding sender_address_hdr text_eq
  registration-sender_address = refl

print_service_repository-done :
    (services : List Service) → print_service_repository (map reg_of services) ≡ done tt
unfolding print_service_repository
print_service_repository-done [] = refl
print_service_repository-done (s ∷ services) = print_service_repository-done services

-- Registrations that came in packets can be printed.
diagnostics :
    (e : Env) (verbose : Bool) (services : List Service) (b : Broker)
    → b.svc_repo ≡ map reg_of services
    → (if verbose then perform_diagnostics e else pure tt) b ≡ (done tt, b)
unfolding perform_diagnostics
diagnostics e true services b h =
    ap (λ o. (o, b)) (ap print_service_repository h ∙ print_service_repository-done services)
diagnostics e false services b h = refl

module _ (e : Env) (law : IsLawful e) (up : IsUp e.net) where
  open e use {msgpack as m, stulibc as l}

  reg_svc_req_run :
      (packet : Packet) (s : Service) (v : View) (svcs : List Service) (queries : List Text)
      (id : ℤ)
      → unpack_service_registration_buffer l m packet ≡ done (reg_of s)
      → registration_queries e.qry_overrun (reg_of s) ≡ done queries
      → get_hdr_int m packet message_id_hdr ≡ done id
      → get_hdr_str l m packet reply_port_hdr ≡ done (to s.port)
      → get_hdr_str l m packet sender_address_hdr ≡ done (to s.address)
      → IsWhole (ack_packet e id)
      → l.list_add ServiceReg (map reg_of v.services) (reg_of s) ≡ map reg_of svcs
      → reg_svc_req e packet (state_of v) ≡ (
        done tt,
        state_of (record v {
          services = svcs;
          executed = v.executed ++ queries;
          sent = v.sent ++ frame s.address s.port (ack_packet e id);
        }),
      )
  unfolding reg_svc_req send_svc_req_ack
  reg_svc_req_run packet s v svcs queries id u q i p a w written =
      rw (u, written, q, i, p, a, ack_loop-up e law up (ack_packet e id) s.address s.port v.sent w)
        (diagnostics e v.verbose svcs
          (state_of (record v {
            services = svcs;
            executed = v.executed ++ queries;
            sent = v.sent ++ frame s.address s.port (ack_packet e id);
          }))
          refl)

  -- On a network that is up, where the program goes on after the writes past qry and the
  -- acknowledgement fits its length: a packet of the headers of a registration of fewer than 2^31
  -- services whose statements can be printed adds exactly this registration to the services, its
  -- statements are executed in order, and one acknowledgement, with id 0, goes to the address and
  -- port that it names.
  pub reg_svc_req_lem :
      (packet : Packet) (address port name : Text) (names : List Text) (queries : List Text)
      (v : View)
      → Decodes m packet (map header_value (registration_headers address port name names)) continue
      → length names < 2147483648
      → registration_queries e.qry_overrun (reg_of (registered address port name names))
        ≡ done queries
      → IsWhole (ack_packet e (pos 0))
      → (svcs : List Service) × Inserts (registered address port name names) v.services svcs
        × (reg_svc_req e packet (state_of v) ≡ (
          done tt,
          state_of (record v {
            services = svcs;
            executed = v.executed ++ queries;
            sent = v.sent ++ frame (until_nul address) (until_nul port) (ack_packet e (pos 0));
          }),
        ))
  reg_svc_req_lem packet address port name names queries v d few q w =
      let s = registered address port name names in
      let hs = registration_headers address port name names in
      let named = registration_headers-Named address port name names in
      let (svcs, ins, written) =
        Inserts-map reg_of s v.services (l.list_add ServiceReg (map reg_of v.services) (reg_of s))
          (law.lists.list_add_inserts ServiceReg (map reg_of v.services) (reg_of s)) in
      (
        svcs,
        ins,
        reg_svc_req_run packet s v svcs queries (pos 0)
            (unpack_registration m law.codec l law.lists packet address port name names d few) q
            (get_hdr_int_lem m law.codec packet hs message_id_hdr d named
              ∙ ap done (registration-message_id address port name names))
            (get_hdr_str_lem m law.codec l law.lists packet hs continue reply_port_hdr d named
              ∙ ap (λ t. done (ptr_or unset t)) (registration-reply_port address port name names))
            (get_hdr_str_lem m law.codec l law.lists packet hs continue sender_address_hdr d named
              ∙ ap (λ t. done (ptr_or unset t))
                  (registration-sender_address address port name names))
            w written,
      )

-- None of these registrations offers the operation.
abbrev pub NoneOffers : Text → List Service → Type 0
NoneOffers op [] = Unit
NoneOffers op (s ∷ ss) = (contains op s.services ≡ false) × NoneOffers op ss

-- The first of the registrations that offers the operation is the one that the search gives.
abbrev FirstOffering : Text → List Service → Type 0
FirstOffering op ys =
    (t : Service) × (passed_over : List Service) × (rest : List Service) × (ys
      ≡ passed_over ++ t ∷ rest)
    × (contains op t.services ≡ true)
    × NoneOffers op passed_over
    × (find_service op ys ≡ some t)

find_service-append :
    (op : Text) (s : Service) (before after : List Service)
    → contains op s.services ≡ true
    → FirstOffering op (before ++ s ∷ after)
find_service-append op s [] after h = (s, [], after, refl, h, tt, rw h)
find_service-append op s (x ∷ before) after h = elim (Bool-cases (contains op x.services)) [
  | inl y ↦ (x, [], before ++ s ∷ after, refl, y, tt, rw y)
  | inr n ↦
      let (t, passed_over, rest, e, g, none_offers, f) = find_service-append op s before after h in
      (t, x ∷ passed_over, rest, ap (◌∷◌ x) e, g, (n, none_offers), rw n f)
]

find_service-Inserts :
    (op : Text) (s : Service) (xs ys : List Service)
    → Inserts s xs ys
    → contains op s.services ≡ true
    → FirstOffering op ys
find_service-Inserts op s xs ys (before, after, split, joined) h =
    subst (FirstOffering op) (sym joined) (find_service-append op s before after h)

module _ (e : Env) (law : IsLawful e) where
  -- When a service is among the registrations, wherever, a request for an operation that it offers
  -- finds the address and the port of one of the registrations: of one that offers the operation,
  -- while none before it does.
  pub registered_is_found :
      (packet : Packet) (hs : List Header) (op : Text) (s : Service) (xs ys : List Service)
      → Decodes e.msgpack packet (map header_value hs) continue
      → AllNamed hs
      → first_text operation_hdr hs ≡ some op
      → Inserts s xs ys
      → contains op s.services ≡ true
      → (t : Service) × (passed_over : List Service) × (rest : List Service) × (ys
          ≡ passed_over ++ t ∷ rest)
        × (contains op t.services ≡ true)
        × NoneOffers op passed_over
        × (find_server_for_req e.stulibc e.msgpack packet (map reg_of ys)
            ≡ done (record { address = to t.address; port = to t.port }))
  registered_is_found packet hs op s xs ys d n o ins h =
      let (t, passed_over, rest, split, g, none_offers, f) =
        find_service-Inserts op s xs ys ins h in
      (
        t,
        passed_over,
        rest,
        split,
        g,
        none_offers,
        find_server_for_req_lem e.msgpack law.codec e.stulibc law.lists packet hs op ys d n o
            ∙ ap (λ w. done (location_of w)) f,
      )
