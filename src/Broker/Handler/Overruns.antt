-- ===== src/Broker/Handler/Overruns.antt =====
-- broker/register_service.c: the statements of a registration and the array `qry` of 80 bytes.
use rpc_broker.Base.{◌<◌, ◌≡◌, refl, List, arith, map}
use rpc_broker.Base.{length}
use rpc_broker.Base.{Text}
use rpc_broker.Base.{ℤ}
use rpc_broker.Broker.Database.{
  registration_sql, registration_query, service_sql, service_query, registration_queries, qry_size,
  write_and_print,
}
use rpc_broker.Broker.Handler.{reg_svc_req}
use rpc_broker.Broker.Handler.View.{View, state_of}
use rpc_broker.Broker.Find.Server.{Service, reg_of}
use rpc_broker.Broker.State.{ServiceReg}
use rpc_broker.Broker.Unpack.Packed.{registration_headers, registered, unpack_registration}
use rpc_broker.Env.{Env, IsLawful}
use rpc_broker.Msgpack.{Packet, header_value, continue}
use rpc_broker.Msgpack.Loop.{Decodes}
use rpc_broker.Outcome.{fault}
use rpc_broker.Stulibc.{Inserts}
use rpc_broker.Stulibc.Insert.{Inserts-map}

-- What is written for a registration is longer than `qry`, whatever the names.
pub registration_query-long :
    (name address port : Text) (n : ℤ) → qry_size < length (registration_query name address port n)
unfolding registration_query registration_sql
registration_query-long name address port n = omega arith

-- So is what is written for one of its services.
pub service_query-long : (name : Text) → qry_size < length (service_query name)
unfolding service_query service_sql
service_query-long name = omega arith

write_and_print-long : (t : Text) → qry_size < length t → write_and_print fault t ≡ fault
write_and_print-long t h = ground arith

queries-overrun : (s : Service) → registration_queries fault (reg_of s) ≡ fault
unfolding registration_queries
queries-overrun s =
    let n = (reg_of s).num_services in
    rw
      (write_and_print-long (registration_query s.name s.address s.port n)
        (registration_query-long s.name s.address s.port n))
      refl

module _ (e : Env) (law : IsLawful e) where
  open e use {msgpack as m, stulibc as l}

  -- Where a write past `qry` is a fault, every registration of fewer than 2^31 services makes the
  -- broker fault: it has stored the registration by then, but executed none of its statements and
  -- sent nothing, the acknowledgement neither.
  pub reg_svc_req-overrun :
      (packet : Packet) (address port name : Text) (names : List Text) (v : View)
      → e.qry_overrun ≡ fault
      → Decodes m packet (map header_value (registration_headers address port name names)) continue
      → length names < 2147483648
      → (svcs : List Service) × Inserts (registered address port name names) v.services svcs
        × (reg_svc_req e packet (state_of v) ≡ (fault, state_of (record v { services = svcs })))
  unfolding reg_svc_req
  reg_svc_req-overrun packet address port name names v overrun d few =
      let s = registered address port name names in
      let (svcs, ins, written) =
        Inserts-map reg_of s v.services (l.list_add ServiceReg (map reg_of v.services) (reg_of s))
          (law.lists.list_add_inserts ServiceReg (map reg_of v.services) (reg_of s)) in
      (
        svcs,
        ins,
        rw
            (
              unpack_registration m law.codec l law.lists packet address port name names d few,
              written,
              overrun,
              queries-overrun s,
            )
            refl,
      )
