-- ===== src/Broker/Handler/Requests.antt =====
-- A client's request: it is written down, and goes to the server that offers the operation.
use rpc_broker.Stulibc.Insert.{Inserts-map}
use mathlib.Core.List.{append-nil}
use rpc_broker.Outcome.{done}
use rpc_broker.Broker.Handler.View.{Asks, View, state_of}
use rpc_broker.Broker.State.{Broker, ClientReg}
use rpc_broker.Broker.Find.Client.{Request, creg_of}
use rpc_broker.Broker.Handler.{
  get_sender_address, reg_clnt_req, forward, on_service_request, Broker, ClientReg,
}
use rpc_broker.Env.{Env, IsLawful}
use rpc_broker.Common.Wire.Delivery.{frame, IsWhole, send_req_lem}
use rpc_broker.Broker.Find.Server.{Service, location_of, find_service, find_server-op_name}
use rpc_broker.Msgpack.{Packet}
use rpc_broker.Stulibc.{Inserts, Sent, IsUp, to}
use rpc_broker.Base.{◌≡◌, Option, none, some, List, [], ◌++◌, arith, map}
use rpc_broker.Base.{Text}

-- What is sent for a request: the request itself, to the server that was found.
abbrev pub forwarded : Packet → Option Service → List Sent
forwarded packet none = []
forwarded packet (some s) = frame s.address s.port packet

-- The books after a request that is now among `rs`.
abbrev pub after_request : Packet → Request → View → List Request → View
after_request packet r v rs = record v {
  requests = rs;
  sent = v.sent ++ forwarded packet (find_service r.operation v.services);
}

module _ (e : Env) (law : IsLawful e) (up : IsUp e.net) where
  open e use {msgpack as m, stulibc as l}

  get_sender_address_lem :
      (packet : Packet) (r : Request) (b : Broker)
      → Asks e packet r
      → get_sender_address e packet b
        ≡ (done (record { address = to r.address; port = to r.port }), b)
  unfolding get_sender_address
  get_sender_address_lem packet r b a = rw (a.ports, a.addresses)

  reg_clnt_req_lem :
      (r : Request) (b : Broker)
      → reg_clnt_req e
          (to r.operation)
          (record { address = to r.address; port = to r.port })
          r.message_id
          b
        ≡ (done tt, record b { clnt_req_repo = l.list_add ClientReg b.clnt_req_repo (creg_of r) })
  unfolding reg_clnt_req
  reg_clnt_req_lem r b = ground arith

  forward_lem :
      (packet : Packet) (op host : Text) (found : Option Service) (b : Broker)
      → IsWhole packet
      → forward e packet (to op) (to host) (location_of found) b
        ≡ (done tt, record b { sent = b.sent ++ forwarded packet found })
  unfolding forward
  forward_lem packet op host none b w = rw append-nil
  forward_lem packet op host (some s) b w =
      rw (send_req_lem m law.codec e.net up s.address s.port packet b.sent w)

  pub on_service_request_run :
      (packet : Packet) (r : Request) (v : View) (rs : List Request)
      → Asks e packet r
      → l.list_add ClientReg (map creg_of v.requests) (creg_of r) ≡ map creg_of rs
      → on_service_request e packet (state_of v) ≡ (done tt, state_of (after_request packet r v rs))
  unfolding on_service_request
  on_service_request_run packet r v rs a written =
      rw
        (
          a.message.ops,
          get_sender_address_lem packet r (state_of v) a,
          a.message.ids,
          reg_clnt_req_lem r (state_of v),
          written,
          find_server-op_name m law.codec l law.lists packet r.operation v.services
              a.message.op_names,
        )
        (forward_lem packet r.operation r.address (find_service r.operation v.services) _
          a.message.is_whole)

  -- On a network that is up, a whole packet that reads as a request is added to the pending
  -- requests and goes unchanged to the first server that offers its operation; with no such server
  -- nothing is sent and the request stays pending.
  pub on_service_request_lem :
      (packet : Packet) (r : Request) (v : View)
      → Asks e packet r
      → (rs : List Request) × Inserts r v.requests rs
        × (on_service_request e packet (state_of v)
            ≡ (done tt, state_of (after_request packet r v rs)))
  on_service_request_lem packet r v a =
      let (rs, ins, written) =
        Inserts-map creg_of r v.requests (l.list_add ClientReg (map creg_of v.requests) (creg_of r))
          (law.lists.list_add_inserts ClientReg (map creg_of v.requests) (creg_of r)) in
      (rs, ins, on_service_request_run packet r v rs a written)
