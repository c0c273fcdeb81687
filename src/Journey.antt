-- ===== src/Journey.antt =====
-- A request on its way: client/pack_client_request_data.c, read_data of broker/broker.c, and
-- ReadAndProcessDataOnSocket of server/server.c.
pub mod Reply
pub mod RoundTrip
pub mod RemoteCall
pub mod Faulting
pub mod Session
use rpc_broker.Common.Receive.Frames.{framed}
use rpc_broker.Base.{ℕ, ◌<◌, ◌≡◌, refl, ◌∙◌, true, List, [], ◌∷◌, ◌++◌, arith, map}
use rpc_broker.Base.{length, drop}
use rpc_broker.Base.{Text, text_eq, until_nul}
use rpc_broker.Base.{pos, int32}
use rpc_broker.Env.{Env, IsLawful}
use rpc_broker.Msgpack.{
  Packet, Scalar, header_value, continue, pack_headers, packet_of, AllFit, Msgpack,
}
use rpc_broker.Msgpack.Loop.{Decodes}
use rpc_broker.Msgpack.Loop.Packed.{Decodes-pack_headers}
use rpc_broker.Common.Headers.{get_req_type}
use rpc_broker.Common.Headers.Kind.{get_req_type_lem}
use rpc_broker.Common.Headers.Lookup.{AllNamed, Named}
use rpc_broker.Common.Pack.Laws.{int_header_of}
use rpc_broker.Common.Protocol.{
  operation_hdr, message_id_hdr, request_type_hdr, sender_address_hdr, reply_port_hdr,
  service_params_hdr, service_request,
}
use rpc_broker.Common.Protocol.Names.{
  message_id_hdr-IsName, operation_hdr-IsName, reply_port_hdr-IsName, sender_address_hdr-IsName,
  request_type_hdr-IsName, service_params_hdr-IsName,
}
use rpc_broker.Common.Format.Laws.{format_of}
use rpc_broker.Common.ByteOrder.{htonl, uint32}
use rpc_broker.Client.Pack.{client_headers, pack_client_request_data, pack_client_request_data_lem}
use rpc_broker.Broker.Find.Client.{Request}
use rpc_broker.Broker.Handler.{read_data, dispatch}
use rpc_broker.Broker.Handler.View.{View, state_of, Asks, Asks-headers}
use rpc_broker.Broker.Handler.Requests.{after_request, on_service_request_lem}
use rpc_broker.Broker.Handler.Reading.{read_data_lem}
use rpc_broker.Server.Marshal.{Call}
use rpc_broker.Server.Marshal.Requests.{call_of, unpack_marshal_call_send_lem}
use rpc_broker.Server.Process.{read_and_process, act}
use rpc_broker.Server.Process.Serving.{receive-frame, read_and_process_lem}
use rpc_broker.Stulibc.{Inserts, IsUp, Reads}
use rpc_broker.Outcome.{Outcome, done}

-- The pending request that the broker keeps for a client's message.
abbrev pub asked : Text → Text → ℕ → Text → Request
asked address port id op = record {
  address = until_nul address;
  port = until_nul port;
  operation = until_nul op;
  message_id = int32 id;
}

abbrev pub request_packet : Msgpack → Text → Text → ℕ → Text → List Scalar → Packet
request_packet m address port id op args =
    packet_of (pack_headers m (client_headers address port (pos id) op args))

client_headers-AllNamed :
    (address port : Text) (id : ℕ) (op : Text) (args : List Scalar)
    → AllNamed (client_headers address port (pos id) op args)
client_headers-AllNamed address port id op args = search (
  request_type_hdr-IsName, message_id_hdr-IsName, sender_address_hdr-IsName, reply_port_hdr-IsName,
  operation_hdr-IsName, service_params_hdr-IsName,
)

module _ (e : Env) (law : IsLawful e) where
  open e use {msgpack as m, stulibc as l, net}

  pub client_request-Asks :
      (packet : Packet) (address port : Text) (id : ℕ) (op : Text) (args : List Scalar)
      → packet.len ≡ length packet.buffer
      → Decodes m packet (map header_value (client_headers address port (pos id) op args)) continue
      → Asks e packet (asked address port id op)
  unfolding text_eq request_type_hdr message_id_hdr sender_address_hdr reply_port_hdr operation_hdr
      service_params_hdr
  client_request-Asks packet address port id op args w d =
      Asks-headers e law packet (client_headers address port (pos id) op args)
        (asked address port id op) w d (client_headers-AllNamed address port id op args) refl refl
        refl refl

  pub client_request-type :
      (packet : Packet) (address port : Text) (id : ℕ) (op : Text) (args : List Scalar)
      → Decodes m packet (map header_value (client_headers address port (pos id) op args)) continue
      → get_req_type m packet ≡ done service_request
  unfolding text_eq request_type_hdr int32
  client_request-type packet address port id op args d =
      get_req_type_lem m packet (int_header_of request_type_hdr service_request)
        (drop 1 (client_headers address port (pos id) op args)) continue d request_type_hdr-IsName

  pub not_empty :
      (packet : Packet) (address port : Text) (id : ℕ) (op : Text) (args : List Scalar)
      → Decodes m packet (map header_value (client_headers address port (pos id) op args)) continue
      → 0 < packet.len
  not_empty packet address port id op args (off, e', d) =
      let far = law.codec.advances packet 0 off _ e' in omega (arith, far.0, far.1)

  -- The packet that a client packs, at the broker and at a registered server.
  pub request_arrives :
      (up : IsUp net) (reads : Reads net) (answer : List Call → Call → Outcome (Unit {0}))
      (address port : Text) (id : ℕ) (op : Text) (args : List Scalar) (v : View) (calls : List Call)
      (rest rest' : List ℕ)
      → AllFit (client_headers address port (pos id) op args)
      → length (pack_headers m (client_headers address port (pos id) op args)) < uint32
      → answer calls (call_of id op args) ≡ done tt
      → (rs : List Request) × Inserts (asked address port id op) v.requests rs
        × (read_data e (framed (request_packet m address port id op args) rest) (state_of v) ≡ (
          done tt,
          state_of (
              after_request
                (request_packet m address port id op args)
                (asked address port id op)
                v
                rs),
        ))
        × (read_and_process e answer
              (framed (request_packet m address port id op args) rest')
              (record { is_registered = true; calls = calls })
            ≡ (done tt, record { is_registered = true; calls = calls ++ call_of id op args ∷ [] }))
  unfolding dispatch act
  request_arrives up reads answer address port id op args v calls rest rest' fit short ok =
      let packet = request_packet m address port id op args in
      let d = Decodes-pack_headers m law.codec (client_headers address port (pos id) op args) fit in
      let some_bytes = not_empty packet address port id op args d in
      let kind = client_request-type packet address port id op args d in
      let (rs, ins, handled) =
        on_service_request_lem e law up packet (asked address port id op) v
          (client_request-Asks packet address port id op args refl d) in
      (
        rs,
        ins,
        read_data_lem e law reads packet rest service_request (state_of v) refl some_bytes short
              kind
            ∙ handled,
        rw
            (
              read_and_process_lem e law answer (framed packet rest') packet service_request
                  (record { is_registered = true; calls = calls })
                  (receive-frame net reads packet rest' refl some_bytes short, kind),
              unpack_marshal_call_send_lem m law.codec l law.lists answer packet address port id op
                  args calls d,
              ok,
            )
            refl,
      )

  -- On a network that is up and whose reads are not cut short, when the headers fit the format and
  -- the packet its length: the packet that a client packs is written down by the broker and sent on to the first server
  -- that offers the operation, if any; a registered server that reads it makes exactly the call that
  -- the client asked for, if that call returns.
  pub request_reaches_server :
      (up : IsUp net) (reads : Reads net) (answer : List Call → Call → Outcome (Unit {0}))
      (address port : Text) (id : ℕ) (op : Text) (args : List Scalar) (v : View) (calls : List Call)
      (rest rest' : List ℕ)
      → AllFit (client_headers address port (pos id) op args)
      → length (pack_headers m (client_headers address port (pos id) op args)) < uint32
      → answer calls (call_of id op args) ≡ done tt
      → (packet : Packet) × (pack_client_request_data m address port
            (pos id)
            op
            (format_of args)
            args
          ≡ done packet.buffer)
        × (rs : List Request) × Inserts (asked address port id op) v.requests rs
        × (read_data e (framed packet rest) (state_of v)
            ≡ (done tt, state_of (after_request packet (asked address port id op) v rs)))
        × (read_and_process e answer
              (framed packet rest')
              (record { is_registered = true; calls = calls })
            ≡ (done tt, record { is_registered = true; calls = calls ++ call_of id op args ∷ [] }))
  request_reaches_server up reads answer address port id op args v calls rest rest' fit short ok =
      let (rs, ins, handled, served) =
        request_arrives up reads answer address port id op args v calls rest rest' fit short ok in
      (
        request_packet m address port id op args,
        pack_client_request_data_lem m address port (pos id) op args,
        rs,
        ins,
        handled,
        served,
      )
