-- ===== src/Server/Register/Sending.antt =====
-- server/service_register_with_broker.c: the message is sent, and what the broker makes of it.
use rpc_broker.Base.{◌<◌, ◌≡◌, refl, List, ◌++◌, reverse}
use rpc_broker.Base.{length}
use rpc_broker.Base.{Text}
use rpc_broker.Env.{Env, IsLawful}
use rpc_broker.Msgpack.{Packet, pack_headers, packet_of, AllFit}
use rpc_broker.Msgpack.Loop.Packed.{Decodes-pack_headers}
use rpc_broker.Server.Register.{registration_sbuf, service_name_text}
use rpc_broker.Server.Register.Packed.{name_array, NoneEmpty, registration_sbuf_lem}
use rpc_broker.Broker.Unpack.{unpack_service_registration_buffer}
use rpc_broker.Broker.Unpack.Packed.{registration_headers, registered, unpack_registration}
use rpc_broker.Broker.Find.Server.{reg_of}
use rpc_broker.Common.Pack.{sbuf_packet, sbuf_packet_lem}
use rpc_broker.Common.ByteOrder.{uint32}
use rpc_broker.Common.Wire.{send_req}
use rpc_broker.Common.Wire.Delivery.{frame, send_req_lem}
use rpc_broker.Stulibc.{Ptr, to, Sent, IsUp}
use rpc_broker.Outcome.{done}
use rpc_broker.Action.{Action, pure, lift, ◌>>=◌, ◌>>◌}

module _ (e : Env) where
  open e use {msgpack as m, net}

  -- `ps` is the array `services`. What `send_req` gives is not looked at.
  unfoldable pub service_register_with_broker :
      Text → Text → Text → Text → List Ptr → Action (List Sent) (Unit {0})
  service_register_with_broker broker_address broker_port address port ps = do
    sbuf ← lift (registration_sbuf e address port ps)
    send_req net m (sbuf_packet sbuf) (to broker_address) (to broker_port)
    pure tt

module _ (e : Env) (law : IsLawful e) (up : IsUp e.net) where
  open e use {msgpack as m, stulibc as l}

  -- On a network that is up, with names that are not empty and headers that fit the format and the
  -- packet's length, a server sends one packet to the broker, and the broker unpacks it to a registration with the
  -- server's address and port, and with its services, in reverse order.
  pub service_register_with_broker_lem :
      (broker_address broker_port address port : Text) (zs : List Text) (sent : List Sent)
      → NoneEmpty zs
      → AllFit (registration_headers address port service_name_text zs)
      → length zs < 2147483648
      → length (pack_headers m (registration_headers address port service_name_text zs)) < uint32
      → (packet : Packet) × (service_register_with_broker e broker_address broker_port address port
            (name_array (reverse zs))
            sent
          ≡ (done tt, sent ++ frame broker_address broker_port packet))
        × (unpack_service_registration_buffer l m packet
            ≡ done (reg_of (registered address port service_name_text zs)))
  unfolding service_register_with_broker
  service_register_with_broker_lem broker_address broker_port address port zs sent ne fit few
        short =
      let sbuf = pack_headers m (registration_headers address port service_name_text zs) in
      (
        packet_of sbuf,
        rw
            (
              registration_sbuf_lem e law address port zs ne,
              sbuf_packet_lem sbuf short,
              send_req_lem m law.codec e.net up broker_address broker_port (packet_of sbuf) sent
                  refl,
            )
            refl,
        unpack_registration m law.codec l law.lists (packet_of sbuf) address port service_name_text
            zs
            (Decodes-pack_headers m law.codec
              (registration_headers address port service_name_text zs) fit)
            few,
      )
