-- ===== src/Broker/Handler/Reading.antt =====
-- The handler from the socket on: the packet is read whole, and its type says what is done.
use rpc_broker.Common.Receive.Frames.{get_response-frame}
use rpc_broker.Outcome.{done}
use rpc_broker.Common.Headers.{get_req_type}
use rpc_broker.Common.ByteOrder.{uint32, htonl}
use rpc_broker.Common.Wire.Delivery.{IsWhole, unpack_data-returns}
use rpc_broker.Broker.State.{Broker}
use rpc_broker.Msgpack.{Packet}
use rpc_broker.Broker.Handler.{read_data, Packet, Broker, get_req_type, dispatch}
use rpc_broker.Stulibc.{Reads}
use rpc_broker.Env.{Env, IsLawful}
use rpc_broker.Base.{ℕ, ◌<◌, ◌≡◌, List, ◌++◌, arith}
use rpc_broker.Base.{ℤ}

module _ (e : Env) (law : IsLawful e) (reads : Reads e.net) where
  open e use {msgpack as m, net}

  -- The handler of a connection on which a packet comes in that is whole, not empty and has a type,
  -- when reads are not cut short: it acts on that packet, and on nothing
  -- else that comes in.
  pub read_data_lem :
      (packet : Packet) (rest : List ℕ) (kind : ℤ) (b : Broker)
      → IsWhole packet
      → 0 < packet.len
      → packet.len < uint32
      → get_req_type m packet ≡ done kind
      → read_data e (htonl packet.len ++ (packet.buffer ++ rest)) b ≡ dispatch e packet kind b
  unfolding read_data
  read_data_lem packet rest kind b w some_bytes fits k =
      rw
        (
          get_response-frame net reads packet rest w some_bytes fits,
          (unpack_data-returns m law.codec packet).1,
          k,
        )
        (ground arith)
