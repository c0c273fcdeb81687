-- ===== src/Common/Receive/Frames.antt =====
-- A packet arrives as it was sent.
use rpc_broker.Outcome.{done}
use rpc_broker.Common.ByteOrder.{uint32, htonl, length-htonl, ntohl-htonl}
use rpc_broker.Common.Wire.Delivery.{IsWhole}
use rpc_broker.Msgpack.{Packet}
use rpc_broker.Common.Receive.{get_response, Packet, done}
use rpc_broker.Stulibc.{Net, Reads}
use rpc_broker.Base.{ℕ, ◌<◌, ◌≡◌, some, List, ◌++◌, arith}

-- What a receiver of a packet reads.
abbrev pub framed : Packet → List ℕ → List ℕ
framed packet rest = htonl packet.len ++ (packet.buffer ++ rest)

module _ (net : Net) (reads : Reads net) where
  -- What `send_data` puts on the wire for a packet that is not empty and whose length fits, `get_response`
  -- reads back, when reads are not cut short, and it leaves alone what follows.
  pub get_response-frame :
      (p : Packet) (rest : List ℕ)
      → IsWhole p
      → 0 < p.len
      → p.len < uint32
      → get_response net (htonl p.len ++ (p.buffer ++ rest)) ≡ done p
  unfolding get_response
  get_response-frame p rest w some_bytes fits =
      rw (read_size, ntohl-htonl p.len fits, read_bytes) (ground (arith, length-htonl p.len))
    where
      read_size :
          net.net_readn (htonl p.len ++ (p.buffer ++ rest)) 4 ≡ some (htonl p.len, p.buffer ++ rest)
      read_size = rw length-htonl at (reads (htonl p.len) (p.buffer ++ rest))

      read_bytes : net.net_readn (p.buffer ++ rest) p.len ≡ some (p.buffer, rest)
      read_bytes = rw (← w) at (reads p.buffer rest)
