-- ===== src/Common/Exchange.antt =====
-- common/common.c: send_req_wait_response, and the thread that sends a request.
use rpc_broker.Base.{ℕ, ◌<◌, ◌≡◌, Bool, true, Option, none, some, List, ◌++◌, arith}
use rpc_broker.Base.{◌==◌, if◌then◌else◌}
use rpc_broker.Base.{length}
use rpc_broker.Base.{Text}
use rpc_broker.Base.{ℤ, pos, negsuc}
use rpc_broker.Msgpack.{Msgpack, IsCodec, Packet}
use rpc_broker.Common.Headers.{unpack_data}
use rpc_broker.Common.Receive.{get_response}
use rpc_broker.Common.Receive.Frames.{framed, get_response-frame}
use rpc_broker.Common.ByteOrder.{uint32}
use rpc_broker.Common.Wire.{send_data, send_req}
use rpc_broker.Common.Wire.Delivery.{frame, IsWhole, send_data_lem, unpack_data-returns}
use rpc_broker.Stulibc.{Net, Sent, Ptr, given, to, IsUp, Reads}
use rpc_broker.Outcome.{done}
use rpc_broker.Action.{Action, pure, lift, gets, ◌>>=◌, ◌>>◌}

pub record SendArgs : Type 0 where
  pub packet : Packet
  pub to_address : Ptr
  pub port : Ptr
  pub verbose : Bool
  pub wait_response_port : Ptr

-- `ret <= 0`
abbrev pub is_not_positive : ℤ → Bool
is_not_positive (pos n) = n == 0
is_not_positive (negsuc n) = true

module _ (net : Net) (m : Msgpack) where
  abbrev pub thread_send_request : SendArgs → Action (List Sent) (Unit {0})
  thread_send_request args = do send_req net m args.packet args.to_address args.port; pure tt

  abbrev waited_for : ℤ → List ℕ → Action (List Sent) (Option Packet)
  waited_for ret incoming =
      if is_not_positive ret
      then pure none
      else do response ← lift (get_response net incoming); pure (some response)

  -- `incoming` is what the peer sends back on the same connection; `none` is the result NULL.
  unfoldable pub send_req_wait_response :
      Packet → Ptr → Ptr → List ℕ → Action (List Sent) (Option Packet)
  send_req_wait_response packet address port incoming = do
    lift (unpack_data m packet)
    address' ← lift (given address)
    port' ← lift (given port)
    n ← gets length
    lift (net.net_tcp_client n address' port')
    ret ← send_data net address' port' packet
    waited_for ret incoming

module _ (net : Net) (m : Msgpack) (c : IsCodec m) where
  -- On a network that is up and whose reads are not cut short, the packet goes out whole, and what
  -- is given back is the packet that the peer answers with on the same connection.
  pub send_req_wait_response_lem :
      (up : IsUp net) (reads : Reads net) (packet response : Packet) (address port : Text)
      (rest : List ℕ) (sent : List Sent)
      → IsWhole packet
      → IsWhole response
      → 0 < response.len
      → response.len < uint32
      → send_req_wait_response net m packet (to address) (to port) (framed response rest) sent
        ≡ (done (some response), sent ++ frame address port packet)
  unfolding send_req_wait_response
  send_req_wait_response_lem up reads packet response address port rest sent w w' some_bytes short =
      rw
        (
          (unpack_data-returns m c packet).1,
          up.connects,
          send_data_lem m c net up address port packet sent w,
          get_response-frame net reads response rest w' some_bytes short,
        )
        (ground arith)
