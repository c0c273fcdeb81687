-- ===== src/Client/Exchange.antt =====
-- client/send_and_receive.c
use rpc_broker.Base.{ℕ, suc, ◌<◌, ◌≡◌, Bool, true, not, Option, none, some, List, ◌++◌, arith}
use rpc_broker.Base.{if◌then◌else◌}
use rpc_broker.Base.{Text}
use rpc_broker.Base.{ℤ, pos, negsuc, int_eq}
use rpc_broker.Env.{Env, IsLawful}
use rpc_broker.Msgpack.{Packet}
use rpc_broker.Common.Receive.{check, get_response}
use rpc_broker.Common.Receive.Frames.{get_response-frame}
use rpc_broker.Common.ByteOrder.{htonl, uint32}
use rpc_broker.Common.Exchange.{thread_send_request}
use rpc_broker.Base.{false}
use rpc_broker.Common.Wire.Delivery.{frame, IsWhole, send_req_lem}
use rpc_broker.Stulibc.{Sent, Ptr, to, IsUp, Reads}
use rpc_broker.Outcome.{Outcome, done, fault}
use rpc_broker.Action.{Action, pure, lift, ◌>>=◌, ◌>>◌}

-- What the system gives to a client that waits: whether the thread that sends runs before the wait
-- has come to its end, and of the system calls what `netTcpServer` does, the result of
-- `select`, whether the listening socket is ready, whether `accept` gave a socket, and the bytes
-- that come in on it.
pub record Waiting : Type 0 where
  pub is_sent_in_time : Bool
  pub listening : Outcome (Unit {0})
  pub selected : ℤ
  pub is_ready : Bool
  pub is_valid : Bool
  pub incoming : List ℕ

module _ (e : Env) where
  open e use {msgpack as m, net}

  abbrev accepted : Waiting → Action (List Sent) (Option Packet)
  accepted w = do
    lift (check net (not w.is_valid))
    packet ← lift (get_response net w.incoming)
    pure (some packet)

  abbrev failed_wait : Action (List Sent) (Option Packet)
  failed_wait = do lift net.net_error; pure none

  -- `none` is the result that was never set.
  unfoldable pub wait_for_response : Waiting → Action (List Sent) (Option Packet)
  wait_for_response w = do
    lift w.listening
    if int_eq w.selected (pos 0)
        then failed_wait
        else if int_eq w.selected (negsuc 0)
        then failed_wait
        else if w.is_ready
        then accepted w
        else pure none

  -- `args` stands on the stack frame of this function, which ends with the wait: a thread that gets
  -- to run only then reads it where it is no more.
  unfoldable pub send_and_receive :
      Packet → Ptr → Ptr → Ptr → Waiting → Action (List Sent) (Option Packet)
  unfolding wait_for_response
  send_and_receive packet to_address port wait_response_port w =
      if w.is_sent_in_time then sent_first else sent_late
    where
      sent_first : Action (List Sent) (Option Packet)
      sent_first = do
        thread_send_request net m (record {
          packet = packet;
          to_address = to_address;
          port = port;
          verbose = false;
          wait_response_port = wait_response_port;
        })
        wait_for_response w

      sent_late : Action (List Sent) (Option Packet)
      sent_late = do wait_for_response w; lift fault

module _ (e : Env) (law : IsLawful e) (up : IsUp e.net) (reads : Reads e.net) where
  open e use {msgpack as m, net}

  -- On a network that is up, a client whose socket gets ready sends its packet whole and is given
  -- the packet that comes in, if that is not empty.
  pub send_and_receive_lem :
      (packet response : Packet) (address port : Text) (wait_response_port : Ptr) (n : ℕ)
      (rest : List ℕ) (sent : List Sent)
      → IsWhole packet
      → IsWhole response
      → 0 < response.len
      → response.len < uint32
      → send_and_receive e packet
          (to address)
          (to port)
          wait_response_port
          (record {
            is_sent_in_time = true;
            listening = done tt;
            selected = pos (suc n);
            is_ready = true;
            is_valid = true;
            incoming = htonl response.len ++ (response.buffer ++ rest);
          })
          sent
        ≡ (done (some response), sent ++ frame address port packet)
  unfolding send_and_receive
  send_and_receive_lem packet response address port wait_response_port n rest sent w v some_bytes
        fits =
      rw
        (
          send_req_lem m law.codec net up address port packet sent w,
          get_response-frame net reads response rest v some_bytes fits,
        )
        (ground arith)
