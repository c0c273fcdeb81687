-- ===== src/Server/Process/Serving.antt =====
-- server/server.c: what the messages that come in make the server do.
use rpc_broker.Base.{
  ℕ, ◌<◌, ◌≡◌, refl, inl, inr, true, false, some, List, [], ◌∷◌, ◌++◌, arith, map,
}
use rpc_broker.Base.{Bool-cases}
use rpc_broker.Base.{Text}
use rpc_broker.Base.{ℤ, pos, int_eq}
use rpc_broker.Env.{Env, IsLawful}
use rpc_broker.Msgpack.{Packet, Scalar, header_value, continue}
use rpc_broker.Msgpack.Loop.{Decodes}
use rpc_broker.Server.Marshal.{Call}
use rpc_broker.Server.Marshal.Requests.{call_of, unpack_marshal_call_send_lem}
use rpc_broker.Server.Process.{Process, receive, act, read_and_process}
use rpc_broker.Client.Pack.{client_headers}
use rpc_broker.Common.Headers.{get_req_type}
use rpc_broker.Common.Protocol.{service_request, service_registration_ack}
use rpc_broker.Common.ByteOrder.{htonl, uint32, ntohl-htonl, length-htonl}
use rpc_broker.Common.Wire.Delivery.{IsWhole, unpack_data-returns}
use rpc_broker.Stulibc.{Net, Reads}
use rpc_broker.Outcome.{Outcome, done}
use rpc_broker.Action.{Action, pure, ◌>>◌}

module _ (net : Net) (reads : Reads net) where
  -- The server reads a packet that is not empty from its frame.
  pub receive-frame :
      (p : Packet) (rest : List ℕ)
      → IsWhole p
      → 0 < p.len
      → p.len < uint32
      → receive net (htonl p.len ++ (p.buffer ++ rest)) ≡ done p
  unfolding receive
  receive-frame p rest w some_bytes fits =
      rw (read_size, ntohl-htonl p.len fits, read_bytes) (ground arith)
    where
      read_size :
          net.net_readn (htonl p.len ++ (p.buffer ++ rest)) 4 ≡ some (htonl p.len, p.buffer ++ rest)
      read_size = rw length-htonl at (reads (htonl p.len) (p.buffer ++ rest))

      read_bytes : net.net_readn (p.buffer ++ rest) p.len ≡ some (p.buffer, rest)
      read_bytes = rw (← w) at (reads p.buffer rest)

-- A connection brings this packet, of this type.
abbrev pub Arrives : Env → List ℕ → Packet → ℤ → Type 0
Arrives e incoming packet kind =
    (receive e.net incoming ≡ done packet) × (get_req_type e.msgpack packet ≡ done kind)

-- A connection that brings anything but an acknowledgement.
abbrev pub IsQuiet : Env → List ℕ → Type 0
IsQuiet e incoming =
    (packet : Packet) × (kind : ℤ) × Arrives e incoming packet kind
    × (int_eq kind service_registration_ack ≡ false)

abbrev pub AllQuiet : Env → List (List ℕ) → Type 0
AllQuiet e [] = Unit
AllQuiet e (incoming ∷ more) = IsQuiet e incoming × AllQuiet e more

module _ (e : Env) (answer : List Call → Call → Outcome (Unit {0})) where
  -- Connections, one after the other.
  abbrev pub run : List (List ℕ) → Action Process (Unit {0})
  run [] = pure tt
  run (incoming ∷ more) = read_and_process e answer incoming >> run more

module _ (e : Env) (law : IsLawful e) (answer : List Call → Call → Outcome (Unit {0})) where
  open e use {msgpack as m, stulibc as l, net}

  pub read_and_process_lem :
      (incoming : List ℕ) (packet : Packet) (kind : ℤ) (s : Process)
      → Arrives e incoming packet kind
      → read_and_process e answer incoming s ≡ act e answer packet kind s
  unfolding read_and_process
  read_and_process_lem incoming packet kind s (r, k) =
      rw (r, (unpack_data-returns m law.codec packet).1, k) refl

  quiet_step :
      (incoming : List ℕ) (calls : List Call)
      → IsQuiet e incoming
      → read_and_process e answer incoming (record { is_registered = false; calls = calls })
        ≡ (done tt, record { is_registered = false; calls = calls })
  unfolding act
  quiet_step incoming calls (packet, kind, a, n) =
      rw (read_and_process_lem incoming packet kind _ a) (
        rw n (elim (Bool-cases (int_eq kind service_request)) [
          | inl b ↦ rw b refl
          | inr b ↦ rw b refl
        ]))

  -- Before the acknowledgement a server stays as it is, whatever else comes in: it makes no call.
  pub silent_until_registered :
      (connections : List (List ℕ)) (calls : List Call)
      → AllQuiet e connections
      → run e answer connections (record { is_registered = false; calls = calls })
        ≡ (done tt, record { is_registered = false; calls = calls })
  silent_until_registered [] calls q = refl
  silent_until_registered (incoming ∷ more) calls (q, qs) =
      rw (quiet_step incoming calls q) (silent_until_registered more calls qs)

  skip_quiet :
      (connections more : List (List ℕ)) (calls : List Call)
      → AllQuiet e connections
      → run e answer (connections ++ more) (record { is_registered = false; calls = calls })
        ≡ run e answer more (record { is_registered = false; calls = calls })
  skip_quiet [] more calls q = refl
  skip_quiet (incoming ∷ connections) more calls (q, qs) =
      rw (quiet_step incoming calls q) (skip_quiet connections more calls qs)

  -- After packets that are no acknowledgements, then the acknowledgement, a client's request makes
  -- the server call, exactly once more, what the client packed: the id, the operation and the
  -- parameters, if that call returns.
  pub registered_serves :
      (connections : List (List ℕ)) (ack request : List ℕ) (acknowledgement packet : Packet)
      (calls : List Call) (address port : Text) (id : ℕ) (op : Text) (args : List Scalar)
      → AllQuiet e connections
      → Arrives e ack acknowledgement service_registration_ack
      → Arrives e request packet service_request
      → Decodes m packet (map header_value (client_headers address port (pos id) op args)) continue
      → answer calls (call_of id op args) ≡ done tt
      → run e answer
          (connections ++ ack ∷ request ∷ [])
          (record { is_registered = false; calls = calls })
        ≡ (done tt, record { is_registered = true; calls = calls ++ call_of id op args ∷ [] })
  unfolding act
  registered_serves connections ack request acknowledgement packet calls address port id op args q a
        r d ok =
      rw
        (
          skip_quiet connections (ack ∷ request ∷ []) calls q,
          read_and_process_lem ack acknowledgement service_registration_ack
              (record { is_registered = false; calls = calls }) a,
          read_and_process_lem request packet service_request
              (record { is_registered = true; calls = calls }) r,
          unpack_marshal_call_send_lem m law.codec l law.lists answer packet address port id op args
              calls d,
          ok,
        )
        refl
