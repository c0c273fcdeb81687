-- ===== src/Server/Threads.antt =====
-- server/server.c: main's loop, wait_on_socket, and thread_server on threads of their own.
pub mod After
pub mod Known
pub mod Registered
pub mod Alone
use rpc_broker.Base.{
  ℕ, zero, suc, ◌+◌, ◌-◌, ◌*◌, ◌/◌, ◌%◌, ◌^◌, ◌≤◌, ◌<◌, String, ◌≡◌, refl, sym, ap, ◌∙◌, subst, ◌≢◌,
  ◌↔◌, ◌⊎◌, inl, inr, Bool, true, false, not, ◌&&◌, ◌||◌, Option, none, some, List, [], ◌∷◌, ◌++◌,
  reverse, arith,
}
use rpc_broker.Base.{
  ltb, leb, ◌==◌, if◌then◌else◌, ltb→lt, lt→ltb, le→ltb, ==_iff, Bool-cases, Option-cases,
}
use rpc_broker.Base.{
  length, get_elem?, set, erase_idx, take, drop, replicate, find_idx, length-append, length-map,
  length-replicate, length-reverse, take-append, drop-append, length-erase_idx,
}
use rpc_broker.Base.{
  Text, codes, text_eq, text_eq_refl, text_eq→eq, text_eq-ne, until_nul, NoNul, until_nul-NoNul,
  NoNul-until_nul, length-until_nul,
}
use rpc_broker.Base.{
  ℤ, pos, negsuc, int32, rounds, int_eq, int_eq_refl, int_eq→eq, int32-small, InRange,
  int32-InRange,
}
use rpc_broker.Env.{Env}
use rpc_broker.Msgpack.{Packet}
use rpc_broker.Server.Marshal.{Call}
use rpc_broker.Server.Process.{Process, receive, serve, read_and_process}
use rpc_broker.Common.Headers.{get_req_type, unpack_data}
use rpc_broker.Common.Protocol.{service_request, service_registration_ack}
use rpc_broker.Common.Receive.{check}
use rpc_broker.Common.Waiting.{Waiting, Wakeup, wait_timeout, wait_error}
use rpc_broker.Outcome.{Outcome, done, fault}
use rpc_broker.Action.{Action, pure, lift, gets, modify, ◌>>=◌, ◌>>◌}

-- Where a thread stands: before `accept`, before the bytes of its connection are read, before
-- `isRegistered` is looked at or set, before the call is made, or at its end.
pub data Thread : Type 0 where
  accepting : Bool → List ℕ → Thread
  reading : List ℕ → Thread
  acting : Packet → ℤ → Thread
  serving : Packet → Thread
  finished : Thread

-- What the threads share, the threads, and the timeout of the main thread.
pub record Pool : Type 0 where
  pub process : Process
  pub threads : List Thread
  pub timeout : ℕ

module _ (e : Env) (answer : List Call → Call → Outcome (Unit {0})) where
  open e use {msgpack as m, net}

  abbrev pub read_packet : List ℕ → Action Process Thread
  read_packet incoming = do
    packet ← lift (receive net incoming)
    lift (unpack_data m packet)
    request_type ← lift (get_req_type m packet)
    pure (acting packet request_type)

  -- A request goes on to its call if `isRegistered` is set now.
  abbrev pub take_in : Packet → ℤ → Action Process Thread
  take_in packet request_type =
      if int_eq request_type service_registration_ack
      then (do modify (λ s. record s { is_registered = true }); pure finished)
      else do
        is_registered ← gets (λ s. s.is_registered)
        pure (
            if int_eq request_type service_request && is_registered
            then serving packet
            else finished)

  -- thread_server, with nothing in between. `is_valid`: `accept` gave a socket.
  unfoldable pub thread_server : Bool → List ℕ → Action Process (Unit {0})
  thread_server is_valid incoming = do
    lift (check net (not is_valid))
    read_and_process e answer incoming

  -- What one thread does before another may run.
  unfoldable pub advance : Thread → Action Process Thread
  advance (accepting is_valid incoming) = do
    lift (check net (not is_valid))
    pure (reading incoming)
  advance (reading incoming) = read_packet incoming
  advance (acting packet request_type) = take_in packet request_type
  advance (serving packet) = do serve e answer packet; pure finished
  advance finished = pure finished

module _ (e : Env) (w : Waiting) (wait_indef : Bool) where
  open e use {net}

  unfoldable pub wait_on_socket : Wakeup → Action Pool ℤ
  wait_on_socket u s = if wait_indef then (done (u.select none).0, s) else (
    done (u.select (some s.timeout)).0,
    record s { timeout = (u.select (some s.timeout)).1 },
  )

  -- THREAD_RunAndForget(thread_server)
  abbrev pub run_and_forget : Wakeup → Action Pool (Unit {0})
  run_and_forget u =
      modify (λ s. record s { threads = accepting u.is_valid u.incoming ∷ s.threads })

  -- One round of the main thread's loop.
  unfoldable pub main_round : Wakeup → Action Pool (Unit {0})
  main_round u = do
    wait_result ← wait_on_socket u
    if int_eq wait_result wait_timeout
        then lift net.net_error
        else if int_eq wait_result wait_error
        then lift net.net_error
        else if u.is_ready
        then run_and_forget u
        else pure tt

-- What came in, the latest first.
abbrev pub brought : Wakeup → List (List ℕ) → List (List ℕ)
brought u connections = if u.is_ready then u.incoming ∷ connections else connections

-- A server that has just begun to wait, for 60 seconds at first.
abbrev pub begun : Pool
begun = record {
  process = record { is_registered = false; calls = [] };
  threads = [];
  timeout = 60;
}

module _ (e : Env) (w : Waiting) (wait_indef : Bool)
    (answer : List Call → Call → Outcome (Unit {0})) (from : Pool) where
  -- The states that the server comes to from this one, in any order of its threads, and the connections on the
  -- way.
  pub data Reach : List (List ℕ) → Pool → Type 0 where
    started : Reach [] from
    woken :
        {connections : List (List ℕ)} {s s' : Pool}
        → Reach connections s
        → (u : Wakeup) → main_round e w wait_indef u s ≡ (done tt, s')
        → Reach (brought u connections) s'
    advanced :
        {connections : List (List ℕ)} {s : Pool}
        → Reach connections s
        → (before : List Thread) (thread : Thread) (after : List Thread) (thread' : Thread)
        → (process' : Process) → s.threads ≡ before ++ thread ∷ after
        → advance e answer thread s.process ≡ (done thread', process')
        → Reach connections (record s { process = process'; threads = before ++ thread' ∷ after })
