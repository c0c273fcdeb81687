-- ===== src/Server/Threads/Alone.antt =====
-- server/server.c: a thread that no other one interrupts.
use rpc_broker.Base.{ℕ, ◌≡◌, refl, inl, inr, Bool, true, false, not, ◌&&◌, List, [], ◌∷◌, ◌++◌}
use rpc_broker.Base.{if◌then◌else◌, Bool-cases}
use rpc_broker.Base.{Text}
use rpc_broker.Base.{ℤ, pos, int_eq}
use rpc_broker.Env.{Env}
use rpc_broker.Msgpack.{Packet}
use rpc_broker.Server.Marshal.{Call}
use rpc_broker.Server.Process.{Process, receive, read_and_process, serve, act}
use rpc_broker.Server.Threads.{
  Thread, accepting, reading, acting, serving, finished, advance, thread_server,
}
use rpc_broker.Common.Headers.{get_req_type, unpack_data}
use rpc_broker.Common.Protocol.{service_request, service_registration_ack}
use rpc_broker.Common.Receive.{check}
use rpc_broker.Outcome.{Outcome, done, exited, fault, spins}
use rpc_broker.Action.{Action, pure, lift, ◌>>=◌, ◌>>◌}
use rpc_broker.Base.{map}
use rpc_broker.Env.{IsLawful}
use rpc_broker.Msgpack.{Scalar, header_value, continue}
use rpc_broker.Msgpack.Loop.{Decodes}
use rpc_broker.Server.Marshal.Requests.{call_of, unpack_marshal_call_send_lem}
use rpc_broker.Server.Process.Serving.{Arrives}
use rpc_broker.Client.Pack.{client_headers}
use rpc_broker.Common.Wire.Delivery.{unpack_data-returns}

-- Two sequences that begin with the same call are the same if they go on alike.
begin_alike :
    {S A B C D : Type 0} (o : Outcome A) (f : A → Action S B) (g : B → Action S D)
    (f' : A → Action S C) (g' : C → Action S D) (s : S)
    → ((a : A) → (f a >>= g) s ≡ (f' a >>= g') s)
    → ((lift o >>= f) >>= g) s ≡ ((lift o >>= f') >>= g') s
begin_alike (done a) f g f' g' s h = h a
begin_alike (exited n) f g f' g' s h = refl
begin_alike fault f g f' g' s h = refl
begin_alike spins f g f' g' s h = refl

module _ (e : Env) (answer : List Call → Call → Outcome (Unit {0})) where
  open e use {msgpack as m, stulibc as l, net}

  -- The steps of a thread, to its end.
  abbrev from_acting : Thread → Action Process Thread
  from_acting t = advance e answer t >>= advance e answer

  abbrev from_reading : Thread → Action Process Thread
  from_reading t = advance e answer t >>= from_acting

  abbrev pub alone : Thread → Action Process Thread
  alone t = advance e answer t >>= from_reading

  gate :
      (packet : Packet) (is_request is_registered : Bool) (s : Process)
      → advance e answer (if is_request && is_registered then serving packet else finished) s
        ≡ ((if is_request && is_registered then serve e answer packet else pure tt)
              >> pure finished)
            s
  unfolding advance
  gate packet true true s = refl
  gate packet true false s = refl
  gate packet false is_registered s = refl

  acting_alone :
      (packet : Packet) (kind : ℤ) (s : Process)
      → from_acting (acting packet kind) s ≡ (act e answer packet kind >> pure finished) s
  unfolding advance act
  acting_alone packet kind s = elim (Bool-cases (int_eq kind service_registration_ack)) [
    | inl a ↦ rw a refl
    | inr n ↦ rw n (gate packet (int_eq kind service_request) s.is_registered s)
  ]

  -- A thread whose steps follow each other does what `thread_server` does.
  thread_server-alone :
      (is_valid : Bool) (incoming : List ℕ) (s : Process)
      → alone (accepting is_valid incoming) s
        ≡ (thread_server e answer is_valid incoming >> pure finished) s
  unfolding advance thread_server read_and_process
  thread_server-alone is_valid incoming s =
      begin_alike (check net (not is_valid)) (λ u. pure (reading incoming)) from_reading
        (λ u. read_and_process e answer incoming) (λ u. pure finished) s
        (λ u.
          begin_alike (receive net incoming) _ from_acting _ (λ v. pure finished) s
            (λ packet.
              begin_alike (unpack_data m packet) _ from_acting _ (λ v. pure finished) s
                (λ shown.
                  begin_alike (get_req_type m packet) _ from_acting _ (λ v. pure finished) s
                    (λ kind. acting_alone packet kind s))))

module _ (e : Env) (law : IsLawful e) (answer : List Call → Call → Outcome (Unit {0})) where
  open e use {msgpack as m, stulibc as l}

  -- A thread that reads a packet keeps it, with its type.
  pub reading_step :
      (incoming : List ℕ) (packet : Packet) (kind : ℤ) (s : Process)
      → Arrives e incoming packet kind
      → advance e answer (reading incoming) s ≡ (done (acting packet kind), s)
  unfolding advance
  reading_step incoming packet kind s (r, k) =
      rw (r, (unpack_data-returns m law.codec packet).1, k) refl

  -- A thread that serves a client's packet makes one call.
  pub serving_step :
      (packet : Packet) (address port : Text) (id : ℕ) (op : Text) (args : List Scalar)
      (s : Process)
      → Decodes m packet (map header_value (client_headers address port (pos id) op args)) continue
      → answer s.calls (call_of id op args) ≡ done tt
      → advance e answer (serving packet) s
        ≡ (done finished, record s { calls = s.calls ++ call_of id op args ∷ [] })
  unfolding advance
  serving_step packet address port id op args s d ok =
      rw
        (
          unpack_marshal_call_send_lem m law.codec l law.lists answer packet address port id op args
              s.calls d,
          ok,
        )
        refl
