-- ===== src/Server/Threads/Known.antt =====
-- server/server.c: what is known of a thread and of what the threads share.
use rpc_broker.Base.{
  ℕ, ◌≡◌, refl, subst, ◌≢◌, ◌⊎◌, inl, inr, Bool, true, false, not, ◌&&◌, List, [], ◌∷◌,
}
use rpc_broker.Base.{if◌then◌else◌, Bool-cases}
use rpc_broker.Base.{ℤ, int_eq, int_eq→eq}
use rpc_broker.Env.{Env}
use rpc_broker.Msgpack.{Packet}
use rpc_broker.Server.Marshal.{Call, unpack_marshal_call_send}
use rpc_broker.Server.Process.{Process, receive}
use rpc_broker.Server.Process.Serving.{Arrives}
use rpc_broker.Server.Threads.{Thread, accepting, reading, acting, serving, finished, advance}
use rpc_broker.Common.Headers.{get_req_type, unpack_data}
use rpc_broker.Common.Protocol.{service_request, service_registration_ack}
use rpc_broker.Common.Receive.{check}
use rpc_broker.Server.Threads.After.{After, After-resume}
use rpc_broker.Outcome.{Outcome, done, exited, fault, spins}
use rpc_broker.Action.{Action, pure, lift, modify, resume, ◌>>=◌, ◌>>◌}

abbrev pub Any : (List ℕ → Type 0) → List (List ℕ) → Type 0
Any P [] = ⊥
Any P (c ∷ cs) = P c ⊎ Any P cs

Any-mono :
    (P Q : List ℕ → Type 0) (cs : List (List ℕ)) → ((c : List ℕ) → P c → Q c) → Any P cs → Any Q cs
Any-mono P Q [] f a = a
Any-mono P Q (c ∷ cs) f a = elim a [ inl p ↦ inl (f c p) | inr q ↦ inr (Any-mono P Q cs f q) ]

abbrev pub Among : List ℕ → List (List ℕ) → Type 0
Among incoming = Any (λ c. incoming ≡ c)

module _ (e : Env) where
  -- One of the connections brought this packet, of this type.
  abbrev pub Came : Packet → ℤ → List (List ℕ) → Type 0
  Came packet kind = Any (λ c. Arrives e c packet kind)

  -- One of the connections brought an acknowledgement.
  abbrev pub Acked : List (List ℕ) → Type 0
  Acked connections = (packet : Packet) × Came packet service_registration_ack connections

  -- One of the connections brought a request.
  abbrev pub Asked : List (List ℕ) → Type 0
  Asked connections = (packet : Packet) × Came packet service_request connections

  -- What is known of a thread, by the connections.
  abbrev pub Known : List (List ℕ) → Thread → Type 0
  Known cs (accepting is_valid incoming) = Among incoming cs
  Known cs (reading incoming) = Among incoming cs
  Known cs (acting packet kind) = Came packet kind cs
  Known cs (serving packet) = Came packet service_request cs × Acked cs
  Known cs finished = Unit

  abbrev pub AllKnown : List (List ℕ) → List Thread → Type 0
  AllKnown cs [] = Unit
  AllKnown cs (t ∷ ts) = Known cs t × AllKnown cs ts

  abbrev pub Rightly : List (List ℕ) → Process → Type 0
  Rightly cs s = (s.is_registered ≡ true → Acked cs) × (s.calls ≢ [] → Acked cs × Asked cs)

  abbrev pub Good : List (List ℕ) → Outcome Thread × Process → Type 0
  Good cs = After (λ t s. Known cs t × Rightly cs s)

  Good-resume :
      {A : Type 0} (cs : List (List ℕ)) (o : Outcome A) (f : A → Action Process Thread)
      (s : Process)
      → ((a : A) → o ≡ done a → Good cs (f a s))
      → Good cs (resume o f s)
  Good-resume cs = After-resume (λ t s. Known cs t × Rightly cs s)

  module _ (answer : List Call → Call → Outcome (Unit {0})) where
    open e use {msgpack as m, stulibc as l, net}

    came :
        (cs : List (List ℕ)) (incoming : List ℕ) (packet : Packet) (kind : ℤ)
        → Among incoming cs
        → receive net incoming ≡ done packet
        → get_req_type m packet ≡ done kind
        → Came packet kind cs
    came cs incoming packet kind a r k =
        Any-mono (λ c. incoming ≡ c) (λ c. Arrives e c packet kind) cs
          (λ c h. (subst (λ i. receive net i ≡ done packet) h r, k)) a

    gated :
        (cs : List (List ℕ)) (packet : Packet) (is_request is_registered : Bool)
        → (is_request ≡ true → Came packet service_request cs)
        → (is_registered ≡ true → Acked cs)
        → Known cs (if is_request && is_registered then serving packet else finished)
    gated cs packet true true k a = (k refl, a refl)
    gated cs packet true false k a = tt
    gated cs packet false is_registered k a = tt

    take_in-Good :
        (cs : List (List ℕ)) (packet : Packet) (kind : ℤ) (s : Process)
        → Came packet kind cs
        → Rightly cs s
        → Good cs (advance e answer (acting packet kind) s)
    unfolding advance
    take_in-Good cs packet kind s k (r, c) =
        elim (Bool-cases (int_eq kind service_registration_ack)) [
          | inl a ↦
              let known =
                subst (λ z. Came packet z cs) (int_eq→eq kind service_registration_ack a) k in
              rw a (tt, ((λ h. (packet, known)), c))
          | inr n ↦ rw n (
            gated cs packet (int_eq kind service_request) s.is_registered
                (λ h. subst (λ z. Came packet z cs) (int_eq→eq kind service_request h) k) r,
            (r, c),
          )
        ]

    served :
        (cs : List (List ℕ)) (o : Outcome (List Call)) (s : Process)
        → Acked cs × Asked cs
        → Rightly cs s
        → Good cs
            (((lift o >>= λ calls. modify (λ s. record s { calls = calls })) >> pure finished) s)
    served cs (done calls) s a (r, c) = (tt, (r, (λ h. a)))
    served cs (exited n) s a r = tt
    served cs fault s a r = tt
    served cs spins s a r = tt

    -- What a thread does keeps the shared state right, if it was right.
    pub advance-Good :
        (cs : List (List ℕ)) (t : Thread) (s : Process)
        → Known cs t
        → Rightly cs s
        → Good cs (advance e answer t s)
    unfolding advance
    advance-Good cs (accepting is_valid incoming) s k r =
        Good-resume cs (check net (not is_valid)) (λ u. pure (reading incoming)) s (λ u h. (k, r))
    advance-Good cs (reading incoming) s k r =
        Good-resume cs (receive net incoming) _ s (λ packet p.
          Good-resume cs (unpack_data m packet) _ s (λ shown d.
            Good-resume cs (get_req_type m packet) _ s
              (λ kind t. (came cs incoming packet kind k p t, r))))
    advance-Good cs (acting packet kind) s k r = take_in-Good cs packet kind s k r
    advance-Good cs (serving packet) s k r =
        served cs (unpack_marshal_call_send l answer m packet s.calls) s (k.1, (packet, k.0)) r
    advance-Good cs finished s k r = (tt, r)
