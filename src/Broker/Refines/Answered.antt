-- ===== src/Broker/Refines/Answered.antt =====
-- broker/broker.c: a request gets the response to it, whatever else comes in between.
use rpc_broker.Env.{Env, IsLawful}
use rpc_broker.Stulibc.{IsUp, Reads}
use rpc_broker.Msgpack.{Packet}
use rpc_broker.Broker.State.{Broker}
use rpc_broker.Broker.Handler.{read_data}
use rpc_broker.Broker.Find.Client.{Request}
use rpc_broker.Broker.Contract.{Books, Delivery, Event, then_run, NobodyWaits}
use rpc_broker.Broker.Contract.{a_request, a_response}
use rpc_broker.Broker.Contract.Waiting.{
  Waits, AllApart, Run-matching, answers_the_one, Waits-expected, request-Waits,
}
use rpc_broker.Broker.Refines.{Keeps, Brings}
use rpc_broker.Broker.Refines.Steps.{read_data_refines}
use rpc_broker.Broker.Refines.Runs.{AllBring, Runs, Stopped, read_all_refines}
use rpc_broker.Broker.Loop.Serving.{read_all}
use rpc_broker.Outcome.{Outcome, done, fault, exited, spins}
use rpc_broker.Action.{resume}
use rpc_broker.Base.{ℕ, ◌≡◌, refl, ap, ◌∙◌, ◌⊎◌, inl, inr, List, [], ◌∷◌, ◌++◌}

module _ (e : Env) where
  step_append :
      (xs ys : List (List ℕ)) (o : Outcome (Unit {0})) (s : Broker)
      → ((t : Broker)
          → read_all e (xs ++ ys) t
            ≡ resume (read_all e xs t).0 (λ u. read_all e ys) (read_all e xs t).1)
      → resume o (λ u. read_all e (xs ++ ys)) s
        ≡ resume
            (resume o (λ u. read_all e xs) s).0
            (λ u. read_all e ys)
            (resume o (λ u. read_all e xs) s).1
  step_append xs ys (done u) s ih = ih s
  step_append xs ys (exited n) s ih = refl
  step_append xs ys fault s ih = refl
  step_append xs ys spins s ih = refl

  -- Connections in two parts.
  read_all-append :
      (xs ys : List (List ℕ)) (s : Broker)
      → read_all e (xs ++ ys) s
        ≡ resume (read_all e xs s).0 (λ u. read_all e ys) (read_all e xs s).1
  read_all-append [] ys s = refl
  read_all-append (x ∷ xs) ys s =
      step_append xs ys (read_data e x s).0 (read_data e x s).1 (read_all-append xs ys)

-- The response is the last thing that was sent, to the address and the port of the request, and
-- nobody waits for another response with its id and operation.
abbrev pub Answered : Request → Packet → Outcome (Unit {0}) × Broker → Type 0
Answered r answer result =
    (c : Books) × (s : Broker) × (out : List Delivery) × (result ≡ (done tt, s))
    × Keeps s c
    × (c.outbox ≡ out ++ record { address = r.address; port = r.port; packet = answer } ∷ [])
    × NobodyWaits r.message_id r.operation c.pending

module _ (e : Env) (law : IsLawful e) (up : IsUp e.net) (reads : Reads e.net) where
  Answered-last :
      (r : Request) (answer : Packet) (last : List ℕ) (b : Books) (s : Broker)
      → Brings e last (a_response answer r.message_id r.operation)
      → Keeps s b
      → Waits r b.pending
      → Answered r answer (read_all e (last ∷ []) s)
  Answered-last r answer last b s br k w =
      elim (read_data_refines e law up reads (a_response answer r.message_id r.operation) last b s
        br k) [
          | inl (c, s', handled, step, k') ↦
              let (sent, nobody) = answers_the_one r answer b c w step in
              (c, s', b.outbox, rw handled refl, k', sent, nobody)
          | inr (u, failed) ↦ absurd (Waits-expected r answer b w u)
        ]

  after_request_comes :
      (r : Request) (answer : Packet) (middle : List (List ℕ)) (evs : List Event) (last : List ℕ)
      (b : Books) (s : Broker)
      → AllBring e middle evs
      → AllApart r.message_id r.operation evs
      → Brings e last (a_response answer r.message_id r.operation)
      → Keeps s b
      → Waits r b.pending
      → Answered r answer (read_all e (middle ++ last ∷ []) s)
        ⊎ Stopped Runs evs b (read_all e (middle ++ last ∷ []) s)
  after_request_comes r answer middle evs last b s br apart bl k w =
      elim (read_all_refines e law up reads middle evs b s br k) [
        | inl (c, s', handled, k', run) ↦
            let still : Waits r c.pending = Run-matching r.message_id r.operation run apart ∙ w in
            rw (read_all-append e middle (last ∷ []) s, handled)
              (inl (Answered-last r answer last c s' bl k' still))
        | inr (before, bad, after, split, c, s', failed, k', u, run) ↦
            rw (read_all-append e middle (last ∷ []) s, failed)
              (inr (before, bad, after, split, c, s', refl, k', u, run))
      ]

  -- On a network that is up and whose reads are not cut short: a request for whose id and operation
  -- nobody waits comes in, then other events, none of them a request or a response with the same id
  -- and operation, then a response with them. This response goes to the address and the port of the
  -- request; or the broker came to nothing before, at a response that nobody waited for.
  pub request_is_Answered :
      (r : Request) (packet answer : Packet) (first : List ℕ) (middle : List (List ℕ))
      (evs : List Event) (last : List ℕ) (b : Books) (s : Broker)
      → Brings e first (a_request packet r)
      → AllBring e middle evs
      → AllApart r.message_id r.operation evs
      → Brings e last (a_response answer r.message_id r.operation)
      → NobodyWaits r.message_id r.operation b.pending
      → Keeps s b
      → Answered r answer (read_all e (first ∷ middle ++ last ∷ []) s)
        ⊎ Stopped Runs (a_request packet r ∷ evs) b (read_all e (first ∷ middle ++ last ∷ []) s)
  request_is_Answered r packet answer first middle evs last b s bf br apart bl n k =
      elim (read_data_refines e law up reads (a_request packet r) first b s bf k) [
        | inl (b', s', handled, step, k') ↦
            rw handled
              (elim (after_request_comes r answer middle evs last b' s' br apart bl k'
                (request-Waits r packet b b' n step)) [
                  | inl answered ↦ inl answered
                  | inr (before, bad, after, split, c, s'', failed, k'', u, run) ↦ inr (
                    a_request packet r ∷ before,
                    bad,
                    after,
                    ap (◌∷◌ (a_request packet r)) split,
                    c,
                    s'',
                    failed,
                    k'',
                    u,
                    then_run step run,
                  )
                ])
        | inr (u, failed) ↦ absurd u
      ]
