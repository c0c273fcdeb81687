-- ===== src/Broker/Refines/Runs.antt =====
-- broker/broker.c: connections one after the other, and what becomes of a request among them.
use rpc_broker.Env.{Env, IsLawful}
use rpc_broker.Stulibc.{IsUp, Reads}
use rpc_broker.Broker.State.{Broker}
use rpc_broker.Broker.Contract.{Books, Event, Step, Run, idle, then_run, Unexpected}
use rpc_broker.Broker.Contract.Ledger.{Balanced, ledger}
use rpc_broker.Broker.Refines.{Keeps, Brings}
use rpc_broker.Broker.Refines.Steps.{read_data_refines}
use rpc_broker.Broker.Loop.Serving.{read_all}
use rpc_broker.Outcome.{Outcome, done, fault}
use rpc_broker.Base.{ℕ, ◌≡◌, refl, ap, ◌⊎◌, inl, inr, List, [], ◌∷◌, ◌++◌}

-- The connections bring these events, in their order.
abbrev pub AllBring : Env → List (List ℕ) → List Event → Type 0
AllBring e [] [] = Unit
AllBring e [] (ev ∷ evs) = ⊥
AllBring e (c ∷ cs) [] = ⊥
AllBring e (c ∷ cs) (ev ∷ evs) = Brings e c ev × AllBring e cs evs

-- All events were served, and `P` holds of them.
abbrev pub Finished :
    (Books → List Event → Books → Type 0)
    → List Event
    → Books
    → Outcome (Unit {0}) × Broker
    → Type 0
Finished P evs b result =
    (c : Books) × (s : Broker) × (result ≡ (done tt, s)) × Keeps s c × P b evs c

-- The broker came to nothing at a response that nobody waited for, and `P` holds of the events
-- before it.
abbrev pub Stopped :
    (Books → List Event → Books → Type 0)
    → List Event
    → Books
    → Outcome (Unit {0}) × Broker
    → Type 0
Stopped P evs b result =
    (before : List Event) × (ev : Event) × (after : List Event) × (evs ≡ before ++ ev ∷ after)
    × (c : Books) × (s : Broker) × (result ≡ (fault, s))
    × Keeps s c
    × Unexpected ev c
    × P b before c

abbrev pub Serves :
    (Books → List Event → Books → Type 0)
    → List Event
    → Books
    → Outcome (Unit {0}) × Broker
    → Type 0
Serves P evs b result = Finished P evs b result ⊎ Stopped P evs b result

abbrev pub Runs : Books → List Event → Books → Type 0
Runs b evs c = Run b evs c

preceded :
    (ev : Event) (evs : List Event) (b c : Books) (result : Outcome (Unit {0}) × Broker)
    → Step ev b c
    → Serves Runs evs c result
    → Serves Runs (ev ∷ evs) b result
preceded ev evs b c result step (inl (d, s, e, k, run)) = inl (d, s, e, k, then_run step run)
preceded ev evs b c result step (inr (before, bad, after, split, d, s, e, k, u, run)) =
    inr (ev ∷ before, bad, after, ap (◌∷◌ ev) split, d, s, e, k, u, then_run step run)

weakened :
    (P Q : Books → List Event → Books → Type 0)
    → ((b c : Books) (es : List Event) → P b es c → Q b es c)
    → (evs : List Event) (b : Books) (result : Outcome (Unit {0}) × Broker) → Serves P evs b result
    → Serves Q evs b result
weakened P Q h evs b result (inl (d, s, e, k, p)) = inl (d, s, e, k, h b d evs p)
weakened P Q h evs b result (inr (before, bad, after, split, d, s, e, k, u, p)) =
    inr (before, bad, after, split, d, s, e, k, u, h b d before p)

module _ (e : Env) (law : IsLawful e) (up : IsUp e.net) (reads : Reads e.net) where
  -- On a network that is up and whose reads are not cut short: connections that bring events make
  -- the broker take a run of steps that it promises, one for each event; or it takes these steps up
  -- to a response that nobody waits for, and comes to nothing there.
  pub read_all_refines :
      (conns : List (List ℕ)) (evs : List Event) (b : Books) (s : Broker)
      → AllBring e conns evs
      → Keeps s b
      → Serves Runs evs b (read_all e conns s)
  read_all_refines [] [] b s br k = inl (b, s, refl, k, idle)
  read_all_refines [] (ev ∷ evs) b s br k = absurd br
  read_all_refines (c ∷ conns) [] b s br k = absurd br
  read_all_refines (c ∷ conns) (ev ∷ evs) b s (first, more) k =
      elim (read_data_refines e law up reads ev c b s first k) [
        | inl (b', s', handled, step, k') ↦
            rw handled (preceded ev evs b b' _ step (read_all_refines conns evs b' s' more k'))
        | inr (u, failed) ↦ rw failed (inr ([], ev, evs, refl, b, s, refl, k, u, idle))
      ]

  -- Under the same conditions no request is lost or made up: the requests that were pending and
  -- those that came in are, as often, those that responses with their id and operation settled,
  -- each of which settled one, and those that are pending when the connections have been served.
  pub read_all-Balanced :
      (conns : List (List ℕ)) (evs : List Event) (b : Books) (s : Broker)
      → AllBring e conns evs
      → Keeps s b
      → Serves Balanced evs b (read_all e conns s)
  read_all-Balanced conns evs b s br k =
      weakened Runs Balanced (λ b c es run. ledger run) evs b (read_all e conns s)
        (read_all_refines conns evs b s br k)
