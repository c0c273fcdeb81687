-- ===== src/Broker/Loop/Serving.antt =====
-- broker/broker.c: the loop serves the connections, one after the other.
use rpc_broker.Base.{
  ℕ, ◌≡◌, refl, ap, ◌∙◌, inl, inr, Bool, true, false, ◌||◌, Option, none, some, List, [], ◌∷◌,
}
use rpc_broker.Base.{if◌then◌else◌, Bool-cases}
use rpc_broker.Base.{ℤ, int_eq}
use rpc_broker.Env.{Env}
use rpc_broker.Broker.State.{Broker}
use rpc_broker.Broker.Handler.{read_data}
use rpc_broker.Broker.Loop.{
  Looping, release, wait_rd_socket, process_data_avail, round, rounds_of, wait_for_connections,
}
use rpc_broker.Common.Waiting.{Waiting, IsWaiting, Wakeup, wait_timeout, wait_error}
use rpc_broker.Outcome.{Outcome, done, exited, fault, spins}
use rpc_broker.Action.{Action, pure, resume, ◌>>◌}

-- The handler, on one connection after the other.
abbrev pub read_all : Env → List (List ℕ) → Action Broker (Unit {0})
read_all e [] = pure tt
read_all e (incoming ∷ more) = read_data e incoming >> read_all e more

-- What comes in on the rounds in which the listening socket is ready.
abbrev pub arrivals : List Wakeup → List (List ℕ)
arrivals [] = []
arrivals (u ∷ us) = let rest = arrivals us in if u.is_ready then u.incoming ∷ rest else rest

-- A round in which nothing fails before the handler.
abbrev pub IsWell : Waiting → Wakeup → Type 0
IsWell w u =
    ((t : Option ℕ)
      → (int_eq (u.select t).0 wait_timeout || int_eq (u.select t).0 wait_error) ≡ false)
    × (u.is_ready ≡ true → u.is_valid ≡ true)

abbrev pub AllWell : Waiting → List Wakeup → Type 0
AllWell w [] = Unit
AllWell w (u ∷ us) = IsWell w u × AllWell w us

if_true {ℓ} : {A : Type ℓ} (b : Bool) (x y : A) → b ≡ true → (if b then x else y) ≡ x
if_true true x y h = refl
if_true false x y h = cc

if_false {ℓ} : {A : Type ℓ} (b : Bool) (x y : A) → b ≡ false → (if b then x else y) ≡ y
if_false true x y h = cc
if_false false x y h = refl

module _ (e : Env) (w : Waiting) (law : IsWaiting w) where
  -- The lock is free after a round that comes to its end.
  abbrev pub FreeAfter : Outcome (Unit {0}) → w.Lock → Type 0
  FreeAfter (done u) k = law.Free k
  FreeAfter (exited n) k = Unit
  FreeAfter fault k = Unit
  FreeAfter spins k = Unit

  abbrev held_after : Outcome (Unit {0}) → w.Lock → w.Lock
  held_after (done u) k = w.release_lock k
  held_after (exited n) k = k
  held_after fault k = k
  held_after spins k = k

  held_after-FreeAfter :
      (r : Outcome (Unit {0})) (k : w.Lock)
      → law.Free k
      → FreeAfter r (held_after r (w.acquire_lock k).1)
  held_after-FreeAfter (done u) k f = law.releases k f
  held_after-FreeAfter (exited n) k f = tt
  held_after-FreeAfter fault k f = tt
  held_after-FreeAfter spins k f = tt

  released :
      (r : Outcome (Unit {0})) (s : Looping w.Lock)
      → resume r (λ u. release e w) s ≡ (r, record s { lock = held_after r s.lock })
  released (done u) s = refl
  released (exited n) s = refl
  released fault s = refl
  released spins s = refl

  -- The connection is handled, whatever was done before: the lock is free.
  process_lem :
      (u : Wakeup) (s : Looping w.Lock)
      → law.Free s.lock
      → u.is_valid ≡ true
      → (k : w.Lock) × FreeAfter (read_data e u.incoming s.broker).0 k
        × (process_data_avail e w u s ≡ (
          (read_data e u.incoming s.broker).0,
          record s { broker = (read_data e u.incoming s.broker).1; lock = k },
        ))
  unfolding process_data_avail
  process_lem u s f v =
      let (r, b') = read_data e u.incoming s.broker in
      (
        held_after r (w.acquire_lock s.lock).1,
        held_after-FreeAfter r s.lock f,
        rw (law.acquires s.lock f, v)
            (released r (record s { broker = b'; lock = (w.acquire_lock s.lock).1 })),
      )

  -- The socket is waited on, and only the timeout may change.
  wait_lem :
      (u : Wakeup) (s : Looping w.Lock)
      → IsWell w u
      → (z : ℤ) × (t : ℕ) × (wait_rd_socket e w u s ≡ (done z, record s { timeout = t }))
        × ((int_eq z wait_timeout || int_eq z wait_error) ≡ false)
  unfolding wait_rd_socket
  wait_lem u s (a, v) = elim (Bool-cases s.broker.wait_indef) [
    | inl i ↦ ((u.select none).0, s.timeout, rw i refl, a none)
    | inr n ↦ (
      (u.select (some s.timeout)).0,
      (u.select (some s.timeout)).1,
      rw n refl,
      a (some s.timeout),
    )
  ]

  -- A round that serves nobody.
  round_idle :
      (u : Wakeup) (s : Looping w.Lock)
      → IsWell w u
      → u.is_ready ≡ false
      → (t : ℕ) × (round e w u s ≡ (done tt, record s { timeout = t }))
  unfolding round
  round_idle u s a i =
      let (z, t, waited, good) = wait_lem u s a in
      (
        t,
        rw (waited, good)
            (ap (λ (act : Action (Looping w.Lock) (Unit {0})). act (record s { timeout = t }))
              (if_false u.is_ready (process_data_avail e w u) (pure tt) i)),
      )

  round_ready :
      (u : Wakeup) (s : Looping w.Lock)
      → law.Free s.lock
      → IsWell w u
      → u.is_ready ≡ true
      → (k : w.Lock) × (t : ℕ) × FreeAfter (read_data e u.incoming s.broker).0 k
        × (round e w u s ≡ (
          (read_data e u.incoming s.broker).0,
          record { broker = (read_data e u.incoming s.broker).1; lock = k; timeout = t },
        ))
  unfolding round
  round_ready u s f a i =
      let (z, t, waited, good) = wait_lem u s a in
      let (k, free, processed) = process_lem u (record s { timeout = t }) f (a.1 i) in
      (
        k,
        t,
        free,
        rw (waited, good)
            (ap (λ (act : Action (Looping w.Lock) (Unit {0})). act (record s { timeout = t }))
                (if_true u.is_ready (process_data_avail e w u) (pure tt) i)
              ∙ processed),
      )

  -- What the loop leaves behind, when the connections give this result.
  abbrev pub Served : Outcome (Unit {0}) × Broker → Outcome (Unit {0}) × Looping w.Lock → Type 0
  Served (r, b') result =
      (k : w.Lock) × (t : ℕ) × FreeAfter r k
      × (result ≡ (r, record { broker = b'; lock = k; timeout = t }))

  after_round :
      (us : List Wakeup) (r : Outcome (Unit {0})) (b' : Broker) (k : w.Lock) (t : ℕ)
      → ((s : Looping w.Lock)
          → law.Free s.lock
          → Served (read_all e (arrivals us) s.broker) (rounds_of e w us s))
      → FreeAfter r k
      → Served
          (resume r (λ u. read_all e (arrivals us)) b')
          (resume r (λ u. rounds_of e w us) (record { broker = b'; lock = k; timeout = t }))
  after_round us (done u) b' k t ih f = ih (record { broker = b'; lock = k; timeout = t }) f
  after_round us (exited n) b' k t ih f = (k, t, tt, refl)
  after_round us fault b' k t ih f = (k, t, tt, refl)
  after_round us spins b' k t ih f = (k, t, tt, refl)

  rounds_lem :
      (us : List Wakeup) (s : Looping w.Lock)
      → law.Free s.lock
      → AllWell w us
      → Served (read_all e (arrivals us) s.broker) (rounds_of e w us s)
  unfolding rounds_of
  rounds_lem [] s f a = (s.lock, s.timeout, f, refl)
  rounds_lem (u ∷ us) s f (a, as') = elim (Bool-cases u.is_ready) [
    | inl i ↦
        let (k, t, free, ran) = round_ready u s f a i in
        rw ran (
          rw i (
            after_round us (read_data e u.incoming s.broker).0 (read_data e u.incoming s.broker).1 k
              t (λ s' f'. rounds_lem us s' f' as') free))
    | inr n ↦
        let (t, ran) = round_idle u s a n in
        rw ran (rw n (rounds_lem us (record s { timeout = t }) f as'))
  ]

  -- With a free lock, when no wait fails and every ready socket is accepted, the loop does what the
  -- handler does on the connections in their order, and nothing else: none is left out, since the
  -- lock is free again after each.
  pub wait_for_connections_lem :
      (us : List Wakeup) (lock : w.Lock) (b : Broker)
      → law.Free lock
      → AllWell w us
      → Served (read_all e (arrivals us) b) (wait_for_connections e w (done tt) us lock b)
  unfolding wait_for_connections
  wait_for_connections_lem us lock b f a =
      rounds_lem us (record { broker = b; lock = lock; timeout = 60 }) f a
