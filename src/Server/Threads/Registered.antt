-- ===== src/Server/Threads/Registered.antt =====
-- server/server.c: what holds whichever thread runs when.
use rpc_broker.Base.{
  ℕ, refl, subst, ◌≢◌, inl, inr, Bool, true, false, none, some, List, [], ◌∷◌, ◌++◌,
}
use rpc_broker.Base.{if◌then◌else◌, Bool-cases}
use rpc_broker.Base.{ℤ, int_eq}
use rpc_broker.Env.{Env}
use rpc_broker.Server.Marshal.{Call}
use rpc_broker.Server.Threads.{
  Thread, accepting, reading, acting, serving, finished, Pool, main_round, wait_on_socket, brought,
  begun, Reach, started, woken, advanced, run_and_forget,
}
use rpc_broker.Common.Waiting.{Waiting, Wakeup, wait_timeout, wait_error}
use rpc_broker.Outcome.{Outcome, done, exited, fault, spins}
use rpc_broker.Action.{pure, lift}
use rpc_broker.Server.Threads.Known.{Acked, Asked, Known, AllKnown, Rightly, Good, advance-Good}

module _ (e : Env) where
  All-Known-more :
      (c : List ℕ) (cs : List (List ℕ)) (ts : List Thread)
      → AllKnown e cs ts
      → AllKnown e (c ∷ cs) ts
  All-Known-more c cs [] k = tt
  All-Known-more c cs (accepting is_valid incoming ∷ ts) (k, ks) =
      (inr k, All-Known-more c cs ts ks)
  All-Known-more c cs (reading incoming ∷ ts) (k, ks) = (inr k, All-Known-more c cs ts ks)
  All-Known-more c cs (acting packet kind ∷ ts) (k, ks) = (inr k, All-Known-more c cs ts ks)
  All-Known-more c cs (serving packet ∷ ts) ((k, (p, a)), ks) =
      ((inr k, (p, inr a)), All-Known-more c cs ts ks)
  All-Known-more c cs (finished ∷ ts) (k, ks) = (tt, All-Known-more c cs ts ks)

  AllKnown-split :
      (cs : List (List ℕ)) (before : List Thread) (t t' : Thread) (after : List Thread)
      → AllKnown e cs (before ++ t ∷ after)
      → Known e cs t × (Known e cs t' → AllKnown e cs (before ++ t' ∷ after))
  AllKnown-split cs [] t t' after (k, ks) = (k, λ k'. (k', ks))
  AllKnown-split cs (b ∷ before) t t' after (k, ks) =
      let (known, put) = AllKnown-split cs before t t' after ks in (known, λ k'. (k, put k'))

  abbrev Sound : List (List ℕ) → Pool → Type 0
  Sound cs s = AllKnown e cs s.threads × Rightly e cs s.process

  abbrev SoundAfter : List (List ℕ) → Outcome (Unit {0}) × Pool → Type 0
  SoundAfter cs (done u, s) = Sound cs s
  SoundAfter cs (exited n, s) = Unit
  SoundAfter cs (fault, s) = Unit
  SoundAfter cs (spins, s) = Unit

  module _ (w : Waiting) (wait_indef : Bool) where
    after_error :
        (cs : List (List ℕ)) (s : Pool) (o : Outcome (Unit {0})) → Sound cs s → SoundAfter cs (o, s)
    after_error cs s (done u) h = h
    after_error cs s (exited n) h = tt
    after_error cs s fault h = tt
    after_error cs s spins h = tt

    brought-Sound : (cs : List (List ℕ)) (c : List ℕ) (s : Pool) → Sound cs s → Sound (c ∷ cs) s
    brought-Sound cs c s (k, (r, a)) = (
      All-Known-more c cs s.threads k,
      (
        (λ h. let (packet, came) = r h in (packet, inr came)),
        (λ h. let ((p, came), (q, asked)) = a h in ((p, inr came), (q, inr asked))),
      ),
    )

    ready_or_not :
        (cs : List (List ℕ)) (c : List ℕ) (ready : Bool) (s : Pool)
        → Sound cs s
        → Sound (if ready then c ∷ cs else cs) s
    ready_or_not cs c true s h = brought-Sound cs c s h
    ready_or_not cs c false s h = h

    -- The branches of a round, by the tests on what `select` gave.
    branches-Sound :
        (cs : List (List ℕ)) (u : Wakeup) (is_timeout is_error ready : Bool) (s : Pool)
        → Sound cs s
        → SoundAfter (if ready then u.incoming ∷ cs else cs) (
            (if is_timeout
                then lift e.net.net_error
                else if is_error
                then lift e.net.net_error
                else if ready
                then run_and_forget e w wait_indef u
                else pure tt)
              s)
    branches-Sound cs u true is_error ready s h =
        after_error _ s e.net.net_error (ready_or_not cs u.incoming ready s h)
    branches-Sound cs u false true ready s h =
        after_error _ s e.net.net_error (ready_or_not cs u.incoming ready s h)
    branches-Sound cs u false false true s h =
        let (k, r) = brought-Sound cs u.incoming s h in ((inl refl, k), r)
    branches-Sound cs u false false false s h = h

    main_round-Sound :
        (cs : List (List ℕ)) (u : Wakeup) (s : Pool)
        → Sound cs s
        → SoundAfter (brought u cs) (main_round e w wait_indef u s)
    unfolding main_round wait_on_socket
    main_round-Sound cs u s h =
        let go = λ (z : ℤ) (s' : Pool) (h' : Sound cs s').
          branches-Sound cs u (int_eq z wait_timeout) (int_eq z wait_error) u.is_ready s' h' in
        elim (Bool-cases wait_indef) [
          | inl i ↦ rw i (go (u.select none).0 s h)
          | inr n ↦ rw n (
              go (u.select (some s.timeout)).0
                (record s { timeout = (u.select (some s.timeout)).1 }) h)
        ]

    module _ (answer : List Call → Call → Outcome (Unit {0})) where
      Reach-Sound :
          {cs : List (List ℕ)} {s : Pool} → Reach e w wait_indef answer begun cs s → Sound cs s
      Reach-Sound started = (tt, ((λ h. absurd cc), (λ h. absurd (h refl))))
      Reach-Sound (woken {connections} {s} {s'} r u h) =
          subst (SoundAfter (brought u connections)) h
            (main_round-Sound connections u s (Reach-Sound r))
      Reach-Sound {cs} (advanced {s = s} r before t after t' p' split h) =
          let (known, right) = Reach-Sound r in
          let (known_t, put) =
            AllKnown-split cs before t t' after (subst (AllKnown e cs) split known) in
          let (known_t', right') =
            subst (Good e cs) h (advance-Good e answer cs t s.process known_t right) in
          (put known_t', right')

      -- In every state that the threads come to, in any order: if a call was made, one of the
      -- connections that came in brought the broker's acknowledgement, and one a request.
      pub call_needs_ack :
          (cs : List (List ℕ)) (s : Pool)
          → Reach e w wait_indef answer begun cs s
          → s.process.calls ≢ []
          → Acked e cs × Asked e cs
      call_needs_ack cs s r called = (Reach-Sound r).1.1 called
