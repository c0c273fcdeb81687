-- ===== src/Broker/Loop.antt =====
-- broker/broker.c: wait_for_connections, wait_rd_socket and process_data_avail.
pub mod Serving
use rpc_broker.Base.{
  ℕ, zero, suc, ◌+◌, ◌-◌, ◌*◌, ◌/◌, ◌%◌, ◌^◌, ◌≤◌, ◌<◌, String, ◌≡◌, refl, sym, ap, ◌∙◌, subst, ◌≢◌,
  ◌↔◌, ◌⊎◌, inl, inr, Bool, true, false, not, ◌&&◌, ◌||◌, Option, none, some, List, [], ◌∷◌, ◌++◌,
  reverse, arith,
}
use rpc_broker.Base.{
  ltb, leb, ◌==◌, if◌then◌else◌, ltb→lt, lt→ltb, le→ltb, ==_iff, Bool-cases, Option-cases,
}
use rpc_broker.Base.{
  length, get_elem?, set, erase_idx, take, drop, replicate, find_idx, length-append, length-map,
  length-replicate, length-reverse, take-append, drop-append, length-erase_idx,
}
use rpc_broker.Base.{
  Text, codes, text_eq, text_eq_refl, text_eq→eq, text_eq-ne, until_nul, NoNul, until_nul-NoNul,
  NoNul-until_nul, length-until_nul,
}
use rpc_broker.Base.{
  ℤ, pos, negsuc, int32, rounds, int_eq, int_eq_refl, int_eq→eq, int32-small, InRange,
  int32-InRange,
}
use rpc_broker.Env.{Env}
use rpc_broker.Broker.State.{Broker}
use rpc_broker.Broker.Handler.{read_data}
use rpc_broker.Common.Receive.{check}
use rpc_broker.Outcome.{Outcome, done}
use rpc_broker.Action.{Action, pure, lift, gets, modify, ◌>>=◌, ◌>>◌}
use rpc_broker.Common.Waiting.{Waiting, IsWaiting, Wakeup, wait_timeout, wait_error}

-- The broker, the lock, and the timeout that the rounds share.
pub record Looping (Lock : Type 0) : Type 0 where
  pub broker : Broker
  pub lock : Lock
  pub timeout : ℕ

module _ (e : Env) (w : Waiting) where
  open e use {net}

  -- A call on the broker.
  abbrev pub brokering : {A : Type 0} → Action Broker A → Action (Looping w.Lock) A
  brokering act s = let (r, b') = act s.broker in (r, record s { broker = b' })

  abbrev pub acquire : Action (Looping w.Lock) Bool
  acquire s = let (got, k) = w.acquire_lock s.lock in (done got, record s { lock = k })

  abbrev pub release : Action (Looping w.Lock) (Unit {0})
  release = modify (λ s. record s { lock = w.release_lock s.lock })

  -- The timeout goes along only if the broker does not wait indefinitely.
  unfoldable pub wait_rd_socket : Wakeup → Action (Looping w.Lock) ℤ
  wait_rd_socket u s = if s.broker.wait_indef then (done (u.select none).0, s) else (
    done (u.select (some s.timeout)).0,
    record s { timeout = (u.select (some s.timeout)).1 },
  )

  unfoldable pub process_data_avail : Wakeup → Action (Looping w.Lock) (Unit {0})
  process_data_avail u = do
    acquired ← acquire
    if acquired
        then (do lift (check net (not u.is_valid)); brokering (read_data e u.incoming); release)
        else pure tt

  unfoldable pub round : Wakeup → Action (Looping w.Lock) (Unit {0})
  round u = do
    wait_result ← wait_rd_socket u
    if int_eq wait_result wait_timeout || int_eq wait_result wait_error
        then lift net.net_error
        else if u.is_ready
        then process_data_avail u
        else pure tt

  -- The first rounds of the loop, which has no end.
  unfoldable pub rounds_of : List Wakeup → Action (Looping w.Lock) (Unit {0})
  rounds_of [] = pure tt
  rounds_of (u ∷ us) = round u >> rounds_of us

  -- `listening` is what `netTcpServer` does. The timeout is 60 seconds at first.
  unfoldable pub wait_for_connections :
      Outcome (Unit {0}) → List Wakeup → w.Lock → Broker → Outcome (Unit {0}) × Looping w.Lock
  wait_for_connections listening us lock b =
      (lift listening >> rounds_of us) (record { broker = b; lock = lock; timeout = 60 })
