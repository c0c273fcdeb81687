-- ===== src/Common/Waiting.antt =====
-- What the loops of broker/broker.c and server/server.c wait for: stulibc's lock and `select`.
use rpc_broker.Base.{ℕ, ◌≡◌, Bool, true, Option, List}
use rpc_broker.Base.{ℤ, pos, negsuc}

-- common/common.h: _WAIT_TIMEOUT and WAIT_ERROR, the results of `select` that stop a loop.
abbrev pub wait_timeout : ℤ
wait_timeout = pos 0

abbrev pub wait_error : ℤ
wait_error = negsuc 0

-- What stulibc gives the loops: its lock.
pub record Waiting : Type 1 where
  pub Lock : Type 0
  pub acquire_lock : Lock → Bool × Lock
  pub release_lock : Lock → Lock

-- A lock that nobody holds is acquired, and after its release nobody holds it.
pub record IsWaiting (w : Waiting) : Type 1 where
  pub Free : w.Lock → Type 0
  pub acquires : (k : w.Lock) → Free k → (w.acquire_lock k).0 ≡ true
  pub releases : (k : w.Lock) → Free k → Free (w.release_lock (w.acquire_lock k).1)

-- One round of the loop: what `select` gives for a timeout, which it may change, in seconds, or for
-- none; whether the listening socket is ready; whether `accept` gives a socket; what comes in on it.
pub record Wakeup : Type 0 where
  pub select : Option ℕ → ℤ × ℕ
  pub is_ready : Bool
  pub is_valid : Bool
  pub incoming : List ℕ
