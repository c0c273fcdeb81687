-- ===== src/Server/Threads/After.antt =====
-- What holds after a thread's step, if the step comes to its end.
use rpc_broker.Base.{◌≡◌, refl}
use rpc_broker.Server.Process.{Process}
use rpc_broker.Server.Threads.{Thread}
use rpc_broker.Outcome.{Outcome, done, exited, fault, spins}
use rpc_broker.Action.{Action, resume}

abbrev pub After : (Thread → Process → Type 0) → Outcome Thread × Process → Type 0
After P (done t, s) = P t s
After P (exited n, s) = Unit
After P (fault, s) = Unit
After P (spins, s) = Unit

-- A call that changes nothing may come first.
pub After-resume :
    {A : Type 0} (P : Thread → Process → Type 0) (o : Outcome A) (f : A → Action Process Thread)
    (s : Process)
    → ((a : A) → o ≡ done a → After P (f a s))
    → After P (resume o f s)
After-resume P (done a) f s h = h a refl
After-resume P (exited n) f s h = tt
After-resume P fault f s h = tt
After-resume P spins f s h = tt
