-- ===== src/Action.antt =====
-- Actions: calls that change a state, in sequence.
use rpc_broker.Outcome.{Outcome, done, exited, fault, spins}

-- What was changed before an exit or a fault stays changed, so the state comes back each time.
abbrev pub Action {ℓ κ} : Type ℓ → Type κ → Type (ℓ ⊔ κ)
Action S A = S → Outcome A × S

module _ {S : Type 0} where
  abbrev pub pure : {A : Type 0} → A → Action S A
  pure a s = (done a, s)

  abbrev pub lift : {A : Type 0} → Outcome A → Action S A
  lift r s = (r, s)

  abbrev pub gets : {A : Type 0} → (S → A) → Action S A
  gets f s = (done (f s), s)

  abbrev pub modify : (S → S) → Action S (Unit {0})
  modify f s = (done tt, f s)

  -- The rest of a sequence, after its first step ended as given.
  abbrev pub resume : {A B : Type 0} → Outcome A → (A → Action S B) → Action S B
  resume (done a) f s = f a s
  resume (exited n) f s = (exited n, s)
  resume fault f s = (fault, s)
  resume spins f s = (spins, s)

  infixl 5 ◌>>=◌ ◌>>◌
  abbrev pub ◌>>=◌ : {A B : Type 0} → Action S A → (A → Action S B) → Action S B
  ◌>>=◌ m f s = let (r, s') = m s in resume r f s'

  abbrev pub ◌>>◌ : {A B : Type 0} → Action S A → Action S B → Action S B
  m >> n = m >>= λ _. n
