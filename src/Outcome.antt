-- ===== src/Outcome.antt =====
-- How a call of a C function ends, and actions that change a state on the way.
use rpc_broker.Base.{ℕ, ◌≡◌, refl}

-- `exited n` is `exit(n)`. `fault` is behaviour that C leaves undefined, or that depends on a value
-- which was never set. `spins` is a loop whose fuel ran out.
pub data Outcome {ℓ} (A : Type ℓ) : Type ℓ where
  done : A → Outcome A
  exited : ℕ → Outcome A
  fault : Outcome A
  spins : Outcome A

infixl 5 ◌>>=◌ ◌>>◌
abbrev pub ◌>>=◌ {ℓ κ} : {A : Type ℓ} {B : Type κ} → Outcome A → (A → Outcome B) → Outcome B
done a >>= f = f a
exited n >>= f = exited n
fault >>= f = fault
spins >>= f = spins

abbrev pub ◌>>◌ {ℓ} : {B : Type ℓ} → Outcome (Unit {0}) → Outcome B → Outcome B
m >> k = m >>= λ _. k

-- The call comes back, by a return or by the end of the process, and not by a fault.
abbrev pub IsDone {ℓ} : {A : Type ℓ} → Outcome A → Type 0
IsDone (done a) = Unit
IsDone (exited n) = ⊥
IsDone fault = ⊥
IsDone spins = ⊥

-- A loop inside the call ended.
abbrev pub Ends {ℓ} : {A : Type ℓ} → Outcome A → Type 0
Ends (done a) = Unit
Ends (exited n) = Unit
Ends fault = Unit
Ends spins = ⊥

pub bind_assoc {ℓ κ μ} :
    {A : Type ℓ} {B : Type κ} {C : Type μ} (o : Outcome A) (f : A → Outcome B) (g : B → Outcome C)
    → ((o >>= f) >>= g) ≡ (o >>= λ x. f x >>= g)
bind_assoc (done x) f g = refl
bind_assoc (exited n) f g = refl
bind_assoc fault f g = refl
bind_assoc spins f g = refl

-- What holds of the result, if there is one.
abbrev pub Holds {ℓ} : {A : Type ℓ} → (A → Type 0) → Outcome A → Type 0
Holds P (done a) = P a
Holds P (exited n) = Unit
Holds P fault = Unit
Holds P spins = Unit

pub Holds-bind {ℓ κ} :
    {A : Type ℓ} {B : Type κ} (P : A → Type 0) (Q : B → Type 0) (o : Outcome A) (f : A → Outcome B)
    → Holds P o
    → ((a : A) → P a → Holds Q (f a))
    → Holds Q (o >>= f)
Holds-bind P Q (done a) f p h = h a p
Holds-bind P Q (exited n) f p h = tt
Holds-bind P Q fault f p h = tt
Holds-bind P Q spins f p h = tt

-- A call of which nothing is said.
pub Holds-any {ℓ} : {A : Type ℓ} (o : Outcome A) → Holds (λ a. Unit {0}) o
Holds-any (done a) = tt
Holds-any (exited n) = tt
Holds-any fault = tt
Holds-any spins = tt
