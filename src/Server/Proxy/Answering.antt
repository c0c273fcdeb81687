-- ===== src/Server/Proxy/Answering.antt =====
-- What the proxy of the server does with a call.
use rpc_broker.Server.Marshal.{Call}
use rpc_broker.Server.Proxy.Sending.{call_marshel_response_send, respond}
use rpc_broker.Action.{Action, resume, pure}
use rpc_broker.Stulibc.{Sent}
use rpc_broker.Env.{Env, IsLawful}
use rpc_broker.Outcome.{Outcome, done, exited, fault, spins}
use rpc_broker.Server.Proxy.{Operation, Call}
use rpc_broker.Base.{◌≡◌, refl, ap, ◌∙◌, inl, inr, Bool, Option, none, some, List, [], ◌∷◌}
use rpc_broker.Base.{if◌then◌else◌, Bool-cases, Option-cases}
use rpc_broker.Base.{Text, text_eq, text_eq→eq}

-- The functions of this name.
abbrev pub named : Text → List Operation → List Operation
named name [] = []
named name (o ∷ os) =
    let rest = named name os in if text_eq name o.prototype.name then o ∷ rest else rest

head_is : (o o' : Operation) (xs : List Operation) → o ∷ xs ≡ o' ∷ [] → (o ≡ o') × (xs ≡ [])
head_is o o' xs e = (cc, cc)

ends_there :
    (w : Outcome (Unit {0}) × List Sent) (k : Action (List Sent) (Unit {0}))
    → ((sent : List Sent) → k sent ≡ (done tt, sent))
    → resume w.0 (λ u. k) w.1 ≡ w
ends_there (done u, sent) k h = h sent
ends_there (exited n, sent) k h = refl
ends_there (fault, sent) k h = refl
ends_there (spins, sent) k h = refl

module _ (e : Env) (law : IsLawful e) (broker_address broker_port : Text) (verbose : Bool) where
  open e use {msgpack as m, stulibc as l, net}

  not_offered :
      (os : List Operation) (call : Call) (sent : List Sent)
      → named call.operation os ≡ []
      → call_marshel_response_send e broker_address broker_port verbose os call sent
        ≡ (done tt, sent)
  unfolding call_marshel_response_send
  not_offered [] call sent h = refl
  not_offered (o ∷ os) call sent h = elim (Bool-cases (text_eq call.operation o.prototype.name)) [
    | inl t ↦ absurd (let n : o ∷ named call.operation os ≡ [] = rw t at h in cc)
    | inr f ↦
        rw (law.lists.str_equals_lem call.operation o.prototype.name, f)
          (not_offered os call sent (rw f at h))
  ]

  -- A function that is the only one of its name answers the calls for this name.
  pub only_offered :
      (os : List Operation) (o : Operation) (call : Call) (sent : List Sent)
      → named call.operation os ≡ o ∷ []
      → call_marshel_response_send e broker_address broker_port verbose os call sent
        ≡ respond e broker_address broker_port verbose o call sent
  unfolding call_marshel_response_send
  only_offered [] o call sent h = absurd cc
  only_offered (o' ∷ os) o call sent h =
      elim (Bool-cases (text_eq call.operation o'.prototype.name)) [
        | inl t ↦
            let (same, rest) = head_is o' o (named call.operation os) (rw t at h) in
            rw (law.lists.str_equals_lem call.operation o'.prototype.name, t)
              (ends_there (respond e broker_address broker_port verbose o' call sent)
                  (call_marshel_response_send e broker_address broker_port verbose os call)
                  (λ s. not_offered os call s rest)
                ∙ ap (λ f. respond e broker_address broker_port verbose f call sent) same)
        | inr f ↦
            rw (law.lists.str_equals_lem call.operation o'.prototype.name, f)
              (only_offered os o call sent (rw f at h))
      ]

-- No two functions have the same name.
abbrev pub Distinct : List Operation → Type 0
Distinct [] = Unit
Distinct (o ∷ os) = (named o.prototype.name os ≡ []) × Distinct os

-- The function of this name.
abbrev pub lookup : Text → List Operation → Option Operation
lookup name [] = none
lookup name (o ∷ os) =
    let rest = lookup name os in if text_eq name o.prototype.name then some o else rest

named-none : (name : Text) (os : List Operation) → lookup name os ≡ none → named name os ≡ []
named-none name [] h = refl
named-none name (o ∷ os) h = elim (Bool-cases (text_eq name o.prototype.name)) [
  | inl t ↦ absurd (let n : some o ≡ none = rw t at h in cc)
  | inr f ↦ rw f (named-none name os (rw f at h))
]

named-some :
    (name : Text) (os : List Operation) (o : Operation)
    → Distinct os
    → lookup name os ≡ some o
    → named name os ≡ o ∷ []
named-some name [] o d h = absurd cc
named-some name (o' ∷ os) o (alone, d) h = elim (Bool-cases (text_eq name o'.prototype.name)) [
  | inl t ↦
      let same : some o' ≡ some o = rw t at h in
      let equal = text_eq→eq name o'.prototype.name t in
      let none_else : named name os ≡ [] = rw equal alone in
      rw (t, none_else) (let q : o' ≡ o = cc in ap (λ x. x ∷ []) q)
  | inr f ↦ rw f (named-some name os o d (rw f at h))
]

module _ (e : Env) (law : IsLawful e) (broker_address broker_port : Text) (verbose : Bool) where
  -- What a look-up of the operation's name among the functions makes of a call.
  abbrev pub dispatched : Option Operation → Call → Action (List Sent) (Unit {0})
  dispatched none call = pure tt
  dispatched (some o) call = respond e broker_address broker_port verbose o call

  -- When no two functions have the same name, the tests of the operation's name, one after the other
  -- and without an else, are a look-up: a call for one of the functions makes that one respond and no
  -- other, and a call for any other operation sends nothing.
  pub call_marshel_response_send_lem :
      (os : List Operation) (call : Call) (sent : List Sent)
      → Distinct os
      → call_marshel_response_send e broker_address broker_port verbose os call sent
        ≡ dispatched (lookup call.operation os) call sent
  call_marshel_response_send_lem os call sent d = elim (Option-cases (lookup call.operation os)) [
    | inl n ↦ rw n (
        not_offered e law broker_address broker_port verbose os call sent
          (named-none call.operation os n))
    | inr (o, s) ↦ rw s (
        only_offered e law broker_address broker_port verbose os o call sent
          (named-some call.operation os o d s))
  ]
