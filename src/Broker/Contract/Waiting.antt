-- ===== src/Broker/Contract/Waiting.antt =====
-- A request waits until a response with its id and operation comes.
use rpc_broker.Base.{
  ◌≡◌, refl, sym, ap, ◌∙◌, subst, inl, inr, true, false, ◌&&◌, List, [], ◌∷◌, ◌++◌,
}
use rpc_broker.Base.{if◌then◌else◌, Bool-cases}
use rpc_broker.Base.{Text, text_eq, text_eq→eq}
use rpc_broker.Base.{ℤ, int_eq, int_eq→eq}
use rpc_broker.Msgpack.{Packet}
use rpc_broker.Broker.Find.Client.{Request, is_for, is_for_self}
use rpc_broker.Broker.Contract.{
  Books, Event, a_request, a_response, a_registration, another, Step, Run, idle, then_run,
  Unexpected, NobodyWaits,
}
use rpc_broker.Broker.Contract.Ledger.{Forwards-pending}
use rpc_broker.Stulibc.{Inserts}

-- The pending requests that a response with this id and operation could settle.
abbrev pub matching : ℤ → Text → List Request → List Request
matching id op [] = []
matching id op (r ∷ rs) = let rest = matching id op rs in if is_for id op r then r ∷ rest else rest

matching-append :
    (id : ℤ) (op : Text) (xs ys : List Request)
    → matching id op (xs ++ ys) ≡ matching id op xs ++ matching id op ys
matching-append id op [] ys = refl
matching-append id op (x ∷ xs) ys = elim (Bool-cases (is_for id op x)) [
  | inl t ↦ rw t (ap (◌∷◌ x) (matching-append id op xs ys))
  | inr f ↦ rw f (matching-append id op xs ys)
]

-- A request that is not for the id and operation makes no difference to them.
matching-Inserts :
    (id : ℤ) (op : Text) (q : Request) (xs ys : List Request)
    → Inserts q xs ys
    → is_for id op q ≡ false
    → matching id op ys ≡ matching id op xs
matching-Inserts id op q xs ys (before, after, e, e') f =
    rw (e, e', matching-append id op before after, matching-append id op before (q ∷ after), f) refl

-- Only `r` waits for a response with its id and operation.
abbrev pub Waits : Request → List Request → Type 0
Waits r pending = matching r.message_id r.operation pending ≡ r ∷ []

-- The event is neither a request nor a response with this id and operation.
abbrev pub Apart : ℤ → Text → Event → Type 0
Apart id op (a_request packet q) = is_for id op q ≡ false
Apart id op (a_response packet id' op') = (int_eq id id' && text_eq op op') ≡ false
Apart id op (a_registration s ack) = Unit
Apart id op another = Unit

abbrev pub AllApart : ℤ → Text → List Event → Type 0
AllApart id op [] = Unit
AllApart id op (e ∷ es) = Apart id op e × AllApart id op es

pub is_for-ids :
    (id : ℤ) (op : Text) (q : Request)
    → is_for id op q ≡ true
    → (id ≡ q.message_id) × (op ≡ q.operation)
is_for-ids id op q t = elim (Bool-cases (int_eq id q.message_id)) [
  | inl i ↦ (int_eq→eq id q.message_id i, text_eq→eq op q.operation (rw i at t))
  | inr n ↦ absurd (let f : false ≡ true = rw n at t in cc)
]

-- A request for one id and operation is for no other.
is_for-ne :
    (id id' : ℤ) (op op' : Text) (q : Request)
    → is_for id' op' q ≡ true
    → (int_eq id id' && text_eq op op') ≡ false
    → is_for id op q ≡ false
is_for-ne id id' op op' q t f = let (i, o) = is_for-ids id' op' q t in rw (i, o) at f

Step-matching :
    (e : Event) (id : ℤ) (op : Text) (b c : Books)
    → Step e b c
    → Apart id op e
    → matching id op c.pending ≡ matching id op b.pending
Step-matching (a_request packet q) id op b c (rs, ins, fwd) a =
    ap (matching id op) (Forwards-pending packet q.operation fwd)
    ∙ matching-Inserts id op q b.pending rs ins a
Step-matching (a_response packet id' op') id op b c (q, rest, ins, t, e) a =
    ap (λ (w : Books). matching id op w.pending) e
    ∙ sym (matching-Inserts id op q rest b.pending ins (is_for-ne id id' op op' q t a))
Step-matching (a_registration s ack) id op b c (ss, ins, e) a =
    ap (λ (w : Books). matching id op w.pending) e
Step-matching another id op b c e a = ap (λ (w : Books). matching id op w.pending) e

pub Run-matching :
    (id : ℤ) (op : Text) {b c : Books} {es : List Event}
    → Run b es c
    → AllApart id op es
    → matching id op c.pending ≡ matching id op b.pending
Run-matching id op idle a = refl
Run-matching id op (then_run {b} {c} {d} {e} {es} step run) (a, as') =
    Run-matching id op run as' ∙ Step-matching e id op b c step a

the_one : (q r : Request) (xs ys : List Request) → xs ++ q ∷ ys ≡ r ∷ [] → (q ≡ r) × (xs ++ ys ≡ [])
the_one q r [] ys h = (cc, cc)
the_one q r (x ∷ []) ys h = (cc, cc)
the_one q r (x ∷ y ∷ xs) ys h = (cc, cc)

matching-NobodyWaits :
    (id : ℤ) (op : Text) (rs : List Request) → matching id op rs ≡ [] → NobodyWaits id op rs
matching-NobodyWaits id op [] h = tt
matching-NobodyWaits id op (r ∷ rs) h = elim (Bool-cases (is_for id op r)) [
  | inl t ↦ absurd (let f : r ∷ matching id op rs ≡ [] = rw t at h in cc)
  | inr f ↦ (f, matching-NobodyWaits id op rs (rw f at h))
]

-- A response with the id and operation of the one request that waits for it goes to that request,
-- and after it nobody waits for another.
pub answers_the_one :
    (r : Request) (packet : Packet) (b c : Books)
    → Waits r b.pending
    → Step (a_response packet r.message_id r.operation) b c
    → (c.outbox ≡ b.outbox ++ record { address = r.address; port = r.port; packet = packet } ∷ [])
      × NobodyWaits r.message_id r.operation c.pending
answers_the_one r packet b c w (q, rest, (before, after, e', e''), t, e) =
    let (same, left) =
      the_one q r (matching r.message_id r.operation before)
        (matching r.message_id r.operation after) parts in
    (
      ap (λ (x : Books). x.outbox) e
          ∙ ap
              (λ (x : Request).
                b.outbox ++ record { address = x.address; port = x.port; packet = packet } ∷ [])
              same,
      subst (λ (x : Books). NobodyWaits r.message_id r.operation x.pending) (sym e)
          (matching-NobodyWaits r.message_id r.operation rest (
            ap (matching r.message_id r.operation) e'
            ∙ matching-append r.message_id r.operation before after
            ∙ left)),
    )
  where
    parts :
        matching r.message_id r.operation before ++ q ∷ matching r.message_id r.operation after
        ≡ r ∷ []
    parts = rw (e'', matching-append r.message_id r.operation before (q ∷ after), t) at w

NobodyWaits-matching :
    (id : ℤ) (op : Text) (rs : List Request) → NobodyWaits id op rs → matching id op rs ≡ []
NobodyWaits-matching id op [] n = refl
NobodyWaits-matching id op (r ∷ rs) (f, n) = rw f (NobodyWaits-matching id op rs n)

-- Somebody waits for it, so it is not unexpected.
pub Waits-expected :
    (r : Request) (packet : Packet) (b : Books)
    → Waits r b.pending
    → ¬ Unexpected (a_response packet r.message_id r.operation) b
Waits-expected r packet b w u =
    let none_waits = NobodyWaits-matching r.message_id r.operation b.pending u in cc

append-eq-nil : (xs ys : List Request) → xs ++ ys ≡ [] → (xs ≡ []) × (ys ≡ [])
append-eq-nil [] ys h = (refl, h)
append-eq-nil (x ∷ xs) ys h = cc

-- A request for which nobody waits yet is the one that waits once it has come in.
pub request-Waits :
    (r : Request) (packet : Packet) (b c : Books)
    → NobodyWaits r.message_id r.operation b.pending
    → Step (a_request packet r) b c
    → Waits r c.pending
request-Waits r packet b c n (rs, (before, after, e, e'), fwd) =
    let (first, later) =
      append-eq-nil (matching r.message_id r.operation before)
        (matching r.message_id r.operation after)
        (sym (matching-append r.message_id r.operation before after)
          ∙ (rw e at (NobodyWaits-matching r.message_id r.operation b.pending n))) in
    ap (matching r.message_id r.operation) (Forwards-pending packet r.operation fwd)
    ∙ rw
        (
          e',
          matching-append r.message_id r.operation before (r ∷ after),
          is_for_self r,
          first,
          later,
        )
        refl
