-- ===== src/Broker/Contract/Ledger.antt =====
-- No request is lost, and none is made up.
use rpc_broker.Base.{◌≡◌, ap, subst, inl, inr, true, List, [], ◌∷◌, ◌++◌}
use rpc_broker.Base.{Text}
use mathlib.Core.List.{Perm, perm_middle, append-nil}
use mathlib.Core.List.Perm
use rpc_broker.Msgpack.{Packet}
use rpc_broker.Broker.Find.Client.{Request, is_for}
use rpc_broker.Broker.Contract.{
  Books, Event, a_request, a_response, a_registration, another, Forwards, Step, Run, idle, then_run,
}
use rpc_broker.Stulibc.{Inserts}

-- The requests that the events ask.
abbrev pub asked : List Event → List Request
asked [] = []
asked (a_request packet r ∷ es) = r ∷ asked es
asked (a_response packet id op ∷ es) = asked es
asked (a_registration s ack ∷ es) = asked es
asked (another ∷ es) = asked es

-- These requests, in this order, are those that the responses among the events settle.
abbrev pub Settles : List Event → List Request → Type 0
Settles [] [] = Unit
Settles [] (q ∷ qs) = ⊥
Settles (a_response packet id op ∷ es) [] = ⊥
Settles (a_response packet id op ∷ es) (q ∷ qs) = (is_for id op q ≡ true) × Settles es qs
Settles (a_request packet r ∷ es) qs = Settles es qs
Settles (a_registration s ack ∷ es) qs = Settles es qs
Settles (another ∷ es) qs = Settles es qs

Inserts-perm : {r : Request} {xs ys : List Request} → Inserts r xs ys → Perm ys (r ∷ xs)
Inserts-perm {r} (before, after, e, e') = rw (e, e') (perm_middle before after)

pub Forwards-pending :
    (packet : Packet) (op : Text) {b c : Books} → Forwards packet op b c → c.pending ≡ b.pending
Forwards-pending packet op (inl (s, rest, ins, offered, e)) = ap (λ (w : Books). w.pending) e
Forwards-pending packet op (inr (none_offers, e)) = ap (λ (w : Books). w.pending) e

-- What the ledger says of these events, from one state to another.
abbrev pub Balanced : Books → List Event → Books → Type 0
Balanced b es c =
    (qs : List Request) × Settles es qs × Perm (b.pending ++ asked es) (qs ++ c.pending)

Step-Balanced :
    (e : Event) (b c d : Books) (es : List Event)
    → Step e b c
    → Balanced c es d
    → Balanced b (e ∷ es) d
Step-Balanced (a_request packet r) b c d es (rs, ins, fwd) (qs, s, p) = (
  qs,
  s,
  Perm.trans (perm_middle b.pending (asked es)) (
      Perm.trans (Perm.append_right (asked es) (Perm.symm (Inserts-perm ins))) (
        subst (λ w. Perm (w ++ asked es) (qs ++ d.pending))
          (Forwards-pending packet r.operation fwd) p)),
)
Step-Balanced (a_response packet id op) b c d es (q, rest, ins, is_its, e) (qs, s, p) = (
  q ∷ qs,
  (is_its, s),
  Perm.trans (Perm.append_right (asked es) (Inserts-perm ins))
      (Perm.cons q (subst (λ (w : Books). Perm (w.pending ++ asked es) (qs ++ d.pending)) e p)),
)
Step-Balanced (a_registration sv ack) b c d es (ss, ins, e) (qs, s, p) =
    (qs, s, subst (λ (w : Books). Perm (w.pending ++ asked es) (qs ++ d.pending)) e p)
Step-Balanced another b c d es e (qs, s, p) =
    (qs, s, subst (λ (w : Books). Perm (w.pending ++ asked es) (qs ++ d.pending)) e p)

-- In every run the requests that were pending and those that were asked are, as often, those that
-- responses with their id and operation settled, and those that are pending in the end.
pub ledger : {b c : Books} {es : List Event} → Run b es c → Balanced b es c
ledger {b} idle = ([], tt, rw append-nil (Perm.refl b.pending))
ledger (then_run {b} {c} {d} {e} {es} step run) = Step-Balanced e b c d es step (ledger run)
