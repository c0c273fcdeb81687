-- ===== src/Broker/Contract.antt =====
-- What the broker promises, apart from how broker/broker.c keeps it: which server a request goes to
-- and in which order the repositories are kept is left open.
pub mod Ledger
pub mod Waiting
use rpc_broker.Base.{
  ℕ, zero, suc, ◌+◌, ◌-◌, ◌*◌, ◌/◌, ◌%◌, ◌^◌, ◌≤◌, ◌<◌, String, ◌≡◌, refl, sym, ap, ◌∙◌, subst, ◌≢◌,
  ◌↔◌, ◌⊎◌, inl, inr, Bool, true, false, not, ◌&&◌, ◌||◌, Option, none, some, List, [], ◌∷◌, ◌++◌,
  reverse, arith,
}
use rpc_broker.Base.{
  ltb, leb, ◌==◌, if◌then◌else◌, ltb→lt, lt→ltb, le→ltb, ==_iff, Bool-cases, Option-cases,
}
use rpc_broker.Base.{
  length, get_elem?, set, erase_idx, take, drop, replicate, find_idx, length-append, length-map,
  length-replicate, length-reverse, take-append, drop-append, length-erase_idx,
}
use rpc_broker.Base.{
  Text, codes, text_eq, text_eq_refl, text_eq→eq, text_eq-ne, until_nul, NoNul, until_nul-NoNul,
  NoNul-until_nul, length-until_nul,
}
use rpc_broker.Base.{
  ℤ, pos, negsuc, int32, rounds, int_eq, int_eq_refl, int_eq→eq, int32-small, InRange,
  int32-InRange,
}
use rpc_broker.Msgpack.{Packet}
use rpc_broker.Broker.Find.Server.{Service, contains}
use rpc_broker.Broker.Find.Client.{Request, is_for}
use rpc_broker.Stulibc.{Inserts}

-- A packet that was sent to an address and a port.
pub record Delivery : Type 0 where
  pub address : Text
  pub port : Text
  pub packet : Packet

pub record Books : Type 0 where
  pub services : List Service
  pub pending : List Request
  pub outbox : List Delivery

-- What a connection brings: a client's request, a response with an id and an operation, a server's
-- registration, which is acknowledged by the packet, or a message of another type.
pub data Event : Type 0 where
  a_request : Packet → Request → Event
  a_response : Packet → ℤ → Text → Event
  a_registration : Service → Packet → Event
  another : Event

abbrev pub deliver : Text → Text → Packet → Books → Books
deliver address port packet b = record b {
  outbox = b.outbox ++ record { address = address; port = port; packet = packet } ∷ [];
}

-- No registration offers the operation.
abbrev pub Unoffered : Text → List Service → Type 0
Unoffered op [] = Unit
Unoffered op (s ∷ ss) = (contains op s.services ≡ false) × Unoffered op ss

-- A request goes to a server that offers its operation, and nowhere if there is none.
abbrev pub Forwards : Packet → Text → Books → Books → Type 0
Forwards packet op b c =
    ((s : Service) × (rest : List Service) × Inserts s rest b.services
      × (contains op s.services ≡ true)
      × (c ≡ deliver s.address s.port packet b))
    ⊎ (Unoffered op b.services × (c ≡ b))

abbrev pub Step : Event → Books → Books → Type 0
Step (a_request packet r) b c =
    (rs : List Request) × Inserts r b.pending rs
    × Forwards packet r.operation (record b { pending = rs }) c
Step (a_response packet id op) b c =
    (q : Request) × (rest : List Request) × Inserts q rest b.pending
    × (is_for id op q ≡ true)
    × (c ≡ deliver q.address q.port packet (record b { pending = rest }))
Step (a_registration s ack) b c =
    (ss : List Service) × Inserts s b.services ss
    × (c ≡ deliver s.address s.port ack (record b { services = ss }))
Step another b c = c ≡ b

-- Connections, one after the other.
pub data Run : Books → List Event → Books → Type 0 where
  idle : {b : Books} → Run b [] b
  then_run :
      {b c d : Books} {e : Event} {es : List Event} → Step e b c → Run c es d → Run b (e ∷ es) d

-- A response that nobody waits for.
abbrev pub NobodyWaits : ℤ → Text → List Request → Type 0
NobodyWaits id op [] = Unit
NobodyWaits id op (r ∷ rs) = (is_for id op r ≡ false) × NobodyWaits id op rs

abbrev pub Unexpected : Event → Books → Type 0
Unexpected (a_response packet id op) b = NobodyWaits id op b.pending
Unexpected (a_request packet r) b = ⊥
Unexpected (a_registration s ack) b = ⊥
Unexpected another b = ⊥
