-- ===== src/Broker/Refines.antt =====
-- broker/broker.c: read_data does what the broker promises.
pub mod Steps
pub mod Runs
pub mod Answered
use rpc_broker.Base.{
  ℕ, zero, suc, ◌+◌, ◌-◌, ◌*◌, ◌/◌, ◌%◌, ◌^◌, ◌≤◌, ◌<◌, String, ◌≡◌, refl, sym, ap, ◌∙◌, subst, ◌≢◌,
  ◌↔◌, ◌⊎◌, inl, inr, Bool, true, false, not, ◌&&◌, ◌||◌, Option, none, some, List, [], ◌∷◌, ◌++◌,
  reverse, arith, map,
}
use rpc_broker.Base.{
  ltb, leb, ◌==◌, if◌then◌else◌, ltb→lt, lt→ltb, le→ltb, ==_iff, Bool-cases, Option-cases,
}
use rpc_broker.Base.{
  length, get_elem?, set, erase_idx, take, drop, replicate, find_idx, length-append, length-map,
  length-replicate, length-reverse, take-append, drop-append, length-erase_idx,
}
use rpc_broker.Base.{
  Text, codes, text_eq, text_eq_refl, text_eq→eq, text_eq-ne, until_nul, NoNul, until_nul-NoNul,
  NoNul-until_nul, length-until_nul,
}
use rpc_broker.Base.{
  ℤ, pos, negsuc, int32, rounds, int_eq, int_eq_refl, int_eq→eq, int32-small, InRange,
  int32-InRange,
}
use mathlib.Core.List.{append_assoc, append-nil}
use rpc_broker.Env.{Env, IsLawful}
use rpc_broker.Msgpack.{Packet, Header, header_value, continue}
use rpc_broker.Msgpack.Loop.{Decodes}
use rpc_broker.Broker.State.{Broker}
use rpc_broker.Broker.Ack.{ack_packet}
use rpc_broker.Broker.Database.{registration_queries}
use rpc_broker.Broker.Find.Server.{Service, contains, find_service, reg_of}
use rpc_broker.Broker.Find.Client.{Request, is_for, take_request}
use rpc_broker.Broker.Handler.{read_data, dispatch}
use rpc_broker.Broker.Handler.View.{View, state_of, Asks, Message}
use rpc_broker.Broker.Handler.Requests.{forwarded, after_request, on_service_request_lem}
use rpc_broker.Broker.Handler.Responses.{on_service_response_lem, on_service_response-unmatched}
use rpc_broker.Broker.Handler.Registrations.{reg_svc_req_lem}
use rpc_broker.Broker.Handler.Reading.{read_data_lem}
use rpc_broker.Broker.Unpack.Packed.{registration_headers, registered}
use rpc_broker.Broker.Contract.{
  Books, Delivery, Event, a_request, a_response, a_registration, another, Forwards, Unoffered,
  deliver, Step, Unexpected, NobodyWaits,
}
use rpc_broker.Common.Headers.{get_req_type}
use rpc_broker.Common.Protocol.{service_request, service_request_response, service_registration}
use rpc_broker.Common.Receive.Frames.{framed}
use rpc_broker.Common.ByteOrder.{uint32}
use rpc_broker.Common.Wire.Delivery.{frame, IsWhole}
use rpc_broker.Stulibc.{Inserts, IsUp, Reads, Sent}
use rpc_broker.Outcome.{Outcome, done, fault}

-- What is sent for these deliveries.
abbrev pub frames : List Delivery → List Sent
frames [] = []
frames (d ∷ ds) = frame d.address d.port d.packet ++ frames ds

pub frames-snoc :
    (ds : List Delivery) (d : Delivery)
    → frames (ds ++ d ∷ []) ≡ frames ds ++ frame d.address d.port d.packet
frames-snoc [] d = rw append-nil
frames-snoc (x ∷ ds) d = rw (frames-snoc ds d, append_assoc)

-- The broker's state, with these books in it.
abbrev pub view_of : Bool → Bool → List Text → Books → View
view_of verbose wait_indef executed b = record {
  verbose = verbose;
  wait_indef = wait_indef;
  services = b.services;
  requests = b.pending;
  executed = executed;
  sent = frames b.outbox;
}

abbrev pub Keeps : Broker → Books → Type 0
Keeps s b =
    (verbose : Bool) × (wait_indef : Bool) × (executed : List Text) × (s
      ≡ state_of (view_of verbose wait_indef executed b))

-- A packet that comes in whole, of this type.
abbrev pub Comes : Env → List ℕ → Packet → ℤ → Type 0
Comes e incoming packet kind =
    (rest : List ℕ) × (incoming ≡ framed packet rest)
    × IsWhole packet
    × (0 < packet.len)
    × (packet.len < uint32)
    × (get_req_type e.msgpack packet ≡ done kind)

-- What comes in brings the event. For a registration this takes that its statements can be printed,
-- and that the program goes on after the writes past `qry`: no statement comes about otherwise.
abbrev pub Brings : Env → List ℕ → Event → Type 0
Brings e incoming (a_request packet r) = Comes e incoming packet service_request × Asks e packet r
Brings e incoming (a_response packet id op) =
    Comes e incoming packet service_request_response × Message e packet id op
Brings e incoming (a_registration s ack) =
    (packet : Packet) × (address : Text) × (port : Text) × (name : Text) × (names : List Text)
    × (queries : List Text) × Comes e incoming packet service_registration
    × Decodes e.msgpack packet (map header_value (registration_headers address port name names))
        continue
    × (length names < 2147483648)
    × (s ≡ registered address port name names)
    × (registration_queries e.qry_overrun (reg_of s) ≡ done queries)
    × (ack ≡ ack_packet e (pos 0))
    × IsWhole ack
Brings e incoming another =
    (packet : Packet) × (kind : ℤ) × Comes e incoming packet kind
    × (int_eq kind service_request ≡ false)
    × (int_eq kind service_registration ≡ false)
    × (int_eq kind service_request_response ≡ false)

-- The first server that offers an operation is one that does.
pub find_service-cases :
    (op : Text) (ss : List Service)
    → ((s : Service) × (rest : List Service) × Inserts s rest ss
        × (contains op s.services ≡ true)
        × (find_service op ss ≡ some s))
      ⊎ (Unoffered op ss × (find_service op ss ≡ none))
find_service-cases op [] = inr (tt, refl)
find_service-cases op (s ∷ ss) = elim (Bool-cases (contains op s.services)) [
  | inl t ↦ inl (s, ss, ([], ss, refl, refl), t, rw t refl)
  | inr f ↦ elim (find_service-cases op ss) [
    | inl (x, rest, (before, after, e, e'), t, found) ↦
        inl (x, s ∷ rest, (s ∷ before, after, ap (◌∷◌ s) e, ap (◌∷◌ s) e'), t, rw f found)
    | inr (none_offers, found) ↦ inr ((f, none_offers), rw f found)
  ]
]

pub take_request-cases :
    (id : ℤ) (op : Text) (rs : List Request)
    → ((q : Request) × (rest : List Request) × Inserts q rest rs
        × (is_for id op q ≡ true)
        × (take_request id op rs ≡ some (q, rest)))
      ⊎ (NobodyWaits id op rs × (take_request id op rs ≡ none))
take_request-cases id op [] = inr (tt, refl)
take_request-cases id op (r ∷ rs) = elim (Bool-cases (is_for id op r)) [
  | inl t ↦ inl (r, rs, ([], rs, refl, refl), t, rw t refl)
  | inr f ↦ elim (take_request-cases id op rs) [
    | inl (q, rest, (before, after, e, e'), t, taken) ↦
        inl (q, r ∷ rest, (r ∷ before, after, ap (◌∷◌ r) e, ap (◌∷◌ r) e'), t, rw (f, taken) refl)
    | inr (nobody, taken) ↦ inr ((f, nobody), rw (f, taken) refl)
  ]
]

-- The handler makes the step of the event, or is left with a response that nobody waits for.
abbrev pub Refined : Event → Books → Broker → Outcome (Unit {0}) × Broker → Type 0
Refined ev b s result =
    ((c : Books) × (s' : Broker) × (result ≡ (done tt, s')) × Step ev b c × Keeps s' c)
    ⊎ (Unexpected ev b × (result ≡ (fault, s)))
