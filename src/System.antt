-- ===== src/System.antt =====
-- The programs together: clients of client/client-proxy.c, the broker of broker/broker.c and a server
-- of server/server.c, whose packets may be delayed, reordered, repeated or lost on their way.
pub mod Lists
pub mod Keeping
pub mod Invariant
pub mod Returning
use rpc_broker.Server.Respond.{reply_headers}
use rpc_broker.Server.Process.{read_and_process}
use rpc_broker.Common.ByteOrder.{uint32}
use rpc_broker.Common.Receive.Frames.{framed}
use rpc_broker.Client.Pack.{client_headers}
use rpc_broker.Broker.Handler.{read_data}
use rpc_broker.Server.Proxy.Replies.{Returnable, answer_of, sent_after}
use rpc_broker.Outcome.{done}
use rpc_broker.Broker.Refines.{view_of}
use rpc_broker.Common.Wire.Delivery.{frame}
use rpc_broker.Server.Proxy.Answering.{named}
use rpc_broker.Server.Proxy.Passing.{scalars, scalar, AllPass}
use rpc_broker.Common.Prototypes.{Args, ValueOf}
use rpc_broker.Broker.Handler.View.{state_of, View}
use rpc_broker.Stulibc.{Sent}
use rpc_broker.Journey.Reply.{reply_packet}
use rpc_broker.Journey.{request_packet}
use rpc_broker.Server.Marshal.{Call}
use rpc_broker.Server.Proxy.{Operation}
use rpc_broker.Env.{Env}
use rpc_broker.Broker.Find.Server.{Service}
use rpc_broker.Msgpack.{Msgpack, Packet, Scalar, packet_of, AllFit}
use rpc_broker.Broker.State.{Broker}
use rpc_broker.Client.Proxy.{Caller, request_for}
use rpc_broker.Base.{
  ℕ, zero, suc, ◌+◌, ◌-◌, ◌*◌, ◌/◌, ◌%◌, ◌^◌, ◌≤◌, ◌<◌, String, ◌≡◌, refl, sym, ap, ◌∙◌, subst, ◌≢◌,
  ◌↔◌, ◌⊎◌, inl, inr, Bool, true, false, not, ◌&&◌, ◌||◌, Option, none, some, List, [], ◌∷◌, ◌++◌,
  reverse, arith,
}
use rpc_broker.Base.{
  ltb, leb, ◌==◌, if◌then◌else◌, ltb→lt, lt→ltb, le→ltb, ==_iff, Bool-cases, Option-cases,
}
use rpc_broker.Base.{
  length, get_elem?, set, erase_idx, take, drop, replicate, find_idx, length-append, length-map,
  length-replicate, length-reverse, take-append, drop-append, length-erase_idx,
}
use rpc_broker.Base.{
  Text, codes, text_eq, text_eq_refl, text_eq→eq, text_eq-ne, until_nul, NoNul, until_nul-NoNul,
  NoNul-until_nul, length-until_nul,
}
use rpc_broker.Base.{
  ℤ, pos, negsuc, int32, rounds, int_eq, int_eq_refl, int_eq→eq, int32-small, InRange,
  int32-InRange,
}

-- A client's call of a function, and what the function returns for it.
pub record Asking : Type 0 where
  pub caller : Caller
  pub id : ℕ
  pub operation : Operation
  pub args : Args operation.prototype.params
  pub result : ValueOf operation.prototype.result

abbrev pub name_of : Asking → Text
name_of a = until_nul a.operation.prototype.name

-- The broker, the calls that the server has made, every packet that a client or the server has sent,
-- and every call that a client has begun; the latest first.
pub record World : Type 0 where
  pub broker : Broker
  pub calls : List Call
  pub wire : List Packet
  pub asks : List Asking

-- The element stands in the list.
abbrev pub Among {ℓ} : {A : Type ℓ} → A → List A → Type ℓ
Among {A} a xs = (before : List A) × (after : List A) × (xs ≡ before ++ a ∷ after)

abbrev pub request_to : Msgpack → Asking → Packet
request_to m a =
    request_packet m a.caller.client_address a.caller.wait_response_port a.id
      a.operation.prototype.name (scalars a.operation.prototype.params a.args)

abbrev pub reply_for : Msgpack → Asking → Packet
reply_for m a = reply_packet m (name_of a) a.id (scalar a.operation.prototype.result a.result)

-- A call that the proxies can carry: of a function that the server alone offers under its name, for
-- arguments that arrive as they are and a result that the function returns, with messages that fit.
abbrev pub Carried : Msgpack → List Operation → Asking → Type 0
Carried m os a =
    (named (name_of a) os ≡ a.operation ∷ [])
    × (a.id < 2147483648)
    × AllPass a.operation.prototype.params a.args
    × (a.operation.body a.args ≡ done a.result)
    × Returnable a.operation.prototype.result a.result
    × AllFit (
        client_headers a.caller.client_address a.caller.wait_response_port (pos a.id)
          a.operation.prototype.name (scalars a.operation.prototype.params a.args))
    × ((request_to m a).len < uint32)
    × AllFit (reply_headers (name_of a) (pos a.id) (scalar a.operation.prototype.result a.result))
    × ((reply_for m a).len < uint32)

-- What is sent to the broker for these packets.
abbrev pub frames_to : Text → Text → List Packet → List Sent
frames_to address port [] = []
frames_to address port (p ∷ ps) = frame address port p ++ frames_to address port ps

-- A broker with these registrations and nothing else, a registered server that has made no call, and
-- nothing sent.
abbrev pub quiet : List Service → World
quiet services = record {
  broker =
      state_of (view_of false true [] (record { services = services; pending = []; outbox = [] }));
  calls = [];
  wire = [];
  asks = [];
}

module _ (e : Env) (broker_address broker_port : Text) (verbose : Bool) (os : List Operation)
    (services : List Service) where
  open e use {msgpack as m}

  -- The worlds that come about when clients begin calls, and the broker and the server read packets
  -- that were sent, in any order and any number of times.
  pub data Reach : World → Type 0 where
    started : Reach (quiet services)
    asked_for :
        {w : World}
        → Reach w
        → (a : Asking) (sbuf : List ℕ) → Carried m os a
        → request_for m a.caller (pos a.id) a.operation.prototype a.args ≡ done sbuf
        → Reach (record w { wire = packet_of sbuf ∷ w.wire; asks = a ∷ w.asks })
    brokered :
        {w : World}
        → Reach w
        → (p : Packet) (rest : List ℕ) (broker' : Broker) → Among p w.wire
        → read_data e (framed p rest) w.broker ≡ (done tt, broker')
        → Reach (record w { broker = broker' })
    served :
        {w : World}
        → Reach w
        → (p : Packet) (rest : List ℕ) (calls' : List Call) (sent : List Packet) → Among p w.wire
        → read_and_process e
            (answer_of e broker_address broker_port verbose os)
            (framed p rest)
            (record { is_registered = true; calls = w.calls })
          ≡ (done tt, record { is_registered = true; calls = calls' })
        → sent_after e broker_address broker_port verbose os calls' []
          ≡ sent_after e broker_address broker_port verbose os w.calls []
            ++ frames_to broker_address broker_port sent
        → Reach (record w { calls = calls'; wire = sent ++ w.wire })
