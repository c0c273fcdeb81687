-- ===== src/System/Returning.antt =====
-- Replies come to the clients that asked for them.
use rpc_broker.Broker.Find.Server.{Service}
use rpc_broker.Server.Proxy.{Operation}
use rpc_broker.Stulibc.{IsUp, Reads}
use rpc_broker.System.Lists.{AllOf, AllOf-Among, AllOf-map}
use rpc_broker.System.Keeping.{IsRight, Answers}
use rpc_broker.Env.{Env, IsLawful}
use rpc_broker.Msgpack.{Msgpack}
use rpc_broker.Broker.Refines.{Keeps}
use rpc_broker.Broker.Contract.{Delivery, Books}
use rpc_broker.System.{World, Asking, Among, Carried, request_to, reply_for, name_of, Reach}
use rpc_broker.Base.{ℕ, ◌<◌, ◌≡◌, sym, ap, ◌∙◌, ◌⊎◌, inl, inr, Bool, List, pos_part}
use rpc_broker.Base.{Text, until_nul}
use rpc_broker.Base.{int32, int32-small}
use rpc_broker.System.Invariant.{IsAsked, Reach-Kept}

-- No two calls have the same id and the same operation.
abbrev pub AllApart : List Asking → Type 0
AllApart asks =
    (a b : Asking) → Among a asks → Among b asks → a.id ≡ b.id → name_of a ≡ name_of b → a ≡ b

-- A call's own request, to a server, or a call's own reply, at the client that made the call.
abbrev pub IsItsOwn : Msgpack → Asking → Delivery → Type 0
IsItsOwn m a d =
    (d.packet ≡ request_to m a)
    ⊎ (d ≡ record {
      address = until_nul a.caller.client_address;
      port = until_nul a.caller.wait_response_port;
      packet = reply_for m a;
    })

int32-inj : (a b : ℕ) → a < 2147483648 → b < 2147483648 → int32 a ≡ int32 b → a ≡ b
int32-inj a b h k e = ap pos_part (sym (int32-small a h) ∙ e ∙ int32-small b k)

Delivery-ext :
    (c d : Delivery) → c.address ≡ d.address → c.port ≡ d.port → c.packet ≡ d.packet → c ≡ d
Delivery-ext c d a p k =
    ap (λ x. record { address = x; port = c.port; packet = c.packet }) a
    ∙ ap (λ x. record { address = d.address; port = x; packet = c.packet }) p
    ∙ ap (λ x. record { address = d.address; port = d.port; packet = x }) k

IsItsOwn-reply :
    (m : Msgpack) (a b : Asking) (d : Delivery) → a ≡ b → Answers m a b d → IsItsOwn m a d
IsItsOwn-reply m a b d same (is_reply, ids, names, is_address, is_port) = inr (
    Delivery-ext d
      (record {
        address = until_nul a.caller.client_address;
        port = until_nul a.caller.wait_response_port;
        packet = reply_for m a;
      })
      (is_address ∙ ap (λ (x : Asking). until_nul x.caller.client_address) (sym same))
      (is_port ∙ ap (λ (x : Asking). until_nul x.caller.wait_response_port) (sym same)) is_reply)

IsRight-IsItsOwn :
    (m : Msgpack) (os : List Operation) (asks : List Asking) (d : Delivery)
    → AllOf (Carried m os) asks
    → AllApart asks
    → IsRight m asks d
    → (a : Asking) × Among a asks × IsItsOwn m a d
IsRight-IsItsOwn m os asks d carried apart (inl (a, among, is_request)) = (a, among, inl is_request)
IsRight-IsItsOwn m os asks d carried apart (inr (a, b, among, among', answers_it)) =
    let small = (AllOf-Among (Carried m os) asks a among carried).1 in
    let small' = (AllOf-Among (Carried m os) asks b among' carried).1 in
    let same_id = int32-inj a.id b.id small small' answers_it.1 in
    let same = apart a b among among' same_id answers_it.2 in
    (a, among, IsItsOwn-reply m a b d same answers_it)

module _ (e : Env) (law : IsLawful e) (up : IsUp e.net) (reads : Reads e.net)
    (broker_address broker_port : Text) (verbose : Bool) (os : List Operation)
    (services : List Service) where
  -- On a network that is up and whose reads are not cut short, in every world that comes about when
  -- clients begin calls that the proxies can carry, and the broker and a registered server read
  -- packets that were sent to them or to others, late, in any order and any number of times, or
  -- never: if no two calls have the same id and operation, each packet that the broker has sent is
  -- the request of a call, or it is the reply with the result of a call and went to the address and
  -- the port of the client that made this call; and each call that the server has made is one that a
  -- client has begun, with its id, its operation and its arguments.
  pub replies_return :
      (w : World)
      → Reach e broker_address broker_port verbose os services w
      → AllApart w.asks
      → (b : Books) × Keeps w.broker b
        × AllOf (λ d. (a : Asking) × Among a w.asks × IsItsOwn e.msgpack a d) b.outbox
        × AllOf (IsAsked w.asks) w.calls
  replies_return w r apart =
      let (b, keeps, (pending, outbox), wire, carried, made) =
        Reach-Kept e law up reads broker_address broker_port verbose os services w r in
      (
        b,
        keeps,
        AllOf-map (IsRight e.msgpack w.asks)
            (λ d. (a : Asking) × Among a w.asks × IsItsOwn e.msgpack a d) b.outbox
            (λ d right. IsRight-IsItsOwn e.msgpack os w.asks d carried apart right) outbox,
        made,
      )
