-- ===== src/Journey/Session.antt =====
-- What client/client.c prints when the functions of server/server_interface.c answer its calls.
use rpc_broker.Common.Receive.Frames.{framed}
use rpc_broker.Journey.RoundTrip.{ready_for}
use rpc_broker.Common.ByteOrder.{uint32}
use rpc_broker.Server.Respond.{reply_headers}
use rpc_broker.Journey.Reply.{reply_packet}
use rpc_broker.Msgpack.{AllFit, pack_headers}
use rpc_broker.Server.Proxy.Replies.{Returnable}
use rpc_broker.Outcome.{done}
use rpc_broker.Journey.RemoteCall.{request_of}
use rpc_broker.Common.Wire.Delivery.{frame}
use rpc_broker.Server.Proxy.Passing.{AllPass, scalar}
use rpc_broker.Common.Prototypes.{Prototype, Args, ValueOf, say_dog_prototype}
use rpc_broker.Server.Proxy.{Operation}
use rpc_broker.Client.Proxy.{Caller}
use rpc_broker.Stulibc.{IsUp, Reads, Sent, to}
use rpc_broker.Env.{Env, IsLawful}
use rpc_broker.Client.Main.{Turn, Line, shown_text}
use rpc_broker.Base.{ℕ, ◌<◌, String, ◌≡◌, some, List}
use rpc_broker.Base.{length}
use rpc_broker.Base.{Text, codes, until_nul}
use rpc_broker.Base.{pos}

-- The line that prints this text.
abbrev pub says : String → Text → Line
says format t = record { format = format; argument = shown_text (some t) }

abbrev pub four_dogs : Args say_dog_prototype.params
four_dogs = (
  to (codes "labrador_"),
  (to (codes "alsatian_"), (to (codes "bulldog_"), (to (codes "spaniel"), tt))),
)

module _ (e : Env) (law : IsLawful e) (up : IsUp e.net) (reads : Reads e.net) (c : Caller) where
  open e use {msgpack as m, stulibc as l, net}

  -- The function of the interface returns the result for these arguments, and the reply that the
  -- server packs for it is what comes in while the call waits. Both packets fit their length.
  abbrev pub Answered :
      (o : Operation) → Args o.prototype.params → ValueOf o.prototype.result → Turn → Type 0
  Answered o args result turn =
      AllPass o.prototype.params args
      × (o.body args ≡ done result)
      × Returnable o.prototype.result result
      × AllFit (
          reply_headers (until_nul o.prototype.name) (pos turn.id)
            (scalar o.prototype.result result))
      × (length (
            pack_headers m (
              reply_headers (until_nul o.prototype.name) (pos turn.id)
                (scalar o.prototype.result result)))
          < uint32)
      × ((request_of e law up reads c turn.id o.prototype args).len < uint32)
      × ((rest : List ℕ) × (turn.waiting
            ≡ ready_for (
                framed
                  (reply_packet m (until_nul o.prototype.name) turn.id
                    (scalar o.prototype.result result))
                  rest)))

  abbrev pub sends_to_broker : ℕ → (p : Prototype) → Args p.params → List Sent
  sends_to_broker id p args =
      frame c.broker_address c.broker_port (request_of e law up reads c id p args)
