-- ===== src/Broker/Handler/Responses.antt =====
-- A server's response: it goes to the client whose request it answers.
use rpc_broker.Broker.Find.Server.{find_service}
use rpc_broker.Broker.Handler.Requests.{forwarded, on_service_request_lem, after_request}
use rpc_broker.Common.Wire.Delivery.{frame, send_req_lem, unpack_data-returns}
use rpc_broker.Outcome.{done, fault}
use rpc_broker.Common.Wire.{send_req}
use rpc_broker.Broker.Handler.View.{View, Message, Asks, state_of}
use rpc_broker.Msgpack.{Packet}
use rpc_broker.Broker.Handler.{on_service_response, send_req, on_service_request, unset}
use rpc_broker.Stulibc.{IsUp, unset, Inserts}
use rpc_broker.Broker.Find.Client.{
  Request, take_request, is_for, find_client_for_response_lem, is_for_self,
}
use rpc_broker.Env.{Env, IsLawful}
use rpc_broker.Base.{◌≡◌, true, none, some, List, [], ◌∷◌, ◌++◌, arith}
use rpc_broker.Base.{Text}
use rpc_broker.Base.{ℤ}

module _ (e : Env) (law : IsLawful e) (up : IsUp e.net) where
  open e use {msgpack as m, stulibc as l}

  -- On a network that is up, a whole packet that reads as a response goes unchanged to the first
  -- pending request with its id and operation, if there is one, and exactly that request is
  -- removed.
  pub on_service_response_lem :
      (packet : Packet) (id : ℤ) (op : Text) (q : Request) (rest : List Request) (v : View)
      → Message e packet id op
      → take_request id op v.requests ≡ some (q, rest)
      → on_service_response e packet (state_of v) ≡ (
        done tt,
        state_of (record v { requests = rest; sent = v.sent ++ frame q.address q.port packet }),
      )
  unfolding on_service_response
  on_service_response_lem packet id op q rest v msg t = rw (
    find_client_for_response_lem m l law.lists packet id op msg.ids msg.ops
        (record { address = unset; port = unset }) v.requests,
    t,
    send_req_lem m law.codec e.net up q.address q.port packet v.sent msg.is_whole,
  )

  -- A response that answers no request makes the broker send to an address that was never set.
  pub on_service_response-unmatched :
      (packet : Packet) (id : ℤ) (op : Text) (v : View)
      → Message e packet id op
      → take_request id op v.requests ≡ none
      → on_service_response e packet (state_of v) ≡ (fault, state_of v)
  unfolding on_service_response send_req
  on_service_response-unmatched packet id op v msg t = rw (
    find_client_for_response_lem m l law.lists packet id op msg.ids msg.ops
        (record { address = unset; port = unset }) v.requests,
    t,
    (unpack_data-returns m law.codec packet).1,
  )

take_request-insert :
    (id : ℤ) (op : Text) (r : Request) (before after : List Request)
    → take_request id op (before ++ after) ≡ none
    → is_for id op r ≡ true
    → take_request id op (before ++ r ∷ after) ≡ some (r, before ++ after)
take_request-insert id op r [] after t y = rw y
take_request-insert id op r (x ∷ before) after t y =
    ground (arith, take_request-insert id op r before after)

pub take_request-Inserts :
    (id : ℤ) (op : Text) (r : Request) (xs ys : List Request)
    → Inserts r xs ys
    → take_request id op xs ≡ none
    → is_for id op r ≡ true
    → take_request id op ys ≡ some (r, xs)
take_request-Inserts id op r xs ys (before, after, split, joined) t y =
    rw (joined, split) (take_request-insert id op r before after (rw (← split) t) y)

module _ (e : Env) (law : IsLawful e) (up : IsUp e.net) where
  -- On a network that is up, after a whole packet that reads as a request with whose id and
  -- operation nobody waits, and a whole packet that reads as a response with this id and operation,
  -- the handler has sent the request to the first offering server, if any, and the response to the
  -- address and port the request named, and the pending requests are what they were before.
  pub request_response :
      (packet answer : Packet) (r : Request) (v : View)
      → Asks e packet r
      → Message e answer r.message_id r.operation
      → take_request r.message_id r.operation v.requests ≡ none
      → (w : View) × (on_service_request e packet (state_of v) ≡ (done tt, state_of w))
        × (on_service_response e answer (state_of w) ≡ (
          done tt,
          state_of (record v {
            sent =
                (v.sent ++ forwarded packet (find_service r.operation v.services))
                ++ frame r.address r.port answer;
          }),
        ))
  request_response packet answer r v a msg fresh =
      let (rs, ins, handled) = on_service_request_lem e law up packet r v a in
      (
        after_request packet r v rs,
        handled,
        on_service_response_lem e law up answer r.message_id r.operation r v.requests
            (after_request packet r v rs) msg
            (take_request-Inserts r.message_id r.operation r v.requests rs ins fresh
              (is_for_self r)),
      )
