-- ===== src/Journey/RoundTrip.antt =====
-- A remote procedure call from the client's request to the client's result, through all programs.
use rpc_broker.Base.{ℕ, ◌<◌, ◌≡◌, refl, ap, ◌∙◌, true, none, some, List, [], ◌∷◌, ◌++◌}
use rpc_broker.Base.{length}
use rpc_broker.Base.{Text, until_nul, until_nul-NoNul, NoNul-until_nul}
use rpc_broker.Base.{pos, int32, int32-small}
use rpc_broker.Env.{Env, IsLawful}
use rpc_broker.Msgpack.{Packet, Scalar, pack_headers, AllFit}
use rpc_broker.Common.Headers.{get_hdr_int, get_hdr_str}
use rpc_broker.Common.Protocol.{reply_hdr}
use rpc_broker.Common.Format.Laws.{format_of}
use rpc_broker.Common.ByteOrder.{uint32}
use rpc_broker.Common.Receive.Frames.{framed}
use rpc_broker.Common.Wire.Delivery.{frame}
use rpc_broker.Client.Exchange.{wait_for_response, Waiting}
use rpc_broker.Client.Pack.{client_headers, pack_client_request_data}
use rpc_broker.Server.Respond.{pack_client_response_data, reply_headers}
use rpc_broker.Server.Marshal.{Call}
use rpc_broker.Server.Marshal.Requests.{call_of}
use rpc_broker.Server.Process.{read_and_process}
use rpc_broker.Broker.Find.Client.{Request, take_request, is_for_self}
use rpc_broker.Broker.Find.Server.{find_service}
use rpc_broker.Broker.Handler.{read_data}
use rpc_broker.Broker.Handler.View.{View, state_of}
use rpc_broker.Broker.Handler.Requests.{after_request, forwarded}
use rpc_broker.Broker.Handler.Responses.{take_request-Inserts}
use rpc_broker.Journey.{asked, request_reaches_server, Inserts}
use rpc_broker.Journey.Reply.{int_result, text_result, reply_reaches_client}
use rpc_broker.Stulibc.{Sent, IsUp, Reads, Inserts}
use rpc_broker.Outcome.{Outcome, done}

-- A client whose socket gets ready, with these bytes to come.
abbrev pub ready_for : List ℕ → Waiting
ready_for bytes = record {
  is_sent_in_time = true;
  listening = done tt;
  selected = pos 1;
  is_ready = true;
  is_valid = true;
  incoming = bytes;
}

pub until_nul-until_nul : (t : Text) → until_nul (until_nul t) ≡ until_nul t
until_nul-until_nul t = until_nul-NoNul (until_nul t) (NoNul-until_nul t)

module _ (e : Env) (law : IsLawful e) (up : IsUp e.net) (reads : Reads e.net) where
  open e use {msgpack as m, stulibc as l, net}

  -- The request is found again among the others.
  pub still_pending :
      (address port : Text) (id : ℕ) (op : Text) (xs ys : List Request)
      → Inserts (asked address port id op) xs ys
      → take_request (int32 id) (until_nul op) xs ≡ none
      → take_request (int32 id) (until_nul (until_nul op)) ys ≡ some (asked address port id op, xs)
  still_pending address port id op xs ys ins fresh =
      ap (λ t. take_request (int32 id) t ys) (until_nul-until_nul op)
      ∙ take_request-Inserts (int32 id) (until_nul op) (asked address port id op) xs ys ins fresh
          (is_for_self (asked address port id op))

  -- On a network that is up and whose reads are not cut short, when the headers of both messages fit
  -- the format and both packets their length, and nobody waits for the id and the operation: the
  -- packet that a client packs makes the broker send it to the first server that offers the
  -- operation, if any; a registered server that reads it makes the call that the client asked for,
  -- if that call returns; the packet that it packs for the call's id and operation and for a
  -- result makes the broker send it to the address and the port of the client, and the pending
  -- requests are again what they were; and the client that waits there finds the result in it, but
  -- 0 for a negative integer.
  pub call_returns :
      (answer : List Call → Call → Outcome (Unit {0})) (address port : Text) (id : ℕ) (op : Text)
      (args : List Scalar) (x : Scalar) (v : View) (calls : List Call)
      (rest rest' rest2 rest3 : List ℕ) (sent : List Sent)
      → id < 2147483648
      → AllFit (client_headers address port (pos id) op args)
      → length (pack_headers m (client_headers address port (pos id) op args)) < uint32
      → AllFit (reply_headers (until_nul op) (pos id) x)
      → length (pack_headers m (reply_headers (until_nul op) (pos id) x)) < uint32
      → take_request (int32 id) (until_nul op) v.requests ≡ none
      → answer calls (call_of id op args) ≡ done tt
      → (request : Packet) × (reply : Packet) × (w : View) × (pack_client_request_data m address
            port
            (pos id)
            op
            (format_of args)
            args
          ≡ done request.buffer)
        × (read_data e (framed request rest) (state_of v) ≡ (done tt, state_of w))
        × (w.sent ≡ v.sent ++ forwarded request (find_service (until_nul op) v.services))
        × (read_and_process e answer
              (framed request rest')
              (record { is_registered = true; calls = calls })
            ≡ (done tt, record { is_registered = true; calls = calls ++ call_of id op args ∷ [] }))
        × (pack_client_response_data m (until_nul op) (int32 id) (format_of (x ∷ [])) (x ∷ [])
            ≡ done reply.buffer)
        × (read_data e (framed reply rest2) (state_of w) ≡ (
          done tt,
          state_of (record w {
            requests = v.requests;
            sent = w.sent ++ frame (until_nul address) (until_nul port) reply;
          }),
        ))
        × (wait_for_response e (ready_for (framed reply rest3)) sent ≡ (done (some reply), sent))
        × (get_hdr_int m reply reply_hdr ≡ done (int_result x))
        × (get_hdr_str l m reply reply_hdr ≡ done (text_result x))
  call_returns answer address port id op args x v calls rest rest' rest2 rest3 sent small fit short
        fit' short' fresh ok =
      let (request, packed, rs, ins, handled, served) =
        request_reaches_server e law up reads answer address port id op args v calls rest rest' fit
          short ok in
      let q = asked address port id op in
      let w = after_request request q v rs in
      let (reply, packed', answered, waited, as_int, as_text) =
        reply_reaches_client e law up reads (until_nul op) id x q v.requests w 0 rest2 rest3 sent
          fit' short' (still_pending address port id op v.requests rs ins fresh) in
      (
        request,
        reply,
        w,
        packed,
        handled,
        refl,
        served,
        ap (λ i. pack_client_response_data m (until_nul op) i (format_of (x ∷ [])) (x ∷ []))
              (int32-small id small)
            ∙ packed',
        answered,
        waited,
        as_int,
        as_text,
      )
