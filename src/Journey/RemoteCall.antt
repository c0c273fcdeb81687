-- ===== src/Journey/RemoteCall.antt =====
-- A call of a function of server/server_interface.h by a client: from the proxy of the client through
-- the broker and the proxy of the server to what the client's proxy returns.
use rpc_broker.Common.Pack.{sbuf_packet_lem}
use rpc_broker.Action.{lift, ◌>>=◌}
use rpc_broker.Broker.Handler.Requests.{after_request, forwarded}
use rpc_broker.Journey.{asked, request_arrives}
use rpc_broker.Server.Process.{read_and_process}
use rpc_broker.Broker.Find.Server.{find_service}
use rpc_broker.Broker.Handler.{read_data}
use rpc_broker.Journey.RoundTrip.{ready_for, still_pending}
use rpc_broker.Broker.Find.Client.{take_request}
use rpc_broker.Server.Respond.{reply_headers}
use rpc_broker.Common.ByteOrder.{uint32}
use rpc_broker.Server.Marshal.Requests.{call_of}
use rpc_broker.Server.Marshal.{Call}
use rpc_broker.Server.Proxy.Sending.{call_marshel_response_send}
use rpc_broker.Broker.Handler.View.{View, state_of}
use rpc_broker.Server.Proxy.Answering.{named}
use rpc_broker.Server.Proxy.{Operation}
use rpc_broker.Client.Pack.{pack_client_request_data_lem, client_headers}
use rpc_broker.Common.Wire.Delivery.{frame, send_req_lem}
use rpc_broker.Server.Proxy.Passing.{AllPass, scalar, scalars, arguments_pass, conversions-scalars}
use rpc_broker.Journey.{request_packet}
use rpc_broker.Common.Receive.Frames.{framed}
use rpc_broker.Journey.Reply.{int_result, text_result, reply_packet, reply_arrives}
use rpc_broker.Client.Exchange.{send_and_receive, Waiting, wait_for_response}
use rpc_broker.Outcome.{done}
use rpc_broker.Client.Proxy.Calling.{client_proxy}
use rpc_broker.Common.Protocol.{reply_hdr}
use rpc_broker.Client.Proxy.{Caller, request_for, result_in}
use rpc_broker.Common.Headers.{get_hdr_int, get_hdr_str}
use rpc_broker.Server.Proxy.Replies.{
  Returnable, call_is_answered, answer_of, sent_after, sent_after-snoc,
}
use rpc_broker.Msgpack.{Msgpack, Packet, AllFit, packet_of, pack_headers}
use rpc_broker.Env.{Env, IsLawful}
use rpc_broker.Stulibc.{Stulibc, IsUp, Reads, Sent, to, null, unset}
use rpc_broker.Common.Prototypes.{int_type, char_ptr, CType, ValueOf, Prototype, Args}
use rpc_broker.Base.{
  ℕ, ◌<◌, ◌≡◌, refl, ap, ◌∙◌, Bool, true, none, some, List, [], ◌∷◌, ◌++◌, subst, length, sym,
}
use rpc_broker.Base.{Text, until_nul, until_nul-NoNul}
use rpc_broker.Base.{pos, negsuc, int32, int32-small}

-- What a client is returned for a result: 0 for a negative integer.
abbrev pub returned : (t : CType) → ValueOf t → ValueOf t
returned int_type (pos n) = pos n
returned int_type (negsuc n) = pos 0
returned char_ptr p = p

pub result_in_lem :
    (l : Stulibc) (m : Msgpack) (t : CType) (v : ValueOf t) (reply : Packet)
    → Returnable t v
    → get_hdr_int m reply reply_hdr ≡ done (int_result (scalar t v))
    → get_hdr_str l m reply reply_hdr ≡ done (text_result (scalar t v))
    → result_in l m t (some reply) ≡ done (returned t v)
result_in_lem l m int_type (pos n) reply r i s = i ∙ ap done (int32-small n r)
result_in_lem l m int_type (negsuc n) reply r i s = i
result_in_lem l m char_ptr (to t) reply r i s = s ∙ ap (λ u. done (to u)) (until_nul-NoNul t r)
result_in_lem l m char_ptr null reply r i s = absurd r
result_in_lem l m char_ptr unset reply r i s = absurd r

module _ (e : Env) (law : IsLawful e) (up : IsUp e.net) (reads : Reads e.net) (c : Caller) where
  open e use {msgpack as m, stulibc as l, net}

  -- What the client packs for the arguments of a function.
  abbrev pub request_of : ℕ → (p : Prototype) → Args p.params → Packet
  request_of id p args =
      request_packet m c.client_address c.wait_response_port id p.name (scalars p.params args)

  pub request_for_lem :
      (id : ℕ) (p : Prototype) (args : Args p.params)
      → AllPass p.params args
      → request_for m c (pos id) p args ≡ done (request_of id p args).buffer
  request_for_lem id p args pass =
      rw ((arguments_pass p.params args pass).0, conversions-scalars p.params args)
        (pack_client_request_data_lem m c.client_address c.wait_response_port (pos id) p.name
          (scalars p.params args))

  -- A client that waits, and is given the packet that comes in, returns what it finds there.
  pub client_proxy_lem :
      (id : ℕ) (p : Prototype) (args : Args p.params) (v : ValueOf p.result) (w : Waiting)
      (reply : Packet) (sent : List Sent)
      → AllPass p.params args
      → (request_of id p args).len < uint32
      → w.is_sent_in_time ≡ true
      → ((before : List Sent) → wait_for_response e w before ≡ (done (some reply), before))
      → result_in l m p.result (some reply) ≡ done v
      → client_proxy e c (pos id) p args w sent
        ≡ (done v, sent ++ frame c.broker_address c.broker_port (request_of id p args))
  unfolding client_proxy send_and_receive
  client_proxy_lem id p args v w reply sent pass small in_time waits found =
      rw (request_for_lem id p args pass) (
        ap
          (λ packet.
            (do
              result ←
                  send_and_receive e packet (to c.broker_address) (to c.broker_port)
                    (to c.wait_response_port) w
              lift (result_in l m p.result result))
              sent)
          (sbuf_packet_lem (request_of id p args).buffer small)
        ∙ rw
            (
              in_time,
              send_req_lem m law.codec net up c.broker_address c.broker_port (request_of id p args)
                  sent refl,
              waits,
              found,
            )
            refl)

  module _ (broker_address broker_port : Text) (verbose : Bool) (os : List Operation) where
    -- The server's proxy, which answers the call of a client for a function that it offers.
    pub proxy_answers :
        (o : Operation) (args : Args o.prototype.params) (v : ValueOf o.prototype.result) (id : ℕ)
        (sent : List Sent)
        → named (until_nul o.prototype.name) os ≡ o ∷ []
        → id < 2147483648
        → AllPass o.prototype.params args
        → o.body args ≡ done v
        → Returnable o.prototype.result v
        → (reply_packet m (until_nul o.prototype.name) id (scalar o.prototype.result v)).len
          < uint32
        → call_marshel_response_send e broker_address broker_port verbose os
            (call_of id o.prototype.name (scalars o.prototype.params args))
            sent
          ≡ (
            done tt,
            sent
                ++ frame broker_address broker_port
                    (reply_packet m (until_nul o.prototype.name) id (scalar o.prototype.result v)),
          )
    proxy_answers o args v id sent one small pass runs r short =
        call_is_answered e law up broker_address broker_port verbose os o
          (call_of id o.prototype.name (scalars o.prototype.params args)) args v sent one
          (arguments_pass o.prototype.params args pass).1 runs r
          (subst
            (λ i.
              length (
                pack_headers m
                  (reply_headers (until_nul o.prototype.name) i (scalar o.prototype.result v)))
              < uint32)
            (sym (int32-small id small)) short)
        ∙ ap
            (λ i. (
              done tt,
              sent
                  ++ frame broker_address broker_port (
                      packet_of (
                        pack_headers m (
                          reply_headers (until_nul o.prototype.name) i
                            (scalar o.prototype.result v)))),
            ))
            (int32-small id small)

    -- A function that the server alone offers under its name is called through the proxies, with
    -- arguments that hold no negative integer, NULL or unset pointer, for an id below 2^31, on a
    -- network that is up and whose reads are not cut short, when the headers of both messages fit
    -- the format and both packets their length, and nobody waits for the id and the operation. If
    -- the function returns an `int` or a C string for these arguments: the client sends one packet
    -- to its broker; the broker sends it on to the first server that offers the operation, if any;
    -- the server, once registered, makes one more call and sends one more packet, to its broker;
    -- the broker sends that one to the client, and its pending requests are again what they were;
    -- and the client's call returns what the function returned, but 0 for a negative integer.
    pub remote_call_returns :
        (o : Operation) (args : Args o.prototype.params) (result : ValueOf o.prototype.result)
        (id : ℕ) (v : View) (calls : List Call) (rest rest' rest2 rest3 : List ℕ) (sent : List Sent)
        → named (until_nul o.prototype.name) os ≡ o ∷ []
        → id < 2147483648
        → AllPass o.prototype.params args
        → o.body args ≡ done result
        → Returnable o.prototype.result result
        → AllFit (
            client_headers c.client_address c.wait_response_port
              (pos id)
              o.prototype.name
              (scalars o.prototype.params args))
        → (request_of id o.prototype args).len < uint32
        → AllFit
            (reply_headers (until_nul o.prototype.name) (pos id) (scalar o.prototype.result result))
        → (reply_packet m (until_nul o.prototype.name) id (scalar o.prototype.result result)).len
          < uint32
        → take_request (int32 id) (until_nul o.prototype.name) v.requests ≡ none
        → (request : Packet) × (reply : Packet) × (w : View) × (call : Call) × (client_proxy e c
              (pos id)
              o.prototype
              args
              (ready_for (framed reply rest3))
              sent
            ≡ (
              done (returned o.prototype.result result),
              sent ++ frame c.broker_address c.broker_port request,
            ))
          × (read_data e (framed request rest) (state_of v) ≡ (done tt, state_of w))
          × (w.sent
              ≡ v.sent ++ forwarded request (find_service (until_nul o.prototype.name) v.services))
          × (read_and_process e
                (answer_of e broker_address broker_port verbose os)
                (framed request rest')
                (record { is_registered = true; calls = calls })
              ≡ (done tt, record { is_registered = true; calls = calls ++ call ∷ [] }))
          × (sent_after e broker_address broker_port verbose os (calls ++ call ∷ []) []
              ≡ sent_after e broker_address broker_port verbose os calls []
                ++ frame broker_address broker_port reply)
          × (read_data e (framed reply rest2) (state_of w) ≡ (
            done tt,
            state_of (record w {
              requests = v.requests;
              sent =
                  w.sent
                  ++ frame (until_nul c.client_address) (until_nul c.wait_response_port) reply;
            }),
          ))
    remote_call_returns o args result id v calls rest rest' rest2 rest3 sent one small pass runs r
          fit short fit' short' fresh =
        let name = o.prototype.name in
        let t = o.prototype.result in
        let xs = scalars o.prototype.params args in
        let before = sent_after e broker_address broker_port verbose os calls [] in
        let answered = proxy_answers o args result id before one small pass runs r short' in
        let q = asked c.client_address c.wait_response_port id name in
        let (rs, ins, handled, served) =
          request_arrives e law up reads (answer_of e broker_address broker_port verbose os)
            c.client_address c.wait_response_port id name xs v calls rest rest' fit short
            (ap (λ w. w.0) answered) in
        let request = request_of id o.prototype args in
        let reply = reply_packet m (until_nul name) id (scalar t result) in
        let w = after_request request q v rs in
        let pending =
          still_pending e law up reads c.client_address c.wait_response_port id name v.requests rs
            ins fresh in
        let (returned_to, waited, as_int, as_text) =
          reply_arrives e law up reads (until_nul name) id (scalar t result) q v.requests w 0 rest2
            rest3 sent fit' short' pending in
        (
          request,
          reply,
          w,
          call_of id name xs,
          client_proxy_lem id o.prototype args (returned t result) (ready_for (framed reply rest3))
              reply sent pass short refl
              (λ b.
                (reply_arrives e law up reads (until_nul name) id (scalar t result) q v.requests w 0
                  rest2 rest3 b fit' short' pending).1)
              (result_in_lem l m t result reply r as_int as_text),
          handled,
          refl,
          served,
          sent_after-snoc e broker_address broker_port verbose os calls (call_of id name xs) []
              ∙ ap (λ w. w.1) answered,
          returned_to,
        )
