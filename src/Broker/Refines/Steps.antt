-- ===== src/Broker/Refines/Steps.antt =====
-- broker/broker.c: each connection, and all in a row.
use rpc_broker.Broker.Handler.Registrations.{reg_svc_req_lem}
use rpc_broker.Broker.Ack.{ack_packet}
use rpc_broker.Common.Wire.Delivery.{IsWhole, frame}
use rpc_broker.Broker.Handler.Responses.{on_service_response_lem, on_service_response-unmatched}
use rpc_broker.Broker.Handler.Requests.{on_service_request_lem, forwarded}
use rpc_broker.Broker.Find.Server.{reg_of, find_service, Service}
use rpc_broker.Broker.Database.{registration_queries}
use rpc_broker.Broker.Unpack.Packed.{registration_headers, registered}
use rpc_broker.Common.Protocol.{service_request, service_request_response, service_registration}
use rpc_broker.Broker.Handler.View.{Asks, Message, state_of, View}
use rpc_broker.Broker.Handler.Reading.{read_data_lem}
use rpc_broker.Broker.Contract.{
  Books, a_response, Step, a_request, deliver, a_registration, Event, Delivery,
}
use rpc_broker.Broker.Find.Client.{Request}
use rpc_broker.Broker.Handler.{dispatch, read_data}
use rpc_broker.Broker.State.{Broker}
use rpc_broker.Stulibc.{IsUp, Reads, Sent}
use rpc_broker.Base.{
  ℕ, ◌<◌, ◌≡◌, refl, sym, ap, ◌∙◌, subst, inl, inr, Bool, false, List, [], ◌∷◌, ◌++◌, map,
}
use rpc_broker.Base.{length}
use rpc_broker.Base.{Text, until_nul}
use rpc_broker.Base.{ℤ, pos, int_eq}
use rpc_broker.Env.{Env, IsLawful}
use rpc_broker.Msgpack.{Packet, header_value, continue}
use rpc_broker.Msgpack.Loop.{Decodes}
use rpc_broker.Broker.Refines.{
  frames-snoc, frames, view_of, Keeps, Comes, Brings, find_service-cases, take_request-cases,
  Refined, IsUp, Reads, Broker, dispatch, Request, Books, read_data_lem, Asks, Message,
  service_request, registration_headers, registration_queries, service_request_response, reg_of,
  registered, on_service_request_lem, on_service_response_lem, IsWhole, ack_packet,
  service_registration, reg_svc_req_lem, frame, Sent,
}
use mathlib.Core.List.{append-nil}
use rpc_broker.Broker.Contract.{a_request, a_response, a_registration, another}
use rpc_broker.Outcome.{Outcome, done}

with_sent :
    (v : View) (xs ys : List Sent)
    → xs ≡ ys
    → state_of (record v { sent = xs }) ≡ state_of (record v { sent = ys })
with_sent v xs ys h = rw h refl

-- A delivery, in the trace of the network.
delivered :
    (v : View) (ds : List Delivery) (d : Delivery)
    → state_of (record v { sent = frames ds ++ frame d.address d.port d.packet })
      ≡ state_of (record v { sent = frames (ds ++ d ∷ []) })
delivered v ds d =
    with_sent v (frames ds ++ frame d.address d.port d.packet) (frames (ds ++ d ∷ []))
      (sym (frames-snoc ds d))

returning : {x y : Broker} → x ≡ y → ◌≡◌ {A = Outcome (Unit {0}) × Broker} (done tt, x) (done tt, y)
returning h = rw h refl

module _ (e : Env) (law : IsLawful e) (up : IsUp e.net) (reads : Reads e.net) where
  dispatched :
      (incoming : List ℕ) (packet : Packet) (kind : ℤ) (s : Broker)
      → Comes e incoming packet kind
      → read_data e incoming s ≡ dispatch e packet kind s
  dispatched incoming packet kind s (rest, i, whole, some_bytes, fits, k) =
      rw i (read_data_lem e law reads packet rest kind s whole some_bytes fits k)

  request_refines :
      (verbose wait_indef : Bool) (executed : List Text) (packet : Packet) (r : Request) (b : Books)
      → Asks e packet r
      → (c : Books) × (dispatch e packet service_request
            (state_of (view_of verbose wait_indef executed b))
          ≡ (done tt, state_of (view_of verbose wait_indef executed c)))
        × Step (a_request packet r) b c
  unfolding dispatch
  request_refines verbose wait_indef executed packet r b a =
      let v = view_of verbose wait_indef executed b in
      let (rs, ins, handled) = on_service_request_lem e law up packet r v a in
      elim (find_service-cases r.operation b.services) [
        | inl (s, rest, ins', t, found) ↦ (
          deliver s.address s.port packet (record b { pending = rs }),
          handled
              ∙ returning (
                  with_sent (view_of verbose wait_indef executed (record b { pending = rs }))
                    (frames b.outbox ++ forwarded packet (find_service r.operation b.services))
                    (frames b.outbox ++ frame s.address s.port packet)
                    (ap (λ w. frames b.outbox ++ forwarded packet w) found)
                  ∙ delivered (view_of verbose wait_indef executed (record b { pending = rs }))
                      b.outbox (record { address = s.address; port = s.port; packet = packet })),
          (rs, ins, inl (s, rest, ins', t, refl)),
        )
        | inr (none_offers, found) ↦ (
          record b { pending = rs },
          handled
              ∙ returning (
                  with_sent (view_of verbose wait_indef executed (record b { pending = rs }))
                    (frames b.outbox ++ forwarded packet (find_service r.operation b.services))
                    (frames b.outbox)
                    (ap (λ w. frames b.outbox ++ forwarded packet w) found
                      ∙ append-nil (frames b.outbox))),
          (rs, ins, inr (none_offers, refl)),
        )
      ]

  response_refines :
      (verbose wait_indef : Bool) (executed : List Text) (packet : Packet) (id : ℤ) (op : Text)
      (b : Books)
      → Message e packet id op
      → Refined (a_response packet id op) b (state_of (view_of verbose wait_indef executed b)) (
          dispatch e packet service_request_response
            (state_of (view_of verbose wait_indef executed b)))
  unfolding dispatch
  response_refines verbose wait_indef executed packet id op b msg =
      let v = view_of verbose wait_indef executed b in
      elim (take_request-cases id op b.pending) [
        | inl (q, rest, ins, t, taken) ↦ inl (
          deliver q.address q.port packet (record b { pending = rest }),
          state_of (record v { requests = rest; sent = v.sent ++ frame q.address q.port packet }),
          on_service_response_lem e law up packet id op q rest v msg taken,
          (q, rest, ins, t, refl),
          (
            verbose,
            wait_indef,
            executed,
            delivered (view_of verbose wait_indef executed (record b { pending = rest })) b.outbox
                (record { address = q.address; port = q.port; packet = packet }),
          ),
        )
        | inr (nobody, taken) ↦
            inr (nobody, on_service_response-unmatched e law up packet id op v msg taken)
      ]

  registration_refines :
      (verbose wait_indef : Bool) (executed : List Text) (packet : Packet)
      (address port name : Text) (names queries : List Text) (b : Books)
      → Decodes e.msgpack packet
          (map header_value (registration_headers address port name names))
          continue
      → length names < 2147483648
      → registration_queries e.qry_overrun (reg_of (registered address port name names))
        ≡ done queries
      → IsWhole (ack_packet e (pos 0))
      → (c : Books) × (dispatch e packet service_registration
            (state_of (view_of verbose wait_indef executed b))
          ≡ (done tt, state_of (view_of verbose wait_indef (executed ++ queries) c)))
        × Step (a_registration (registered address port name names) (ack_packet e (pos 0))) b c
  unfolding dispatch
  registration_refines verbose wait_indef executed packet address port name names queries b d few q
        w =
      let v = view_of verbose wait_indef executed b in
      let (svcs, ins, handled) =
        reg_svc_req_lem e law up packet address port name names queries v d few q w in
      (
        deliver (until_nul address) (until_nul port) (ack_packet e (pos 0))
            (record b { services = svcs }),
        handled
            ∙ returning (
                delivered
                  (view_of verbose wait_indef (executed ++ queries) (record b { services = svcs }))
                  b.outbox
                  (record {
                    address = until_nul address;
                    port = until_nul port;
                    packet = ack_packet e (pos 0);
                  })),
        (svcs, ins, refl),
      )

  other_refines :
      (packet : Packet) (kind : ℤ) (s : Broker)
      → int_eq kind service_request ≡ false
      → int_eq kind service_registration ≡ false
      → int_eq kind service_request_response ≡ false
      → dispatch e packet kind s ≡ (done tt, s)
  unfolding dispatch
  other_refines packet kind s a b c = rw (a, b, c) refl

  -- On one connection the handler makes a step that the broker promises, or it comes to nothing
  -- because nobody waits for the response.
  pub read_data_refines :
      (ev : Event) (incoming : List ℕ) (b : Books) (s : Broker)
      → Brings e incoming ev
      → Keeps s b
      → Refined ev b s (read_data e incoming s)
  read_data_refines (a_request packet r) incoming b s (comes, a)
        (verbose, wait_indef, executed, k) =
      let (c, handled, step) = request_refines verbose wait_indef executed packet r b a in
      rw (dispatched incoming packet service_request s comes, k)
        (inl (
          c,
          state_of (view_of verbose wait_indef executed c),
          handled,
          step,
          (verbose, wait_indef, executed, refl),
        ))
  read_data_refines (a_response packet id op) incoming b s (comes, msg)
        (verbose, wait_indef, executed, k) =
      rw (dispatched incoming packet service_request_response s comes, k)
        (response_refines verbose wait_indef executed packet id op b msg)
  read_data_refines (a_registration sv ack) incoming b s
        (packet, address, port, name, names, queries, comes, d, few, is_sv, q, is_ack, whole)
        (verbose, wait_indef, executed, k) =
      let (c, handled, step) =
        registration_refines verbose wait_indef executed packet address port name names queries b d
          few
          (subst (λ (x : Service). registration_queries e.qry_overrun (reg_of x) ≡ done queries)
            is_sv q)
          (subst IsWhole is_ack whole) in
      rw (dispatched incoming packet service_registration s comes, k)
        (inl (
          c,
          state_of (view_of verbose wait_indef (executed ++ queries) c),
          handled,
          subst (λ (x : Service). Step (a_registration x ack) b c) (sym is_sv)
              (subst
                (λ (y : Packet). Step (a_registration (registered address port name names) y) b c)
                (sym is_ack) step),
          (verbose, wait_indef, executed ++ queries, refl),
        ))
  read_data_refines another incoming b s (packet, kind, comes, n, n', n'') kept =
      rw (dispatched incoming packet kind s comes, other_refines packet kind s n n' n'')
        (inl (b, s, refl, refl, kept))
