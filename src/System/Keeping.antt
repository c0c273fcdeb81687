-- ===== src/System/Keeping.antt =====
-- What every reading of a packet by the broker keeps.
use rpc_broker.Broker.Refines.Steps.{read_data_refines}
use rpc_broker.Journey.RoundTrip.{until_nul-until_nul}
use rpc_broker.Broker.Contract.Waiting.{is_for-ids}
use rpc_broker.Broker.Handler.{read_data}
use rpc_broker.Server.Respond.{reply_headers}
use rpc_broker.Client.Pack.{client_headers}
use rpc_broker.Msgpack.Loop.Packed.{Decodes-pack_headers}
use rpc_broker.Server.Proxy.Passing.{scalars, scalar}
use rpc_broker.Common.Receive.Frames.{framed}
use rpc_broker.Server.Proxy.{Operation}
use rpc_broker.Stulibc.{IsUp, Reads}
use rpc_broker.System.Lists.{AllOf, AllOf-append, AllOf-Inserts, AllOf-taken, AllOf-Among}
use rpc_broker.Broker.Find.Client.{Request}
use rpc_broker.Env.{Env, IsLawful}
use rpc_broker.Broker.State.{Broker}
use rpc_broker.Msgpack.{Msgpack, Packet}
use rpc_broker.System.{Asking, reply_for, Among, request_to, name_of, Carried}
use rpc_broker.Broker.Refines.{Keeps, Refined, Brings}
use rpc_broker.Broker.Contract.{Delivery, Books, Event, a_request, a_response, Step, deliver}
use rpc_broker.Outcome.{done, fault, Outcome}
use rpc_broker.Journey.{asked, not_empty, client_request-type, client_request-Asks}
use rpc_broker.Journey.Reply.{not_empty as reply_not_empty, reply-type, reply-Message}
use rpc_broker.Base.{ℕ, ◌≡◌, refl, sym, ap, ◌∙◌, subst, ◌⊎◌, inl, inr, List}
use rpc_broker.Base.{Text, until_nul}
use rpc_broker.Base.{pos, int32}

abbrev pub request_in_books : Asking → Request
request_in_books a =
    asked a.caller.client_address a.caller.wait_response_port a.id a.operation.prototype.name

-- The reply to the first call, at the client of the second, which has the same id and operation.
abbrev pub Answers : Msgpack → Asking → Asking → Delivery → Type 0
Answers m a b d =
    (d.packet ≡ reply_for m a)
    × (int32 a.id ≡ int32 b.id)
    × (name_of a ≡ name_of b)
    × (d.address ≡ until_nul b.caller.client_address)
    × (d.port ≡ until_nul b.caller.wait_response_port)

module _ (m : Msgpack) (asks : List Asking) where
  -- A packet of the call.
  abbrev pub IsCarried : Packet → Type 0
  IsCarried p = (a : Asking) × Among a asks × ((p ≡ request_to m a) ⊎ (p ≡ reply_for m a))

  abbrev pub IsPending : Request → Type 0
  IsPending q = (a : Asking) × Among a asks × (q ≡ request_in_books a)

  abbrev pub IsRight : Delivery → Type 0
  IsRight d =
      ((a : Asking) × Among a asks × (d.packet ≡ request_to m a))
      ⊎ ((a : Asking) × (b : Asking) × Among a asks × Among b asks × Answers m a b d)

  abbrev pub AreRight : Books → Type 0
  AreRight b = AllOf IsPending b.pending × AllOf IsRight b.outbox

settle :
    (ev : Event) (b : Books) (s s' : Broker) (result : Outcome (Unit {0}) × Broker)
    → Refined ev b s result
    → result ≡ (done tt, s')
    → (c : Books) × Step ev b c × Keeps s' c
settle ev b s s' result (inl (c, t, r, step, k)) h =
    (c, step, subst (λ x. Keeps x c) (ap (λ w. w.1) (sym r ∙ h)) k)
settle ev b s s' result (inr (u, r)) h =
    absurd (let n : ◌≡◌ {A = Outcome (Unit {0})} fault (done tt) = ap (λ w. w.0) (sym r ∙ h) in cc)

delivered-AreRight :
    (m : Msgpack) (asks : List Asking) (b : Books) (address port : Text) (packet : Packet)
    → AreRight m asks b
    → IsRight m asks (record { address = address; port = port; packet = packet })
    → AreRight m asks (deliver address port packet b)
delivered-AreRight m asks b address port packet (pending, outbox) r =
    (pending, AllOf-append (IsRight m asks) b.outbox _ outbox (r, tt))

module _ (e : Env) (law : IsLawful e) (up : IsUp e.net) (reads : Reads e.net)
    (os : List Operation) where
  open e use {msgpack as m}

  request_Brings :
      (a : Asking) (rest : List ℕ)
      → Carried m os a
      → Brings e (framed (request_to m a) rest) (a_request (request_to m a) (request_in_books a))
  request_Brings a rest (one, small, pass, runs, r, fit, short, fit', short') =
      let p = request_to m a in
      let (address, port) : Text × Text = (a.caller.client_address, a.caller.wait_response_port) in
      let name = a.operation.prototype.name in
      let xs = scalars a.operation.prototype.params a.args in
      let d =
        Decodes-pack_headers m law.codec (client_headers address port (pos a.id) name xs) fit in
      (
        (
          rest,
          refl,
          refl,
          not_empty e law p address port a.id name xs d,
          short,
          client_request-type e law p address port a.id name xs d,
        ),
        client_request-Asks e law p address port a.id name xs refl d,
      )

  reply_Brings :
      (a : Asking) (rest : List ℕ)
      → Carried m os a
      → Brings e
          (framed (reply_for m a) rest)
          (a_response (reply_for m a) (int32 a.id) (until_nul (name_of a)))
  reply_Brings a rest (one, small, pass, runs, r, fit, short, fit', short') =
      let p = reply_for m a in
      let x = scalar a.operation.prototype.result a.result in
      let d = Decodes-pack_headers m law.codec (reply_headers (name_of a) (pos a.id) x) fit' in
      (
        (
          rest,
          refl,
          refl,
          reply_not_empty e law p (name_of a) a.id x d,
          short',
          reply-type e law p (name_of a) a.id x d,
        ),
        reply-Message e law p (name_of a) a.id x refl d,
      )

  request_kept :
      (asks : List Asking) (a : Asking) (b c : Books)
      → Among a asks
      → AreRight m asks b
      → Step (a_request (request_to m a) (request_in_books a)) b c
      → AreRight m asks c
  request_kept asks a b c among (pending, outbox) (rs, ins, fw) =
      let written =
        AllOf-Inserts (IsPending m asks) (request_in_books a) b.pending rs ins (a, among, refl)
          pending in
      elim fw [
        | inl (s, rest, ins', t, is_c) ↦ subst (AreRight m asks) (sym is_c) (
            delivered-AreRight m asks (record b { pending = rs }) s.address s.port (request_to m a)
              (written, outbox) (inl (a, among, refl)))
        | inr (none_offers, is_c) ↦ subst (AreRight m asks) (sym is_c) (written, outbox)
      ]

  reply_kept :
      (asks : List Asking) (a : Asking) (b c : Books)
      → Among a asks
      → AreRight m asks b
      → Step (a_response (reply_for m a) (int32 a.id) (until_nul (name_of a))) b c
      → AreRight m asks c
  reply_kept asks a b c among (pending, outbox) (q, rest, ins, t, is_c) =
      let ((asker, among', is_q), others) =
        AllOf-taken (IsPending m asks) q rest b.pending ins pending in
      let (same_id, same_op) = is_for-ids (int32 a.id) (until_nul (name_of a)) q t in
      subst (AreRight m asks) (sym is_c) (
        delivered-AreRight m asks (record b { pending = rest }) q.address q.port (reply_for m a)
          (others, outbox)
          (inr (
            a,
            asker,
            among,
            among',
            (
              refl,
              same_id ∙ ap (λ (r : Request). r.message_id) is_q,
              sym (until_nul-until_nul a.operation.prototype.name)
                  ∙ same_op
                  ∙ ap (λ (r : Request). r.operation) is_q,
              ap (λ (r : Request). r.address) is_q,
              ap (λ (r : Request). r.port) is_q,
            ),
          )))

  -- Whatever packet of the calls the broker reads, its books stay right.
  pub read_data-Keeps :
      (asks : List Asking) (b : Books) (broker broker' : Broker) (p : Packet) (rest : List ℕ)
      → AllOf (Carried m os) asks
      → IsCarried m asks p
      → Keeps broker b
      → AreRight m asks b
      → read_data e (framed p rest) broker ≡ (done tt, broker')
      → (c : Books) × Keeps broker' c × AreRight m asks c
  read_data-Keeps asks b broker broker' p rest carried (a, among, inl is_p) k right h =
      let ev = a_request (request_to m a) (request_in_books a) in
      let brings = request_Brings a rest (AllOf-Among (Carried m os) asks a among carried) in
      let (c, step, keeps) =
        settle ev b broker broker' (read_data e (framed (request_to m a) rest) broker)
          (read_data_refines e law up reads ev (framed (request_to m a) rest) b broker brings k)
          (ap (λ x. read_data e (framed x rest) broker) (sym is_p) ∙ h) in
      (c, keeps, request_kept asks a b c among right step)
  read_data-Keeps asks b broker broker' p rest carried (a, among, inr is_p) k right h =
      let ev = a_response (reply_for m a) (int32 a.id) (until_nul (name_of a)) in
      let brings = reply_Brings a rest (AllOf-Among (Carried m os) asks a among carried) in
      let (c, step, keeps) =
        settle ev b broker broker' (read_data e (framed (reply_for m a) rest) broker)
          (read_data_refines e law up reads ev (framed (reply_for m a) rest) b broker brings k)
          (ap (λ x. read_data e (framed x rest) broker) (sym is_p) ∙ h) in
      (c, keeps, reply_kept asks a b c among right step)
