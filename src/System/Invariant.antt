-- ===== src/System/Invariant.antt =====
-- What holds in every world that comes about.
use rpc_broker.Broker.Find.Server.{Service}
use rpc_broker.Client.Proxy.{request_for}
use rpc_broker.Journey.{request_arrives}
use rpc_broker.Journey.RemoteCall.{proxy_answers, request_for_lem}
use rpc_broker.Common.Protocol.{service_request_response}
use rpc_broker.Server.Process.Serving.{read_and_process_lem, receive-frame}
use rpc_broker.Server.Marshal.Requests.{call_of}
use rpc_broker.Server.Respond.{reply_headers}
use rpc_broker.Common.Wire.Delivery.{frame}
use rpc_broker.Msgpack.Loop.Packed.{Decodes-pack_headers}
use rpc_broker.Server.Proxy.Passing.{scalar, scalars}
use rpc_broker.Common.Receive.Frames.{framed}
use rpc_broker.Server.Proxy.Replies.{answer_of, sent_after, sent_after-snoc}
use rpc_broker.Server.Marshal.{Call}
use rpc_broker.Server.Proxy.{Operation}
use rpc_broker.Stulibc.{IsUp, Reads}
use rpc_broker.System.Lists.{
  Among-cons, AllOf, AllOf-Among, frames_to-frame, append_left_cancel, frames_to-silent, AllOf-map,
  AllOf-append,
}
use rpc_broker.System.Keeping.{IsRight, IsPending, IsCarried, AreRight, read_data-Keeps}
use rpc_broker.Broker.Find.Client.{Request}
use rpc_broker.Env.{Env, IsLawful}
use rpc_broker.Msgpack.{Msgpack, Packet, packet_of}
use rpc_broker.Broker.Refines.{Keeps, view_of}
use rpc_broker.Broker.Contract.{Delivery, Books}
use rpc_broker.Outcome.{done}
use rpc_broker.Journey.Reply.{not_empty as reply_not_empty, reply-type}
use rpc_broker.Server.Process.{Process, act, read_and_process}
use rpc_broker.System.{
  World, Asking, Among, Carried, request_to, reply_for, name_of, frames_to, Reach, asked_for,
  brokered, served, started,
}
use rpc_broker.Base.{
  ℕ, ◌≡◌, refl, sym, ap, ◌∙◌, subst, inl, inr, Bool, true, false, List, [], ◌∷◌, ◌++◌,
}
use rpc_broker.Base.{Text}
use rpc_broker.Base.{pos}

-- The server's call for a client's.
abbrev pub call_for : Asking → Call
call_for a = call_of a.id a.operation.prototype.name (scalars a.operation.prototype.params a.args)

abbrev pub IsAsked : List Asking → Call → Type 0
IsAsked asks call = (a : Asking) × Among a asks × (call ≡ call_for a)

IsAsked-cons : (a : Asking) (asks : List Asking) (c : Call) → IsAsked asks c → IsAsked (a ∷ asks) c
IsAsked-cons a asks c (b, among, is_c) = (b, Among-cons b a asks among, is_c)

module _ (m : Msgpack) (a : Asking) (asks : List Asking) where
  IsCarried-cons : (p : Packet) → IsCarried m asks p → IsCarried m (a ∷ asks) p
  IsCarried-cons p (b, among, is_p) = (b, Among-cons b a asks among, is_p)

  IsPending-cons : (q : Request) → IsPending m asks q → IsPending m (a ∷ asks) q
  IsPending-cons q (b, among, is_q) = (b, Among-cons b a asks among, is_q)

  IsRight-cons : (d : Delivery) → IsRight m asks d → IsRight m (a ∷ asks) d
  IsRight-cons d (inl (b, among, is_d)) = inl (b, Among-cons b a asks among, is_d)
  IsRight-cons d (inr (b, c, among, among', is_d)) =
      inr (b, c, Among-cons b a asks among, Among-cons c a asks among', is_d)

module _ (e : Env) (law : IsLawful e) (up : IsUp e.net) (reads : Reads e.net)
    (broker_address broker_port : Text) (verbose : Bool) (os : List Operation) where
  open e use {msgpack as m, stulibc as l, net}

  -- What holds in every world that comes about.
  abbrev pub Kept : World → Type 0
  Kept w =
      (b : Books) × Keeps w.broker b
      × AreRight m w.asks b
      × AllOf (IsCarried m w.asks) w.wire
      × AllOf (Carried m os) w.asks
      × AllOf (IsAsked w.asks) w.calls

  reply_is_ignored :
      (a : Asking) (rest : List ℕ) (calls : List Call)
      → Carried m os a
      → read_and_process e
          (answer_of e broker_address broker_port verbose os)
          (framed (reply_for m a) rest)
          (record { is_registered = true; calls = calls })
        ≡ (done tt, record { is_registered = true; calls = calls })
  unfolding act
  reply_is_ignored a rest calls (one, small, pass, runs, r, fit, short, fit', short') =
      let p = reply_for m a in
      let x = scalar a.operation.prototype.result a.result in
      let d = Decodes-pack_headers m law.codec (reply_headers (name_of a) (pos a.id) x) fit' in
      read_and_process_lem e law (answer_of e broker_address broker_port verbose os) (framed p rest)
        p service_request_response (record { is_registered = true; calls = calls })
        (
          receive-frame net reads p rest refl (reply_not_empty e law p (name_of a) a.id x d) short',
          reply-type e law p (name_of a) a.id x d,
        )

  -- The server's call for a request, and what it sends.
  request_is_served :
      (a : Asking) (rest : List ℕ) (calls : List Call) (b : Books)
      → Carried m os a
      → (read_and_process e
            (answer_of e broker_address broker_port verbose os)
            (framed (request_to m a) rest)
            (record { is_registered = true; calls = calls })
          ≡ (done tt, record { is_registered = true; calls = calls ++ call_for a ∷ [] }))
        × (sent_after e broker_address broker_port verbose os (calls ++ call_for a ∷ []) []
            ≡ sent_after e broker_address broker_port verbose os calls []
              ++ frame broker_address broker_port (reply_for m a))
  request_is_served a rest calls b (one, small, pass, runs, r, fit, short, fit', short') =
      let before = sent_after e broker_address broker_port verbose os calls [] in
      let call = call_for a in
      let answered =
        proxy_answers e law up reads a.caller broker_address broker_port verbose os a.operation
          a.args a.result a.id before one small pass runs r short' in
      let (rs, ins, handled, done_so) =
        request_arrives e law up reads (answer_of e broker_address broker_port verbose os)
          a.caller.client_address a.caller.wait_response_port a.id a.operation.prototype.name
          (scalars a.operation.prototype.params a.args) (view_of false false [] b) calls rest rest
          fit short (ap (λ w. w.0) answered) in
      (
        done_so,
        sent_after-snoc e broker_address broker_port verbose os calls call []
            ∙ ap (λ w. w.1) answered,
      )

  -- What the server sends after it has read a packet of the calls is a packet of the calls.
  read_and_process-IsCarried :
      (asks : List Asking) (b : Books) (p : Packet) (rest : List ℕ) (calls calls' : List Call)
      (sent : List Packet)
      → AllOf (Carried m os) asks
      → IsCarried m asks p
      → read_and_process e
          (answer_of e broker_address broker_port verbose os)
          (framed p rest)
          (record { is_registered = true; calls = calls })
        ≡ (done tt, record { is_registered = true; calls = calls' })
      → sent_after e broker_address broker_port verbose os calls' []
        ≡ sent_after e broker_address broker_port verbose os calls []
          ++ frames_to broker_address broker_port sent
      → AllOf (IsAsked asks) calls
      → AllOf (IsCarried m asks) sent × AllOf (IsAsked asks) calls'
  read_and_process-IsCarried asks b p rest calls calls' sent carried (a, among, inl is_p) h sends
        already =
      let (served_so, sent_so) =
        request_is_served a rest calls b (AllOf-Among (Carried m os) asks a among carried) in
      let answer = answer_of e broker_address broker_port verbose os in
      let start : Process = record { is_registered = true; calls = calls } in
      let known = ap (λ x. read_and_process e answer (framed x rest) start) is_p ∙ served_so in
      let same : calls' ≡ calls ++ call_for a ∷ [] = ap (λ w. w.1.calls) (sym h ∙ known) in
      let before = sent_after e broker_address broker_port verbose os calls [] in
      let both =
        sym sends
        ∙ ap (λ cs. sent_after e broker_address broker_port verbose os cs []) same
        ∙ sent_so in
      (
        subst (AllOf (IsCarried m asks))
            (sym (
              frames_to-frame broker_address broker_port sent (reply_for m a) (
                append_left_cancel before (frames_to broker_address broker_port sent)
                  (frame broker_address broker_port (reply_for m a)) both)))
            ((a, among, inr refl), tt),
        subst (AllOf (IsAsked asks)) (sym same)
            (AllOf-append (IsAsked asks) calls _ already ((a, among, refl), tt)),
      )
  read_and_process-IsCarried asks b p rest calls calls' sent carried (a, among, inr is_p) h sends
        already =
      let quiet_so =
        reply_is_ignored a rest calls (AllOf-Among (Carried m os) asks a among carried) in
      let answer = answer_of e broker_address broker_port verbose os in
      let start : Process = record { is_registered = true; calls = calls } in
      let known = ap (λ x. read_and_process e answer (framed x rest) start) is_p ∙ quiet_so in
      let same : calls' ≡ calls = ap (λ w. w.1.calls) (sym h ∙ known) in
      (
        subst (AllOf (IsCarried m asks))
            (sym (
              frames_to-silent broker_address broker_port sent
                (sent_after e broker_address broker_port verbose os calls [])
                (ap (λ cs. sent_after e broker_address broker_port verbose os cs []) (sym same)
                  ∙ sends)))
            tt,
        subst (AllOf (IsAsked asks)) (sym same) already,
      )

  asked-Kept :
      (w : World) (a : Asking) (sbuf : List ℕ)
      → Kept w
      → Carried m os a
      → request_for m a.caller (pos a.id) a.operation.prototype a.args ≡ done sbuf
      → Kept (record w { wire = packet_of sbuf ∷ w.wire; asks = a ∷ w.asks })
  asked-Kept w a sbuf (b, keeps, (pending, outbox), wire, carried, made) good packs =
      let packed =
        request_for_lem e law up reads a.caller a.id a.operation.prototype a.args good.2 in
      let same : sbuf ≡ (request_to m a).buffer = cc in
      (
        b,
        keeps,
        (
          AllOf-map (IsPending m w.asks) (IsPending m (a ∷ w.asks)) b.pending
              (IsPending-cons m a w.asks) pending,
          AllOf-map (IsRight m w.asks) (IsRight m (a ∷ w.asks)) b.outbox (IsRight-cons m a w.asks)
              outbox,
        ),
        (
          (a, ([], w.asks, refl), inl (ap packet_of same)),
          AllOf-map (IsCarried m w.asks) (IsCarried m (a ∷ w.asks)) w.wire
              (IsCarried-cons m a w.asks) wire,
        ),
        (good, carried),
        AllOf-map (IsAsked w.asks) (IsAsked (a ∷ w.asks)) w.calls (IsAsked-cons a w.asks) made,
      )

  pub Reach-Kept :
      (services : List Service) (w : World)
      → Reach e broker_address broker_port verbose os services w
      → Kept w
  Reach-Kept services _ started = (
    record { services = services; pending = []; outbox = [] },
    (false, true, [], refl),
    (tt, tt),
    tt,
    tt,
    tt,
  )
  Reach-Kept services _ (asked_for {w} r a sbuf good packs) =
      asked-Kept w a sbuf (Reach-Kept services w r) good packs
  Reach-Kept services _ (brokered {w} r p rest broker' among h) =
      let (b, keeps, right, wire, carried, made) = Reach-Kept services w r in
      let (c, keeps', right') =
        read_data-Keeps e law up reads os w.asks b w.broker broker' p rest carried
          (AllOf-Among (IsCarried m w.asks) w.wire p among wire) keeps right h in
      (c, keeps', right', wire, carried, made)
  Reach-Kept services _ (served {w} r p rest calls' sent among h sends) =
      let (b, keeps, right, wire, carried, made) = Reach-Kept services w r in
      let (carries, made') =
        read_and_process-IsCarried w.asks b p rest w.calls calls' sent carried
          (AllOf-Among (IsCarried m w.asks) w.wire p among wire) h sends made in
      (b, keeps, right, AllOf-append (IsCarried m w.asks) sent w.wire carries wire, carried, made')
