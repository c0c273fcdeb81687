-- ===== src/Server/Proxy/Replies.antt =====
-- The replies of the server to the calls for the functions of the interface.
use rpc_broker.Common.Pack.{sbuf_packet_lem}
use rpc_broker.Common.ByteOrder.{uint32}
use rpc_broker.Server.Respond.{reply_headers, pack_client_response_data_lem}
use rpc_broker.Server.Proxy.Answering.{named, only_offered}
use rpc_broker.Server.Proxy.Passing.{scalar, conversions-scalars}
use rpc_broker.Common.Wire.Delivery.{IsWhole, frame, unpack_data-returns, send_req_lem}
use rpc_broker.Server.Proxy.Sending.{call_marshel_response_send, send_response}
use rpc_broker.Common.Format.Laws.{format_of}
use rpc_broker.Outcome.{Outcome, done}
use rpc_broker.Stulibc.{Sent, IsUp, to, null, unset}
use rpc_broker.Server.Proxy.{Operation, param_gets}
use rpc_broker.Server.Marshal.{Call}
use rpc_broker.Env.{Env, IsLawful}
use rpc_broker.Msgpack.{Msgpack, Packet, packet_of, pack_headers}
use rpc_broker.Common.Prototypes.{CType, ValueOf, passed, conversions, int_type, Args, char_ptr}
use rpc_broker.Base.{◌≡◌, ◌<◌, refl, ap, ◌∙◌, inl, inr, Bool, List, [], ◌∷◌, ◌++◌}
use rpc_broker.Base.{Bool-cases}
use rpc_broker.Base.{Text, NoNul}
use rpc_broker.Base.{InRange}

-- A result that can be packed: an `int`, or a C string.
abbrev pub Returnable : (t : CType) → ValueOf t → Type 0
Returnable int_type i = InRange i
Returnable char_ptr (to t) = NoNul t
Returnable char_ptr null = ⊥
Returnable char_ptr unset = ⊥

result_passed : (t : CType) (v : ValueOf t) → Returnable t v → passed t v ≡ done (scalar t v)
result_passed int_type i h = refl
result_passed char_ptr (to t) h = refl
result_passed char_ptr null h = absurd h
result_passed char_ptr unset h = absurd h

result_format : (t : CType) (v : ValueOf t) → conversions (t ∷ []) ≡ format_of (scalar t v ∷ [])
result_format t v = conversions-scalars (t ∷ []) (v, tt)

-- The packet that answers a call with a result.
abbrev pub reply_to : Msgpack → Call → (t : CType) → ValueOf t → Packet
reply_to m call t v =
    packet_of (pack_headers m (reply_headers call.operation call.message_id (scalar t v)))

module _ (e : Env) (broker_address broker_port : Text) (verbose : Bool) (os : List Operation) where
  -- What the server has sent after these calls, and how the next call ends.
  abbrev pub sent_after : List Call → List Sent → List Sent
  sent_after [] sent = sent
  sent_after (call ∷ calls) sent =
      sent_after calls
        (call_marshel_response_send e broker_address broker_port verbose os call sent).1

  abbrev pub answer_of : List Call → Call → Outcome (Unit {0})
  answer_of calls call =
      (call_marshel_response_send e broker_address broker_port verbose os call
        (sent_after calls [])).0

  pub sent_after-snoc :
      (calls : List Call) (call : Call) (sent : List Sent)
      → sent_after (calls ++ call ∷ []) sent
        ≡ (call_marshel_response_send e broker_address broker_port verbose os call
            (sent_after calls sent)).1
  sent_after-snoc [] call sent = refl
  sent_after-snoc (c ∷ calls) call sent =
      sent_after-snoc calls call
        (call_marshel_response_send e broker_address broker_port verbose os c sent).1

module _ (e : Env) (law : IsLawful e) (up : IsUp e.net) (broker_address broker_port : Text)
    (verbose : Bool) where
  open e use {msgpack as m, net}

  send_response_lem :
      (packet : Packet) (sent : List Sent)
      → IsWhole packet
      → send_response e broker_address broker_port verbose packet sent
        ≡ (done tt, sent ++ frame broker_address broker_port packet)
  send_response_lem packet sent w = elim (Bool-cases verbose) [
    | inl t ↦
        rw
          (
            t,
            (unpack_data-returns m law.codec packet).1,
            send_req_lem m law.codec net up broker_address broker_port packet sent w,
          )
          refl
    | inr f ↦ rw (f, send_req_lem m law.codec net up broker_address broker_port packet sent w) refl
  ]

  -- On a network that is up, a call for a function that alone has its name, with parameters of its
  -- types, is answered by exactly one packet to the broker: the operation, the id and the
  -- function's result, if it returns one that can be packed, in less than 2^32 bytes.
  pub call_is_answered :
      (os : List Operation) (o : Operation) (call : Call) (args : Args o.prototype.params)
      (result : ValueOf o.prototype.result) (sent : List Sent)
      → named call.operation os ≡ o ∷ []
      → param_gets o.prototype.params call.params ≡ done args
      → o.body args ≡ done result
      → Returnable o.prototype.result result
      → (reply_to m call o.prototype.result result).len < uint32
      → call_marshel_response_send e broker_address broker_port verbose os call sent ≡ (
        done tt,
        sent ++ frame broker_address broker_port (reply_to m call o.prototype.result result),
      )
  call_is_answered os o call args result sent one gets runs r short =
      only_offered e law broker_address broker_port verbose os o call sent one
      ∙ rw
          (
            gets,
            runs,
            result_passed o.prototype.result result r,
            result_format o.prototype.result result,
            pack_client_response_data_lem m call.operation call.message_id
                (scalar o.prototype.result result),
          )
          (ap (λ p. send_response e broker_address broker_port verbose p sent)
              (sbuf_packet_lem (reply_to m call o.prototype.result result).buffer short)
            ∙ send_response_lem (reply_to m call o.prototype.result result) sent refl)
