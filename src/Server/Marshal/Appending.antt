-- ===== src/Server/Marshal/Appending.antt =====
-- server/unpack_marshal_call.c: a packet adds calls after those that were made.
use rpc_broker.Base.{◌≡◌, sym, ap, ◌∙◌, Bool, true, false, none, some, List, [], ◌∷◌, ◌++◌}
use rpc_broker.Base.{if◌then◌else◌}
use rpc_broker.Base.{Text, until_nul}
use rpc_broker.Base.{ℤ, int32}
use mathlib.Core.List.{append_assoc, append-nil}
use rpc_broker.Msgpack.{Msgpack, IsCodec, Packet, Value}
use rpc_broker.Msgpack.Loop.{Ending, drained, left, each_object}
use rpc_broker.Msgpack.Loop.Kept.{InFlow, AtEnd, each_object-Holds}
use rpc_broker.Server.Marshal.{
  Call, Locals, Param, params, prepared, invoke, request_field, request_round, request_result,
  unpack_marshal_call_send,
}
use rpc_broker.Common.Headers.{extract_header}
use rpc_broker.Common.Protocol.{operation_hdr, message_id_hdr}
use rpc_broker.Stulibc.{Stulibc}
use rpc_broker.Outcome.{Outcome, Holds, Holds-bind, Holds-any}

-- `calls` goes on from `made`.
abbrev pub GoesOn : List Call → List Call → Type 0
GoesOn made calls = (more : List Call) × (calls ≡ made ++ more)

one_more :
    (made calls : List Call) (call : Call) → GoesOn made calls → GoesOn made (calls ++ call ∷ [])
one_more made calls call (more, e) =
    (more ++ call ∷ [], ap (λ cs. cs ++ call ∷ []) e ∙ append_assoc made more (call ∷ []))

module _ (l : Stulibc) (answer : List Call → Call → Outcome (Unit {0})) (made : List Call) where
  abbrev Added : Locals → Type 0
  Added s = GoesOn made s.calls

  invoke-Added : (s : Locals) (ps : List Param) → Added s → Holds Added (invoke l answer s ps)
  invoke-Added s ps g =
      Holds-bind (λ call. Unit {0}) Added (prepared s.message_id s.operation ps) _
        (Holds-any (prepared s.message_id s.operation ps))
        (λ call u.
          Holds-bind (λ v. Unit {0}) Added (answer s.calls call) _ (Holds-any (answer s.calls call))
            (λ v w. one_more made s.calls call g))

  set_operation :
      (b : Bool) (s : Locals) (t : Text)
      → Added s
      → Added (if b then record s { operation = some t } else s)
  set_operation true s t g = g
  set_operation false s t g = g

  set_id :
      (b : Bool) (s : Locals) (i : ℤ)
      → Added s
      → Added (if b then record s { message_id = some i } else s)
  set_id true s i g = g
  set_id false s i g = g

  request_field-Added :
      (is_op is_id : Bool) (s : Locals) (v : Value)
      → Added s
      → Holds Added (request_field l answer is_op is_id s v)
  request_field-Added is_op is_id s (Value.str bs) g = set_operation is_op s (until_nul bs) g
  request_field-Added is_op is_id s (Value.positive_integer n) g = set_id is_id s (int32 n) g
  request_field-Added is_op is_id s (Value.array vs) g = invoke-Added s (params vs) g
  request_field-Added is_op is_id s Value.nil g = g
  request_field-Added is_op is_id s (Value.boolean b) g = g
  request_field-Added is_op is_id s (Value.negative_integer n) g = g
  request_field-Added is_op is_id s (Value.map es) g = g
  request_field-Added is_op is_id s Value.other g = g

  request_round-Added :
      (s : Locals) (v : Value) → Added s → Holds (InFlow Added) (request_round l answer s v)
  unfolding request_round
  request_round-Added s v g =
      Holds-bind (λ kv. Unit {0}) (InFlow Added) (extract_header v) _ (Holds-any (extract_header v))
        (λ kv u.
          Holds-bind (λ b. Unit {0}) (InFlow Added) (l.str_equals (some operation_hdr) (some kv.0))
            _ (Holds-any _)
            (λ is_op u'.
              Holds-bind (λ b. Unit {0}) (InFlow Added)
                (l.str_equals (some message_id_hdr) (some kv.0)) _ (Holds-any _)
                (λ is_id u''.
                  Holds-bind Added (InFlow Added) (request_field l answer is_op is_id s kv.1) _
                    (request_field-Added is_op is_id s kv.1 g) (λ s' g'. g'))))

  result-GoesOn :
      (end : Ending Locals ⊥) → AtEnd Added end → Holds (GoesOn made) (request_result l answer end)
  result-GoesOn (drained s r) g = g
  result-GoesOn (left b) g = tt

  -- Whatever the packet holds, the calls that were made before come first.
  pub unpack_marshal_call_send-GoesOn :
      (m : Msgpack) (c : IsCodec m) (packet : Packet)
      → Holds (GoesOn made) (unpack_marshal_call_send l answer m packet made)
  unfolding unpack_marshal_call_send
  unpack_marshal_call_send-GoesOn m c packet =
      Holds-bind (AtEnd Added) (GoesOn made)
        (each_object m (request_round l answer) packet
          (record { message_id = none; operation = none; calls = made }))
        (request_result l answer)
        (each_object-Holds Added (request_round l answer) m c request_round-Added packet
          (record { message_id = none; operation = none; calls = made })
          ([], sym (append-nil made)))
        result-GoesOn
