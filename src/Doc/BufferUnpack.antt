-- ===== src/Doc/BufferUnpack.antt =====
-- doc/use_buffer_unpack.c
use rpc_broker.Msgpack.Loop.Rounds.{each_object_lem}
use mathlib.Core.List.{append-nil, append_assoc}
use rpc_broker.Msgpack.Loop.{Ending, each_object, each_value, Flow, drained, next, left, Decodes}
use rpc_broker.Msgpack.{
  Value, Values, Entries, UnpackReturn, Msgpack, continue, Packet, packet_of, parse_error, IsCodec,
  nomem_error,
}
use rpc_broker.Outcome.{◌>>=◌, Outcome, done, fault}
use rpc_broker.Base.{ℕ, suc, ◌≡◌, refl, ◌∙◌, List, [], ◌∷◌, ◌++◌, arith}
use rpc_broker.Base.{length, length-append}
use rpc_broker.Base.{codes}
use rpc_broker.Base.{pos}

-- What is printed for an array or a map: its elements, of which the type is printed, or the values of
-- its entries.
pub data Detected : Type 0 where
  array_detected : List Value → Detected
  map_detected : List Value → Detected
  neither : Detected

-- What is printed for one object; `preview` is the object itself.
pub record ObjectShown : Type 0 where
  pub object_no : ℕ
  pub detected : Detected
  pub preview : Value

pub data Verdict : Type 0 where
  all_consumed : Verdict
  invalid_format : Verdict
  no_verdict : Verdict

abbrev pub elements : Values → List Value
elements Values.nothing = []
elements (Values.item v vs) = v ∷ elements vs

abbrev pub entry_values : Entries → List Value
entry_values Entries.empty = []
entry_values (Entries.entry key val es) = val ∷ entry_values es

abbrev pub detect : Value → Detected
detect (Value.array vs) = array_detected (elements vs)
detect (Value.map es) = map_detected (entry_values es)
detect _ = neither

abbrev pub object_shown : ℕ → Value → ObjectShown
object_shown i obj = record { object_no = i; detected = detect obj; preview = obj }

-- The objects that were printed, the number of which is `i`.
unfoldable pub unpack_round : List ObjectShown → Value → Outcome (Flow (List ObjectShown) ⊥)
unpack_round seen obj = done (next (seen ++ object_shown (suc (length seen)) obj ∷ []))

abbrev pub verdict : UnpackReturn → Verdict
verdict continue = all_consumed
verdict parse_error = invalid_format
verdict nomem_error = no_verdict

abbrev pub unpack_result : Ending (List ObjectShown) ⊥ → Outcome (List ObjectShown × Verdict)
unpack_result (drained seen r) = done (seen, verdict r)
unpack_result (left b) = fault

unfoldable pub unpack : Msgpack → Packet → Outcome (List ObjectShown × Verdict)
unfolding each_object unpack_round
unpack m packet = each_object m unpack_round packet [] >>= unpack_result

-- `msgpack_pack_true` and `msgpack_pack_false` append bytes too.
module _ (m : Msgpack) (pack_true pack_false : List ℕ) where
  abbrev pub pack_zeroth : List ℕ
  pack_zeroth =
      m.pack_map 2
      ++ m.pack_str 4
      ++ m.pack_str_body (codes "Name")
      ++ m.pack_str 6
      ++ m.pack_str_body (codes "Stuart")
      ++ m.pack_str 7
      ++ m.pack_str_body (codes "example")
      ++ m.pack_int (pos 1)

  abbrev pub pack_first : List ℕ
  pack_first =
      m.pack_array 3
      ++ m.pack_int (pos 1)
      ++ pack_true
      ++ m.pack_str 7
      ++ m.pack_str_body (codes "example")

  -- The second object, and the third one, which is announced with two elements.
  abbrev pub pack_others : List ℕ
  pack_others =
      m.pack_str 6
      ++ m.pack_str_body (codes "second")
      ++ m.pack_array 2
      ++ m.pack_int (pos 42)
      ++ pack_false
      ++ m.pack_str 7
      ++ m.pack_str_body (codes "ExAmPlE")

  abbrev pub prepare : List ℕ → List ℕ
  prepare sbuf = sbuf ++ pack_zeroth ++ pack_first ++ pack_others

  abbrev pub buffer_main : Outcome (List ObjectShown × Verdict)
  buffer_main = unpack m (packet_of (prepare []))

-- The objects in their order, numbered from `n` on.
abbrev pub numbered : ℕ → List Value → List ObjectShown
numbered n [] = []
numbered n (v ∷ vs) = object_shown n v ∷ numbered (suc n) vs

length_snoc :
    (seen : List ObjectShown) (o : ObjectShown) → length (seen ++ o ∷ []) ≡ suc (length seen)
length_snoc seen o = omega (arith, length-append seen (o ∷ []))

unpack_rounds :
    (vs : List Value) (r : UnpackReturn) (seen : List ObjectShown)
    → each_value unpack_round vs r seen ≡ done (drained (seen ++ numbered (suc (length seen)) vs) r)
unfolding each_value unpack_round
unpack_rounds [] r seen = rw (append-nil seen)
unpack_rounds (v ∷ vs) r seen =
    unpack_rounds vs r (seen ++ object_shown (suc (length seen)) v ∷ [])
    ∙ rw
        (
          length_snoc seen (object_shown (suc (length seen)) v),
          append_assoc seen (object_shown (suc (length seen)) v ∷ []),
        )
        refl

-- Every object of a buffer is shown once, in its order and numbered from 1 on, and then what stopped
-- the unpacker is told, but for a lack of memory.
pub unpack_lem :
    (m : Msgpack) (packet : Packet) (vs : List Value) (r : UnpackReturn)
    → IsCodec m
    → Decodes m packet vs r
    → unpack m packet ≡ done (numbered 1 vs, verdict r)
unfolding unpack
unpack_lem m packet vs r c d =
    rw (each_object_lem m c unpack_round packet vs r [] d, unpack_rounds vs r []) refl
