-- ===== src/Msgpack/Loop/Kept.antt =====
-- What every round of a loop keeps, the loop keeps.
use rpc_broker.Base.{List, [], ◌∷◌}
use rpc_broker.Msgpack.{Value, Packet, Msgpack, UnpackReturn, IsCodec}
use rpc_broker.Msgpack.Loop.{
  Flow, next, leave, Ending, drained, left, follow, each_value, each_object,
}
use rpc_broker.Msgpack.Loop.Rounds.{decode, each_object_lem}
use rpc_broker.Outcome.{Outcome, Holds, Holds-bind}

module _ {S B : Type 0} (P : S → Type 0) where
  abbrev pub InFlow : Flow S B → Type 0
  InFlow (next s) = P s
  InFlow (leave b) = Unit

  abbrev pub AtEnd : Ending S B → Type 0
  AtEnd (drained s r) = P s
  AtEnd (left b) = Unit

follow-Holds :
    {S B : Type 0} {P : S → Type 0} (k : S → Outcome (Ending S B))
    → ((s : S) → P s → Holds (AtEnd P) (k s))
    → (flow : Flow S B) → InFlow P flow
    → Holds (AtEnd P) (follow flow k)
follow-Holds k h (next s) p = h s p
follow-Holds k h (leave b) p = tt

module _ {S B : Type 0} (P : S → Type 0) (body : S → Value → Outcome (Flow S B)) where
  each_value-Holds :
      ((s : S) (v : Value) → P s → Holds (InFlow P) (body s v))
      → (vs : List Value) (r : UnpackReturn) (s : S) → P s
      → Holds (AtEnd P) (each_value body vs r s)
  unfolding each_value
  each_value-Holds keeps [] r s p = p
  each_value-Holds keeps (v ∷ vs) r s p =
      Holds-bind (InFlow P) (AtEnd P) (body s v) (λ flow. follow flow (each_value body vs r))
        (keeps s v p)
        (follow-Holds (each_value body vs r) (λ s' p'. each_value-Holds keeps vs r s' p'))

  pub each_object-Holds :
      (m : Msgpack) (c : IsCodec m)
      → ((s : S) (v : Value) → P s → Holds (InFlow P) (body s v))
      → (p : Packet) (s : S) → P s
      → Holds (AtEnd P) (each_object m body p s)
  each_object-Holds m c keeps p s ps =
      let (vs, r, d) = decode m c p in
      rw (each_object_lem m c body p vs r s d) (each_value-Holds keeps vs r s ps)
