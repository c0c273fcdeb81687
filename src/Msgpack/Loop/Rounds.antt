-- ===== src/Msgpack/Loop/Rounds.antt =====
-- The loop over a packet is the recursion over its objects, and it ends.
use rpc_broker.Base.{ℕ, zero, suc, ◌+◌, ◌≤◌, ◌<◌, ◌≡◌, refl, ◌⊎◌, inl, inr, List, [], ◌∷◌, arith}
use rpc_broker.Base.{length}
use rpc_broker.Outcome.{Outcome, Ends}
use rpc_broker.Msgpack.{Value, Packet, Msgpack, Unpacked, UnpackReturn, success, stopped, IsCodec}
use rpc_broker.Msgpack.Loop.{
  Flow, each, each_object, each_value, DecodesFrom, Decodes, follow-ext, follow-Ends,
}

Unpacked-cases :
    (u : Unpacked)
    → ((r : UnpackReturn) × (u ≡ stopped r)) ⊎ ((v : Value) × (off : ℕ) × (u ≡ success v off))
Unpacked-cases (stopped r) = inl (r, refl)
Unpacked-cases (success v off) = inr (v, off, refl)

module _ {S B : Type 0} (m : Msgpack) (body : S → Value → Outcome (Flow S B)) where
  pub each-eq-each_value :
      (fuel : ℕ) (p : Packet) (off : ℕ) (vs : List Value) (r : UnpackReturn) (s : S)
      → DecodesFrom m p off vs r
      → length vs < fuel
      → each m body fuel p off s ≡ each_value body vs r s
  unfolding each each_value
  each-eq-each_value zero p off vs r s d h = absurd (omega arith)
  each-eq-each_value (suc fuel) p off [] r s d h = rw (d, each)
  each-eq-each_value (suc fuel) p off (v ∷ vs) r s (off', e, d) h =
      rw (e, each)
        (follow-ext (body s v) (each m body fuel p off') (each_value body vs r)
          (λ s'. each-eq-each_value fuel p off' vs r s' d (omega arith)))

  pub each_object-eq-each_value :
      (p : Packet) (vs : List Value) (r : UnpackReturn) (s : S)
      → Decodes m p vs r
      → length vs ≤ p.len
      → each_object m body p s ≡ each_value body vs r s
  unfolding each_object
  each_object-eq-each_value p vs r s d h = each-eq-each_value (suc p.len) p 0 vs r s d (omega arith)

module _ (m : Msgpack) (c : IsCodec m) where
  -- Every packet holds a sequence of objects, no more than it has bytes.
  pub decode_from :
      (fuel : ℕ) (p : Packet) (off : ℕ)
      → off ≤ p.len
      → p.len < off + fuel
      → (vs : List Value) × (r : UnpackReturn) × DecodesFrom m p off vs r
        × (length vs + off ≤ p.len)
  decode_from zero p off h k = absurd (omega arith)
  decode_from (suc fuel) p off h k = elim (Unpacked-cases (m.unpack_next p off)) [
    | inl (r, e) ↦ ([], r, e, omega arith)
    | inr (v, off', e) ↦
        let far = c.advances p off off' v e in
        let (vs, r, d, short) = decode_from fuel p off' far.1 (omega (arith, far.0)) in
        (v ∷ vs, r, (off', e, d), omega (arith, far.0, short))
  ]

  DecodesFrom-length :
      (p : Packet) (off : ℕ) (vs : List Value) (r : UnpackReturn)
      → off ≤ p.len
      → DecodesFrom m p off vs r
      → length vs + off ≤ p.len
  DecodesFrom-length p off [] r h d = omega arith
  DecodesFrom-length p off (v ∷ vs) r h (off', e, d) =
      let far = c.advances p off off' v e in
      omega (arith, far.0, DecodesFrom-length p off' vs r far.1 d)

  -- The loop over a packet is the recursion over its objects.
  pub each_object_lem :
      {S B : Type 0} (body : S → Value → Outcome (Flow S B)) (p : Packet) (vs : List Value)
      (r : UnpackReturn) (s : S)
      → Decodes m p vs r
      → each_object m body p s ≡ each_value body vs r s
  each_object_lem body p vs r s d =
      each_object-eq-each_value m body p vs r s d
        (omega (arith, DecodesFrom-length p 0 vs r (omega arith) d))

  pub decode : (p : Packet) → (vs : List Value) × (r : UnpackReturn) × Decodes m p vs r
  decode p =
      let (vs, r, d, _) = decode_from (suc p.len) p 0 (omega arith) (omega arith) in (vs, r, d)

module _ {S B : Type 0} (body : S → Value → Outcome (Flow S B)) where
  each_value-Ends :
      ((s : S) (v : Value) → Ends (body s v))
      → (vs : List Value) (r : UnpackReturn) (s : S) → Ends (each_value body vs r s)
  unfolding each_value
  each_value-Ends h [] r s = tt
  each_value-Ends h (v ∷ vs) r s =
      follow-Ends (body s v) (each_value body vs r) (h s v) (each_value-Ends h vs r)

  -- On every packet the loop ends, if each round of it does.
  pub each_object-Ends :
      (m : Msgpack)
      → IsCodec m
      → ((s : S) (v : Value) → Ends (body s v))
      → (p : Packet) (s : S) → Ends (each_object m body p s)
  each_object-Ends m c h p s =
      let (vs, r, d) = decode m c p in
      rw (each_object_lem m c body p vs r s d) (each_value-Ends h vs r s)
