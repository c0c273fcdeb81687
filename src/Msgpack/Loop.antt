-- ===== src/Msgpack/Loop.antt =====
-- The loop `while (msgpack_unpack_next(...) == MSGPACK_UNPACK_SUCCESS)` that the readers share, and
-- its reading as a recursion over the objects of the packet.
pub mod Rounds
pub mod Packed
pub mod Kept
use rpc_broker.Base.{
  ℕ, zero, suc, ◌+◌, ◌-◌, ◌*◌, ◌/◌, ◌%◌, ◌^◌, ◌≤◌, ◌<◌, String, ◌≡◌, refl, sym, ap, ◌∙◌, subst, ◌≢◌,
  ◌↔◌, ◌⊎◌, inl, inr, Bool, true, false, not, ◌&&◌, ◌||◌, Option, none, some, List, [], ◌∷◌, ◌++◌,
  reverse, arith,
}
use rpc_broker.Base.{
  ltb, leb, ◌==◌, if◌then◌else◌, ltb→lt, lt→ltb, le→ltb, ==_iff, Bool-cases, Option-cases,
}
use rpc_broker.Base.{
  length, get_elem?, set, erase_idx, take, drop, replicate, find_idx, length-append, length-map,
  length-replicate, length-reverse, take-append, drop-append, length-erase_idx,
}
use rpc_broker.Base.{
  Text, codes, text_eq, text_eq_refl, text_eq→eq, text_eq-ne, until_nul, NoNul, until_nul-NoNul,
  NoNul-until_nul, length-until_nul,
}
use rpc_broker.Base.{
  ℤ, pos, negsuc, int32, rounds, int_eq, int_eq_refl, int_eq→eq, int32-small, InRange,
  int32-InRange,
}
use rpc_broker.Outcome.{Outcome, done, exited, fault, spins, ◌>>=◌, Ends}
use rpc_broker.Msgpack.{
  Value, Packet, Msgpack, UnpackReturn, continue, success, stopped, IsCodec, Header, header_value,
  pack_header, pack_headers, packet_of, AllFit,
}
use mathlib.Core.List.{append_assoc, append-nil}

-- What the loop's body asks for: the next round, or a `break` or `return` with a result.
pub data Flow (S B : Type 0) : Type 0 where
  next : S → Flow S B
  leave : B → Flow S B

-- How the loop ended: by its test, or by the body.
pub data Ending (S B : Type 0) : Type 0 where
  drained : S → UnpackReturn → Ending S B
  left : B → Ending S B

module _ {S B : Type 0} where
  -- The rounds after the body has run.
  abbrev pub follow : Flow S B → (S → Outcome (Ending S B)) → Outcome (Ending S B)
  follow (next s) k = k s
  follow (leave b) k = done (left b)

  pub follow-ext :
      (o : Outcome (Flow S B)) (k k' : S → Outcome (Ending S B))
      → ((s : S) → k s ≡ k' s)
      → (o >>= λ flow. follow flow k) ≡ (o >>= λ flow. follow flow k')
  follow-ext (done (next s)) k k' h = h s
  follow-ext (done (leave b)) k k' h = refl
  follow-ext (exited n) k k' h = refl
  follow-ext fault k k' h = refl
  follow-ext spins k k' h = refl

  pub follow-Ends :
      (o : Outcome (Flow S B)) (k : S → Outcome (Ending S B))
      → Ends o
      → ((s : S) → Ends (k s))
      → Ends (o >>= λ flow. follow flow k)
  follow-Ends (done (next s)) k e h = h s
  follow-Ends (done (leave b)) k e h = tt
  follow-Ends (exited n) k e h = tt
  follow-Ends fault k e h = tt
  follow-Ends spins k e h = e

module _ {S B : Type 0} (m : Msgpack) (body : S → Value → Outcome (Flow S B)) where
  unfoldable pub each : ℕ → Packet → ℕ → S → Outcome (Ending S B)
  each zero p off s = spins
  each (suc fuel) p off s = elim (m.unpack_next p off) [
    | stopped r ↦ done (drained s r)
    | success v off' ↦ body s v >>= λ flow. follow flow (each fuel p off')
  ]

  -- Every success reads a byte at least, so as many rounds as bytes and one more are enough.
  unfoldable pub each_object : Packet → S → Outcome (Ending S B)
  unfolding each
  each_object p s = each (suc p.len) p 0 s

-- The same over the objects themselves; `r` is the return value that ends the loop.
module _ {S B : Type 0} (body : S → Value → Outcome (Flow S B)) where
  unfoldable pub each_value : List Value → UnpackReturn → S → Outcome (Ending S B)
  each_value [] r s = done (drained s r)
  each_value (v ∷ vs) r s = body s v >>= λ flow. follow flow (each_value vs r)

-- From an offset on, the packet holds these objects, and then the unpacker stops.
abbrev pub DecodesFrom : Msgpack → Packet → ℕ → List Value → UnpackReturn → Type 0
DecodesFrom m p off [] r = m.unpack_next p off ≡ stopped r
DecodesFrom m p off (v ∷ vs) r =
    (off' : ℕ) × (m.unpack_next p off ≡ success v off') × DecodesFrom m p off' vs r

abbrev pub Decodes : Msgpack → Packet → List Value → UnpackReturn → Type 0
Decodes m p vs r = DecodesFrom m p 0 vs r
