-- ===== src/Common/Wire/Delivery.antt =====
-- What goes over the wire when the network takes it, and what arrives at the other end.
use mathlib.Core.List.{append_assoc, append-nil}
use rpc_broker.Msgpack.Loop.Rounds.{decode, each_object_lem}
use rpc_broker.Msgpack.Loop.{each_value, Decodes, drained}
use native.Mathlib.Decide.{ℕ_discrete}
use rpc_broker.Common.Wire.{send_data, send_req}
use rpc_broker.Outcome.{done}
use rpc_broker.Common.Headers.{unpack_data, display, displayed}
use rpc_broker.Stulibc.{Sent, Net, IsUp, to}
use rpc_broker.Common.ByteOrder.{htonl, length-htonl}
use rpc_broker.Msgpack.{
  Packet, Msgpack, IsCodec, Value, UnpackReturn, continue, parse_error, nomem_error,
}
use rpc_broker.Base.{
  ℕ, ◌+◌, ◌≡◌, refl, ap, ◌∙◌, ◌≢◌, Bool, true, false, some, List, [], ◌∷◌, ◌++◌, arith, pos-+ℤ-pos,
}
use rpc_broker.Base.{length, take}
use rpc_broker.Base.{Text}
use rpc_broker.Base.{pos}

-- The two sends of a packet: its length and its bytes.
abbrev pub frame : Text → Text → Packet → List Sent
frame address port p =
    record { address = some address; port = some port; bytes = htonl p.len; result = pos 4 }
    ∷ record { address = some address; port = some port; bytes = p.buffer; result = pos p.len }
    ∷ []

-- The fields of a packet agree.
abbrev pub IsWhole : Packet → Type 0
IsWhole p = p.len ≡ length p.buffer

take_self : (xs : List ℕ) → take (length xs) xs ≡ xs
take_self [] = refl
take_self (x ∷ xs) = ap (◌∷◌ x) (take_self xs)

take-length : (xs : List ℕ) (n : ℕ) → n ≡ length xs → take n xs ≡ xs
take-length xs n e = rw e (take_self xs)

module _ (m : Msgpack) (c : IsCodec m) where
  displays :
      (vs shown : List Value) (r : UnpackReturn)
      → each_value display vs r shown ≡ done (drained (shown ++ vs) r)
  unfolding each_value
  displays [] shown r = rw (append-nil shown)
  displays (v ∷ vs) shown r =
      displays vs (shown ++ v ∷ []) r
      ∙ ap (λ ws. done (drained ws r)) (append_assoc shown (v ∷ []) vs)

  -- A verbose `unpack_data` prints every object of a packet, in order.
  pub unpack_data_lem :
      (p : Packet) (vs : List Value) (r : UnpackReturn)
      → Decodes m p vs r
      → p.len ≢ 0
      → unpack_data m p ≡ displayed (drained vs r)
  unfolding unpack_data
  unpack_data_lem p vs r d h =
      rw (each_object_lem m c display p vs r [] d, displays vs [] r) (ground arith)

  displayed-returns :
      (vs : List Value) (r : UnpackReturn)
      → (shown : List Value × Bool) × (displayed (drained vs r) ≡ done shown)
  displayed-returns vs continue = ((vs, false), refl)
  displayed-returns vs parse_error = ((vs, true), refl)
  displayed-returns vs nomem_error = ((vs, false), refl)

  unpack_data-empty : (p : Packet) → p.len ≡ 0 → unpack_data m p ≡ done ([], false)
  unfolding unpack_data
  unpack_data-empty p e = rw e

  -- `unpack_data` comes back, whatever the packet holds.
  pub unpack_data-returns :
      (p : Packet) → (shown : List Value × Bool) × (unpack_data m p ≡ done shown)
  unpack_data-returns p = elim (ℕ_discrete p.len 0) [
    | yes e ↦ (([], false), unpack_data-empty p e)
    | no h ↦
        let (vs, r, d) = decode m c p in
        let (shown, e) = displayed-returns vs r in (shown, unpack_data_lem p vs r d h ∙ e)
  ]

  module _ (net : Net) (up : IsUp net) where
    pub send_data_lem :
        (address port : Text) (p : Packet) (sent : List Sent)
        → IsWhole p
        → send_data net (some address) (some port) p sent
          ≡ (done (pos (4 + p.len)), sent ++ frame address port p)
    unfolding send_data
    send_data_lem address port p sent w =
        rw (up.sends, up.sends)
          (rw (take-length p.buffer p.len w, ← w, pos-+ℤ-pos, length-htonl, append_assoc))

    -- A packet goes out whole to a peer that is there: first its length, then its bytes.
    pub send_req_lem :
        (address port : Text) (p : Packet) (sent : List Sent)
        → IsWhole p
        → send_req net m p (to address) (to port) sent
          ≡ (done (pos (4 + p.len)), sent ++ frame address port p)
    unfolding send_req
    send_req_lem address port p sent w =
        rw ((unpack_data-returns p).1, up.connects) (send_data_lem address port p sent w)
