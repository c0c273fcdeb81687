-- ===== src/Example/Codec.antt =====
-- A codec with the laws of `IsCodec`: a tag, a number, and the bytes of a string.
pub mod Laws
use rpc_broker.Msgpack.{
  Value, Values, Unpacked, Msgpack, Entries, stopped, parse_error, continue, success,
}
use rpc_broker.Base.{
  ℕ, zero, suc, ◌+◌, ◌-◌, ◌*◌, ◌/◌, ◌%◌, ◌^◌, ◌≤◌, ◌<◌, String, ◌≡◌, refl, sym, ap, ◌∙◌, subst, ◌≢◌,
  ◌↔◌, ◌⊎◌, inl, inr, Bool, true, false, not, ◌&&◌, ◌||◌, Option, none, some, List, [], ◌∷◌, ◌++◌,
  reverse, arith,
}
use rpc_broker.Base.{
  ltb, leb, ◌==◌, if◌then◌else◌, ltb→lt, lt→ltb, le→ltb, ==_iff, Bool-cases, Option-cases,
}
use rpc_broker.Base.{
  length, get_elem?, set, erase_idx, take, drop, replicate, find_idx, length-append, length-map,
  length-replicate, length-reverse, take-append, drop-append, length-erase_idx,
}
use rpc_broker.Base.{
  Text, codes, text_eq, text_eq_refl, text_eq→eq, text_eq-ne, until_nul, NoNul, until_nul-NoNul,
  NoNul-until_nul, length-until_nul,
}
use rpc_broker.Base.{
  ℤ, pos, negsuc, int32, rounds, int_eq, int_eq_refl, int_eq→eq, int32-small, InRange,
  int32-InRange,
}

-- A positive integer, a negative one, or a string of `n` bytes.
unfoldable pub read_scalar : List ℕ → Option (Value × List ℕ)
read_scalar [] = none
read_scalar (tag ∷ []) = none
read_scalar (tag ∷ n ∷ rest) =
    if tag == 4
    then some (Value.positive_integer n, rest)
    else if tag == 5
    then some (Value.negative_integer n, rest)
    else if tag == 3
    then some (Value.str (take n rest), drop n rest)
    else none

abbrev pub add_item : Value → Option (Values × List ℕ) → Option (Values × List ℕ)
add_item v none = none
add_item v (some (vs, rest)) = some (Values.item v vs, rest)

unfoldable pub read_scalars : ℕ → List ℕ → Option (Values × List ℕ)
read_scalars zero bs = some (Values.nothing, bs)
read_scalars (suc n) bs = elim (read_scalar bs) [
  | none ↦ none
  | some (v, rest) ↦ add_item v (read_scalars n rest)
]

abbrev pub as_array : Option (Values × List ℕ) → Option (Value × List ℕ)
as_array none = none
as_array (some (vs, rest)) = some (Value.array vs, rest)

unfoldable pub read_content : List ℕ → Option (Value × List ℕ)
unfolding read_scalars
read_content [] = none
read_content (tag ∷ []) = none
read_content (tag ∷ n ∷ rest) =
    if tag == 2 then as_array (read_scalars n rest) else read_scalar (tag ∷ n ∷ rest)

abbrev pub as_map : Value → Option (Value × List ℕ) → Option (Value × List ℕ)
as_map key none = none
as_map key (some (val, rest)) = some (Value.map (Entries.entry key val Entries.empty), rest)

unfoldable pub read_header : List ℕ → Option (Value × List ℕ)
unfolding read_content
read_header [] = none
read_header (tag ∷ []) = none
read_header (tag ∷ n ∷ rest) =
    if tag == 1 && n == 1
    then elim (read_scalar rest) [
      | none ↦ none
      | some (key, rest') ↦ as_map key (read_content rest')
    ]
    else none

abbrev pub unpacked : ℕ → List ℕ → Option (Value × List ℕ) → Unpacked
unpacked len bs none = stopped parse_error
unpacked len bs (some (v, rest)) =
    if ltb (length rest) (length bs) then success v (len - length rest) else stopped parse_error

abbrev pub unpack_from : ℕ → List ℕ → Unpacked
unpack_from len [] = stopped continue
unpack_from len (b ∷ bs) = unpacked len (b ∷ bs) (read_header (b ∷ bs))

abbrev pub pack_tagged : ℤ → List ℕ
pack_tagged (pos n) = 4 ∷ n ∷ []
pack_tagged (negsuc n) = 5 ∷ n ∷ []

abbrev pub codec : Msgpack
codec = record {
  unpack_next = λ p off. unpack_from p.len (drop off (take p.len p.buffer));
  pack_map = λ n. 1 ∷ n ∷ [];
  pack_array = λ n. 2 ∷ n ∷ [];
  pack_str = λ n. 3 ∷ n ∷ [];
  pack_str_body = λ bs. bs;
  pack_int = pack_tagged;
}
