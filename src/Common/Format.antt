-- ===== src/Common/Format.antt =====
-- The loops of pack_client_request_data and pack_client_response_data over a format and its
-- arguments. Characters that are no conversion pack nothing.
pub mod Laws
use rpc_broker.Msgpack.{Msgpack, Scalar, int, text}
use rpc_broker.Outcome.{◌>>=◌, Outcome, fault, done}
use rpc_broker.Base.{
  ℕ, zero, suc, ◌+◌, ◌-◌, ◌*◌, ◌/◌, ◌%◌, ◌^◌, ◌≤◌, ◌<◌, String, ◌≡◌, refl, sym, ap, ◌∙◌, subst, ◌≢◌,
  ◌↔◌, ◌⊎◌, inl, inr, Bool, true, false, not, ◌&&◌, ◌||◌, Option, none, some, List, [], ◌∷◌, ◌++◌,
  reverse, arith,
}
use rpc_broker.Base.{
  ltb, leb, ◌==◌, if◌then◌else◌, ltb→lt, lt→ltb, le→ltb, ==_iff, Bool-cases, Option-cases,
}
use rpc_broker.Base.{
  length, get_elem?, set, erase_idx, take, drop, replicate, find_idx, length-append, length-map,
  length-replicate, length-reverse, take-append, drop-append, length-erase_idx,
}
use rpc_broker.Base.{
  Text, codes, text_eq, text_eq_refl, text_eq→eq, text_eq-ne, until_nul, NoNul, until_nul-NoNul,
  NoNul-until_nul, length-until_nul,
}
use rpc_broker.Base.{
  ℤ, pos, negsuc, int32, rounds, int_eq, int_eq_refl, int_eq→eq, int32-small, InRange,
  int32-InRange,
}

-- One argument for `%d` or `%s`. An argument that is missing or of the other type is a fault;
-- another letter packs nothing.
abbrev pub conversion : Msgpack → ℕ → List Scalar → List ℕ → Outcome (List Scalar × List ℕ)
conversion m letter [] sbuf =
    if letter == b'd' then fault else if letter == b's' then fault else done ([], sbuf)
conversion m letter (int i ∷ args) sbuf =
    if letter == b'd'
    then done (args, sbuf ++ m.pack_int i)
    else if letter == b's'
    then fault
    else done (int i ∷ args, sbuf)
conversion m letter (text t ∷ args) sbuf =
    if letter == b'd'
    then fault
    else if letter == b's'
    then done (args, sbuf ++ (m.pack_str (length t) ++ m.pack_str_body t))
    else done (text t ∷ args, sbuf)

-- A `%` at the end makes the loop run past the terminating NUL: a fault.
unfoldable pub pack_format : Msgpack → Text → List Scalar → List ℕ → Outcome (List ℕ)
pack_format m [] args sbuf = done sbuf
pack_format m (c ∷ []) args sbuf = if c == b'%' then fault else done sbuf
pack_format m (c ∷ d ∷ fmt) args sbuf =
    let skipped = pack_format m (d ∷ fmt) args sbuf in
    let after = λ (w : List Scalar × List ℕ). pack_format m fmt w.0 w.1 in
    if c == b'%' then (conversion m d args sbuf >>= after) else skipped

-- `numargs`: the number of `%` in the format
unfoldable pub count_args : Text → ℕ
count_args [] = 0
count_args (c ∷ fmt) = if c == b'%' then count_args fmt + 1 else count_args fmt
