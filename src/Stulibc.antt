-- ===== src/Stulibc.antt =====
-- What the program uses of stulibc and of the socket calls, which are not part of the repository:
pub mod Insert
-- parameters, with the documented behaviour that the program relies on.
use rpc_broker.Outcome.{Outcome, done, fault}
use rpc_broker.Base.{
  ℕ, zero, suc, ◌+◌, ◌-◌, ◌*◌, ◌/◌, ◌%◌, ◌^◌, ◌≤◌, ◌<◌, String, ◌≡◌, refl, sym, ap, ◌∙◌, subst, ◌≢◌,
  ◌↔◌, ◌⊎◌, inl, inr, Bool, true, false, not, ◌&&◌, ◌||◌, Option, none, some, List, [], ◌∷◌, ◌++◌,
  reverse, arith,
}
use rpc_broker.Base.{
  ltb, leb, ◌==◌, if◌then◌else◌, ltb→lt, lt→ltb, le→ltb, ==_iff, Bool-cases, Option-cases,
}
use rpc_broker.Base.{
  length, get_elem?, set, erase_idx, take, drop, replicate, find_idx, length-append, length-map,
  length-replicate, length-reverse, take-append, drop-append, length-erase_idx,
}
use rpc_broker.Base.{
  Text, codes, text_eq, text_eq_refl, text_eq→eq, text_eq-ne, until_nul, NoNul, until_nul-NoNul,
  NoNul-until_nul, length-until_nul,
}
use rpc_broker.Base.{
  ℤ, pos, negsuc, int32, rounds, int_eq, int_eq_refl, int_eq→eq, int32-small, InRange,
  int32-InRange,
}

-- A `char*`: never set, NULL, or the C string that it points to.
pub data Ptr : Type 0 where
  unset : Ptr
  null : Ptr
  to : Text → Ptr

-- What a library function is given; an unset pointer is a fault of the caller.
abbrev pub given : Ptr → Outcome (Option Text)
given unset = fault
given null = done none
given (to t) = done (some t)

-- `printf("%s", p)`
abbrev pub printed : Ptr → Outcome (Unit {0})
printed unset = fault
printed null = done tt
printed (to t) = done tt

-- A node of a `List` is given by its position. `none` stands for the string NULL.
pub record Stulibc : Type 1 where
  pub list_add : (A : Type 0) → List A → A → List A
  pub list_get : (A : Type 0) → List A → ℕ → Option A
  pub list_delete_node : (A : Type 0) → List A → ℕ → List A
  pub str_equals : Option Text → Option Text → Outcome Bool
  pub str_is_null_or_empty : Option Text → Bool

-- LIST_Add keeps what is there, in its order, and puts the new node somewhere.
abbrev pub Inserts {ℓ} : {A : Type ℓ} → A → List A → List A → Type ℓ
Inserts {A} a xs ys =
    (before : List A) × (after : List A) × (xs ≡ before ++ after) × (ys ≡ before ++ a ∷ after)

pub record IsStulibc (s : Stulibc) : Type 1 where
  pub list_add_inserts : (A : Type 0) (xs : List A) (a : A) → Inserts a xs (s.list_add A xs a)
  pub list_get_lem : (A : Type 0) (xs : List A) (i : ℕ) → s.list_get A xs i ≡ get_elem? xs i
  pub list_delete_node_lem :
      (A : Type 0) (xs : List A) (i : ℕ)
      → i < length xs
      → s.list_delete_node A xs i ≡ erase_idx xs i
  pub str_equals_lem : (a b : Text) → s.str_equals (some a) (some b) ≡ done (text_eq a b)
  pub str_is_null_or_empty_lem : (a : Text) → s.str_is_null_or_empty (some a) ≡ (length a == 0)
  pub str_is_null_or_empty-null : s.str_is_null_or_empty none ≡ true

-- One `send` on a connected socket: the peer, the bytes and the result.
pub record Sent : Type 0 where
  pub address : Option Text
  pub port : Option Text
  pub bytes : List ℕ
  pub result : ℤ

-- The network as the program meets it. `n` counts the sends before, so that a call may fail now and
-- succeed later. `net_error` is `netError(1, errno, ...)`; `net_readn` gives the bytes read and
-- those still to come, or `none` for its result -1.
pub record Net : Type 0 where
  pub net_tcp_client : ℕ → Option Text → Option Text → Outcome (Unit {0})
  pub send : ℕ → List ℕ → ℤ
  pub net_error : Outcome (Unit {0})
  pub net_readn : List ℕ → ℕ → Option (List ℕ × List ℕ)

-- A network that connects to a peer and takes all bytes that are sent.
pub record IsUp (n : Net) : Type 0 where
  pub connects : (k : ℕ) (a p : Text) → n.net_tcp_client k (some a) (some p) ≡ done tt
  pub sends : (k : ℕ) (bs : List ℕ) → n.send k bs ≡ pos (length bs)

-- `netReadn(s, buf, n)` waits for `n` bytes.
abbrev pub Reads : Net → Type 0
Reads n = (bs rest : List ℕ) → n.net_readn (bs ++ rest) (length bs) ≡ some (bs, rest)
