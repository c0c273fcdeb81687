-- ===== src/Common/Headers/Lookup.antt =====
-- What the readers find in a packet of headers: the last integer and the first string of a name.
use rpc_broker.Common.Protocol.Names.{IsName}
use rpc_broker.Msgpack.Loop.Rounds.{each_object_lem}
use rpc_broker.Stulibc.{Stulibc, IsStulibc, Ptr, to, unset, null}
use rpc_broker.Msgpack.Loop.{next, each_value, Ending, drained, Decodes, left, Flow, leave}
use rpc_broker.Outcome.{done, exited}
use rpc_broker.Common.Protocol.{operation_hdr}
use rpc_broker.Common.Headers.{
  extract_header, int_round, done, next, int_header, Msgpack, Stulibc, get_hdr_int, str_round,
  Ending, drained, Packet, left, continue, parse_error, exited, op_round, get_hdr_str, get_op_name,
  Flow, Ptr, str_header, leave, to, operation_hdr, unset, null,
}
use rpc_broker.Msgpack.{
  Header, Content, header_value, one, int, text, content_value, many, Msgpack, UnpackReturn,
  IsCodec, Packet, continue, parse_error,
}
use rpc_broker.Base.{◌≡◌, refl, ap, Option, none, some, List, [], ◌∷◌, arith, map}
use rpc_broker.Base.{if◌then◌else◌}
use rpc_broker.Base.{Text, text_eq, until_nul, until_nul-NoNul}
use rpc_broker.Base.{ℤ, pos, negsuc, int32}

-- A key that the readers take: no NUL in it, and short enough for the 20 bytes of `header_name`.
abbrev pub Named : Header → Type 0
Named h = IsName h.name

abbrev pub AllNamed : List Header → Type 0
AllNamed [] = Unit
AllNamed (h ∷ hs) = Named h × AllNamed hs

pub extract_header_lem :
    (h : Header)
    → Named h
    → extract_header (header_value h) ≡ done (h.name, content_value h.content)
unfolding extract_header
extract_header_lem h n = rw (until_nul-NoNul h.name n.1) (ground arith)

-- The value of an integer header, as an `int`.
abbrev pub int_of : Content → ℤ → ℤ
int_of (one (int (pos n))) old = int32 n
int_of (one (int (negsuc n))) old = old
int_of (one (text t)) old = old
int_of (many xs) old = old

-- The reference reading of an integer: the last of the name wins.
abbrev pub last_int : Text → List Header → ℤ → ℤ
last_int look [] value = value
last_int look (h ∷ hs) value =
    last_int look hs (if text_eq look h.name then int_of h.content value else value)

-- The reference reading of a string: the first of the name.
abbrev pub text_of : Text → Header → Option Text → Option Text
text_of look h later = elim h.content [
  | one (text t) ↦ if text_eq look h.name then some (until_nul t) else later
  | _ ↦ later
]

abbrev pub first_text : Text → List Header → Option Text
first_text look [] = none
first_text look (h ∷ hs) = text_of look h (first_text look hs)

int_header_lem :
    (look name : Text) (c : Content) (value : ℤ)
    → int_header look value (name, content_value c)
      ≡ (if text_eq look name then int_of c value else value)
int_header_lem look name (one (int (pos n))) value = refl
int_header_lem look name (one (int (negsuc n))) value = ground arith
int_header_lem look name (one (text t)) value = ground arith
int_header_lem look name (many xs) value = ground arith

int_round_lem :
    (look : Text) (value : ℤ) (h : Header)
    → Named h
    → int_round look value (header_value h)
      ≡ done (next (if text_eq look h.name then int_of h.content value else value))
unfolding int_round
int_round_lem look value h n =
    rw (extract_header_lem h n)
      (ap (λ w. done (next w)) (int_header_lem look h.name h.content value))

int_rounds :
    (look : Text) (hs : List Header) (r : UnpackReturn) (value : ℤ)
    → AllNamed hs
    → each_value (int_round look) (map header_value hs) r value
      ≡ done (drained (last_int look hs value) r)
unfolding each_value
int_rounds look [] r value n = refl
int_rounds look (h ∷ hs) r value n =
    rw (int_round_lem look value h n.0)
      (int_rounds look hs r (if text_eq look h.name then int_of h.content value else value) n.1)

module _ (m : Msgpack) (c : IsCodec m) where
  -- On a packet that holds just these headers `get_hdr_int` gives the last integer header of the
  -- name, and 0 if there is none.
  pub get_hdr_int_lem :
      (p : Packet) (hs : List Header) (look : Text)
      → Decodes m p (map header_value hs) continue
      → AllNamed hs
      → get_hdr_int m p look ≡ done (last_int look hs (pos 0))
  unfolding get_hdr_int
  get_hdr_int_lem p hs look d n =
      rw
        (
          each_object_lem m c (int_round look) p (map header_value hs) continue (pos 0) d,
          int_rounds look hs continue (pos 0) n,
        )
        refl

  -- A packet that breaks off in bytes that are no msgpack ends the process.
  pub get_hdr_int-parse_error :
      (p : Packet) (hs : List Header) (look : Text)
      → Decodes m p (map header_value hs) parse_error
      → AllNamed hs
      → get_hdr_int m p look ≡ exited 1
  unfolding get_hdr_int
  get_hdr_int-parse_error p hs look d n =
      rw
        (
          each_object_lem m c (int_round look) p (map header_value hs) parse_error (pos 0) d,
          int_rounds look hs parse_error (pos 0) n,
        )
        refl

-- What the loop leaves behind for a search that found this.
abbrev found : Option Text → UnpackReturn → Ending (Unit {0}) Text
found none r = drained tt r
found (some t) r = left t

abbrev follow_text : Text → Text → Content → Flow (Unit {0}) Text
follow_text look name (one (text t)) = if text_eq look name then leave (until_nul t) else next tt
follow_text look name _ = next tt

-- The pointer to a text that was found, or the one that stands for none.
abbrev pub ptr_or : Ptr → Option Text → Ptr
ptr_or p none = p
ptr_or p (some t) = to t

module _ (l : Stulibc) (sl : IsStulibc l) where
  str_header_lem :
      (look name : Text) (c : Content)
      → str_header l look (name, content_value c) ≡ done (follow_text look name c)
  str_header_lem look name (one (int (pos n))) = refl
  str_header_lem look name (one (int (negsuc n))) = refl
  str_header_lem look name (one (text t)) = rw (sl.str_equals_lem look name)
  str_header_lem look name (many xs) = refl

  str_rounds :
      (look : Text) (hs : List Header) (r : UnpackReturn)
      → AllNamed hs
      → each_value (str_round l look) (map header_value hs) r tt
        ≡ done (found (first_text look hs) r)
  unfolding each_value str_round
  str_rounds look [] r n = refl
  str_rounds look (h ∷ hs) r n =
      rw (extract_header_lem h n.0, str_header_lem look h.name h.content)
        (ground (arith, str_rounds look hs r n.1))

  op_round_lem :
      (h : Header)
      → Named h
      → op_round l tt (header_value h) ≡ done (follow_text operation_hdr h.name h.content)
  unfolding op_round
  op_round_lem h n =
      rw (extract_header_lem h n, sl.str_equals_lem operation_hdr h.name) (ground arith)

  op_rounds :
      (hs : List Header) (r : UnpackReturn)
      → AllNamed hs
      → each_value (op_round l) (map header_value hs) r tt
        ≡ done (found (first_text operation_hdr hs) r)
  unfolding each_value
  op_rounds [] r n = refl
  op_rounds (h ∷ hs) r n = rw (op_round_lem h n.0) (ground (arith, op_rounds hs r n.1))

module _ (m : Msgpack) (c : IsCodec m) (l : Stulibc) (sl : IsStulibc l) where
  -- `get_hdr_str` gives the first string header of the name, and otherwise a pointer that was
  -- never set.
  pub get_hdr_str_lem :
      (p : Packet) (hs : List Header) (r : UnpackReturn) (look : Text)
      → Decodes m p (map header_value hs) r
      → AllNamed hs
      → get_hdr_str l m p look ≡ done (ptr_or unset (first_text look hs))
  unfolding get_hdr_str
  get_hdr_str_lem p hs r look d n =
      rw
        (
          each_object_lem m c (str_round l look) p (map header_value hs) r tt d,
          str_rounds l sl look hs r n,
        )
        (ground arith)

  -- `get_op_name` gives the first string header "op", and NULL if there is none.
  pub get_op_name_lem :
      (p : Packet) (hs : List Header)
      → Decodes m p (map header_value hs) continue
      → AllNamed hs
      → get_op_name l m p ≡ done (ptr_or null (first_text operation_hdr hs))
  unfolding get_op_name
  get_op_name_lem p hs d n =
      rw
        (
          each_object_lem m c (op_round l) p (map header_value hs) continue tt d,
          op_rounds l sl hs continue n,
        )
        (ground arith)
