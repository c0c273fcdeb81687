-- ===== src/Msgpack.antt =====
-- What the program uses of msgpack-c, which is not part of the repository: the packing calls and
-- `msgpack_unpack_next` are parameters, with the documented behaviour that the program relies on.
pub mod Loop
use rpc_broker.Base.{
  ℕ, zero, suc, ◌+◌, ◌-◌, ◌*◌, ◌/◌, ◌%◌, ◌^◌, ◌≤◌, ◌<◌, String, ◌≡◌, refl, sym, ap, ◌∙◌, subst, ◌≢◌,
  ◌↔◌, ◌⊎◌, inl, inr, Bool, true, false, not, ◌&&◌, ◌||◌, Option, none, some, List, [], ◌∷◌, ◌++◌,
  reverse, arith,
}
use rpc_broker.Base.{
  ltb, leb, ◌==◌, if◌then◌else◌, ltb→lt, lt→ltb, le→ltb, ==_iff, Bool-cases, Option-cases,
}
use rpc_broker.Base.{
  length, get_elem?, set, erase_idx, take, drop, replicate, find_idx, length-append, length-map,
  length-replicate, length-reverse, take-append, drop-append, length-erase_idx,
}
use rpc_broker.Base.{
  Text, codes, text_eq, text_eq_refl, text_eq→eq, text_eq-ne, until_nul, NoNul, until_nul-NoNul,
  NoNul-until_nul, length-until_nul,
}
use rpc_broker.Base.{
  ℤ, pos, negsuc, int32, rounds, int_eq, int_eq_refl, int_eq→eq, int32-small, InRange,
  int32-InRange,
}

mutual
  -- msgpack_object, by `obj.type`; `negative_integer n` is -(n + 1), and `other` stands for
  -- floats, binaries and extensions, which no code of the program looks into.
  pub data Value : Type 0 where
    nil : Value
    boolean : Bool → Value
    positive_integer : ℕ → Value
    negative_integer : ℕ → Value
    str : List ℕ → Value
    array : Values → Value
    map : Entries → Value
    other : Value

  pub data Values : Type 0 where
    nothing : Values
    item : Value → Values → Values

  pub data Entries : Type 0 where
    empty : Entries
    entry : Value → Value → Entries → Entries

-- A return value of `msgpack_unpack_next` other than MSGPACK_UNPACK_SUCCESS.
pub data UnpackReturn : Type 0 where
  continue parse_error nomem_error : UnpackReturn

-- The object and the new offset, or the other return value.
pub data Unpacked : Type 0 where
  success : Value → ℕ → Unpacked
  stopped : UnpackReturn → Unpacked

-- `typedef struct Packet`: `len` bytes of `buffer` are the message.
pub record Packet : Type 0 where
  pub len : ℕ
  pub buffer : List ℕ

-- Each packing call appends the bytes given here to the `msgpack_sbuffer`.
pub record Msgpack : Type 0 where
  pub unpack_next : Packet → ℕ → Unpacked
  pub pack_map : ℕ → List ℕ
  pub pack_array : ℕ → List ℕ
  pub pack_str : ℕ → List ℕ
  pub pack_str_body : List ℕ → List ℕ
  pub pack_int : ℤ → List ℕ

-- The values that the program packs.
pub data Scalar : Type 0 where
  int : ℤ → Scalar
  text : Text → Scalar

pub data Content : Type 0 where
  one : Scalar → Content
  many : List Scalar → Content

pub record Header : Type 0 where
  pub name : Text
  pub content : Content

abbrev pub scalar_value : Scalar → Value
scalar_value (int (pos n)) = Value.positive_integer n
scalar_value (int (negsuc n)) = Value.negative_integer n
scalar_value (text t) = Value.str t

abbrev pub values : List Scalar → Values
values [] = Values.nothing
values (x ∷ xs) = Values.item (scalar_value x) (values xs)

abbrev pub content_value : Content → Value
content_value (one x) = scalar_value x
content_value (many xs) = Value.array (values xs)

-- The object that a reader gets for a header: a map of one entry.
abbrev pub header_value : Header → Value
header_value h =
    Value.map (Entries.entry (Value.str h.name) (content_value h.content) Entries.empty)

module _ (m : Msgpack) where
  abbrev pub pack_text : Text → List ℕ
  pack_text t = m.pack_str (length t) ++ m.pack_str_body t

  abbrev pub pack_scalar : Scalar → List ℕ
  pack_scalar (int i) = m.pack_int i
  pack_scalar (text t) = pack_text t

  abbrev pub pack_scalars : List Scalar → List ℕ
  pack_scalars [] = []
  pack_scalars (x ∷ xs) = pack_scalar x ++ pack_scalars xs

  abbrev pub pack_content : Content → List ℕ
  pack_content (one x) = pack_scalar x
  pack_content (many xs) = m.pack_array (length xs) ++ pack_scalars xs

  -- The calls that write one header: a map of one entry, its key and its value.
  abbrev pub pack_header : Header → List ℕ
  pack_header h = m.pack_map 1 ++ pack_text h.name ++ pack_content h.content

  abbrev pub pack_headers : List Header → List ℕ
  pack_headers [] = []
  pack_headers (h ∷ hs) = pack_header h ++ pack_headers hs

-- Sizes that the format can carry: below 2^32 bytes or elements.
abbrev pub ScalarFits : Scalar → Type 0
ScalarFits (int i) = InRange i
ScalarFits (text t) = length t < 4294967296

abbrev pub ScalarsFit : List Scalar → Type 0
ScalarsFit [] = Unit
ScalarsFit (x ∷ xs) = ScalarFits x × ScalarsFit xs

abbrev pub ContentFits : Content → Type 0
ContentFits (one x) = ScalarFits x
ContentFits (many xs) = (length xs < 4294967296) × ScalarsFit xs

abbrev pub Fits : Header → Type 0
Fits h = (length h.name < 4294967296) × ContentFits h.content

abbrev pub AllFit : List Header → Type 0
AllFit [] = Unit
AllFit (h ∷ hs) = Fits h × AllFit hs

-- The packet that holds exactly these bytes.
abbrev pub packet_of : List ℕ → Packet
packet_of bs = record { len = length bs; buffer = bs }

-- The documented behaviour: a success reads at least a byte and no further than `len`; what was
-- packed is read back, wherever it stands; at the end there is nothing more to read.
pub record IsCodec (m : Msgpack) : Type 0 where
  pub advances :
      (p : Packet) (off off' : ℕ) (v : Value)
      → m.unpack_next p off ≡ success v off'
      → (off < off') × (off' ≤ p.len)
  pub unpack-pack :
      (before after : List ℕ) (h : Header)
      → Fits h
      → m.unpack_next (packet_of (before ++ (pack_header m h ++ after))) (length before)
        ≡ success (header_value h) (length before + length (pack_header m h))
  pub unpack-end : (bs : List ℕ) → m.unpack_next (packet_of bs) (length bs) ≡ stopped continue
