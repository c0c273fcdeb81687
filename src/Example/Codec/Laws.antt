-- ===== src/Example/Codec/Laws.antt =====
-- The laws of the codec.
use mathlib.Core.List.{append_assoc}
use rpc_broker.Example.Codec.{
  read_scalars, read_content, read_header, read_scalar, unpack_from, codec, success, stopped,
  continue,
}
use rpc_broker.Msgpack.{
  Scalar, Header, Value, IsCodec, pack_scalars, Content, pack_header, pack_scalar, values,
  pack_content, header_value, success, scalar_value, content_value, text, int, one, many, stopped,
  continue,
}
use rpc_broker.Base.{
  ℕ, zero, suc, ◌+◌, ◌-◌, ◌≤◌, ◌<◌, ◌≡◌, refl, ap, some, List, [], ◌∷◌, ◌++◌, arith,
}
use rpc_broker.Base.{length, take, drop, length-append, take-append, drop-append}
use rpc_broker.Base.{pos, negsuc}
use rpc_broker.Example.Codec.{codec}

read_scalar_lem :
    (x : Scalar) (rest : List ℕ)
    → read_scalar (pack_scalar codec x ++ rest) ≡ some (scalar_value x, rest)
unfolding read_scalar
read_scalar_lem (int (pos n)) rest = refl
read_scalar_lem (int (negsuc n)) rest = refl
read_scalar_lem (text t) rest = rw (take-append t rest, drop-append t rest)

read_scalars_lem :
    (xs : List Scalar) (rest : List ℕ)
    → read_scalars (length xs) (pack_scalars codec xs ++ rest) ≡ some (values xs, rest)
unfolding read_scalars
read_scalars_lem [] rest = refl
read_scalars_lem (x ∷ xs) rest =
    rw (append_assoc, read_scalar_lem x, read_scalars, read_scalars_lem xs rest)

read_content_lem :
    (c : Content) (rest : List ℕ)
    → read_content (pack_content codec c ++ rest) ≡ some (content_value c, rest)
unfolding read_content read_scalar
read_content_lem (one (int (pos n))) rest = refl
read_content_lem (one (int (negsuc n))) rest = refl
read_content_lem (one (text t)) rest = rw (take-append t rest, drop-append t rest)
read_content_lem (many xs) rest = rw (read_scalars_lem xs rest)

read_header_lem :
    (h : Header) (rest : List ℕ)
    → read_header (pack_header codec h ++ rest) ≡ some (header_value h, rest)
unfolding read_header
read_header_lem h rest =
    rw (append_assoc, read_scalar_lem (text h.name), read_content_lem h.content rest)

take_all : (xs : List ℕ) → take (length xs) xs ≡ xs
take_all [] = refl
take_all (x ∷ xs) = ap (◌∷◌ x) (take_all xs)

drop_all : (xs : List ℕ) → drop (length xs) xs ≡ []
drop_all [] = refl
drop_all (x ∷ xs) = drop_all xs

unpacks :
    (before after : List ℕ) (h : Header)
    → unpack_from (length (before ++ (pack_header codec h ++ after))) (pack_header codec h ++ after)
      ≡ success (header_value h) (length before + length (pack_header codec h))
unpacks before after h = rw read_header_lem (
    ground (
      arith,
      length-append before (pack_header codec h ++ after),
      length-append (pack_header codec h) after,
    ))

length-drop-take : (n off : ℕ) (xs : List ℕ) → length (drop off (take n xs)) ≤ n - off
length-drop-take zero zero xs = omega arith
length-drop-take zero (suc off) xs = omega arith
length-drop-take (suc n) zero [] = omega arith
length-drop-take (suc n) zero (x ∷ xs) = omega (arith, length-drop-take n 0 xs)
length-drop-take (suc n) (suc off) [] = omega arith
length-drop-take (suc n) (suc off) (x ∷ xs) = omega (arith, length-drop-take n off xs)

advance :
    (len off off' : ℕ) (bs : List ℕ) (v : Value)
    → length bs ≤ len - off
    → unpack_from len bs ≡ success v off'
    → (off < off') × (off' ≤ len)
advance len off off' [] v h e = cc
advance len off off' (b ∷ bs) v h e = ground arith

at_end :
    (bs : List ℕ)
    → unpack_from (length bs) (drop (length bs) (take (length bs) bs)) ≡ stopped continue
at_end bs = rw (take_all bs) (rw (drop_all bs))

pub codec-IsCodec : IsCodec codec
codec-IsCodec = record {
  advances = λ p off off' v.
      advance p.len off off' (drop off (take p.len p.buffer)) v
        (length-drop-take p.len off p.buffer);
  unpack-pack = λ before after h f.
      rw
        (
          take_all (before ++ (pack_header codec h ++ after)),
          drop-append before (pack_header codec h ++ after),
        )
        (unpacks before after h);
  unpack-end = λ bs. at_end bs;
}
