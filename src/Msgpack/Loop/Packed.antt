-- ===== src/Msgpack/Loop/Packed.antt =====
-- What packing headers one after the other gives: a packet that decodes to these headers.
use rpc_broker.Base.{ℕ, ◌+◌, ◌≡◌, refl, sym, ◌∙◌, List, [], ◌∷◌, ◌++◌, arith}
use rpc_broker.Base.{length, length-append}
use mathlib.Core.List.{append_assoc, append-nil, map}
use rpc_broker.Msgpack.{
  Msgpack, continue, IsCodec, Header, header_value, pack_header, pack_headers, packet_of, AllFit,
}
use rpc_broker.Msgpack.Loop.{DecodesFrom, Decodes}

module _ (m : Msgpack) (c : IsCodec m) where
  decodes_from :
      (bs before : List ℕ) (off : ℕ) (hs : List Header)
      → bs ≡ before ++ pack_headers m hs
      → off ≡ length before
      → AllFit hs
      → DecodesFrom m (packet_of bs) off (map header_value hs) continue
  decodes_from bs before off [] e o f = rw (o, e) (rw (append-nil before) (c.unpack-end before))
  decodes_from bs before off (h ∷ hs) e o f = (
    off + length (pack_header m h),
    rw (o, e) (c.unpack-pack before (pack_headers m hs) h f.0),
    decodes_from bs (before ++ pack_header m h) (off + length (pack_header m h)) hs
        (e ∙ sym (append_assoc before (pack_header m h) (pack_headers m hs)))
        (omega (arith, o, length-append before (pack_header m h))) f.1,
  )

  -- The packed headers are read back, in their order, and then the packet is at its end.
  pub Decodes-pack_headers :
      (hs : List Header)
      → AllFit hs
      → Decodes m (packet_of (pack_headers m hs)) (map header_value hs) continue
  Decodes-pack_headers hs f = decodes_from (pack_headers m hs) [] 0 hs refl refl f
