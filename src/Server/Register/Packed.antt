-- ===== src/Server/Register/Packed.antt =====
-- The registration that a server packs is the one that the protocol describes.
use rpc_broker.Common.Pack.Laws.{pack_map_int_lem, pack_map_str_lem}
use rpc_broker.Common.Protocol.{services_hdr}
use rpc_broker.Broker.Unpack.Packed.{registration_headers}
use mathlib.Core.List.{append-nil, reverse-cons, map-append, append_assoc}
use rpc_broker.Msgpack.{pack_text, pack_scalars, text, pack_headers}
use rpc_broker.Env.{Env, IsLawful}
use rpc_broker.Server.Register.{
  count_services, pack_service_at, to, null, pack_services, registration_sbuf, service_name_text,
  services_hdr,
}
use rpc_broker.Stulibc.{Ptr, to, null}
use rpc_broker.Base.{
  ℕ, suc, ◌+◌, ◌<◌, ◌≡◌, refl, ap, ◌∙◌, List, [], ◌∷◌, ◌++◌, reverse, arith, map, get_elem?-append,
}
use rpc_broker.Base.{length, length-map, length-reverse}
use rpc_broker.Base.{Text}
use rpc_broker.Outcome.{done}

-- The array of the names: pointers to them, and NULL.
abbrev pub name_array : List Text → List Ptr
name_array names = map to names ++ null ∷ []

count_services_lem :
    (names : List Text) (i : ℕ) → count_services (name_array names) i ≡ done (i + length names)
unfolding count_services
count_services_lem [] i = ground arith
count_services_lem (name ∷ names) i = rw (count_services_lem names (i + 1)) (ap done (omega arith))

-- Strings that are not empty.
abbrev pub NoneEmpty : List Text → Type 0
NoneEmpty [] = Unit
NoneEmpty (t ∷ ts) = (0 < length t) × NoneEmpty ts

length-services_hdr : length services_hdr ≡ 8
unfolding services_hdr
length-services_hdr = refl

map-reverse_step :
    (y : Text) (ys : List Text) (rest : List Ptr)
    → map to (reverse (y ∷ ys)) ++ rest ≡ map to (reverse ys) ++ to y ∷ rest
map-reverse_step y ys rest =
    rw (reverse-cons y ys, map-append to (reverse ys) (y ∷ []), append_assoc)

length-map-reverse :
    (y : Text) (ys : List Text) → length (map to (reverse (y ∷ ys))) ≡ suc (length ys)
length-map-reverse y ys = length-map to (reverse (y ∷ ys)) ∙ length-reverse (y ∷ ys)

module _ (e : Env) (law : IsLawful e) where
  open e use {msgpack as m, stulibc as l}

  pack_service_at-name :
      (pre post : List Ptr) (t : Text) (sbuf : List ℕ)
      → 0 < length t
      → pack_service_at e (pre ++ to t ∷ post) (length pre) sbuf ≡ done (sbuf ++ pack_text m t)
  pack_service_at-name pre post t sbuf h =
      rw (get_elem?-append pre (to t) post, pack_service_at, law.lists.str_is_null_or_empty_lem t)
        (ground arith)

  pack_services_lem :
      (z : Text) (zs : List Text) (ps rest : List Ptr) (sbuf : List ℕ)
      → NoneEmpty (z ∷ zs)
      → ps ≡ map to (reverse zs) ++ to z ∷ rest
      → pack_services e ps (length zs) sbuf ≡ done (sbuf ++ pack_scalars m (map text (z ∷ zs)))
  unfolding pack_services
  pack_services_lem z [] ps rest sbuf h q =
      rw (q, pack_service_at-name [] rest z sbuf h.0, append-nil)
  pack_services_lem z (y ∷ ys) ps rest sbuf h q = rw (here) (
      pack_services_lem y ys ps (to z ∷ rest) (sbuf ++ pack_text m z) h.1
        (q ∙ map-reverse_step y ys (to z ∷ rest))
      ∙ ap done (append_assoc sbuf (pack_text m z) (pack_scalars m (map text (y ∷ ys)))))
    where
      here : pack_service_at e ps (suc (length ys)) sbuf ≡ done (sbuf ++ pack_text m z)
      here =
          rw (q, ← length-map-reverse y ys)
            (pack_service_at-name (map to (reverse (y ∷ ys))) rest z sbuf h.0)

  pack_service_at-null :
      (pre : List Ptr) (sbuf : List ℕ)
      → pack_service_at e (pre ++ null ∷ []) (length pre) sbuf ≡ done sbuf
  pack_service_at-null pre sbuf =
      rw (get_elem?-append pre null [], pack_service_at, law.lists.str_is_null_or_empty-null)

  -- From the NULL at the end of the array the loop goes down to its first name.
  pack_array_lem :
      (zs : List Text) (sbuf : List ℕ)
      → NoneEmpty zs
      → pack_services e (name_array (reverse zs)) (length zs) sbuf
        ≡ done (sbuf ++ pack_scalars m (map text zs))
  unfolding pack_services
  pack_array_lem [] sbuf h = rw (law.lists.str_is_null_or_empty-null, append-nil)
  pack_array_lem (z ∷ zs) sbuf h = rw (past_end) (
      pack_services_lem z zs (name_array (reverse (z ∷ zs))) (null ∷ []) sbuf h
        (map-reverse_step z zs (null ∷ [])))
    where
      past_end :
          pack_service_at e (name_array (reverse (z ∷ zs))) (suc (length zs)) sbuf ≡ done sbuf
      past_end =
          rw (← length-map-reverse z zs) (pack_service_at-null (map to (reverse (z ∷ zs))) sbuf)

  -- Given names that are not empty, the server packs the headers of a registration, with its
  -- services in reverse order, and as many
  -- as the count says.
  pub registration_sbuf_lem :
      (address port : Text) (zs : List Text)
      → NoneEmpty zs
      → registration_sbuf e address port (name_array (reverse zs))
        ≡ done (pack_headers m (registration_headers address port service_name_text zs))
  unfolding registration_sbuf
  registration_sbuf_lem address port zs h =
      rw (count_services_lem (reverse zs) 0, total, pack_array_lem zs _ h)
        (ap done (
          simp (
            pack_map_int_lem, pack_map_str_lem, length-services_hdr, length-map, append_assoc,
            append-nil,
          )))
    where
      total : 0 + length (reverse zs) ≡ length zs
      total = omega (arith, length-reverse zs)
