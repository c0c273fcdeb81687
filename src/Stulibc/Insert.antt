-- ===== src/Stulibc/Insert.antt =====
-- An insertion into a list of images is one into the list itself.
use mathlib.Core.List.{map-append}
use rpc_broker.Stulibc.{Inserts}
use rpc_broker.Base.{◌≡◌, refl, sym, ap, List, [], ◌∷◌, ◌++◌, map}

module _ {A B : Type 0} (f : A → B) where
  split_map :
      (xs : List A) (before after : List B)
      → map f xs ≡ before ++ after
      → (u : List A) × (w : List A) × (xs ≡ u ++ w) × (before ≡ map f u) × (after ≡ map f w)
  split_map xs [] after e = ([], xs, refl, refl, sym e)
  split_map [] (b ∷ before) after e = cc
  split_map (x ∷ xs) (b ∷ before) after e =
      let (u, w, p, q, r) = split_map xs before after (cc) in (x ∷ u, w, ap (◌∷◌ x) p, cc (q, e), r)

  pub Inserts-map :
      (a : A) (xs : List A) (ys : List B)
      → Inserts (f a) (map f xs) ys
      → (zs : List A) × Inserts a xs zs × (ys ≡ map f zs)
  Inserts-map a xs ys (before, after, e, e') =
      let (u, w, p, q, r) = split_map xs before after e in
      (u ++ a ∷ w, (u, w, p, refl), rw (e', q, r, map-append f u (a ∷ w)))
