-- ===== src/System/Lists.antt =====
-- What holds of every element, and packets that are told by what was sent for them.
use mathlib.Core.List.{append-nil}
use rpc_broker.Common.Wire.Delivery.{frame}
use rpc_broker.Stulibc.{Sent, Inserts}
use rpc_broker.Msgpack.{Packet}
use rpc_broker.System.{Among, frames_to}
use rpc_broker.Base.{◌≡◌, refl, sym, ap, ◌∙◌, subst, some, List, [], ◌∷◌, ◌++◌, pos_part}
use rpc_broker.Base.{Text}
use rpc_broker.Base.{pos}

abbrev pub AllOf {ℓ} : {A : Type ℓ} → (A → Type 0) → List A → Type 0
AllOf P [] = Unit
AllOf P (x ∷ xs) = P x × AllOf P xs

module _ {ℓ} {A : Type ℓ} where
  pub AllOf-at :
      (P : A → Type 0) (before after : List A) (x : A)
      → AllOf P (before ++ x ∷ after)
      → P x × AllOf P (before ++ after)
  AllOf-at P [] after x h = h
  AllOf-at P (y ∷ before) after x (h, hs) =
      let (p, ps) = AllOf-at P before after x hs in (p, (h, ps))

  pub AllOf-put :
      (P : A → Type 0) (before after : List A) (x : A)
      → P x
      → AllOf P (before ++ after)
      → AllOf P (before ++ x ∷ after)
  AllOf-put P [] after x p h = (p, h)
  AllOf-put P (y ∷ before) after x p (h, hs) = (h, AllOf-put P before after x p hs)

  pub AllOf-append :
      (P : A → Type 0) (xs ys : List A) → AllOf P xs → AllOf P ys → AllOf P (xs ++ ys)
  AllOf-append P [] ys h k = k
  AllOf-append P (x ∷ xs) ys (h, hs) k = (h, AllOf-append P xs ys hs k)

  pub AllOf-map : (P Q : A → Type 0) (xs : List A) → ((x : A) → P x → Q x) → AllOf P xs → AllOf Q xs
  AllOf-map P Q [] f h = tt
  AllOf-map P Q (x ∷ xs) f (h, hs) = (f x h, AllOf-map P Q xs f hs)

  pub AllOf-Among : (P : A → Type 0) (xs : List A) (x : A) → Among x xs → AllOf P xs → P x
  AllOf-Among P xs x (before, after, e) h =
      (AllOf-at P before after x (subst (λ ys. AllOf P ys) e h)).0

  pub Among-cons : (x y : A) (xs : List A) → Among x xs → Among x (y ∷ xs)
  Among-cons x y xs (before, after, e) = (y ∷ before, after, ap (◌∷◌ y) e)

  pub append_left_cancel : (xs ys zs : List A) → xs ++ ys ≡ xs ++ zs → ys ≡ zs
  append_left_cancel [] ys zs h = h
  append_left_cancel (x ∷ xs) ys zs h = append_left_cancel xs ys zs cc

frames_to-nil : (address port : Text) (ps : List Packet) → frames_to address port ps ≡ [] → ps ≡ []
frames_to-nil address port [] h = refl
frames_to-nil address port (p ∷ ps) h = absurd cc

-- The second `send` of a packet.
abbrev body_sent : Text → Text → Packet → Sent
body_sent address port p = record {
  address = some address;
  port = some port;
  bytes = p.buffer;
  result = pos p.len;
}

Packet-ext : (p q : Packet) → p.len ≡ q.len → p.buffer ≡ q.buffer → p ≡ q
Packet-ext p q l b =
    ap (λ n. record { len = n; buffer = p.buffer }) l
    ∙ ap (λ bs. record { len = q.len; buffer = bs }) b

body_sent-inj :
    (address port : Text) (p q : Packet)
    → body_sent address port p ≡ body_sent address port q
    → p ≡ q
body_sent-inj address port p q h =
    Packet-ext p q (ap (λ (s : Sent). pos_part s.result) h) (ap (λ (s : Sent). s.bytes) h)

-- Only one packet is sent by the frame of one packet.
pub frames_to-frame :
    (address port : Text) (ps : List Packet) (p : Packet)
    → frames_to address port ps ≡ frame address port p
    → ps ≡ p ∷ []
frames_to-frame address port [] p h = absurd cc
frames_to-frame address port (q ∷ ps) p h =
    let nothing_more : frames_to address port ps ≡ [] = cc in
    let same : body_sent address port q ≡ body_sent address port p = cc in
    rw (body_sent-inj address port q p same, frames_to-nil address port ps nothing_more) refl

pub frames_to-silent :
    (address port : Text) (ps : List Packet) (sent : List Sent)
    → sent ≡ sent ++ frames_to address port ps
    → ps ≡ []
frames_to-silent address port ps sent h =
    frames_to-nil address port ps
      (sym (append_left_cancel sent [] (frames_to address port ps) (append-nil sent ∙ h)))

module _ {ℓ} {A : Type ℓ} where
  pub AllOf-Inserts :
      (P : A → Type 0) (x : A) (xs ys : List A) → Inserts x xs ys → P x → AllOf P xs → AllOf P ys
  AllOf-Inserts P x xs ys (before, after, split, joined) p h =
      subst (λ zs. AllOf P zs) (sym joined)
        (AllOf-put P before after x p (subst (λ zs. AllOf P zs) split h))

  pub AllOf-taken :
      (P : A → Type 0) (x : A) (xs ys : List A) → Inserts x xs ys → AllOf P ys → P x × AllOf P xs
  AllOf-taken P x xs ys (before, after, split, joined) h =
      let (p, ps) = AllOf-at P before after x (subst (λ zs. AllOf P zs) joined h) in
      (p, subst (λ zs. AllOf P zs) (sym split) ps)
