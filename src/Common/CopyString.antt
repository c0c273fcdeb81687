-- ===== src/Common/CopyString.antt =====
-- common/common.c: copyString, with the bytes that it writes.
use rpc_broker.Base.{
  ℕ, zero, suc, ◌+◌, ◌≤◌, ◌<◌, ◌≡◌, refl, sym, ap, ◌∙◌, inl, inr, List, [], ◌∷◌, ◌++◌, arith,
  set-append,
}
use rpc_broker.Base.{ltb, leb, ◌==◌, if◌then◌else◌, ==_iff, Bool-cases}
use rpc_broker.Base.{
  length, set, take, drop, replicate, length-append, length-replicate, drop-append,
}
use rpc_broker.Base.{Text, until_nul, NoNul, NoNul-until_nul, length-until_nul}
use rpc_broker.Common.Settings.{strncpy, length-drop}
use rpc_broker.Outcome.{Outcome, done, fault, ◌>>=◌}

-- A write outside the block is a fault.
abbrev pub store : List ℕ → ℕ → ℕ → Outcome (List ℕ)
store block i b = if ltb i (length block) then done (set block i b) else fault

abbrev pub memset : List ℕ → ℕ → ℕ → Outcome (List ℕ)
memset block b n = if leb n (length block) then done (replicate n b ++ drop n block) else fault

-- `from` holds the `str_len` bytes of the msgpack string, and `block` those at `to`.
unfoldable pub copy_string : ℕ → List ℕ → List ℕ → Outcome (List ℕ)
unfolding strncpy
copy_string str_len from block = memset block 0 str_len >>= λ zeroed.
    store zeroed str_len 0 >>= λ ended. strncpy ended (until_nul from) str_len

-- A block in two parts, around one byte.
split_at :
    (n : ℕ) (block : List ℕ)
    → n < length block
    → (pre : List ℕ) × (x : ℕ) × (post : List ℕ) × (block ≡ pre ++ x ∷ post) × (length pre ≡ n)
split_at n [] h = absurd (omega arith)
split_at zero (x ∷ block) h = ([], x, block, refl, refl)
split_at (suc n) (y ∷ block) h =
    let (pre, x, post, e, l) = split_at n block (omega arith) in
    (y ∷ pre, x, post, ap (◌∷◌ y) e, ap suc l)

until_nul-ended :
    (t post : List ℕ) (n k : ℕ)
    → NoNul t
    → length t ≤ n
    → until_nul (take n (t ++ replicate k 0) ++ 0 ∷ post) ≡ t
until_nul-ended [] post zero k h l = refl
until_nul-ended [] post (suc n) zero h l = refl
until_nul-ended [] post (suc n) (suc k) h l = refl
until_nul-ended (b ∷ t) post zero k h l = absurd (omega arith)
until_nul-ended (b ∷ t) post (suc n) k h l =
    ground (arith, until_nul-ended t post n k h.1 (omega arith))

length-take_append :
    (t : Text) (n k : ℕ) → n ≤ k + length t → length (take n (t ++ replicate k 0)) ≡ n
length-take_append t zero k h = refl
length-take_append [] (suc n) zero h = absurd (omega arith)
length-take_append [] (suc n) (suc k) h = ap suc (length-take_append [] n k (omega arith))
length-take_append (b ∷ t) (suc n) k h = ap suc (length-take_append t n k (omega arith))

-- The bytes that are there after the copy.
abbrev copied : List ℕ → List ℕ → List ℕ
copied from post = take (length from) (until_nul from ++ replicate (length from) 0) ++ 0 ∷ post

length-padded :
    (from : List ℕ)
    → length (take (length from) (until_nul from ++ replicate (length from) 0)) ≡ length from
length-padded from = length-take_append (until_nul from) (length from) (length from) (omega arith)

drop-suc-append :
    (pre : List ℕ) (x : ℕ) (post : List ℕ) → drop (suc (length pre)) (pre ++ x ∷ post) ≡ post
drop-suc-append [] x post = refl
drop-suc-append (y ∷ pre) x post = drop-suc-append pre x post

memset-split :
    (pre : List ℕ) (x : ℕ) (post : List ℕ) (n : ℕ)
    → length pre ≡ n
    → memset (pre ++ x ∷ post) 0 n ≡ done (replicate n 0 ++ x ∷ post)
memset-split pre x post n l =
    rw (← l, drop-append pre (x ∷ post)) (ground (arith, length-append pre (x ∷ post)))

store-split :
    (x : ℕ) (post : List ℕ) (n : ℕ)
    → store (replicate n 0 ++ x ∷ post) n 0 ≡ done (replicate n 0 ++ 0 ∷ post)
store-split x post n =
    let written = set-append (replicate n 0) x 0 post in
    let at_end = rw (length-replicate {A = ℕ} n 0) at written in
    rw at_end
      (ground (arith, length-append (replicate n 0) (x ∷ post), length-replicate {A = ℕ} n 0))

strncpy-split :
    (t post : List ℕ) (n : ℕ)
    → strncpy (replicate n 0 ++ 0 ∷ post) t n ≡ done (take n (t ++ replicate n 0) ++ 0 ∷ post)
unfolding strncpy
strncpy-split t post n =
    let kept = drop-append (replicate n 0) (0 ∷ post) in
    let behind = rw (length-replicate {A = ℕ} n 0) at kept in
    rw behind
      (ground (arith, length-append (replicate n 0) (0 ∷ post), length-replicate {A = ℕ} n 0))

copy_string-split :
    (from pre : List ℕ) (x : ℕ) (post : List ℕ)
    → length pre ≡ length from
    → copy_string (length from) from (pre ++ x ∷ post) ≡ done (copied from post)
unfolding copy_string
copy_string-split from pre x post l =
    rw
      (
        memset-split pre x post (length from) l,
        store-split x post (length from),
        strncpy-split (until_nul from) post (length from),
      )
      refl

length-copied :
    (from pre : List ℕ) (x : ℕ) (post : List ℕ)
    → length pre ≡ length from
    → length (copied from post) ≡ length (pre ++ x ∷ post)
length-copied from pre x post l = omega (
  arith,
  length-append (take (length from) (until_nul from ++ replicate (length from) 0)) (0 ∷ post),
  length-padded from,
  length-append pre (x ∷ post),
  l,
)

drop-copied :
    (from pre : List ℕ) (x : ℕ) (post : List ℕ)
    → length pre ≡ length from
    → drop (suc (length from)) (copied from post) ≡ drop (suc (length from)) (pre ++ x ∷ post)
drop-copied from pre x post l =
    let padded = take (length from) (until_nul from ++ replicate (length from) 0) in
    ap (λ n. drop (suc n) (copied from post)) (sym (length-padded from))
    ∙ drop-suc-append padded 0 post
    ∙ sym (drop-suc-append pre x post)
    ∙ ap (λ n. drop (suc n) (pre ++ x ∷ post)) l

-- In a block with room for the string and a NUL, the string is there up to its first NUL, and what
-- stands behind the NUL is left alone.
pub copy_string_lem :
    (from block : List ℕ)
    → length from < length block
    → (after : List ℕ) × (copy_string (length from) from block ≡ done after)
      × (until_nul after ≡ until_nul from)
      × (length after ≡ length block)
      × (drop (suc (length from)) after ≡ drop (suc (length from)) block)
copy_string_lem from block room =
    let (pre, x, post, e, l) = split_at (length from) block room in
    (
      copied from post,
      ap (copy_string (length from) from) e ∙ copy_string-split from pre x post l,
      until_nul-ended (until_nul from) post (length from) (length from) (NoNul-until_nul from)
          (length-until_nul from),
      length-copied from pre x post l ∙ sym (ap length e),
      drop-copied from pre x post l ∙ sym (ap (drop (suc (length from))) e),
    )

store-full :
    (block : List ℕ)
    → store (replicate (length block) 0 ++ drop (length block) block) (length block) 0 ≡ fault
store-full block = ground (
  arith,
  length-append (replicate (length block) 0) (drop (length block) block),
  length-replicate {A = ℕ} (length block) 0,
  length-drop (length block) block (omega arith),
)

memset-full :
    (block : List ℕ)
    → memset block 0 (length block) ≡ done (replicate (length block) 0 ++ drop (length block) block)
memset-full block = ground arith

copy_string-exact :
    (from block : List ℕ) (n : ℕ) → length block ≡ n → copy_string n from block ≡ fault
unfolding copy_string
copy_string-exact from block n l = rw (← l) (
    ap
      (λ zeroed. zeroed >>= λ bytes.
        store bytes (length block) 0 >>= λ ended. strncpy ended (until_nul from) (length block))
      (memset-full block)
    ∙ ap (λ ended. ended >>= λ bytes. strncpy bytes (until_nul from) (length block))
        (store-full block))

-- In a smaller block a byte is written past its end, be it only the NUL.
pub copy_string-overflow :
    (from block : List ℕ)
    → length block ≤ length from
    → copy_string (length from) from block ≡ fault
unfolding copy_string
copy_string-overflow from block full = elim (Bool-cases (length block == length from)) [
  | inl e ↦ copy_string-exact from block (length from) ((==_iff (length block) (length from)).0 e)
  | inr e ↦ ground arith
]
