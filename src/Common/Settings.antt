-- ===== src/Common/Settings.antt =====
-- common/common.h: Details, and the copies of settings into arrays.
use rpc_broker.Common.Protocol.{max_port_chars, max_address_chars}
use rpc_broker.Base.{
  ℕ, zero, suc, ◌+◌, ◌≤◌, ◌<◌, ◌≡◌, refl, ap, ◌∙◌, Option, none, some, List, [], ◌∷◌, ◌++◌, arith,
  ltb,
}
use rpc_broker.Base.{leb, if◌then◌else◌}
use rpc_broker.Base.{length, take, drop, replicate, length-append, length-replicate, take-append}
use rpc_broker.Base.{Text, until_nul, NoNul}
use mathlib.Core.List.{append-nil}
use rpc_broker.Outcome.{Outcome, done, fault, ◌>>=◌}

-- Two arrays of bytes.
pub record Details : Type 0 where
  pub port : List ℕ
  pub address : List ℕ

abbrev pub no_details : Details
no_details = record { port = replicate max_port_chars 0; address = replicate max_address_chars 0 }

-- A C string is read up to its first NUL; an array without one is read past its end, a fault.
unfoldable pub c_string : List ℕ → Outcome Text
c_string bytes =
    if ltb (length (until_nul bytes)) (length bytes) then done (until_nul bytes) else fault

-- A text that leaves room for a NUL is read back.
pub c_string-room :
    (bytes : List ℕ) (t : Text)
    → until_nul bytes ≡ t
    → length t < length bytes
    → c_string bytes ≡ done t
unfolding c_string
c_string-room bytes t e room = ground (arith, e)

pub take-short : (t : Text) (n : ℕ) → length t ≤ n → take n t ≡ t
take-short [] zero h = refl
take-short [] (suc n) h = refl
take-short (b ∷ t) zero h = absurd (omega arith)
take-short (b ∷ t) (suc n) h = ap (λ w. b ∷ w) (take-short t n (omega arith))

-- The text with NULs after it, cut to `n` bytes; a write outside the array is a fault.
unfoldable pub strncpy : List ℕ → Text → ℕ → Outcome (List ℕ)
strncpy dest src n =
    if leb n (length dest) then done (take n (src ++ replicate n 0) ++ drop n dest) else fault

-- `check_string` stands for CHECK_STRING(arg, IS_NOT_EMPTY).
module _ (check_string : Option Text → Outcome (Unit {0})) where
  abbrev copy_given : List ℕ → Option Text → Outcome (List ℕ)
  copy_given dest none = fault
  copy_given dest (some t) = strncpy dest t (length t)

  unfoldable pub copy_setting : List ℕ → Option Text → Outcome (List ℕ)
  copy_setting dest arg = check_string arg >>= λ u. copy_given dest arg

take-padded : (t : Text) (n : ℕ) → take (length t) (t ++ replicate n 0) ≡ t
take-padded t n = take-append t (replicate n 0)

until_nul-append : (t rest : List ℕ) → NoNul t → until_nul (t ++ rest) ≡ t ++ until_nul rest
until_nul-append [] rest n = refl
until_nul-append (b ∷ t) rest n = ground (arith, until_nul-append t rest n.1)

pub length-drop : (n : ℕ) (xs : List ℕ) → n ≤ length xs → n + length (drop n xs) ≡ length xs
length-drop zero xs h = omega arith
length-drop (suc n) [] h = absurd (omega arith)
length-drop (suc n) (x ∷ xs) h = omega (arith, length-drop n xs (omega arith))

-- A setting that fits is copied over the start of the array, and what stood behind it stays: the
-- array then holds the text of the setting and, after it, what was there before.
pub copy_setting_lem :
    (check_string : Option Text → Outcome (Unit {0})) (dest : List ℕ) (t : Text)
    → check_string (some t) ≡ done tt
    → NoNul t
    → length t ≤ length dest
    → (bytes : List ℕ) × (copy_setting check_string dest (some t) ≡ done bytes)
      × (length bytes ≡ length dest)
      × (until_nul bytes ≡ t ++ until_nul (drop (length t) dest))
unfolding copy_setting strncpy
copy_setting_lem check_string dest t ok n fits = (
  t ++ drop (length t) dest,
  rw (ok, take-padded t (length t)) (ground arith),
  omega (arith, length-append t (drop (length t) dest), length-drop (length t) dest fits),
  until_nul-append t (drop (length t) dest) n,
)

-- A setting that is longer than the array is written past its end.
pub copy_setting-overflow :
    (check_string : Option Text → Outcome (Unit {0})) (dest : List ℕ) (t : Text)
    → check_string (some t) ≡ done tt
    → length dest < length t
    → copy_setting check_string dest (some t) ≡ fault
unfolding copy_setting strncpy
copy_setting-overflow check_string dest t ok long = rw ok (ground arith)

until_nul-zeros : (n k : ℕ) → until_nul (drop n (replicate k 0)) ≡ []
until_nul-zeros zero zero = refl
until_nul-zeros zero (suc k) = refl
until_nul-zeros (suc n) zero = refl
until_nul-zeros (suc n) (suc k) = until_nul-zeros n k

length-zeros : (k : ℕ) → length {A = ℕ} (replicate k 0) ≡ k
length-zeros k = length-replicate {A = ℕ} k 0

-- A text that the check accepts, and that leaves room for a NUL in an array of `k` bytes.
abbrev pub IsSetting : (Option Text → Outcome (Unit {0})) → ℕ → Text → Type 0
IsSetting check_string k t = (check_string (some t) ≡ done tt) × NoNul t × (length t < k)

-- In an array of zeros the text stands alone.
pub fresh_setting :
    (check_string : Option Text → Outcome (Unit {0})) (k : ℕ) (t : Text)
    → IsSetting check_string k t
    → (bytes : List ℕ) × (copy_setting check_string (replicate k 0) (some t) ≡ done bytes)
      × (until_nul bytes ≡ t)
fresh_setting check_string k t (ok, n, short) =
    let (bytes, e, _, u) =
      copy_setting_lem check_string (replicate k 0) t ok n (omega (arith, short, length-zeros k)) in
    (bytes, e, u ∙ ap (λ w. t ++ w) (until_nul-zeros (length t) k) ∙ append-nil t)

-- It is read back as a C string.
pub fresh_setting-c_string :
    (check_string : Option Text → Outcome (Unit {0})) (k : ℕ) (t : Text)
    → IsSetting check_string k t
    → (bytes : List ℕ) × (copy_setting check_string (replicate k 0) (some t) ≡ done bytes)
      × (c_string bytes ≡ done t)
fresh_setting-c_string check_string k t (ok, n, short) =
    let (bytes, e, same, u) =
      copy_setting_lem check_string (replicate k 0) t ok n (omega (arith, short, length-zeros k)) in
    (
      bytes,
      e,
      c_string-room bytes t (u ∙ ap (λ w. t ++ w) (until_nul-zeros (length t) k) ∙ append-nil t)
          (omega (arith, same, length-zeros k, short)),
    )
