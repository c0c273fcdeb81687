-- ===== src/Common/ByteOrder.antt =====
-- htonl and ntohl, as the packets' length uses them.
use rpc_broker.Base.{
  ℕ, ◌+◌, ◌*◌, ◌/◌, ◌%◌, ◌<◌, ◌≡◌, refl, Option, none, some, List, [], ◌∷◌, arith,
}
use rpc_broker.Base.{length}

-- htonl, as the four bytes that are sent
unfoldable pub htonl : ℕ → List ℕ
htonl n = n / 16777216 % 256 ∷ n / 65536 % 256 ∷ n / 256 % 256 ∷ n % 256 ∷ []

abbrev pub uint32 : ℕ
uint32 = 4294967296

-- ntohl, of the four bytes that were read; `none` if some were not read
unfoldable pub ntohl : List ℕ → Option ℕ
ntohl (a ∷ b ∷ c ∷ d ∷ []) = some (((a * 256 + b) * 256 + c) * 256 + d)
ntohl _ = none

pub ntohl-htonl : (n : ℕ) → n < uint32 → ntohl (htonl n) ≡ some n
unfolding ntohl htonl
ntohl-htonl n h = ground arith

pub length-htonl : (n : ℕ) → length (htonl n) ≡ 4
unfolding htonl
length-htonl n = refl
