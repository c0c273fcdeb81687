-- ===== src/Server/Proxy/Passing.antt =====
-- Arguments on their way from a proxy of the client to the proxy of the server.
use rpc_broker.Server.Marshal.Requests.{received}
use rpc_broker.Common.Format.Laws.{format_of}
use rpc_broker.Msgpack.{Scalar, int, text}
use rpc_broker.Server.Proxy.{low_half, param_as, param_gets}
use rpc_broker.Server.Marshal.{int64}
use rpc_broker.Common.Prototypes.{
  CType, ValueOf, Args, passed, all_passed, conversions, int_type, char_ptr,
}
use rpc_broker.Outcome.{done, fault}
use rpc_broker.Stulibc.{to, null, unset}
use rpc_broker.Base.{ℕ, ◌<◌, ◌≡◌, refl, ap, List, [], ◌∷◌, arith, map}
use rpc_broker.Base.{NoNul, until_nul-NoNul}
use rpc_broker.Base.{pos, negsuc, int32}

-- The scalar that is packed for a value. For a pointer that points to nothing there is none; the empty text
-- takes its place.
abbrev pub scalar : (t : CType) → ValueOf t → Scalar
scalar int_type i = int i
scalar char_ptr (to t) = text t
scalar char_ptr null = text []
scalar char_ptr unset = text []

abbrev pub scalars : (ts : List CType) → Args ts → List Scalar
scalars [] args = []
scalars (t ∷ ts) (v, vs) = scalar t v ∷ scalars ts vs

-- A value that arrives as it was sent: an integer that is not negative, or a C string.
abbrev pub Passes : (t : CType) → ValueOf t → Type 0
Passes int_type (pos n) = n < 2147483648
Passes int_type (negsuc n) = ⊥
Passes char_ptr (to t) = NoNul t
Passes char_ptr null = ⊥
Passes char_ptr unset = ⊥

abbrev pub AllPass : (ts : List CType) → Args ts → Type 0
AllPass [] args = Unit
AllPass (t ∷ ts) (v, vs) = Passes t v × AllPass ts vs

pub conversions-scalars :
    (ts : List CType) (args : Args ts) → conversions ts ≡ format_of (scalars ts args)
conversions-scalars [] args = refl
conversions-scalars (int_type ∷ ts) (v, vs) = rw (conversions-scalars ts vs) refl
conversions-scalars (char_ptr ∷ ts) (to t, vs) = rw (conversions-scalars ts vs) refl
conversions-scalars (char_ptr ∷ ts) (null, vs) = rw (conversions-scalars ts vs) refl
conversions-scalars (char_ptr ∷ ts) (unset, vs) = rw (conversions-scalars ts vs) refl

low_half-int64 : (n : ℕ) → n < 2147483648 → low_half (int64 n) ≡ pos n
unfolding int64 int32
low_half-int64 n h = ground arith

passed-param_as :
    (t : CType) (v : ValueOf t)
    → Passes t v
    → (passed t v ≡ done (scalar t v)) × (param_as t (received (scalar t v)) ≡ done v)
passed-param_as int_type (pos n) h = (refl, ap done (low_half-int64 n h))
passed-param_as int_type (negsuc n) h = absurd h
passed-param_as char_ptr (to t) no_nul = (refl, ap (λ s. done (to s)) (until_nul-NoNul t no_nul))
passed-param_as char_ptr null h = absurd h
passed-param_as char_ptr unset h = absurd h

-- Arguments of the declared types, without a negative integer, a NULL or an unset pointer, are all
-- packed, and from what arrives of them the server reads the same arguments, of the same types.
pub arguments_pass :
    (ts : List CType) (args : Args ts)
    → AllPass ts args
    → (all_passed ts args ≡ done (scalars ts args))
      × (param_gets ts (map received (scalars ts args)) ≡ done args)
arguments_pass [] args h = (refl, refl)
arguments_pass (t ∷ ts) (v, vs) (h, hs) =
    let (p, r) = passed-param_as t v h in
    let (ps, rs) = arguments_pass ts vs hs in (rw (p, ps) refl, rw (r, rs) refl)

-- Values that can be packed, negative integers too.
abbrev pub Packs : (t : CType) → ValueOf t → Type 0
Packs int_type i = Unit
Packs char_ptr (to t) = Unit
Packs char_ptr null = ⊥
Packs char_ptr unset = ⊥

abbrev pub AllPack : (ts : List CType) → Args ts → Type 0
AllPack [] args = Unit
AllPack (t ∷ ts) (v, vs) = Packs t v × AllPack ts vs

abbrev pub HasNegative : (ts : List CType) → Args ts → Type 0
HasNegative [] args = ⊥
HasNegative (int_type ∷ ts) (negsuc n, vs) = Unit
HasNegative (int_type ∷ ts) (pos n, vs) = HasNegative ts vs
HasNegative (char_ptr ∷ ts) (v, vs) = HasNegative ts vs

pub all_passed-AllPack :
    (ts : List CType) (args : Args ts)
    → AllPack ts args
    → all_passed ts args ≡ done (scalars ts args)
all_passed-AllPack [] args h = refl
all_passed-AllPack (int_type ∷ ts) (v, vs) (h, hs) = rw (all_passed-AllPack ts vs hs) refl
all_passed-AllPack (char_ptr ∷ ts) (to t, vs) (h, hs) = rw (all_passed-AllPack ts vs hs) refl
all_passed-AllPack (char_ptr ∷ ts) (null, vs) (h, hs) = absurd h
all_passed-AllPack (char_ptr ∷ ts) (unset, vs) (h, hs) = absurd h

-- To read the NULL that a negative integer became is a fault.
pub param_gets-negative :
    (ts : List CType) (args : Args ts)
    → AllPack ts args
    → HasNegative ts args
    → param_gets ts (map received (scalars ts args)) ≡ fault
param_gets-negative [] args h n = absurd n
param_gets-negative (int_type ∷ ts) (negsuc i, vs) h n = refl
param_gets-negative (int_type ∷ ts) (pos i, vs) (h, hs) n = rw (param_gets-negative ts vs hs n) refl
param_gets-negative (char_ptr ∷ ts) (to t, vs) (h, hs) n = rw (param_gets-negative ts vs hs n) refl
param_gets-negative (char_ptr ∷ ts) (null, vs) (h, hs) n = absurd h
param_gets-negative (char_ptr ∷ ts) (unset, vs) (h, hs) n = absurd h
