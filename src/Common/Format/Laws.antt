-- ===== src/Common/Format/Laws.antt =====
-- A format that is made of conversions for the arguments packs each of them.
use mathlib.Core.List.{append-nil, append_assoc}
use rpc_broker.Outcome.{done}
use rpc_broker.Common.Format.{count_args, pack_format, int, Msgpack, text, done}
use rpc_broker.Msgpack.{Scalar, Msgpack, pack_scalars, pack_text}
use rpc_broker.Base.{ℕ, ◌≡◌, refl, ap, ◌∙◌, List, [], ◌∷◌, ◌++◌, arith}
use rpc_broker.Base.{length}
use rpc_broker.Base.{Text}

-- The format that the proxies use for these arguments.
abbrev pub format_of : List Scalar → Text
format_of [] = []
format_of (int i ∷ args) = b'%' ∷ b'd' ∷ format_of args
format_of (text t ∷ args) = b'%' ∷ b's' ∷ format_of args

pub count_args-format_of : (args : List Scalar) → count_args (format_of args) ≡ length args
unfolding count_args
count_args-format_of [] = refl
count_args-format_of (int i ∷ args) = omega (arith, count_args-format_of args)
count_args-format_of (text t ∷ args) = omega (arith, count_args-format_of args)

pub pack_format-format_of :
    (m : Msgpack) (args : List Scalar) (sbuf : List ℕ)
    → pack_format m (format_of args) args sbuf ≡ done (sbuf ++ pack_scalars m args)
unfolding pack_format
pack_format-format_of m [] sbuf = rw append-nil
pack_format-format_of m (int i ∷ args) sbuf =
    pack_format-format_of m args (sbuf ++ m.pack_int i)
    ∙ ap done (append_assoc sbuf (m.pack_int i) (pack_scalars m args))
pack_format-format_of m (text t ∷ args) sbuf =
    pack_format-format_of m args (sbuf ++ pack_text m t)
    ∙ ap done (append_assoc sbuf (pack_text m t) (pack_scalars m args))
