-- ===== src/Tests/Examples.antt =====
-- The programs under doc/, and the start of a server with options.
use rpc_broker.Example.Codec.Laws.{codec-IsCodec}
use rpc_broker.Msgpack.{header_value, continue}
use rpc_broker.Tests.Data.{request, request_headers, request-Decodes}
use rpc_broker.Example.Codec.{codec}
use rpc_broker.Example.Libraries.{net}
use rpc_broker.Outcome.{Outcome, done}
use rpc_broker.Doc.Listen.{Listener, line_heard, listen_main, listen_main_lem, greeting}
use rpc_broker.Doc.BufferUnpack.{unpack, unpack_lem, numbered, all_consumed}
use rpc_broker.Common.Waiting.{Wakeup}
use rpc_broker.Stulibc.{Ptr, to, Sent}
use rpc_broker.Base.{map}
use rpc_broker.Base.{ℕ, suc, ◌≡◌, refl, true, Option, some, List, [], ◌∷◌, arith}
use rpc_broker.Base.{length}
use rpc_broker.Base.{Text, codes}
use rpc_broker.Base.{ℤ, pos}

abbrev accepts : Option Text → Outcome (Unit {0})
accepts arg = done tt

abbrev binds : Text → Text → Outcome (Unit {0})
binds address port = done tt

abbrev reads_all : List ℕ → ℕ → ℤ × Ptr
reads_all incoming size = (pos (suc (length incoming)), to incoming)

abbrev connected : Text → Wakeup
connected line = record {
  select = λ timeout. (pos 1, 60);
  is_ready = true;
  is_valid = true;
  incoming = line;
}

abbrev quiet : Listener
quiet = record { timeout = 60; sent = []; heard = [] }

listen_main_example :
    (s' : Listener) × (listen_main accepts net binds reads_all 3
        (some ((0, some (codes "9090")) ∷ []))
        (connected (codes "hello") ∷ connected (codes "bye") ∷ [])
        quiet
      ≡ (done tt, s'))
    × (s'.heard ≡ line_heard (codes "hello") ∷ line_heard (codes "bye") ∷ [])
    × (map (λ (r : Sent). r.bytes) s'.sent ≡ greeting ∷ greeting ∷ [])
listen_main_example =
    listen_main_lem accepts net binds reads_all 3 (codes "9090")
      (connected (codes "hello") ∷ connected (codes "bye") ∷ []) (codes "hello" ∷ codes "bye" ∷ [])
      quiet (omega arith) (refl, omega arith, omega arith) refl
      ((λ t. (0, refl), refl, refl, (5, refl)), ((λ t. (0, refl), refl, refl, (3, refl)), tt))

unpack_example :
    unpack codec request ≡ done (numbered 1 (map header_value request_headers), all_consumed)
unpack_example =
    unpack_lem codec request (map header_value request_headers) continue codec-IsCodec
      request-Decodes
