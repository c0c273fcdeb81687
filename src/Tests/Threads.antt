-- ===== src/Tests/Threads.antt =====
-- A server whose threads for a request and for the acknowledgement overlap, and blocks that a string is copied to.
use rpc_broker.Msgpack.{int}
use rpc_broker.Base.{ℕ, ◌≡◌, refl, Bool, true, false, List, [], ◌∷◌, arith}
use rpc_broker.Base.{length, drop}
use rpc_broker.Base.{codes, until_nul}
use rpc_broker.Base.{pos}
use rpc_broker.Example.Libraries.{env, env-IsLawful}
use rpc_broker.Server.Marshal.{Call}
use rpc_broker.Server.Process.{Process}
use rpc_broker.Server.Threads.{
  Thread, accepting, acting, serving, finished, Pool, begun, Reach, started, woken, advanced,
  main_round, wait_on_socket, advance,
}
use rpc_broker.Server.Threads.Alone.{reading_step, serving_step}
use rpc_broker.Server.Threads.Known.{Acked, Asked}
use rpc_broker.Server.Threads.Registered.{call_needs_ack}
use rpc_broker.Common.CopyString.{copy_string, copy_string_lem, copy_string-overflow}
use rpc_broker.Common.Protocol.{service_request, service_registration_ack}
use rpc_broker.Common.Waiting.{Wakeup}
use rpc_broker.Tests.Serving.{answers, add_call, framed, ack, ack-Arrives, request-Arrives}
use rpc_broker.Outcome.{done, fault}
use rpc_broker.Tests.Data.{request, request-Decodes}
use rpc_broker.Tests.Looping.{one_lock}

abbrev brings : List ℕ → Wakeup
brings incoming = record {
  select = λ t. (pos 1, 59);
  is_ready = true;
  is_valid = true;
  incoming = incoming;
}

-- An acknowledgement and a request, on threads of their own.
abbrev pool : Process → Thread → Thread → Pool
pool process of_ack of_request = record {
  process = process;
  threads = of_ack ∷ of_request ∷ [];
  timeout = 59;
}

abbrev process : Bool → List Call → Process
process is_registered calls = record { is_registered = is_registered; calls = calls }

abbrev ComesTo : Pool → Type 0
ComesTo = Reach env one_lock false answers begun (framed ack ∷ framed request ∷ [])

both_wait :
    ComesTo
      (pool (process false []) (accepting true (framed ack)) (accepting true (framed request)))
unfolding main_round wait_on_socket
both_wait = woken (woken started (brings (framed request)) refl) (brings (framed ack)) refl

ack_moves :
    {p p' : Process} {t t' other : Thread}
    → ComesTo (pool p t other)
    → advance env answers t p ≡ (done t', p')
    → ComesTo (pool p' t' other)
ack_moves {p} {p'} {t} {t'} {other} r h = advanced r [] t (other ∷ []) t' p' refl h

request_moves :
    {p p' : Process} {t t' other : Thread}
    → ComesTo (pool p other t)
    → advance env answers t p ≡ (done t', p')
    → ComesTo (pool p' other t')
request_moves {p} {p'} {t} {t'} {other} r h = advanced r (other ∷ []) t [] t' p' refl h

both_read :
    ComesTo (
      pool
        (process false [])
        (acting ack service_registration_ack)
        (acting request service_request))
unfolding advance
both_read =
    ack_moves
      (ack_moves
        (request_moves (request_moves both_wait refl) (
          reading_step env env-IsLawful answers (framed request) request service_request
            (process false []) request-Arrives))
        refl)
      (reading_step env env-IsLawful answers (framed ack) ack service_registration_ack
        (process false []) ack-Arrives)

-- The request was read before the acknowledgement was acted on, and is still served.
served : ComesTo (pool (process true (add_call ∷ [])) finished finished)
unfolding advance rpc_broker.Server.Marshal.int64
served = request_moves (request_moves (ack_moves both_read refl) refl) (
    serving_step env env-IsLawful answers request (codes "10.0.0.5") (codes "9091") 7 (codes "add")
      (int (pos 20) ∷ int (pos 199) ∷ []) (process true []) request-Decodes refl)

call_needs_ack_example :
    Acked env (framed ack ∷ framed request ∷ []) × Asked env (framed ack ∷ framed request ∷ [])
call_needs_ack_example =
    call_needs_ack env one_lock false answers (framed ack ∷ framed request ∷ [])
      (pool (process true (add_call ∷ [])) finished finished) served (λ h. cc)

-- "add" into a block of five bytes.
copy_string_lem_example :
    (after : List ℕ) × (copy_string 3 (codes "add") (7 ∷ 7 ∷ 7 ∷ 7 ∷ 9 ∷ []) ≡ done after)
    × (until_nul after ≡ codes "add")
    × (length after ≡ 5)
    × (drop 4 after ≡ 9 ∷ [])
copy_string_lem_example = copy_string_lem (codes "add") (7 ∷ 7 ∷ 7 ∷ 7 ∷ 9 ∷ []) (omega arith)

copy_string-overflow_example : copy_string 3 (codes "add") (7 ∷ 7 ∷ 7 ∷ []) ≡ fault
copy_string-overflow_example = copy_string-overflow (codes "add") (7 ∷ 7 ∷ 7 ∷ []) (omega arith)

-- A server that has made a call makes another one.
abbrev busy : Pool
busy = pool (process true (add_call ∷ [])) (serving request) finished

abbrev idle : Pool
idle = pool (process true (add_call ∷ add_call ∷ [])) finished finished

busy-idle : Reach env one_lock false answers busy [] idle
unfolding rpc_broker.Server.Marshal.int64
busy-idle =
    advanced started [] (serving request) (finished ∷ []) finished
      (process true (add_call ∷ add_call ∷ [])) refl
      (serving_step env env-IsLawful answers request (codes "10.0.0.5") (codes "9091") 7
        (codes "add") (int (pos 20) ∷ int (pos 199) ∷ []) (process true (add_call ∷ []))
        request-Decodes refl)
