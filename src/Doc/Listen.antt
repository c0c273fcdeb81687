-- ===== src/Doc/Listen.antt =====
-- doc/listen.c: a program that greets every connection and reads one line from it.
use mathlib.Core.List.{append-nil, append_assoc, map-append}
use rpc_broker.Common.Exchange.{is_not_positive}
use rpc_broker.Common.Receive.{check}
use rpc_broker.Common.Settings.{copy_setting, IsSetting, fresh_setting-c_string, c_string}
use rpc_broker.Common.Waiting.{Wakeup}
use rpc_broker.Common.Arguments.{Argument, Found, handle_all}
use rpc_broker.Outcome.{Outcome, fault, done}
use rpc_broker.Outcome.{exited}
use rpc_broker.Stulibc.{Sent, Net, Ptr, to, null, unset}
use rpc_broker.Action.{◌>>=◌, ◌>>◌, pure, lift, Action, modify}
use rpc_broker.Base.{
  ℕ, suc, ◌<◌, ◌≡◌, refl, sym, ◌∙◌, true, not, Option, none, some, List, [], ◌∷◌, ◌++◌, arith, map,
}
use rpc_broker.Base.{ltb, if◌then◌else◌, lt→ltb}
use rpc_broker.Base.{length, replicate}
use rpc_broker.Base.{Text, codes}
use rpc_broker.Base.{ℤ, pos, negsuc, int_eq}

-- What is printed for a connection: the line, or the result of a read that gave none.
pub data Heard : Type 0 where
  line_heard : Text → Heard
  bad_result : ℤ → Heard

pub record Listener : Type 0 where
  pub timeout : ℕ
  pub sent : List Sent
  pub heard : List Heard

-- The string and its NUL.
abbrev pub greeting : List ℕ
greeting = codes "I'm ready\n" ++ 0 ∷ []

-- `net_tcp_server` stands for netTcpServer; `net_read_line` for netReadLine with its size, and gives
-- the result and the string that is in the buffer then, `unset` if it holds none.
module _ (check_string : Option Text → Outcome (Unit {0})) (net : Net)
    (net_tcp_server : Text → Text → Outcome (Unit {0})) (net_read_line : List ℕ → ℕ → ℤ × Ptr) where
  -- The array `port` has 20 bytes.
  unfoldable pub listen_arguments : List (Argument (List ℕ))
  listen_arguments =
      record {
        option = "port";
        usage = "port <number>";
        description = "Set the port that the server will listen on";
        is_mandatory = true;
        takes_value = true;
        handler = λ arg port. copy_setting check_string port arg;
      }
      ∷ []

  -- The peer is whoever connected.
  abbrev pub greet : Action Listener (Unit {0})
  greet = modify λ s. record s {
    sent =
        s.sent
        ++ record {
          address = none;
          port = none;
          bytes = greeting;
          result = net.send (length s.sent) greeting;
        }
          ∷ [];
  }

  abbrev pub hear : Heard → Action Listener (Unit {0})
  hear h = modify λ s. record s { heard = s.heard ++ h ∷ [] }

  -- `PRINT("PRINT:%s\n", buf)`
  abbrev pub print_line : Ptr → Action Listener (Unit {0})
  print_line (to t) = hear (line_heard t)
  print_line null = lift fault
  print_line unset = lift fault

  abbrev pub listen_server : List ℕ → Action Listener (Unit {0})
  listen_server incoming = do
    greet
    let (rc, buf) = net_read_line incoming 256 in
        if is_not_positive rc then hear (bad_result rc) else print_line buf

  abbrev pub listen_select : Wakeup → Action Listener ℤ
  listen_select u s =
      (done (u.select (some s.timeout)).0, record s { timeout = (u.select (some s.timeout)).1 })

  abbrev pub listen_accept : Wakeup → Action Listener (Unit {0})
  listen_accept u = do lift (check net (not u.is_valid)); listen_server u.incoming

  unfoldable pub listen_round : Wakeup → Action Listener (Unit {0})
  listen_round u = do
    res ← listen_select u
    if int_eq res (pos 0)
        then lift net.net_error
        else if int_eq res (negsuc 0)
        then lift net.net_error
        else if u.is_ready
        then listen_accept u
        else pure tt

  -- The first rounds of the loop, which has no end.
  unfoldable pub listen_rounds : List Wakeup → Action Listener (Unit {0})
  listen_rounds [] = pure tt
  listen_rounds (u ∷ us) = listen_round u >> listen_rounds us

  abbrev pub parsed_port : Option Found → Outcome (List ℕ)
  parsed_port none = exited 1
  parsed_port (some found) = handle_all listen_arguments found (replicate 20 0)

  unfoldable pub listen_main : ℕ → Option Found → List Wakeup → Action Listener (Unit {0})
  listen_main argc found us = do
    port ← lift (if ltb 1 argc then parsed_port found else exited 0)
    given ← lift (c_string port)
    lift (net_tcp_server (codes "localhost") given)
    listen_rounds us

  -- A round that brings a line.
  abbrev pub Brings : Wakeup → Text → Type 0
  Brings u line =
      ((timeout : ℕ) → (k : ℕ) × ((u.select (some timeout)).0 ≡ pos (suc k)))
      × (u.is_ready ≡ true)
      × (u.is_valid ≡ true)
      × ((n : ℕ) × (net_read_line u.incoming 256 ≡ (pos (suc n), to line)))

  abbrev pub AllBring : List Wakeup → List Text → Type 0
  AllBring [] [] = Unit
  AllBring (u ∷ us) (t ∷ ts) = Brings u t × AllBring us ts
  AllBring [] (t ∷ ts) = ⊥
  AllBring (u ∷ us) [] = ⊥

  abbrev pub listened : Wakeup → Text → Listener → Listener
  listened u line s = record {
    timeout = (u.select (some s.timeout)).1;
    sent =
        s.sent
        ++ record {
          address = none;
          port = none;
          bytes = greeting;
          result = net.send (length s.sent) greeting;
        }
          ∷ [];
    heard = s.heard ++ line_heard line ∷ [];
  }

  listen_round_lem :
      (u : Wakeup) (line : Text) (s : Listener)
      → Brings u line
      → listen_round u s ≡ (done tt, listened u line s)
  unfolding listen_round
  listen_round_lem u line s (wakes, ready, valid, (n, reads)) =
      rw ((wakes s.timeout).1, ready, valid, reads) (ground arith)

  -- What the program has heard and sent, over rounds that bring lines.
  listen_rounds_lem :
      (us : List Wakeup) (lines : List Text) (s : Listener)
      → AllBring us lines
      → (s' : Listener) × (listen_rounds us s ≡ (done tt, s'))
        × (s'.heard ≡ s.heard ++ map line_heard lines)
        × (map (λ (r : Sent). r.bytes) s'.sent
            ≡ map (λ (r : Sent). r.bytes) s.sent ++ replicate (length lines) greeting)
  unfolding listen_rounds
  listen_rounds_lem [] [] s a = (s, refl, sym (append-nil s.heard), sym (append-nil _))
  listen_rounds_lem [] (t ∷ ts) s a = absurd a
  listen_rounds_lem (u ∷ us) [] s a = absurd a
  listen_rounds_lem (u ∷ us) (t ∷ ts) s (b, bs) =
      let (s', runs, hears, sends) = listen_rounds_lem us ts (listened u t s) bs in
      (
        s',
        rw (listen_round_lem u t s b) runs,
        hears ∙ append_assoc s.heard (line_heard t ∷ []) (map line_heard ts),
        sends ∙ rw (map-append, append_assoc) refl,
      )

  -- The program, given a port that fits its array, when it can listen on it and every round brings a
  -- line, hears the lines in their order, and greets each connection.
  pub listen_main_lem :
      (argc : ℕ) (port : Text) (us : List Wakeup) (lines : List Text) (s : Listener)
      → 1 < argc
      → IsSetting check_string 20 port
      → net_tcp_server (codes "localhost") port ≡ done tt
      → AllBring us lines
      → (s' : Listener) × (listen_main argc (some ((0, some port) ∷ [])) us s ≡ (done tt, s'))
        × (s'.heard ≡ s.heard ++ map line_heard lines)
        × (map (λ (r : Sent). r.bytes) s'.sent
            ≡ map (λ (r : Sent). r.bytes) s.sent ++ replicate (length lines) greeting)
  unfolding listen_main listen_arguments
  listen_main_lem argc port us lines s many setting listens brings =
      let (s', runs, hears, sends) = listen_rounds_lem us lines s brings in
      let (bytes, copied, same) = fresh_setting-c_string check_string 20 port setting in
      (s', rw (lt→ltb 1 argc many, copied, same, listens) runs, hears, sends)
