-- ===== src/Client/Main.antt =====
-- client/client.c: main, which calls the functions of the interface and prints their results.
use rpc_broker.Common.Settings.{c_string}
use rpc_broker.Client.Proxy.Calling.{client_proxy}
use rpc_broker.Client.Start.{setup_cmd, ClientStart}
use rpc_broker.Outcome.{Outcome, done, fault}
use rpc_broker.Client.Proxy.{Caller}
use rpc_broker.Env.{Env}
use rpc_broker.Client.Settings.{ClientSettings}
use rpc_broker.Common.Prototypes.{
  CType, ValueOf, Prototype, get_server_date_prototype, Args, echo_prototype, int_type,
  get_broker_name_prototype, char_ptr, add_prototype, say_hello_prototype, say_dog_prototype,
  diffirence_prototype,
}
use rpc_broker.Client.Exchange.{Waiting}
use rpc_broker.Action.{◌>>=◌, ◌>>◌, lift, Action, modify, pure}
use rpc_broker.Stulibc.{to, null, unset, Sent}
use rpc_broker.Base.{ℕ, String, Bool, Option, none, some, List, [], ◌∷◌, ◌++◌}
use rpc_broker.Base.{Text, codes}
use rpc_broker.Base.{ℤ, pos}

-- The argument of a PRINT; `none` is what `%s` prints for NULL.
pub data Shown : Type 0 where
  shown_int : ℤ → Shown
  shown_text : Option Text → Shown

-- A line on the terminal: the format, and its argument.
pub record Line : Type 0 where
  pub format : String
  pub argument : Shown

pub record Session : Type 0 where
  pub sent : List Sent
  pub lines : List Line

-- What the system gives to one call: the number from `rand()`, and what the wait meets.
pub record Turn : Type 0 where
  pub id : ℕ
  pub waiting : Waiting

abbrev pub argument_of : (t : CType) → ValueOf t → Outcome Shown
argument_of int_type i = done (shown_int i)
argument_of char_ptr (to t) = done (shown_text (some t))
argument_of char_ptr null = done (shown_text none)
argument_of char_ptr unset = fault

-- The C strings in the arrays of the settings.
abbrev pub caller_of : {S : Type 0} → ClientSettings → Action S Caller
caller_of s = do
  client_address ← lift (c_string s.client_address)
  wait_response_port ← lift (c_string s.wait_response_port)
  broker_address ← lift (c_string s.broker_address)
  broker_port ← lift (c_string s.broker_port)
  pure (record {
    client_address = client_address;
    wait_response_port = wait_response_port;
    broker_address = broker_address;
    broker_port = broker_port;
  })

module _ (e : Env) (c : Caller) where
  abbrev pub calling : {A : Type 0} → Action (List Sent) A → Action Session A
  calling act s = let (r, sent') = act s.sent in (r, record s { sent = sent' })

  -- `PRINT(format, p(args))`
  unfoldable pub print_call :
      String → (p : Prototype) → Args p.params → Turn → Action Session (Unit {0})
  print_call format p args turn = do
    v ← calling (client_proxy e c (pos turn.id) p args turn.waiting)
    argument ← lift (argument_of p.result v)
    modify λ s. record s { lines = s.lines ++ record { format = format; argument = argument } ∷ [] }

  -- The calls of main, in their order.
  unfoldable pub client_calls : (ℕ → Turn) → Action Session (Unit {0})
  client_calls turn = do
    print_call "Got server date reply as %s\n" get_server_date_prototype tt (turn 0)
    print_call "reverse echo = %s\n" echo_prototype (to (codes "Bruce Mathews"), tt) (turn 1)
    print_call "broker name = %s\n" get_broker_name_prototype tt (turn 2)
    print_call "sum = %d\n" add_prototype (pos 20, (pos 199, tt)) (turn 3)
    print_call "sayHello = %s\n" say_hello_prototype (pos 20, (to (codes "Stuart"), tt)) (turn 4)
    print_call "sayDog = %s\n" say_dog_prototype
        (
          to (codes "labrador_"),
          (to (codes "alsatian_"), (to (codes "bulldog_"), (to (codes "spaniel"), tt))),
        )
        (turn 5)
    print_call "diffirence(200,578) = %d\n" diffirence_prototype (pos 200, (pos 578, tt)) (turn 6)

module _ (e : Env) (equals_ignore_case : Option Text → Text → Outcome Bool)
    (check_string : Option Text → Outcome (Unit {0})) (err_print : Outcome (Unit {0})) where
  open e use {stulibc as l}

  unfoldable pub client_main : ClientStart → (ℕ → Turn) → Action Session (Unit {0})
  unfolding setup_cmd client_calls
  client_main start turn = do
    settings ← lift (setup_cmd l equals_ignore_case check_string err_print start)
    caller ← caller_of settings
    client_calls e caller turn
