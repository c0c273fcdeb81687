-- ===== src/Broker/Main.antt =====
-- broker/broker.c: main, from the configuration file to the accept loop.
pub mod Overread
use rpc_broker.Common.Settings.{c_string, c_string-room, take-short}
use rpc_broker.Base.{
  ℕ, ◌≤◌, ◌≡◌, sym, ap, ◌∙◌, subst, Bool, true, false, not, ◌&&◌, Option, none, some, List, [],
  arith, length, String, ◌<◌,
}
use rpc_broker.Base.{ltb, if◌then◌else◌}
use rpc_broker.Base.{take}
use rpc_broker.Base.{Text, until_nul, NoNul}
use rpc_broker.Env.{Env}
use rpc_broker.Broker.State.{Broker}
use rpc_broker.Broker.Settings.{
  BrokerSettings, no_broker_settings, read_broker_settings, read_broker_settings_lem,
  is_true_string,
}
use rpc_broker.Broker.Loop.{Looping, wait_for_connections}
use rpc_broker.Broker.Loop.Serving.{read_all, arrivals, AllWell, Served, wait_for_connections_lem}
use rpc_broker.Common.Protocol.{max_port_chars, max_address_chars}
use rpc_broker.Common.Waiting.{Waiting, IsWaiting, Wakeup}
use rpc_broker.Outcome.{Outcome, done, exited, ◌>>◌, ◌>>=◌}
use rpc_broker.Action.{lift, resume}

-- What INI_GetSetting gives for the settings that the broker asks for.
pub record BrokerFile : Type 0 where
  pub verbose : Option Text
  pub wait : Option Text
  pub port : Option Text
  pub address : Option Text

-- What the broker finds when it starts: whether its database opens and its file exists, what
-- INI_IniParse makes of it, and `argc`.
pub record BrokerStart : Type 0 where
  pub is_open : Bool
  pub has_file : Bool
  pub parsed : Option BrokerFile
  pub argc : ℕ

-- The libraries' part: STR_EqualsIgnoreCase, ERR_Print and netTcpServer.
pub record Starting : Type 0 where
  pub equals_ignore_case : Option Text → Text → Outcome Bool
  pub err_print : Outcome (Unit {0})
  pub net_tcp_server : Text → Text → Outcome (Unit {0})

module _ (st : Starting) where
  abbrev pub from_broker_file : Option BrokerFile → Outcome BrokerSettings
  from_broker_file none = st.err_print >> done no_broker_settings
  from_broker_file (some f) =
      read_broker_settings st.equals_ignore_case f.verbose f.wait f.port f.address
        no_broker_settings

  -- Arguments are no longer parsed: with some, the broker goes on without settings.
  unfoldable pub broker_settings : BrokerStart → Outcome BrokerSettings
  broker_settings start =
      if start.has_file && not (ltb 1 start.argc)
      then from_broker_file start.parsed
      else if ltb 1 start.argc
      then done no_broker_settings
      else exited 0

-- A broker that knows nobody.
abbrev pub fresh_broker : Bool → Bool → Broker
fresh_broker verbose wait_indef = record {
  verbose = verbose;
  wait_indef = wait_indef;
  svc_repo = [];
  clnt_req_repo = [];
  executed = [];
  sent = [];
}

module _ (e : Env) (w : Waiting) (st : Starting) where
  abbrev pub listen_and_serve :
      List Wakeup → w.Lock → BrokerSettings → Outcome (Unit {0}) × Looping w.Lock
  listen_and_serve us lock s =
      wait_for_connections e w
        (c_string s.details.address >>= λ address.
          c_string s.details.port >>= λ port. st.net_tcp_server address port)
        us lock (fresh_broker s.verbose s.wait_indef)

  -- A `return` of main is an exit.
  unfoldable pub broker_main :
      BrokerStart → List Wakeup → w.Lock → Outcome (Unit {0}) × Looping w.Lock
  broker_main start us lock =
      (if start.is_open
          then resume (broker_settings st start) (λ s x. listen_and_serve us lock s)
          else lift (exited 1))
        (record { broker = fresh_broker false false; lock = lock; timeout = 60 })

  served_with :
      (us : List Wakeup) (lock : w.Lock) (s : BrokerSettings) (v i : Bool) (port address : Text)
      → c_string s.details.port ≡ done port
      → c_string s.details.address ≡ done address
      → s.verbose ≡ v
      → s.wait_indef ≡ i
      → st.net_tcp_server address port ≡ done tt
      → listen_and_serve us lock s ≡ wait_for_connections e w (done tt) us lock (fresh_broker v i)
  served_with us lock s v i port address p a v' i' listens =
      rw (p, a, v', i', listens)
        (λ _. wait_for_connections e w (done tt) us lock (fresh_broker v i))

  -- Without arguments the file is read.
  pub from_file :
      (f : BrokerFile) (argc : ℕ)
      → argc ≤ 1
      → broker_settings st
          (record { is_open = true; has_file = true; parsed = some f; argc = argc })
        ≡ read_broker_settings st.equals_ignore_case f.verbose f.wait f.port f.address
            no_broker_settings
  unfolding broker_settings
  from_file f argc few = ground arith

  -- A broker that is started without arguments, with a file that has its settings, of which the
  -- port and the address have no NULs and leave room for one in their arrays, and with a database
  -- that opens, listens at the address and the port of the file, and, if it can listen there, when
  -- the lock is free, no wait fails and every ready socket is accepted, does what the handler does
  -- on the connections in their order, from empty repositories.
  pub broker_main_lem :
      (law : IsWaiting w) (verbose wait : Option Text) (port address : Text) (v i : Bool) (argc : ℕ)
      (us : List Wakeup) (lock : w.Lock)
      → argc ≤ 1
      → is_true_string st.equals_ignore_case verbose ≡ done v
      → is_true_string st.equals_ignore_case wait ≡ done i
      → NoNul port
      → NoNul address
      → length port < max_port_chars
      → length address < max_address_chars
      → st.net_tcp_server address port ≡ done tt
      → law.Free lock
      → AllWell w us
      → Served e w law (read_all e (arrivals us) (fresh_broker v i)) (
          broker_main
            (record {
              is_open = true;
              has_file = true;
              parsed = some (record {
                verbose = verbose;
                wait = wait;
                port = some port;
                address = some address;
              });
              argc = argc;
            })
            us
            lock)
  unfolding broker_main
  broker_main_lem law verbose wait port address v i argc us lock few vt it pn an short short'
        listens free well =
      let (s, read, p, a, lp, la, v', i') =
        read_broker_settings_lem st.equals_ignore_case verbose wait port address v i vt it pn an in
      let file : BrokerFile = record {
        verbose = verbose;
        wait = wait;
        port = some port;
        address = some address;
      } in
      let chosen = from_file file argc few ∙ read in
      let port_read =
        c_string-room s.details.port port
          (p ∙ take-short port max_port_chars (omega (arith, short))) (omega (arith, lp, short)) in
      let address_read =
        c_string-room s.details.address address
          (a ∙ take-short address max_address_chars (omega (arith, short')))
          (omega (arith, la, short')) in
      rw chosen (
        subst (Served e w law (read_all e (arrivals us) (fresh_broker v i)))
          (sym (served_with us lock s v i port address port_read address_read v' i' listens))
          (wait_for_connections_lem e w law us lock (fresh_broker v i) free well))
