-- ===== src/Broker/Main/Overread.antt =====
-- broker/broker.c: main with a port that fills its array, which get_address_setting copies without a
-- NUL, and the call of netTcpServer that reads on behind it.
use rpc_broker.Base.{
  ℕ, zero, suc, ◌≤◌, ◌≡◌, refl, ap, ◌∙◌, inl, inr, Bool, true, Option, some, List, [], ◌∷◌, arith,
}
use rpc_broker.Base.{ltb, Bool-cases}
use rpc_broker.Base.{length, take}
use rpc_broker.Base.{Text, until_nul, NoNul}
use rpc_broker.Env.{Env}
use rpc_broker.Broker.Main.{from_file, Starting, BrokerFile, broker_main, listen_and_serve}
use rpc_broker.Broker.Settings.{BrokerSettings, read_broker_settings_lem, is_true_string}
use rpc_broker.Broker.Loop.{wait_for_connections}
use rpc_broker.Common.Protocol.{max_port_chars}
use rpc_broker.Common.Settings.{c_string}
use rpc_broker.Common.Waiting.{Waiting, Wakeup}
use rpc_broker.Outcome.{Outcome, done, fault, ◌>>=◌}

length-take : (t : Text) (n : ℕ) → n ≤ length t → length (take n t) ≡ n
length-take t zero h = refl
length-take [] (suc n) h = absurd (omega arith)
length-take (b ∷ t) (suc n) h = ap suc (length-take t n (omega arith))

-- An array that its text fills has no NUL.
c_string-full : (bytes : List ℕ) → length bytes ≤ length (until_nul bytes) → c_string bytes ≡ fault
unfolding c_string
c_string-full bytes full = ground arith

c_string-then_fault :
    {B : Type 0} (bytes : List ℕ) (f : Text → Outcome B)
    → ((t : Text) → f t ≡ fault)
    → (c_string bytes >>= f) ≡ fault
unfolding c_string
c_string-then_fault bytes f h = elim (Bool-cases (ltb (length (until_nul bytes)) (length bytes))) [
  | inl t ↦ rw t (h (until_nul bytes))
  | inr n ↦ rw n refl
]

module _ (e : Env) (w : Waiting) (st : Starting) where
  overread :
      (us : List Wakeup) (lock : w.Lock) (s : BrokerSettings)
      → c_string s.details.port ≡ fault
      → (listen_and_serve e w st us lock s).0 ≡ fault
  unfolding wait_for_connections
  overread us lock s full =
      rw
        (c_string-then_fault s.details.address
          (λ address. c_string s.details.port >>= λ port. st.net_tcp_server address port)
          (λ address. rw full refl))
        refl

  -- A broker that is started without arguments, with a file whose port has no NULs and fills its
  -- array, be the address as it may, and with a database that opens, reads past the array before it
  -- listens.
  pub broker_main-overread :
      (verbose wait : Option Text) (port address : Text) (v i : Bool) (argc : ℕ) (us : List Wakeup)
      (lock : w.Lock)
      → argc ≤ 1
      → is_true_string st.equals_ignore_case verbose ≡ done v
      → is_true_string st.equals_ignore_case wait ≡ done i
      → NoNul port
      → NoNul address
      → max_port_chars ≤ length port
      → (broker_main e w st
          (record {
            is_open = true;
            has_file = true;
            parsed = some (record {
              verbose = verbose;
              wait = wait;
              port = some port;
              address = some address;
            });
            argc = argc;
          })
          us
          lock).0
        ≡ fault
  unfolding broker_main
  broker_main-overread verbose wait port address v i argc us lock few vt it pn an long =
      let (s, read, p, a, lp, la, v', i') =
        read_broker_settings_lem st.equals_ignore_case verbose wait port address v i vt it pn an in
      let file : BrokerFile = record {
        verbose = verbose;
        wait = wait;
        port = some port;
        address = some address;
      } in
      rw (from_file e w st file argc few ∙ read) (
        overread us lock s (
          c_string-full s.details.port
            (omega (arith, lp, ap length p, length-take port max_port_chars long))))
