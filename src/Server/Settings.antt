-- ===== src/Server/Settings.antt =====
-- server/server.c: the settings
use rpc_broker.Base.{◌≡◌, refl, inl, inr, Bool, true, false, ◌||◌, Option, some}
use rpc_broker.Base.{if◌then◌else◌, Bool-cases}
use rpc_broker.Base.{Text, codes, text_eq}
use rpc_broker.Outcome.{Outcome, done, ◌>>=◌}
use rpc_broker.Common.Settings.{
  Details, no_details, copy_setting, IsSetting, fresh_setting-c_string, c_string,
}
use rpc_broker.Common.Protocol.{max_port_chars, max_address_chars}
use rpc_broker.Base.{text_eq, ◌||◌}
use rpc_broker.Base.{Bool-cases, inl, inr}
use rpc_broker.Stulibc.{Stulibc, IsStulibc}

-- `brokerDetails`, `serverDetails`, and the flags of `serverConfig`
pub record ServerSettings : Type 0 where
  pub broker : Details
  pub server : Details
  pub verbose : Bool
  pub wait_indef : Bool

abbrev pub no_server_settings : ServerSettings
no_server_settings = record {
  broker = no_details;
  server = no_details;
  verbose = false;
  wait_indef = false;
}

module _ (l : Stulibc) (check_string : Option Text → Outcome (Unit {0})) where
  unfoldable pub set_broker_port : Option Text → ServerSettings → Outcome ServerSettings
  set_broker_port arg s = copy_setting check_string s.broker.port arg >>= λ bytes.
      done (record s { broker = record { port = bytes; address = s.broker.address } })

  unfoldable pub set_port_number : Option Text → ServerSettings → Outcome ServerSettings
  set_port_number arg s = copy_setting check_string s.server.port arg >>= λ bytes.
      done (record s { server = record { port = bytes; address = s.server.address } })

  unfoldable pub set_broker_address : Option Text → ServerSettings → Outcome ServerSettings
  set_broker_address arg s = copy_setting check_string s.broker.address arg >>= λ bytes.
      done (record s { broker = record { port = s.broker.port; address = bytes } })

  unfoldable pub set_our_address : Option Text → ServerSettings → Outcome ServerSettings
  set_our_address arg s = copy_setting check_string s.server.address arg >>= λ bytes.
      done (record s { server = record { port = s.server.port; address = bytes } })

  -- The argument is not looked at.
  unfoldable pub set_wait_indef : Option Text → ServerSettings → Outcome ServerSettings
  set_wait_indef arg s = done (record s { wait_indef = true })

  unfoldable pub set_be_verbose : Option Text → ServerSettings → Outcome ServerSettings
  set_be_verbose arg s = l.str_equals arg (some (codes "true")) >>= λ is_true.
      (if is_true then done true else l.str_equals arg (some (codes "1"))) >>= λ verbose.
      done (record s { verbose = verbose })

  -- The settings of the file, as `main` reads them.
  unfoldable pub read_server_settings :
      (wait verbose port address broker_address broker_port : Option Text)
      → ServerSettings
      → Outcome ServerSettings
  read_server_settings wait verbose port address broker_address broker_port s =
      set_wait_indef wait s
      >>= set_be_verbose verbose
      >>= set_port_number port
      >>= set_our_address address
      >>= set_broker_address broker_address
      >>= set_broker_port broker_port

set_be_verbose_lem :
    (l : Stulibc) (check_string : Option Text → Outcome (Unit {0})) (v : Text) (s : ServerSettings)
    → IsStulibc l
    → set_be_verbose l check_string (some v) s
      ≡ done (record s { verbose = text_eq v (codes "true") || text_eq v (codes "1") })
unfolding set_be_verbose
set_be_verbose_lem l check_string v s sl =
    rw (sl.str_equals_lem v (codes "true"), sl.str_equals_lem v (codes "1"))
      (elim (Bool-cases (text_eq v (codes "true"))) [ inl b ↦ rw b refl | inr b ↦ rw b refl ])

-- With settings that fit their arrays the server goes on with these texts in them, waits
-- indefinitely whatever the file says, and is verbose when the file says true or 1.
pub read_server_settings_lem :
    (l : Stulibc) (check_string : Option Text → Outcome (Unit {0})) (wait : Option Text)
    (verbose port address broker_address broker_port : Text)
    → IsStulibc l
    → IsSetting check_string max_port_chars port
    → IsSetting check_string max_address_chars address
    → IsSetting check_string max_address_chars broker_address
    → IsSetting check_string max_port_chars broker_port
    → (s : ServerSettings) × (read_server_settings l check_string wait
          (some verbose)
          (some port)
          (some address)
          (some broker_address)
          (some broker_port)
          no_server_settings
        ≡ done s)
      × (c_string s.server.port ≡ done port)
      × (c_string s.server.address ≡ done address)
      × (c_string s.broker.address ≡ done broker_address)
      × (c_string s.broker.port ≡ done broker_port)
      × (s.wait_indef ≡ true)
      × (s.verbose ≡ text_eq verbose (codes "true") || text_eq verbose (codes "1"))
unfolding read_server_settings set_wait_indef set_port_number set_our_address set_broker_address
    set_broker_port
read_server_settings_lem l check_string wait verbose port address broker_address broker_port sl p a
      ba bp =
    let (p', pe, pu) = fresh_setting-c_string check_string max_port_chars port p in
    let (a', ae, au) = fresh_setting-c_string check_string max_address_chars address a in
    let (ba', bae, bau) = fresh_setting-c_string check_string max_address_chars broker_address ba in
    let (bp', bpe, bpu) = fresh_setting-c_string check_string max_port_chars broker_port bp in
    (
      record {
        broker = record { port = bp'; address = ba' };
        server = record { port = p'; address = a' };
        verbose = text_eq verbose (codes "true") || text_eq verbose (codes "1");
        wait_indef = true;
      },
      rw
          (
            set_be_verbose_lem l check_string verbose
                (record no_server_settings { wait_indef = true }) sl,
            pe,
            ae,
            bae,
            bpe,
          )
          refl,
      pu,
      au,
      bau,
      bpu,
      refl,
      refl,
    )
