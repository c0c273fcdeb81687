-- ===== src/Client/Settings.antt =====
-- client/client.c: the settings
use rpc_broker.Base.{ℕ, ◌≡◌, refl, inl, inr, Bool, true, false, ◌||◌, Option, some, List}
use rpc_broker.Base.{if◌then◌else◌, Bool-cases}
use rpc_broker.Base.{replicate}
use rpc_broker.Base.{Text, codes, text_eq, until_nul}
use rpc_broker.Outcome.{Outcome, done, ◌>>=◌}
use rpc_broker.Common.Settings.{copy_setting, IsSetting, fresh_setting}
use rpc_broker.Common.Protocol.{max_port_chars, max_address_chars}
use rpc_broker.Stulibc.{Stulibc, IsStulibc}

pub record ClientSettings : Type 0 where
  pub broker_address : List ℕ
  pub broker_port : List ℕ
  pub wait_response_port : List ℕ
  pub wait_response_indef : Bool
  pub client_address : List ℕ
  pub verbose : Bool

abbrev pub no_client_settings : ClientSettings
no_client_settings = record {
  broker_address = replicate max_address_chars 0;
  broker_port = replicate max_port_chars 0;
  wait_response_port = replicate max_port_chars 0;
  wait_response_indef = false;
  client_address = replicate max_address_chars 0;
  verbose = false;
}

module _ (l : Stulibc) (equals_ignore_case : Option Text → Text → Outcome Bool)
    (check_string : Option Text → Outcome (Unit {0})) where
  unfoldable pub set_wait_response_port : Option Text → ClientSettings → Outcome ClientSettings
  set_wait_response_port arg s = copy_setting check_string s.wait_response_port arg >>= λ bytes.
      done (record s { wait_response_port = bytes })

  unfoldable pub set_broker_port_number : Option Text → ClientSettings → Outcome ClientSettings
  set_broker_port_number arg s = copy_setting check_string s.broker_port arg >>= λ bytes.
      done (record s { broker_port = bytes })

  unfoldable pub set_client_broker_address : Option Text → ClientSettings → Outcome ClientSettings
  set_client_broker_address arg s = copy_setting check_string s.broker_address arg >>= λ bytes.
      done (record s { broker_address = bytes })

  unfoldable pub set_client_address : Option Text → ClientSettings → Outcome ClientSettings
  set_client_address arg s = copy_setting check_string s.client_address arg >>= λ bytes.
      done (record s { client_address = bytes })

  -- The argument is not looked at.
  unfoldable pub set_wait_response_indef : Option Text → ClientSettings → Outcome ClientSettings
  set_wait_response_indef arg s = done (record s { wait_response_indef = true })

  unfoldable pub set_verbose : Option Text → ClientSettings → Outcome ClientSettings
  set_verbose arg s = equals_ignore_case arg (codes "true") >>= λ is_true.
      (if is_true then done true else l.str_equals arg (some (codes "1"))) >>= λ verbose.
      done (record s { verbose = verbose })

  -- The settings of the file, as `setupCmd` reads them.
  unfoldable pub read_client_settings :
      (port indef verbose address broker_address broker_port : Option Text)
      → ClientSettings
      → Outcome ClientSettings
  read_client_settings port indef verbose address broker_address broker_port s =
      set_wait_response_port port s
      >>= set_wait_response_indef indef
      >>= set_verbose verbose
      >>= set_client_address address
      >>= set_client_broker_address broker_address
      >>= set_broker_port_number broker_port

-- With settings that fit their arrays the client goes on with these texts in them, waits
-- indefinitely whatever the file says, and is verbose as the comparison with true, or with 1, says.
pub read_client_settings_lem :
    (l : Stulibc) (equals_ignore_case : Option Text → Text → Outcome Bool)
    (check_string : Option Text → Outcome (Unit {0})) (indef : Option Text)
    (port verbose address broker_address broker_port : Text) (b : Bool)
    → IsStulibc l
    → equals_ignore_case (some verbose) (codes "true") ≡ done b
    → IsSetting check_string max_port_chars port
    → IsSetting check_string max_address_chars address
    → IsSetting check_string max_address_chars broker_address
    → IsSetting check_string max_port_chars broker_port
    → (s : ClientSettings) × (read_client_settings l equals_ignore_case check_string
          (some port)
          indef
          (some verbose)
          (some address)
          (some broker_address)
          (some broker_port)
          no_client_settings
        ≡ done s)
      × (until_nul s.wait_response_port ≡ port)
      × (until_nul s.client_address ≡ address)
      × (until_nul s.broker_address ≡ broker_address)
      × (until_nul s.broker_port ≡ broker_port)
      × (s.wait_response_indef ≡ true)
      × (s.verbose ≡ b || text_eq verbose (codes "1"))
unfolding read_client_settings set_wait_response_indef set_verbose set_wait_response_port
    set_client_address set_client_broker_address set_broker_port_number
read_client_settings_lem l equals_ignore_case check_string indef port verbose address broker_address
      broker_port b sl eq p a ba bp =
    let (p', pe, pu) = fresh_setting check_string max_port_chars port p in
    let (a', ae, au) = fresh_setting check_string max_address_chars address a in
    let (ba', bae, bau) = fresh_setting check_string max_address_chars broker_address ba in
    let (bp', bpe, bpu) = fresh_setting check_string max_port_chars broker_port bp in
    (
      record {
        broker_address = ba';
        broker_port = bp';
        wait_response_port = p';
        wait_response_indef = true;
        client_address = a';
        verbose = b || text_eq verbose (codes "1");
      },
      rw (pe, eq, sl.str_equals_lem verbose (codes "1"))
          (elim (Bool-cases b) [
            | inl t ↦ rw (t, ae, bae, bpe) refl
            | inr f ↦ rw (f, ae, bae, bpe) refl
          ]),
      pu,
      au,
      bau,
      bpu,
      refl,
      refl,
    )
