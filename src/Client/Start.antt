-- ===== src/Client/Start.antt =====
-- client/client.c: setupCmd, the settings that the client goes on with.
use rpc_broker.Client.Arguments.{client_arguments}
use rpc_broker.Common.Arguments.{Found, handle_all}
use rpc_broker.Base.{ℕ, ◌<◌, ◌≡◌, ◌∙◌, Bool, true, not, ◌&&◌, ◌||◌, Option, none, some, arith}
use rpc_broker.Base.{ltb, if◌then◌else◌}
use rpc_broker.Base.{Text, codes, text_eq, until_nul}
use rpc_broker.Client.Settings.{
  ClientSettings, no_client_settings, read_client_settings, read_client_settings_lem,
}
use rpc_broker.Common.Settings.{IsSetting}
use rpc_broker.Common.Protocol.{max_port_chars, max_address_chars}
use rpc_broker.Stulibc.{Stulibc, IsStulibc}
use rpc_broker.Outcome.{Outcome, done, exited, ◌>>◌}

-- What INI_GetSetting gives for the settings that the client asks for.
pub record ClientFile : Type 0 where
  pub port : Option Text
  pub indef : Option Text
  pub verbose : Option Text
  pub address : Option Text
  pub broker_address : Option Text
  pub broker_port : Option Text

-- What the client finds when it starts: whether its file exists, what INI_IniParse makes of it,
-- `argc`, and the options that CMD_Parse finds, `none` when it fails.
pub record ClientStart : Type 0 where
  pub has_file : Bool
  pub parsed : Option ClientFile
  pub argc : ℕ
  pub found : Option Found

-- `equals_ignore_case` and `err_print` stand for STR_EqualsIgnoreCase and ERR_Print.
module _ (l : Stulibc) (equals_ignore_case : Option Text → Text → Outcome Bool)
    (check_string : Option Text → Outcome (Unit {0})) (err_print : Outcome (Unit {0})) where
  abbrev pub from_client_file : Option ClientFile → Outcome ClientSettings
  from_client_file none = err_print >> done no_client_settings
  from_client_file (some f) =
      read_client_settings l equals_ignore_case check_string f.port f.indef f.verbose f.address
        f.broker_address f.broker_port no_client_settings

  abbrev pub parsed_arguments : Option Found → Outcome ClientSettings
  parsed_arguments none = exited 1
  parsed_arguments (some found) =
      handle_all (client_arguments l equals_ignore_case check_string) found no_client_settings

  unfoldable pub setup_cmd : ClientStart → Outcome ClientSettings
  setup_cmd start =
      if start.has_file && not (ltb 1 start.argc)
      then from_client_file start.parsed
      else if ltb 1 start.argc
      then parsed_arguments start.found
      else exited 0

  -- Without arguments the file is read.
  setup_cmd-file :
      (f : ClientFile) (argc : ℕ)
      → argc < 2
      → setup_cmd (record { has_file = true; parsed = some f; argc = argc; found = none })
        ≡ from_client_file (some f)
  unfolding setup_cmd
  setup_cmd-file f argc few = ground arith

  -- A client that is started without arguments, with a file whose settings pass the check and leave
  -- room for a NUL in their arrays, goes on with these texts, waits indefinitely whatever the file
  -- says, and is verbose when the comparison with true, or with 1, holds.
  pub setup_cmd_lem :
      (indef : Option Text) (port verbose address broker_address broker_port : Text) (b : Bool)
      (argc : ℕ)
      → IsStulibc l
      → argc < 2
      → equals_ignore_case (some verbose) (codes "true") ≡ done b
      → IsSetting check_string max_port_chars port
      → IsSetting check_string max_address_chars address
      → IsSetting check_string max_address_chars broker_address
      → IsSetting check_string max_port_chars broker_port
      → (s : ClientSettings) × (setup_cmd (record {
        has_file = true;
        parsed = some (record {
          port = some port;
          indef = indef;
          verbose = some verbose;
          address = some address;
          broker_address = some broker_address;
          broker_port = some broker_port;
        });
        argc = argc;
        found = none;
      })
          ≡ done s)
        × (until_nul s.wait_response_port ≡ port)
        × (until_nul s.client_address ≡ address)
        × (until_nul s.broker_address ≡ broker_address)
        × (until_nul s.broker_port ≡ broker_port)
        × (s.wait_response_indef ≡ true)
        × (s.verbose ≡ b || text_eq verbose (codes "1"))
  setup_cmd_lem indef port verbose address broker_address broker_port b argc sl few eq p a ba bp =
      let file : ClientFile = record {
        port = some port;
        indef = indef;
        verbose = some verbose;
        address = some address;
        broker_address = some broker_address;
        broker_port = some broker_port;
      } in
      let (s, read, p', a', ba', bp', waits, verbosity) =
        read_client_settings_lem l equals_ignore_case check_string indef port verbose address
          broker_address broker_port b sl eq p a ba bp in
      (s, setup_cmd-file file argc few ∙ read, p', a', ba', bp', waits, verbosity)
