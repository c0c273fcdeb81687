-- ===== src/Server/Start.antt =====
-- server/server.c: the settings that main goes on with.
use rpc_broker.Server.Arguments.{server_arguments}
use rpc_broker.Common.Arguments.{Found, handle_all}
use rpc_broker.Base.{ℕ, ◌<◌, ◌≡◌, Bool, true, ◌&&◌, Option, none, some, arith}
use rpc_broker.Base.{ltb, if◌then◌else◌}
use rpc_broker.Base.{Text}
use rpc_broker.Server.Settings.{ServerSettings, no_server_settings, read_server_settings}
use rpc_broker.Stulibc.{Stulibc}
use rpc_broker.Outcome.{Outcome, done, exited, ◌>>◌}

-- What INI_GetSetting gives for the settings that the server asks for.
pub record ServerFile : Type 0 where
  pub wait : Option Text
  pub verbose : Option Text
  pub port : Option Text
  pub address : Option Text
  pub broker_address : Option Text
  pub broker_port : Option Text

-- What the server finds when it starts: whether its file exists, what INI_IniParse makes of it,
-- `argc`, and the options that CMD_Parse finds, `none` when it fails.
pub record ServerStart : Type 0 where
  pub has_file : Bool
  pub parsed : Option ServerFile
  pub argc : ℕ
  pub found : Option Found

-- `err_print` stands for ERR_Print.
module _ (l : Stulibc) (check_string : Option Text → Outcome (Unit {0}))
    (err_print : Outcome (Unit {0})) where
  abbrev pub from_server_file : Option ServerFile → Outcome ServerSettings
  from_server_file none = err_print >> done no_server_settings
  from_server_file (some f) =
      read_server_settings l check_string f.wait f.verbose f.port f.address f.broker_address
        f.broker_port no_server_settings

  -- A failure is a `return 1` of main.
  abbrev pub from_arguments : Option Found → Outcome ServerSettings
  from_arguments none = exited 1
  from_arguments (some found) =
      handle_all (server_arguments l check_string) found no_server_settings

  unfoldable pub server_settings : ServerStart → Outcome ServerSettings
  server_settings start =
      if start.has_file && ltb start.argc 2
      then from_server_file start.parsed
      else if ltb 1 start.argc
      then from_arguments start.found
      else exited 0

  -- Without arguments the file is read.
  pub server_settings-file :
      (f : ServerFile) (argc : ℕ)
      → argc < 2
      → server_settings (record { has_file = true; parsed = some f; argc = argc; found = none })
        ≡ read_server_settings l check_string f.wait f.verbose f.port f.address f.broker_address
            f.broker_port no_server_settings
  unfolding server_settings
  server_settings-file f argc few = ground arith
