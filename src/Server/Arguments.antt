-- ===== src/Server/Arguments.antt =====
-- server/server.c: the arguments of main.
use rpc_broker.Server.Settings.{
  ServerSettings, set_port_number, set_wait_indef, set_broker_address, set_broker_port,
  set_be_verbose, set_our_address,
}
use rpc_broker.Common.Arguments.{Argument}
use rpc_broker.Outcome.{Outcome}
use rpc_broker.Stulibc.{Stulibc}
use rpc_broker.Base.{true, false, Option, List, [], ◌∷◌}
use rpc_broker.Base.{Text}

module _ (l : Stulibc) (check_string : Option Text → Outcome (Unit {0})) where
  -- In the order of the calls of CMD_AddArgument.
  unfoldable pub server_arguments : List (Argument ServerSettings)
  server_arguments =
      record {
        option = "p";
        usage = "p <number>";
        description = "Set the port that the server will listen on";
        is_mandatory = true;
        takes_value = true;
        handler = set_port_number l check_string;
      }
      ∷ record {
        option = "w";
        usage = "";
        description = "wait indefinitely for connections";
        is_mandatory = false;
        takes_value = false;
        handler = set_wait_indef l check_string;
      }
      ∷ record {
        option = "ba";
        usage = "ba <address>";
        description = "Set the address of the broker";
        is_mandatory = true;
        takes_value = true;
        handler = set_broker_address l check_string;
      }
      ∷ record {
        option = "bp";
        usage = "bp <port>";
        description = "Set the port of the broker";
        is_mandatory = true;
        takes_value = true;
        handler = set_broker_port l check_string;
      }
      ∷ record {
        option = "v";
        usage = "";
        description = "be verbose wtih messages";
        is_mandatory = false;
        takes_value = false;
        handler = set_be_verbose l check_string;
      }
      ∷ record {
        option = "oa";
        usage = "oa <address>";
        description = "Set the address we listen on (broker uses to deliver responses)";
        is_mandatory = true;
        takes_value = true;
        handler = set_our_address l check_string;
      }
      ∷ []
