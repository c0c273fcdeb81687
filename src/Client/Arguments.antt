-- ===== src/Client/Arguments.antt =====
-- client/client.c: the arguments that setupCmd adds.
use rpc_broker.Client.Settings.{
  ClientSettings, set_broker_port_number, set_client_broker_address, set_verbose,
  set_wait_response_port, set_wait_response_indef, set_client_address,
}
use rpc_broker.Common.Arguments.{Argument}
use rpc_broker.Outcome.{Outcome}
use rpc_broker.Stulibc.{Stulibc}
use rpc_broker.Base.{Bool, true, false, Option, List, [], ◌∷◌}
use rpc_broker.Base.{Text}

module _ (l : Stulibc) (equals_ignore_case : Option Text → Text → Outcome Bool)
    (check_string : Option Text → Outcome (Unit {0})) where
  -- In the order of the calls of CMD_AddArgument.
  unfoldable pub client_arguments : List (Argument ClientSettings)
  client_arguments =
      record {
        option = "bp";
        usage = "bp <number>";
        description = "Set the broker port that the client will connect to";
        is_mandatory = true;
        takes_value = true;
        handler = set_broker_port_number l equals_ignore_case check_string;
      }
      ∷ record {
        option = "ba";
        usage = "ba <address>";
        description = "Set the broker address that the client will connect to";
        is_mandatory = true;
        takes_value = true;
        handler = set_client_broker_address l equals_ignore_case check_string;
      }
      ∷ record {
        option = "v";
        usage = "";
        description = "Prints all messages verbosly";
        is_mandatory = false;
        takes_value = false;
        handler = set_verbose l equals_ignore_case check_string;
      }
      ∷ record {
        option = "wp";
        usage = "";
        description = "The port that the broker can connect to deliver the response";
        is_mandatory = true;
        takes_value = true;
        handler = set_wait_response_port l equals_ignore_case check_string;
      }
      ∷ record {
        option = "w";
        usage = "";
        description = "Should we wait indefinitely for the reponse";
        is_mandatory = false;
        takes_value = false;
        handler = set_wait_response_indef l equals_ignore_case check_string;
      }
      ∷ record {
        option = "oa";
        usage = "oa <address>";
        description = "Set our address broker will contact us on";
        is_mandatory = true;
        takes_value = true;
        handler = set_client_address l equals_ignore_case check_string;
      }
      ∷ []
