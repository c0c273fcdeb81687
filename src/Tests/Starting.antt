-- ===== src/Tests/Starting.antt =====
-- Programs that start with their configuration files.
use rpc_broker.Base.{◌≡◌, refl, true, false, none, some, [], ◌∷◌, arith, until_nul}
use rpc_broker.Base.{Text, codes, text_eq}
use rpc_broker.Example.Codec.{codec}
use rpc_broker.Example.Libraries.{env, stulibc, env-IsLawful, net-IsUp}
use rpc_broker.Msgpack.{Packet}
use rpc_broker.Broker.Find.Server.{reg_of}
use rpc_broker.Broker.Loop.Serving.{read_all, Served}
use rpc_broker.Broker.Main.{Starting, BrokerStart, fresh_broker, broker_main, broker_main_lem}
use rpc_broker.Broker.Settings.{is_true_string}
use rpc_broker.Broker.Main.Overread.{broker_main-overread}
use rpc_broker.Broker.Unpack.{unpack_service_registration_buffer}
use rpc_broker.Broker.Unpack.Packed.{registered}
use rpc_broker.Client.Start.{ClientStart, setup_cmd, setup_cmd_lem}
use rpc_broker.Client.Settings.{ClientSettings}
use rpc_broker.Example.Libraries.{stulibc-IsStulibc}
use rpc_broker.Server.Main.{offered, start_server, start_server_lem}
use rpc_broker.Server.Start.{ServerStart}
use rpc_broker.Server.Settings.{ServerSettings}
use rpc_broker.Server.Register.{service_name_text}
use rpc_broker.Common.Protocol.{
  request_type_hdr, sender_address_hdr, reply_port_hdr, service_name_hdr, services_count_hdr,
  services_hdr,
}
use rpc_broker.Common.Receive.Frames.{framed}
use rpc_broker.Common.Wire.Delivery.{frame}
use rpc_broker.Tests.Configuring.{check_string, ignoring}
use rpc_broker.Tests.Data.{request}
use rpc_broker.Tests.Looping.{one_lock, one_lock_waits, elsewhere, asking}
use rpc_broker.Outcome.{Outcome, done, exited, fault}

abbrev listens : Text → Text → Outcome (Unit {0})
listens address port = done tt

abbrev starting : Starting
starting = record { equals_ignore_case = ignoring; err_print = exited 1; net_tcp_server = listens }

abbrev broker_start : BrokerStart
broker_start = record {
  is_open = true;
  has_file = true;
  parsed = some (record {
    verbose = some (codes "1");
    wait = some (codes "0");
    port = some (codes "9090");
    address = some (codes "10.0.0.1");
  });
  argc = 1;
}

broker_main_example :
    Served env one_lock one_lock_waits
      (read_all env (framed request [] ∷ []) (fresh_broker true false))
      (broker_main env one_lock starting broker_start (elsewhere ∷ asking ∷ []) false)
unfolding is_true_string text_eq
broker_main_example =
    broker_main_lem env one_lock starting one_lock_waits (some (codes "1")) (some (codes "0"))
      (codes "9090") (codes "10.0.0.1") true false 1 (elsewhere ∷ asking ∷ []) false (omega arith)
      refl refl (omega arith) (omega arith) (omega arith) (omega arith) refl refl
      (((λ t. refl), λ i. i), (((λ t. refl), λ i. i), tt))

abbrev server_start : ServerStart
server_start = record {
  has_file = true;
  parsed = some (record {
    wait = none;
    verbose = some (codes "1");
    port = some (codes "8181");
    address = some (codes "10.0.0.9");
    broker_address = some (codes "10.0.0.1");
    broker_port = some (codes "9090");
  });
  argc = 1;
  found = none;
}

start_server_example :
    (s : ServerSettings) × (packet : Packet) × (start_server env check_string
        (exited 1)
        listens
        server_start
        []
      ≡ (done s, frame (codes "10.0.0.1") (codes "9090") packet))
    × (unpack_service_registration_buffer stulibc codec packet
        ≡ done (reg_of (registered (codes "10.0.0.9") (codes "8181") service_name_text offered)))
    × (s.wait_indef ≡ true)
unfolding service_name_text request_type_hdr sender_address_hdr reply_port_hdr service_name_hdr
    services_count_hdr services_hdr
start_server_example =
    start_server_lem env env-IsLawful net-IsUp check_string (exited 1) listens none (codes "1")
      (codes "8181") (codes "10.0.0.9") (codes "10.0.0.1") (codes "9090") 1 [] (omega arith)
      (refl, omega arith, omega arith) (refl, omega arith, omega arith)
      (refl, omega arith, omega arith) (refl, omega arith, omega arith) (omega arith) refl

abbrev client_start : ClientStart
client_start = record {
  has_file = true;
  parsed = some (record {
    port = some (codes "9091");
    indef = some (codes "false");
    verbose = some (codes "1");
    address = some (codes "10.0.0.5");
    broker_address = some (codes "10.0.0.1");
    broker_port = some (codes "9090");
  });
  argc = 1;
  found = none;
}

setup_cmd_example :
    (s : ClientSettings) × (setup_cmd stulibc ignoring check_string (exited 1) client_start
      ≡ done s)
    × (until_nul s.wait_response_port ≡ codes "9091")
    × (until_nul s.client_address ≡ codes "10.0.0.5")
    × (until_nul s.broker_address ≡ codes "10.0.0.1")
    × (until_nul s.broker_port ≡ codes "9090")
    × (s.wait_response_indef ≡ true)
    × (s.verbose ≡ true)
unfolding text_eq
setup_cmd_example =
    setup_cmd_lem stulibc ignoring check_string (exited 1) (some (codes "false")) (codes "9091")
      (codes "1") (codes "10.0.0.5") (codes "10.0.0.1") (codes "9090") false 1 stulibc-IsStulibc
      (omega arith) refl (refl, omega arith, omega arith) (refl, omega arith, omega arith)
      (refl, omega arith, omega arith) (refl, omega arith, omega arith)

-- A port of 20 digits.
abbrev long_port : Text
long_port = codes "12345678901234567890"

broker_main-overread_example :
    (broker_main env one_lock starting
      (record {
        is_open = true;
        has_file = true;
        parsed = some (record {
          verbose = some (codes "1");
          wait = some (codes "0");
          port = some long_port;
          address = some (codes "10.0.0.1");
        });
        argc = 1;
      })
      (elsewhere ∷ asking ∷ [])
      false).0
    ≡ fault
unfolding is_true_string text_eq
broker_main-overread_example =
    broker_main-overread env one_lock starting (some (codes "1")) (some (codes "0")) long_port
      (codes "10.0.0.1") true false 1 (elsewhere ∷ asking ∷ []) false (omega arith) refl refl
      (omega arith) (omega arith) (omega arith)
