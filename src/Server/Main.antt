-- ===== src/Server/Main.antt =====
-- server/server.c: main, from the configuration file to the registration and the listening socket.
use rpc_broker.Base.{
  ℕ, ◌<◌, ◌≡◌, refl, sym, ◌∙◌, subst, true, Option, none, some, List, [], ◌∷◌, ◌++◌, reverse, arith,
}
use rpc_broker.Base.{length}
use rpc_broker.Base.{Text, codes}
use rpc_broker.Env.{Env, IsLawful}
use rpc_broker.Msgpack.{Packet, AllFit, pack_headers}
use rpc_broker.Broker.Find.Server.{reg_of}
use rpc_broker.Broker.Unpack.{unpack_service_registration_buffer}
use rpc_broker.Broker.Unpack.Packed.{registration_headers, registered}
use rpc_broker.Server.Settings.{ServerSettings, read_server_settings_lem}
use rpc_broker.Server.Register.{services, service_name_text}
use rpc_broker.Server.Register.Packed.{name_array}
use rpc_broker.Server.Register.Sending.{
  service_register_with_broker, service_register_with_broker_lem,
}
use rpc_broker.Common.Settings.{IsSetting, c_string}
use rpc_broker.Common.Protocol.{
  max_port_chars, max_address_chars, request_type_hdr, sender_address_hdr, reply_port_hdr,
  service_name_hdr, services_count_hdr, services_hdr,
}
use rpc_broker.Common.ByteOrder.{uint32}
use rpc_broker.Common.Wire.Delivery.{frame}
use rpc_broker.Stulibc.{Sent, IsUp}
use rpc_broker.Outcome.{Outcome, done}
use rpc_broker.Action.{Action, pure, lift, ◌>>=◌, ◌>>◌}
use rpc_broker.Server.Start.{ServerFile, ServerStart, server_settings, server_settings-file}

-- `err_print` stands for ERR_Print, and `net_tcp_server` for netTcpServer.
module _ (e : Env) (check_string : Option Text → Outcome (Unit {0}))
    (err_print : Outcome (Unit {0})) (net_tcp_server : Text → Text → Outcome (Unit {0})) where
  open e use {msgpack as m, stulibc as l, net}

  -- The settings are what the rest of main goes on with.
  unfoldable pub start_server : ServerStart → Action (List Sent) ServerSettings
  start_server start = do
    s ← lift (server_settings l check_string err_print start)
    broker_address ← lift (c_string s.broker.address)
    broker_port ← lift (c_string s.broker.port)
    address ← lift (c_string s.server.address)
    port ← lift (c_string s.server.port)
    service_register_with_broker e broker_address broker_port address port services
    lift (net_tcp_server address port)
    pure s

-- The names in `services`, the last first.
abbrev pub offered : List Text
offered =
    codes "diffirence"
    ∷ codes "sayDog"
    ∷ codes "getServerDate"
    ∷ codes "sayHello"
    ∷ codes "add"
    ∷ codes "echo"
    ∷ codes "getBrokerName"
    ∷ []

services-offered : services ≡ name_array (reverse offered)
unfolding services
services-offered = refl

offered-AllFit :
    (address port : Text)
    → length address < max_address_chars
    → length port < max_port_chars
    → AllFit (registration_headers address port service_name_text offered)
unfolding service_name_text request_type_hdr sender_address_hdr reply_port_hdr service_name_hdr
    services_count_hdr services_hdr
offered-AllFit address port a p = omega (arith, a, p)

module _ (e : Env) (law : IsLawful e) (up : IsUp e.net)
    (check_string : Option Text → Outcome (Unit {0})) (err_print : Outcome (Unit {0}))
    (net_tcp_server : Text → Text → Outcome (Unit {0})) where
  open e use {msgpack as m, stulibc as l, net}

  -- Once the settings are chosen, the server registers with them and listens.
  started_with :
      (start : ServerStart) (s : ServerSettings) (address port broker_address broker_port : Text)
      (packet : Packet) (sent : List Sent)
      → server_settings l check_string err_print start ≡ done s
      → c_string s.server.port ≡ done port
      → c_string s.server.address ≡ done address
      → c_string s.broker.address ≡ done broker_address
      → c_string s.broker.port ≡ done broker_port
      → service_register_with_broker e broker_address broker_port address port services sent
        ≡ (done tt, sent ++ frame broker_address broker_port packet)
      → net_tcp_server address port ≡ done tt
      → start_server e check_string err_print net_tcp_server start sent
        ≡ (done s, sent ++ frame broker_address broker_port packet)
  unfolding start_server
  started_with start s address port broker_address broker_port packet sent c p a ba bp r n =
      rw (c, p, a, ba, bp, r, n) refl

  -- On a network that is up: a server that is started without arguments, with a file whose settings
  -- fit their arrays, sends one packet to the broker of the file, if its headers fit the packet's
  -- length. The broker unpacks it to a registration of all the services at the address and port of
  -- the file. The server then listens there, if it can, and waits indefinitely.
  pub start_server_lem :
      (wait : Option Text) (verbose port address broker_address broker_port : Text) (argc : ℕ)
      (sent : List Sent)
      → argc < 2
      → IsSetting check_string max_port_chars port
      → IsSetting check_string max_address_chars address
      → IsSetting check_string max_address_chars broker_address
      → IsSetting check_string max_port_chars broker_port
      → length (pack_headers m (registration_headers address port service_name_text offered))
        < uint32
      → net_tcp_server address port ≡ done tt
      → (s : ServerSettings) × (packet : Packet) × (start_server e check_string err_print
            net_tcp_server
            (record {
              has_file = true;
              parsed = some (record {
                wait = wait;
                verbose = some verbose;
                port = some port;
                address = some address;
                broker_address = some broker_address;
                broker_port = some broker_port;
              });
              argc = argc;
              found = none;
            })
            sent
          ≡ (done s, sent ++ frame broker_address broker_port packet))
        × (unpack_service_registration_buffer l m packet
            ≡ done (reg_of (registered address port service_name_text offered)))
        × (s.wait_indef ≡ true)
  start_server_lem wait verbose port address broker_address broker_port argc sent few p a ba bp
        short listens =
      let file : ServerFile = record {
        wait = wait;
        verbose = some verbose;
        port = some port;
        address = some address;
        broker_address = some broker_address;
        broker_port = some broker_port;
      } in
      let (s, read, p', a', ba', bp', waits, _) =
        read_server_settings_lem l check_string wait verbose port address broker_address broker_port
          law.lists p a ba bp in
      let (packet, registers, unpacked) =
        service_register_with_broker_lem e law up broker_address broker_port address port offered
          sent (omega arith) (offered-AllFit address port a.2 p.2) (omega arith) short in
      (
        s,
        packet,
        started_with _ s address port broker_address broker_port packet sent
            (server_settings-file l check_string err_print file argc few ∙ read) p' a' ba' bp'
            (subst
              (λ ps.
                service_register_with_broker e broker_address broker_port address port ps sent
                ≡ (done tt, sent ++ frame broker_address broker_port packet))
              (sym services-offered) registers)
            listens,
        unpacked,
        waits,
      )
