-- ===== src/Broker/Forward.antt =====
-- broker/forward_response_to_client.c, broker/forward_request_to_server.c and `acknowledgement` of
-- broker/broker_support.c, which the handler does not call.
use rpc_broker.Env.{Env}
use rpc_broker.Msgpack.{Packet}
use rpc_broker.Broker.State.{Broker, Location, sending}
use rpc_broker.Broker.Find.{find_client_for_response}
use rpc_broker.Common.Wire.{send_req}
use rpc_broker.Stulibc.{unset}
use rpc_broker.Action.{Action, pure, lift, gets, modify, ◌>>=◌, ◌>>◌}

module _ (e : Env) where
  open e use {msgpack as m, stulibc as l, net}

  -- The location starts out unset; what the search returns is not used, only what it leaves there.
  unfoldable pub fwd_to_clnt : Packet → Action Broker (Unit {0})
  fwd_to_clnt response = do
    repo ← gets (λ b. b.clnt_req_repo)
    found ←
        lift (find_client_for_response l m response (record { address = unset; port = unset }) repo)
    modify λ b. record b { clnt_req_repo = found.1 }
    sending (send_req net m response found.0.address found.0.port)
    pure tt

-- An empty body.
abbrev pub forward_request_to_server : Packet → Location → Action Broker (Unit {0})
forward_request_to_server packet src = pure tt

-- An empty body.
abbrev pub acknowledgement : Action Broker (Unit {0})
acknowledgement = pure tt
