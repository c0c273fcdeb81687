-- ===== src/Server/Proxy/Sending.antt =====
-- The sending half of server/server-proxy.c, which server/generate_proxy.pl makes.
use rpc_broker.Common.Pack.{sbuf_packet}
use rpc_broker.Common.Wire.{send_req}
use rpc_broker.Common.Headers.{unpack_data}
use rpc_broker.Action.{◌>>=◌, ◌>>◌, pure, lift, Action}
use rpc_broker.Stulibc.{Sent, to}
use rpc_broker.Server.Marshal.{Call}
use rpc_broker.Action.{Action, pure}
use rpc_broker.Server.Proxy.{Operation, Call, response_for, to}
use rpc_broker.Msgpack.{Packet}
use rpc_broker.Common.Pack.{sbuf_packet}
use rpc_broker.Env.{Env}
use rpc_broker.Base.{Bool, some, List, [], ◌∷◌}
use rpc_broker.Base.{if◌then◌else◌}
use rpc_broker.Base.{Text}

module _ (e : Env) (broker_address broker_port : Text) (verbose : Bool) where
  open e use {msgpack as m, stulibc as l, net}

  abbrev pub send_response : Packet → Action (List Sent) (Unit {0})
  send_response pkt = do
    if verbose then (do lift (unpack_data m pkt); pure tt) else pure tt
    send_req net m pkt (to broker_address) (to broker_port)
    pure tt

  abbrev pub respond : Operation → Call → Action (List Sent) (Unit {0})
  respond o call = do response ← lift (response_for m o call); send_response (sbuf_packet response)

  -- The tests of the operation's name, one for each function of the interface, in its order.
  unfoldable pub call_marshel_response_send : List Operation → Call → Action (List Sent) (Unit {0})
  call_marshel_response_send [] call = pure tt
  call_marshel_response_send (o ∷ os) call = do
    is_operation ← lift (l.str_equals (some call.operation) (some o.prototype.name))
    if is_operation then respond o call else pure tt
    call_marshel_response_send os call
