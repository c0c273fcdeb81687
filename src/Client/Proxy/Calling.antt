-- ===== src/Client/Proxy/Calling.antt =====
-- A call of a function of client/client-proxy.c.
use rpc_broker.Common.Pack.{sbuf_packet}
use rpc_broker.Stulibc.{Sent, to}
use rpc_broker.Client.Exchange.{Waiting, send_and_receive}
use rpc_broker.Common.Prototypes.{Prototype, Args, ValueOf}
use rpc_broker.Client.Proxy.{Caller, Prototype, Args, ValueOf, request_for, result_in}
use rpc_broker.Env.{Env}
use rpc_broker.Action.{◌>>=◌, lift, Action}
use rpc_broker.Base.{List}
use rpc_broker.Base.{ℤ}

module _ (e : Env) (c : Caller) where
  open e use {msgpack as m, stulibc as l}

  -- `id` is what `rand()` gives for the request.
  unfoldable pub client_proxy :
      ℤ → (p : Prototype) → Args p.params → Waiting → Action (List Sent) (ValueOf p.result)
  client_proxy id p args w = do
    request ← lift (request_for m c id p args)
    result ←
        send_and_receive e (sbuf_packet request) (to c.broker_address) (to c.broker_port)
          (to c.wait_response_port) w
    lift (result_in l m p.result result)
