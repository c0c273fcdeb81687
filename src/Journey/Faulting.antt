-- ===== src/Journey/Faulting.antt =====
-- A call that the server does not survive.
use rpc_broker.Common.Receive.Frames.{framed}
use rpc_broker.Server.Marshal.{Call}
use rpc_broker.Common.Protocol.{service_request}
use rpc_broker.Server.Process.Serving.{read_and_process_lem, receive-frame}
use rpc_broker.Msgpack.Loop.Packed.{Decodes-pack_headers}
use rpc_broker.Common.ByteOrder.{uint32}
use rpc_broker.Client.Pack.{client_headers, pack_client_request_data_lem}
use rpc_broker.Msgpack.{AllFit, pack_headers, Packet}
use rpc_broker.Server.Marshal.Requests.{call_of, unpack_marshal_call_send_lem}
use rpc_broker.Server.Proxy.Passing.{
  AllPack, HasNegative, scalars, param_gets-negative, all_passed-AllPack, conversions-scalars,
}
use rpc_broker.Server.Proxy.Answering.{named, only_offered}
use rpc_broker.Server.Process.{act, read_and_process}
use rpc_broker.Common.Prototypes.{Args}
use rpc_broker.Server.Proxy.{Operation}
use rpc_broker.Client.Proxy.{Caller, request_for}
use rpc_broker.Stulibc.{Reads}
use rpc_broker.Env.{Env, IsLawful}
use rpc_broker.Journey.{request_packet, not_empty, client_request-type}
use rpc_broker.Outcome.{done, fault}
use rpc_broker.Server.Proxy.Replies.{answer_of, sent_after}
use rpc_broker.Base.{ℕ, ◌<◌, ◌≡◌, refl, ap, ◌∙◌, Bool, true, List, [], ◌∷◌}
use rpc_broker.Base.{length}
use rpc_broker.Base.{Text, until_nul}
use rpc_broker.Base.{pos}

module _ (e : Env) (law : IsLawful e) (reads : Reads e.net) (c : Caller)
    (broker_address broker_port : Text) (verbose : Bool) (os : List Operation) where
  open e use {msgpack as m, stulibc as l, net}

  -- The call itself, after any calls before.
  negative_call :
      (o : Operation) (args : Args o.prototype.params) (id : ℕ) (calls : List Call)
      → named (until_nul o.prototype.name) os ≡ o ∷ []
      → AllPack o.prototype.params args
      → HasNegative o.prototype.params args
      → answer_of e broker_address broker_port verbose os calls
          (call_of id o.prototype.name (scalars o.prototype.params args))
        ≡ fault
  negative_call o args id calls one packs negative =
      let call = call_of id o.prototype.name (scalars o.prototype.params args) in
      let before = sent_after e broker_address broker_port verbose os calls [] in
      ap (λ w. w.0) (only_offered e law broker_address broker_port verbose os o call before one)
      ∙ rw (param_gets-negative o.prototype.params args packs negative) refl

  -- On a network whose reads are not cut short, when the headers fit the format and the packet its
  -- length: a client packs the arguments of a function also when one of them is a negative
  -- integer, and a registered server that offers the function, alone under its name, faults on
  -- that packet: it makes no call.
  pub negative_argument_faults :
      (o : Operation) (args : Args o.prototype.params) (id : ℕ) (calls : List Call) (rest : List ℕ)
      → named (until_nul o.prototype.name) os ≡ o ∷ []
      → AllPack o.prototype.params args
      → HasNegative o.prototype.params args
      → AllFit (
          client_headers c.client_address c.wait_response_port
            (pos id)
            o.prototype.name
            (scalars o.prototype.params args))
      → length (
          pack_headers m (
            client_headers c.client_address c.wait_response_port
              (pos id)
              o.prototype.name
              (scalars o.prototype.params args)))
        < uint32
      → (request : Packet) × (request_for m c (pos id) o.prototype args ≡ done request.buffer)
        × (read_and_process e
              (answer_of e broker_address broker_port verbose os)
              (framed request rest)
              (record { is_registered = true; calls = calls })
            ≡ (fault, record { is_registered = true; calls = calls }))
  unfolding act
  negative_argument_faults o args id calls rest one packs negative fit short =
      let name = o.prototype.name in
      let xs = scalars o.prototype.params args in
      let address = c.client_address in
      let port = c.wait_response_port in
      let packet = request_packet m address port id name xs in
      let d = Decodes-pack_headers m law.codec (client_headers address port (pos id) name xs) fit in
      let some_bytes = not_empty e law packet address port id name xs d in
      let kind = client_request-type e law packet address port id name xs d in
      let answer = answer_of e broker_address broker_port verbose os in
      (
        packet,
        rw
            (
              all_passed-AllPack o.prototype.params args packs,
              conversions-scalars o.prototype.params args,
            )
            (pack_client_request_data_lem m address port (pos id) name xs),
        rw
            (
              read_and_process_lem e law answer (framed packet rest) packet service_request
                  (record { is_registered = true; calls = calls })
                  (receive-frame net reads packet rest refl some_bytes short, kind),
              unpack_marshal_call_send_lem m law.codec l law.lists answer packet address port id
                  name xs calls d,
              negative_call o args id calls one packs negative,
            )
            refl,
      )
