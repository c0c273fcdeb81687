-- ===== src/Broker/Handler.antt =====
-- broker/broker.c: read_data, with the calls that it makes.
pub mod Registrations
pub mod Overruns
pub mod Responses
pub mod Reading
pub mod View
pub mod Requests
use rpc_broker.Stulibc.{printed}
use rpc_broker.Common.Protocol.{
  service_request, reply_port_hdr, operation_hdr, service_registration, sender_address_hdr,
  message_id_hdr, service_request_response,
}
use rpc_broker.Broker.Ack.{send_svc_req_ack}
use rpc_broker.Broker.Database.{registration_queries}
use rpc_broker.Broker.State.{Location, Broker, is_null, ServiceReg, sending, ClientReg}
use rpc_broker.Common.Receive.{get_response}
use rpc_broker.Msgpack.{Packet}
use rpc_broker.Broker.Find.{find_server_for_req, find_client_for_response}
use rpc_broker.Common.Wire.{send_req}
use rpc_broker.Broker.Unpack.{unpack_service_registration_buffer}
use rpc_broker.Stulibc.{Ptr, unset}
use rpc_broker.Common.Headers.{get_hdr_str, get_hdr_int, unpack_data, get_req_type}
use rpc_broker.Env.{Env}
use rpc_broker.Broker.Printing.{print_service_repository}
use rpc_broker.Base.{
  ℕ, zero, suc, ◌+◌, ◌-◌, ◌*◌, ◌/◌, ◌%◌, ◌^◌, ◌≤◌, ◌<◌, String, ◌≡◌, refl, sym, ap, ◌∙◌, subst, ◌≢◌,
  ◌↔◌, ◌⊎◌, inl, inr, Bool, true, false, not, ◌&&◌, ◌||◌, Option, none, some, List, [], ◌∷◌, ◌++◌,
  reverse, arith,
}
use rpc_broker.Base.{
  ltb, leb, ◌==◌, if◌then◌else◌, ltb→lt, lt→ltb, le→ltb, ==_iff, Bool-cases, Option-cases,
}
use rpc_broker.Base.{
  length, get_elem?, set, erase_idx, take, drop, replicate, find_idx, length-append, length-map,
  length-replicate, length-reverse, take-append, drop-append, length-erase_idx,
}
use rpc_broker.Base.{
  Text, codes, text_eq, text_eq_refl, text_eq→eq, text_eq-ne, until_nul, NoNul, until_nul-NoNul,
  NoNul-until_nul, length-until_nul,
}
use rpc_broker.Base.{
  ℤ, pos, negsuc, int32, rounds, int_eq, int_eq_refl, int_eq→eq, int32-small, InRange,
  int32-InRange,
}
use rpc_broker.Action.{◌>>=◌, ◌>>◌, Action, lift, gets, modify, pure}

module _ (e : Env) where
  open e use {msgpack as m, stulibc as l, net}

  -- broker/get_sender_address.c
  unfoldable pub get_sender_address : Packet → Action Broker Location
  get_sender_address packet = do
    reply_port ← lift (get_hdr_str l m packet reply_port_hdr)
    sender_address ← lift (get_hdr_str l m packet sender_address_hdr)
    pure (record { address = sender_address; port = reply_port })

  -- broker/register_client_request.c
  abbrev print_request : Ptr → Location → Action Broker (Unit {0})
  print_request op src = do lift (printed src.address); lift (printed src.port); lift (printed op)

  unfoldable pub reg_clnt_req : Ptr → Location → ℤ → Action Broker (Unit {0})
  reg_clnt_req op src message_id = do
    verbose ← gets (λ b. b.verbose)
    if verbose then print_request op src else pure tt
    modify λ b. record b {
      clnt_req_repo = l.list_add ClientReg b.clnt_req_repo (record {
        address = src.address;
        port = src.port;
        operation = op;
        message_id = message_id;
      });
    }

  -- broker/register_service.c
  unfoldable pub perform_diagnostics : Action Broker (Unit {0})
  perform_diagnostics = do repo ← gets (λ b. b.svc_repo); lift (print_service_repository repo)

  unfoldable pub reg_svc_req : Packet → Action Broker (Unit {0})
  reg_svc_req packet = do
    reg ← lift (unpack_service_registration_buffer l m packet)
    modify λ b. record b { svc_repo = l.list_add ServiceReg b.svc_repo reg }
    queries ← lift (registration_queries e.qry_overrun reg)
    modify λ b. record b { executed = b.executed ++ queries }
    sending (send_svc_req_ack e packet)
    verbose ← gets (λ b. b.verbose)
    if verbose then perform_diagnostics else pure tt

  -- The end of a request: it goes to the server, if there is one.
  unfoldable pub forward : Packet → Ptr → Ptr → Location → Action Broker (Unit {0})
  forward packet req_op host dest = do
    no_address ← lift (is_null dest.address)
    no_server ← if no_address then pure true else lift (is_null dest.port)
    if no_server
        then (do lift (printed req_op); lift (printed host))
        else do sending (send_req net m packet dest.address dest.port); pure tt

  unfoldable pub on_service_request : Packet → Action Broker (Unit {0})
  on_service_request packet = do
    op ← lift (get_hdr_str l m packet operation_hdr)
    sender ← get_sender_address packet
    msg_id ← lift (get_hdr_int m packet message_id_hdr)
    req_op ← lift (get_hdr_str l m packet operation_hdr)
    reg_clnt_req req_op sender msg_id
    repo ← gets (λ b. b.svc_repo)
    dest ← lift (find_server_for_req l m packet repo)
    forward packet req_op sender.address dest

  -- The location that `find_client_for_response` fills starts out unset.
  unfoldable pub on_service_response : Packet → Action Broker (Unit {0})
  on_service_response packet = do
    repo ← gets (λ b. b.clnt_req_repo)
    found ←
        lift (find_client_for_response l m packet (record { address = unset; port = unset }) repo)
    modify λ b. record b { clnt_req_repo = found.1 }
    sending (send_req net m packet found.0.address found.0.port)
    pure tt

  -- The handler's branches on the type; other types are reported and ignored.
  unfoldable pub dispatch : Packet → ℤ → Action Broker (Unit {0})
  dispatch packet req_type =
      if int_eq req_type service_request
      then on_service_request packet
      else if int_eq req_type service_registration
      then reg_svc_req packet
      else if int_eq req_type service_request_response
      then on_service_response packet
      else pure tt

  -- One connection, with the bytes that come in on it.
  unfoldable pub read_data : List ℕ → Action Broker (Unit {0})
  read_data incoming = do
    packet ← lift (get_response net incoming)
    verbose ← gets (λ b. b.verbose)
    if verbose then (do lift (unpack_data m packet); pure tt) else pure tt
    req_type ← lift (get_req_type m packet)
    dispatch packet req_type
