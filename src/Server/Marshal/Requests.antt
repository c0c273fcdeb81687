-- ===== src/Server/Marshal/Requests.antt =====
-- server/unpack_marshal_call.c: the request of a client becomes one call.
use rpc_broker.Base.{ℕ, ◌≡◌, refl, ap, Option, none, some, List, [], ◌∷◌, ◌++◌, map}
use rpc_broker.Base.{Text, text_eq, until_nul}
use rpc_broker.Base.{ℤ, pos, negsuc, int32}
use rpc_broker.Server.Marshal.{
  Param, Call, Locals, string, number, missing, int64, params, request_field, request_round,
  request_result, unpack_marshal_call_send,
}
use rpc_broker.Msgpack.{
  Msgpack, IsCodec, Packet, Header, Scalar, int, text, many, values, content_value, header_value,
  continue, AllFit, pack_headers, packet_of,
}
use rpc_broker.Msgpack.Loop.{follow, next, drained, each_value, Decodes}
use rpc_broker.Msgpack.Loop.Rounds.{each_object_lem}
use rpc_broker.Msgpack.Loop.Packed.{Decodes-pack_headers}
use rpc_broker.Common.Headers.Lookup.{Named, extract_header_lem}
use rpc_broker.Common.Protocol.{
  operation_hdr, message_id_hdr, request_type_hdr, sender_address_hdr, reply_port_hdr,
  service_params_hdr, service_request,
}
use rpc_broker.Common.Pack.Laws.{int_header_of, text_header_of}
use rpc_broker.Common.Format.Laws.{format_of}
use rpc_broker.Common.Protocol.Names.{
  message_id_hdr-IsName, operation_hdr-IsName, reply_port_hdr-IsName, sender_address_hdr-IsName,
  request_type_hdr-IsName, service_params_hdr-IsName,
}
use rpc_broker.Client.Pack.{client_headers, pack_client_request_data, pack_client_request_data_lem}
use rpc_broker.Stulibc.{Stulibc, IsStulibc}
use rpc_broker.Outcome.{Outcome, done, fault, exited, spins, ◌>>=◌, bind_assoc}

-- What a parameter is at the server: a negative integer is a NULL there.
abbrev pub received : Scalar → Param
received (int (pos n)) = number (int64 n)
received (int (negsuc n)) = missing
received (text t) = string (until_nul t)

params-values : (xs : List Scalar) → params (values xs) ≡ map received xs
params-values [] = refl
params-values (int (pos n) ∷ xs) = ap (λ w. number (int64 n) ∷ w) (params-values xs)
params-values (int (negsuc n) ∷ xs) = ap (λ w. missing ∷ w) (params-values xs)
params-values (text t ∷ xs) = ap (λ w. string (until_nul t) ∷ w) (params-values xs)

abbrev pub call_of : ℕ → Text → List Scalar → Call
call_of id op args = record {
  message_id = int32 id;
  operation = until_nul op;
  params = map received args;
}

abbrev locals : Option ℤ → Option Text → List Call → Locals
locals id op calls = record { message_id = id; operation = op; calls = calls }

last_round :
    (o : Outcome (Unit {0})) (s : Locals)
    → (((o >>= λ u. done s) >>= λ s'. done (next s')) >>= λ flow.
        follow {S = Locals} {B = ⊥} flow (λ x. done (drained x continue)))
      ≡ (o >>= λ u. done (drained s continue))
last_round (done u) s = refl
last_round (exited n) s = refl
last_round fault s = refl
last_round spins s = refl

module _ (l : Stulibc) (sl : IsStulibc l) (answer : List Call → Call → Outcome (Unit {0})) where
  request_round_lem :
      (s : Locals) (h : Header)
      → Named h
      → request_round l answer s (header_value h) ≡ (
          request_field l answer
            (text_eq operation_hdr h.name)
            (text_eq message_id_hdr h.name)
            s
            (content_value h.content)
          >>= λ s'. done (next s'))
  unfolding request_round
  request_round_lem s h n =
      rw
        (
          extract_header_lem h n,
          sl.str_equals_lem operation_hdr h.name,
          sl.str_equals_lem message_id_hdr h.name,
        )
        refl

  request_rounds :
      (address port : Text) (id : ℕ) (op : Text) (args : List Scalar) (calls : List Call)
      → each_value
          (request_round l answer)
          (map header_value (client_headers address port (pos id) op args))
          continue
          (locals none none calls)
        ≡ (answer calls (call_of id op args) >>= λ u. done (
            drained
              (locals (some (int32 id)) (some (until_nul op)) (calls ++ call_of id op args ∷ []))
              continue))
  unfolding each_value text_eq request_type_hdr message_id_hdr sender_address_hdr reply_port_hdr
      operation_hdr service_params_hdr
  request_rounds address port id op args calls =
      let start = locals none none calls in
      let known = locals (some (int32 id)) none calls in
      rw
        (
          request_round_lem start (int_header_of request_type_hdr service_request)
              request_type_hdr-IsName,
          request_round_lem start (int_header_of message_id_hdr (pos id)) message_id_hdr-IsName,
          request_round_lem known (text_header_of sender_address_hdr address)
              sender_address_hdr-IsName,
          request_round_lem known (text_header_of reply_port_hdr port) reply_port_hdr-IsName,
          request_round_lem known (text_header_of operation_hdr op) operation_hdr-IsName,
          request_round_lem (locals (some (int32 id)) (some (until_nul op)) calls)
              (record { name = service_params_hdr; content = many args }) service_params_hdr-IsName,
          params-values args,
        )
        (last_round (answer calls (call_of id op args)) _)

module _ (m : Msgpack) (c : IsCodec m) (l : Stulibc) (sl : IsStulibc l)
    (answer : List Call → Call → Outcome (Unit {0})) where
  -- A packet with the headers of a client's request makes exactly one call, with the id as an `int`,
  -- the operation up to its first NUL, and the parameters in their order.
  pub unpack_marshal_call_send_lem :
      (packet : Packet) (address port : Text) (id : ℕ) (op : Text) (args : List Scalar)
      (calls : List Call)
      → Decodes m packet (map header_value (client_headers address port (pos id) op args)) continue
      → unpack_marshal_call_send l answer m packet calls
        ≡ (answer calls (call_of id op args) >>= λ u. done (calls ++ call_of id op args ∷ []))
  unfolding unpack_marshal_call_send
  unpack_marshal_call_send_lem packet address port id op args calls d =
      rw
        (
          each_object_lem m c (request_round l answer) packet
              (map header_value (client_headers address port (pos id) op args)) continue
              (locals none none calls) d,
          request_rounds l sl answer address port id op args calls,
        )
        (bind_assoc (answer calls (call_of id op args)) _ (request_result l answer))

  -- What a client packs for an operation and its arguments, with the format of the arguments, makes
  -- the server call that operation once, with that id and those arguments.
  pub request_becomes_call :
      (address port : Text) (id : ℕ) (op : Text) (args : List Scalar) (calls : List Call)
      → AllFit (client_headers address port (pos id) op args)
      → (sbuf : List ℕ) × (pack_client_request_data m address port (pos id) op (format_of args) args
          ≡ done sbuf)
        × (unpack_marshal_call_send l answer m (packet_of sbuf) calls
            ≡ (answer calls (call_of id op args) >>= λ u. done (calls ++ call_of id op args ∷ [])))
  request_becomes_call address port id op args calls f = (
    pack_headers m (client_headers address port (pos id) op args),
    pack_client_request_data_lem m address port (pos id) op args,
    unpack_marshal_call_send_lem
        (packet_of (pack_headers m (client_headers address port (pos id) op args))) address port id
        op args calls (Decodes-pack_headers m c (client_headers address port (pos id) op args) f),
  )
