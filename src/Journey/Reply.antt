-- ===== src/Journey/Reply.antt =====
-- A reply on its way: server/pack_client_response_data.c, read_data of broker/broker.c,
-- waitForResponse of client/send_and_receive.c, and the readers of common/common.c.
use rpc_broker.Base.{ℕ, suc, ◌<◌, ◌≡◌, refl, ◌∙◌, true, some, List, [], ◌∷◌, ◌++◌, arith}
use rpc_broker.Base.{length, drop}
use rpc_broker.Base.{Text, text_eq, until_nul}
use rpc_broker.Base.{ℤ, pos, negsuc, int32}
use rpc_broker.Base.{map}
use rpc_broker.Env.{Env, IsLawful}
use rpc_broker.Msgpack.{
  Packet, Scalar, int, text, header_value, continue, pack_headers, packet_of, AllFit, Msgpack,
}
use rpc_broker.Msgpack.Loop.{Decodes}
use rpc_broker.Msgpack.Loop.Packed.{Decodes-pack_headers}
use rpc_broker.Common.Headers.{get_req_type, get_hdr_int, get_hdr_str}
use rpc_broker.Common.Headers.Kind.{get_req_type_lem}
use rpc_broker.Common.Headers.Lookup.{AllNamed, get_hdr_int_lem, get_hdr_str_lem}
use rpc_broker.Common.Pack.Laws.{int_header_of}
use rpc_broker.Common.Protocol.{
  operation_hdr, message_id_hdr, request_type_hdr, reply_hdr, service_request_response,
}
use rpc_broker.Common.Protocol.Names.{
  message_id_hdr-IsName, operation_hdr-IsName, request_type_hdr-IsName, reply_hdr-IsName,
}
use rpc_broker.Common.Format.Laws.{format_of}
use rpc_broker.Common.ByteOrder.{uint32}
use rpc_broker.Common.Receive.Frames.{framed, get_response-frame}
use rpc_broker.Common.Wire.Delivery.{frame}
use rpc_broker.Client.Exchange.{wait_for_response}
use rpc_broker.Server.Respond.{
  pack_client_response_data, reply_headers, pack_client_response_data_lem,
}
use rpc_broker.Broker.Find.Client.{Request, take_request}
use rpc_broker.Broker.Handler.{read_data, dispatch}
use rpc_broker.Broker.Handler.View.{View, state_of, Message, Message-headers}
use rpc_broker.Broker.Handler.Responses.{on_service_response_lem}
use rpc_broker.Broker.Handler.Reading.{read_data_lem}
use rpc_broker.Stulibc.{Sent, Ptr, unset, to, IsUp, Reads}
use rpc_broker.Outcome.{done}

-- What a reader of an integer makes of a result: a negative one, or a text, is 0.
abbrev pub int_result : Scalar → ℤ
int_result (int (pos n)) = int32 n
int_result (int (negsuc n)) = pos 0
int_result (text t) = pos 0

-- What a reader of a text makes of a result: an integer leaves the pointer unset.
abbrev pub text_result : Scalar → Ptr
text_result (int i) = unset
text_result (text t) = to (until_nul t)

abbrev pub reply_packet : Msgpack → Text → ℕ → Scalar → Packet
reply_packet m op id x = packet_of (pack_headers m (reply_headers op (pos id) x))

reply_headers-AllNamed : (op : Text) (id : ℕ) (x : Scalar) → AllNamed (reply_headers op (pos id) x)
reply_headers-AllNamed op id x =
    search (request_type_hdr-IsName, message_id_hdr-IsName, operation_hdr-IsName, reply_hdr-IsName)

module _ (e : Env) (law : IsLawful e) where
  open e use {msgpack as m, stulibc as l, net}

  pub reply-Message :
      (packet : Packet) (op : Text) (id : ℕ) (x : Scalar)
      → packet.len ≡ length packet.buffer
      → Decodes m packet (map header_value (reply_headers op (pos id) x)) continue
      → Message e packet (int32 id) (until_nul op)
  unfolding text_eq request_type_hdr message_id_hdr operation_hdr reply_hdr
  reply-Message packet op id x w d =
      Message-headers e law packet (reply_headers op (pos id) x) (until_nul op) w d
        (reply_headers-AllNamed op id x) refl

  pub reply-type :
      (packet : Packet) (op : Text) (id : ℕ) (x : Scalar)
      → Decodes m packet (map header_value (reply_headers op (pos id) x)) continue
      → get_req_type m packet ≡ done service_request_response
  unfolding text_eq request_type_hdr int32
  reply-type packet op id x d =
      get_req_type_lem m packet (int_header_of request_type_hdr service_request_response)
        (drop 1 (reply_headers op (pos id) x)) continue d request_type_hdr-IsName

  pub reply_int :
      (packet : Packet) (op : Text) (id : ℕ) (x : Scalar)
      → Decodes m packet (map header_value (reply_headers op (pos id) x)) continue
      → get_hdr_int m packet reply_hdr ≡ done (int_result x)
  unfolding text_eq request_type_hdr message_id_hdr operation_hdr reply_hdr
  reply_int packet op id (int (pos n)) d =
      get_hdr_int_lem m law.codec packet (reply_headers op (pos id) (int (pos n))) reply_hdr d
        (reply_headers-AllNamed op id (int (pos n)))
  reply_int packet op id (int (negsuc n)) d =
      get_hdr_int_lem m law.codec packet (reply_headers op (pos id) (int (negsuc n))) reply_hdr d
        (reply_headers-AllNamed op id (int (negsuc n)))
  reply_int packet op id (text t) d =
      get_hdr_int_lem m law.codec packet (reply_headers op (pos id) (text t)) reply_hdr d
        (reply_headers-AllNamed op id (text t))

  pub reply_text :
      (packet : Packet) (op : Text) (id : ℕ) (x : Scalar)
      → Decodes m packet (map header_value (reply_headers op (pos id) x)) continue
      → get_hdr_str l m packet reply_hdr ≡ done (text_result x)
  unfolding text_eq request_type_hdr message_id_hdr operation_hdr reply_hdr
  reply_text packet op id (int i) d =
      get_hdr_str_lem m law.codec l law.lists packet (reply_headers op (pos id) (int i)) continue
        reply_hdr d (reply_headers-AllNamed op id (int i))
  reply_text packet op id (text t) d =
      get_hdr_str_lem m law.codec l law.lists packet (reply_headers op (pos id) (text t)) continue
        reply_hdr d (reply_headers-AllNamed op id (text t))

  pub not_empty :
      (packet : Packet) (op : Text) (id : ℕ) (x : Scalar)
      → Decodes m packet (map header_value (reply_headers op (pos id) x)) continue
      → 0 < packet.len
  not_empty packet op id x (off, e', d) =
      let far = law.codec.advances packet 0 off _ e' in omega (arith, far.0, far.1)

  module _ (up : IsUp net) (reads : Reads net) where
    -- A client that waits on a socket that gets ready is given the packet that comes in on it.
    pub waits_for :
        (packet : Packet) (n : ℕ) (rest : List ℕ) (sent : List Sent)
        → packet.len ≡ length packet.buffer
        → 0 < packet.len
        → packet.len < uint32
        → wait_for_response e
            (record {
              is_sent_in_time = true;
              listening = done tt;
              selected = pos (suc n);
              is_ready = true;
              is_valid = true;
              incoming = framed packet rest;
            })
            sent
          ≡ (done (some packet), sent)
    unfolding wait_for_response
    waits_for packet n rest sent w some_bytes short =
        rw (get_response-frame net reads packet rest w some_bytes short) (ground arith)

    -- The packet that a server packs for a result, at the broker and at the client.
    pub reply_arrives :
        (op : Text) (id : ℕ) (x : Scalar) (q : Request) (left : List Request) (v : View) (n : ℕ)
        (rest rest' : List ℕ) (sent : List Sent)
        → AllFit (reply_headers op (pos id) x)
        → length (pack_headers m (reply_headers op (pos id) x)) < uint32
        → take_request (int32 id) (until_nul op) v.requests ≡ some (q, left)
        → (read_data e (framed (reply_packet m op id x) rest) (state_of v) ≡ (
          done tt,
          state_of (record v {
            requests = left;
            sent = v.sent ++ frame q.address q.port (reply_packet m op id x);
          }),
        ))
          × (wait_for_response e
                (record {
                  is_sent_in_time = true;
                  listening = done tt;
                  selected = pos (suc n);
                  is_ready = true;
                  is_valid = true;
                  incoming = framed (reply_packet m op id x) rest';
                })
                sent
              ≡ (done (some (reply_packet m op id x)), sent))
          × (get_hdr_int m (reply_packet m op id x) reply_hdr ≡ done (int_result x))
          × (get_hdr_str l m (reply_packet m op id x) reply_hdr ≡ done (text_result x))
    unfolding dispatch
    reply_arrives op id x q left v n rest rest' sent fit short pending =
        let packet = reply_packet m op id x in
        let d = Decodes-pack_headers m law.codec (reply_headers op (pos id) x) fit in
        let some_bytes = not_empty packet op id x d in
        (
          read_data_lem e law reads packet rest service_request_response (state_of v) refl
                some_bytes short (reply-type packet op id x d)
              ∙ on_service_response_lem e law up packet (int32 id) (until_nul op) q left v
                  (reply-Message packet op id x refl d) pending,
          waits_for packet n rest' sent refl some_bytes short,
          reply_int packet op id x d,
          reply_text packet op id x d,
        )

    -- On a network that is up and whose reads are not cut short, when the headers fit the format and
    -- the packet its length, and a request with this id and operation is pending: the broker sends
    -- the packet that a server packs for a result to the address and port of the first such request
    -- and takes that request out; the client that waits there is given the packet; and its readers
    -- find the result in it: an integer that is not negative, as an `int`, and a text up to its first
    -- NUL, but 0 for a negative integer.
    pub reply_reaches_client :
        (op : Text) (id : ℕ) (x : Scalar) (q : Request) (left : List Request) (v : View) (n : ℕ)
        (rest rest' : List ℕ) (sent : List Sent)
        → AllFit (reply_headers op (pos id) x)
        → length (pack_headers m (reply_headers op (pos id) x)) < uint32
        → take_request (int32 id) (until_nul op) v.requests ≡ some (q, left)
        → (packet : Packet) × (pack_client_response_data m op (pos id) (format_of (x ∷ [])) (x ∷ [])
            ≡ done packet.buffer)
          × (read_data e (framed packet rest) (state_of v) ≡ (
            done tt,
            state_of (record v { requests = left; sent = v.sent ++ frame q.address q.port packet }),
          ))
          × (wait_for_response e
                (record {
                  is_sent_in_time = true;
                  listening = done tt;
                  selected = pos (suc n);
                  is_ready = true;
                  is_valid = true;
                  incoming = framed packet rest';
                })
                sent
              ≡ (done (some packet), sent))
          × (get_hdr_int m packet reply_hdr ≡ done (int_result x))
          × (get_hdr_str l m packet reply_hdr ≡ done (text_result x))
    reply_reaches_client op id x q left v n rest rest' sent fit short pending =
        let (handled, waited, as_int, as_text) =
          reply_arrives op id x q left v n rest rest' sent fit short pending in
        (
          reply_packet m op id x,
          pack_client_response_data_lem m op (pos id) x,
          handled,
          waited,
          as_int,
          as_text,
        )
