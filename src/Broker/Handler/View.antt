-- ===== src/Broker/Handler/View.antt =====
-- What the broker keeps, with all pointers read: the books that its state stands for.
use rpc_broker.Common.Headers.Lookup.{
  AllNamed, first_text, last_int, get_hdr_int_lem, get_hdr_str_lem, ptr_or, get_op_name_lem,
}
use rpc_broker.Outcome.{done}
use rpc_broker.Msgpack.Loop.{Decodes}
use rpc_broker.Common.Protocol.{reply_port_hdr, message_id_hdr, operation_hdr, sender_address_hdr}
use rpc_broker.Common.Headers.{get_hdr_str, get_hdr_int, get_op_name}
use rpc_broker.Common.Wire.Delivery.{IsWhole}
use rpc_broker.Stulibc.{Sent, to, unset, null}
use rpc_broker.Msgpack.{Packet, Header, header_value, continue}
use rpc_broker.Broker.Find.Client.{Request, creg_of}
use rpc_broker.Env.{Env, IsLawful}
use rpc_broker.Broker.State.{Broker}
use rpc_broker.Broker.Find.Server.{Service, reg_of}
use rpc_broker.Base.{◌≡◌, ap, ◌∙◌, subst, Bool, some, List, map}
use rpc_broker.Base.{Text}
use rpc_broker.Base.{ℤ, pos}

pub record View : Type 0 where
  pub verbose : Bool
  pub wait_indef : Bool
  pub services : List Service
  pub requests : List Request
  pub executed : List Text
  pub sent : List Sent

abbrev pub state_of : View → Broker
state_of v = record {
  verbose = v.verbose;
  wait_indef = v.wait_indef;
  svc_repo = map reg_of v.services;
  clnt_req_repo = map creg_of v.requests;
  executed = v.executed;
  sent = v.sent;
}

-- What the handler reads in a packet that is a client's request or a response to one.
pub record Message (e : Env) (packet : Packet) (id : ℤ) (op : Text) : Type 0 where
  pub is_whole : IsWhole packet
  pub ids : get_hdr_int e.msgpack packet message_id_hdr ≡ done id
  pub ops : get_hdr_str e.stulibc e.msgpack packet operation_hdr ≡ done (to op)
  pub op_names : get_op_name e.stulibc e.msgpack packet ≡ done (to op)

pub record Asks (e : Env) (packet : Packet) (r : Request) : Type 0 where
  pub message : Message e packet r.message_id r.operation
  pub ports : get_hdr_str e.stulibc e.msgpack packet reply_port_hdr ≡ done (to r.port)
  pub addresses : get_hdr_str e.stulibc e.msgpack packet sender_address_hdr ≡ done (to r.address)

module _ (e : Env) (law : IsLawful e) where
  open e use {msgpack as m, stulibc as l}

  -- A packet of headers that has the fields of a message is one.
  pub Message-headers :
      (packet : Packet) (hs : List Header) (op : Text)
      → IsWhole packet
      → Decodes m packet (map header_value hs) continue
      → AllNamed hs
      → first_text operation_hdr hs ≡ some op
      → Message e packet (last_int message_id_hdr hs (pos 0)) op
  Message-headers packet hs op w d n o = record {
    is_whole = w;
    ids = get_hdr_int_lem m law.codec packet hs message_id_hdr d n;
    ops =
        get_hdr_str_lem m law.codec l law.lists packet hs continue operation_hdr d n
        ∙ ap (λ t. done (ptr_or unset t)) o;
    op_names =
        get_op_name_lem m law.codec l law.lists packet hs d n ∙ ap (λ t. done (ptr_or null t)) o;
  }

  pub Asks-headers :
      (packet : Packet) (hs : List Header) (r : Request)
      → IsWhole packet
      → Decodes m packet (map header_value hs) continue
      → AllNamed hs
      → last_int message_id_hdr hs (pos 0) ≡ r.message_id
      → first_text operation_hdr hs ≡ some r.operation
      → first_text reply_port_hdr hs ≡ some r.port
      → first_text sender_address_hdr hs ≡ some r.address
      → Asks e packet r
  Asks-headers packet hs r w d n i o p a = record {
    message =
        subst (λ id. Message e packet id r.operation) i
          (Message-headers packet hs r.operation w d n o);
    ports =
        get_hdr_str_lem m law.codec l law.lists packet hs continue reply_port_hdr d n
        ∙ ap (λ t. done (ptr_or unset t)) p;
    addresses =
        get_hdr_str_lem m law.codec l law.lists packet hs continue sender_address_hdr d n
        ∙ ap (λ t. done (ptr_or unset t)) a;
  }
