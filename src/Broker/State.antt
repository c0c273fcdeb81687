-- ===== src/Broker/State.antt =====
-- common/common.h: the broker's data, and the parts of its configuration that change its course.
use rpc_broker.Outcome.{Outcome, fault, done}
use rpc_broker.Action.{Action}
use rpc_broker.Stulibc.{Ptr, Sent, to, unset, null}
use rpc_broker.Base.{Bool, true, false, Option, List}
use rpc_broker.Base.{Text}
use rpc_broker.Base.{ℤ}

-- struct ServiceRegistration; `services` is `none` until it is allocated, and then has its cells
pub record ServiceReg : Type 0 where
  pub address : Ptr
  pub port : Ptr
  pub services : Option (List Ptr)
  pub service_name : Ptr
  pub num_services : ℤ

-- struct ClientRequestRegistration
pub record ClientReg : Type 0 where
  pub address : Ptr
  pub port : Ptr
  pub operation : Ptr
  pub message_id : ℤ

-- struct DestinationEndpoint
pub record Location : Type 0 where
  pub address : Ptr
  pub port : Ptr

-- struct Config; of the database the statements that were executed, and beside it what was sent.
pub record Broker : Type 0 where
  pub verbose : Bool
  pub wait_indef : Bool
  pub svc_repo : List ServiceReg
  pub clnt_req_repo : List ClientReg
  pub executed : List Text
  pub sent : List Sent

-- A call that only sends.
abbrev pub sending : {A : Type 0} → Action (List Sent) A → Action Broker A
sending act b = let (r, sent') = act b.sent in (r, record b { sent = sent' })

-- `p == NULL`
abbrev pub is_null : Ptr → Outcome Bool
is_null unset = fault
is_null null = done true
is_null (to t) = done false
