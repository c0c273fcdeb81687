-- ===== src/Broker/Ack/Retry.antt =====
-- The acknowledgement is tried again only while nothing could be sent, and three times at most.
use rpc_broker.Outcome.{done}
use rpc_broker.Common.Wire.Delivery.{IsWhole, frame, send_req_lem}
use rpc_broker.Common.Wire.{send_req}
use rpc_broker.Broker.Ack.{ack_loop, Sent, send_req}
use rpc_broker.Stulibc.{Ptr, IsUp, Sent, to}
use rpc_broker.Msgpack.{Packet}
use rpc_broker.Env.{Env, IsLawful}
use rpc_broker.Base.{ℕ, suc, ◌+◌, ◌≡◌, refl, Bool, true, false, ◌&&◌, List, ◌++◌, arith}
use rpc_broker.Base.{leb, if◌then◌else◌}
use rpc_broker.Base.{Text}
use rpc_broker.Base.{ℤ, pos, int_eq}

if_apply :
    {A B : Type 0} (b : Bool) (f g : A → B) (a : A)
    → (if b then f else g) a ≡ (if b then f a else g a)
if_apply true f g a = refl
if_apply false f g a = refl

module _ (e : Env) (packet : Packet) (address port : Ptr) where
  ack_loop_step :
      (fuel tries : ℕ) (s s' : List Sent) (t : ℤ)
      → send_req e.net e.msgpack packet address port s ≡ (done t, s')
      → ack_loop e (suc fuel) tries packet address port s ≡ (
          if int_eq t (pos 0) && leb (tries + 1) 3
          then ack_loop e fuel (tries + 1) packet address port s'
          else (done tt, s'))
  unfolding ack_loop
  ack_loop_step fuel tries s s' t a = rw a (if_apply (int_eq t (pos 0) && leb (tries + 1) 3) _ _ s')

  -- The loop stops after the first attempt that sends anything; after two that send nothing the
  -- third is the last, whatever it gives. So three rounds of fuel are enough.
  pub ack_loop_lem :
      (s0 s1 s2 s3 : List Sent) (t1 t2 t3 : ℤ)
      → send_req e.net e.msgpack packet address port s0 ≡ (done t1, s1)
      → send_req e.net e.msgpack packet address port s1 ≡ (done t2, s2)
      → send_req e.net e.msgpack packet address port s2 ≡ (done t3, s3)
      → ack_loop e 3 1 packet address port s0
        ≡ (done tt, if int_eq t1 (pos 0) then (if int_eq t2 (pos 0) then s3 else s2) else s1)
  ack_loop_lem s0 s1 s2 s3 t1 t2 t3 a1 a2 a3 =
      rw
        (
          ack_loop_step 2 1 s0 s1 t1 a1,
          ack_loop_step 1 2 s1 s2 t2 a2,
          ack_loop_step 0 3 s2 s3 t3 a3,
        )
        (ground arith)

module _ (e : Env) (law : IsLawful e) (up : IsUp e.net) where
  -- On a network that is up one attempt is made.
  pub ack_loop-up :
      (packet : Packet) (address port : Text) (sent : List Sent)
      → IsWhole packet
      → ack_loop e 3 1 packet (to address) (to port) sent
        ≡ (done tt, sent ++ frame address port packet)
  ack_loop-up packet address port sent w =
      rw
        (ack_loop_step e packet (to address) (to port) 2 1 sent (sent ++ frame address port packet)
          (pos (4 + packet.len))
          (send_req_lem e.msgpack law.codec e.net up address port packet sent w))
        (ground arith)
