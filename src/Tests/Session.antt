-- ===== src/Tests/Session.antt =====
-- The calls of the client's main, all answered.
use rpc_broker.Server.Proxy.Answering.{call_marshel_response_send_lem}
use rpc_broker.Outcome.{done}
use rpc_broker.Server.Interface.{operations}
use rpc_broker.Example.Libraries.{env, strings, env-IsLawful}
use rpc_broker.Server.Proxy.Sending.{call_marshel_response_send}
use rpc_broker.Example.Codec.{codec}
use rpc_broker.Client.Main.{Turn, Session}
use rpc_broker.Journey.RoundTrip.{ready_for}
use rpc_broker.Common.Receive.Frames.{framed}
use rpc_broker.Journey.Reply.{reply_packet}
use rpc_broker.Msgpack.{Scalar, int, text}
use rpc_broker.Base.{
  ℕ, zero, suc, ◌+◌, ◌-◌, ◌*◌, ◌/◌, ◌%◌, ◌^◌, ◌≤◌, ◌<◌, String, ◌≡◌, refl, sym, ◌∙◌, subst, ◌≢◌,
  ◌↔◌, ◌⊎◌, inl, inr, Bool, true, false, not, ◌&&◌, ◌||◌, Option, none, some, List, [], ◌∷◌, ◌++◌,
  reverse,
}
use rpc_broker.Base.{
  ltb, leb, ◌==◌, if◌then◌else◌, ltb→lt, lt→ltb, le→ltb, ==_iff, Bool-cases, Option-cases,
}
use rpc_broker.Base.{
  length, get_elem?, set, erase_idx, take, drop, replicate, find_idx, length-append, length-map,
  length-replicate, length-reverse, take-append, drop-append, length-erase_idx,
}
use rpc_broker.Base.{
  Text, codes, text_eq, text_eq_refl, text_eq→eq, text_eq-ne, until_nul, NoNul, until_nul-NoNul,
  NoNul-until_nul, length-until_nul,
}
use rpc_broker.Base.{
  ℤ, pos, negsuc, int32, rounds, int_eq, int_eq_refl, int_eq→eq, int32-small, InRange,
  int32-InRange,
}

-- The reply with this result to the request with the id 7.
abbrev replied : Text → Scalar → Turn
replied name x = record { id = 7; waiting = ready_for (framed (reply_packet codec name 7 x) []) }

abbrev dogs : Text
dogs = codes "labrador_alsatian_bulldog_spaniel"

abbrev turn_at : Turn → List Turn → ℕ → Turn
turn_at t [] n = t
turn_at t (t' ∷ ts) zero = t'
turn_at t (t' ∷ ts) (suc n) = turn_at t ts n

abbrev turns : ℕ → Turn
turns = turn_at (replied (codes "diffirence") (int (pos 378))) (
    replied (codes "getServerDate") (text (codes "20 jan 2012"))
    ∷ replied (codes "echo") (text (codes "swehtaM ecurB"))
    ∷ replied (codes "getBrokerName") (text (codes "broker v1"))
    ∷ replied (codes "add") (int (pos 219))
    ∷ replied (codes "sayHello") (text (codes "sayHello()"))
    ∷ replied (codes "sayDog") (text dogs)
    ∷ [])

call_marshel_response_send_example :
    call_marshel_response_send env
      (codes "10.0.0.1")
      (codes "9090")
      true
      (operations strings)
      (record { message_id = pos 7; operation = codes "subtract"; params = [] })
      []
    ≡ (done tt, [])
unfolding text_eq
call_marshel_response_send_example =
    call_marshel_response_send_lem env env-IsLawful (codes "10.0.0.1") (codes "9090") true
      (operations strings)
      (record { message_id = pos 7; operation = codes "subtract"; params = [] }) []
      (refl, (refl, (refl, (refl, (refl, (refl, (refl, tt)))))))

abbrev begun : Session
begun = record { sent = []; lines = [] }
