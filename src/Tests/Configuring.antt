-- ===== src/Tests/Configuring.antt =====
-- The settings of the programs, and a client that waits for its response.
use rpc_broker.Base.{
  ℕ, ◌≡◌, refl, Bool, true, false, Option, none, some, List, [], ◌∷◌, ◌++◌, arith,
}
use rpc_broker.Base.{length, replicate}
use rpc_broker.Base.{Text, codes, text_eq, until_nul}
use rpc_broker.Base.{pos}
use rpc_broker.Outcome.{Outcome, done, exited}
use rpc_broker.Common.Settings.{copy_setting, copy_setting_lem}
use rpc_broker.Common.Protocol.{message_id_hdr, operation_hdr, reply_hdr, request_type_hdr}
use rpc_broker.Example.Libraries.{env, net-Reads}
use rpc_broker.Tests.Data.{response}
use rpc_broker.Common.ByteOrder.{htonl}
use rpc_broker.Client.Exchange.{wait_for_response, Waiting}
use rpc_broker.Common.Receive.Frames.{get_response-frame}
use rpc_broker.Example.Libraries.{net}

abbrev pub check_string : Option Text → Outcome (Unit {0})
check_string none = exited 1
check_string (some []) = exited 1
check_string (some (b ∷ t)) = done tt

abbrev old_port : List ℕ
old_port = codes "12345" ++ replicate 15 0

-- A shorter port after a longer one leaves the end of the longer one.
copy_setting_example :
    (bytes : List ℕ) × (copy_setting check_string old_port (some (codes "80")) ≡ done bytes)
    × (length bytes ≡ 20)
    × (until_nul bytes ≡ codes "80345")
copy_setting_example =
    copy_setting_lem check_string old_port (codes "80") refl (omega arith) (omega arith)

abbrev pub ignoring : Option Text → Text → Outcome Bool
ignoring none t = done false
ignoring (some u) t = done (text_eq u t)

abbrev responding : Waiting
responding = record {
  is_sent_in_time = true;
  listening = done tt;
  selected = pos 1;
  is_ready = true;
  is_valid = true;
  incoming = htonl response.len ++ (response.buffer ++ []);
}

response_comes : wait_for_response env responding [] ≡ (done (some response), [])
unfolding wait_for_response message_id_hdr operation_hdr reply_hdr request_type_hdr
response_comes =
    rw (get_response-frame net net-Reads response [] refl (omega arith) (omega arith)) refl
