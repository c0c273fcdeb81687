-- ===== src/Common/Pack/Laws.antt =====
-- Each writer appends the header that a reader will find.
use mathlib.Core.List.{append_assoc}
use rpc_broker.Common.Pack.{pack_map_int, pack_map_str}
use rpc_broker.Msgpack.{Header, Msgpack, one, int, text, pack_header}
use rpc_broker.Base.{ℕ, ◌≡◌, List, ◌++◌}
use rpc_broker.Base.{Text}
use rpc_broker.Base.{ℤ}

abbrev pub int_header_of : Text → ℤ → Header
int_header_of key ival = record { name = key; content = one (int ival) }

abbrev pub text_header_of : Text → Text → Header
text_header_of key value = record { name = key; content = one (text value) }

module _ (m : Msgpack) where
  pub pack_map_int_lem :
      (key : Text) (ival : ℤ) (sbuf : List ℕ)
      → pack_map_int m key ival sbuf ≡ sbuf ++ pack_header m (int_header_of key ival)
  unfolding pack_map_int
  pack_map_int_lem key ival sbuf = simp append_assoc

  pub pack_map_str_lem :
      (key value : Text) (sbuf : List ℕ)
      → pack_map_str m key value sbuf ≡ sbuf ++ pack_header m (text_header_of key value)
  unfolding pack_map_str
  pack_map_str_lem key value sbuf = simp append_assoc
