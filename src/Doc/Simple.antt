-- ===== src/Doc/Simple.antt =====
-- doc/usestulibc.c
use rpc_broker.Msgpack.{Msgpack, Value}
use rpc_broker.Outcome.{◌>>=◌, Outcome, done, fault}
use rpc_broker.Base.{ℕ, String, Option, none, some, List, ◌++◌}
use rpc_broker.Base.{codes}
use rpc_broker.Base.{pos}

-- `pack_true` is what `msgpack_pack_true` appends, and `msgpack_unpack` the function of this name,
-- which gives the object, if it gives one. An object that was never set is not printed, but a fault.
module _ (m : Msgpack) (pack_true : List ℕ) (msgpack_unpack : List ℕ → Option Value) where
  abbrev pub simple_buffer : List ℕ
  simple_buffer =
      m.pack_array 4
      ++ m.pack_int (pos 1)
      ++ pack_true
      ++ m.pack_str 7
      ++ m.pack_str_body (codes "example")
      ++ m.pack_int (pos 1)

  abbrev deserialized : Option Value → Outcome Value
  deserialized none = fault
  deserialized (some obj) = done obj

  -- The object that is printed.
  abbrev pub simple : Outcome Value
  simple = deserialized (msgpack_unpack simple_buffer)

  -- Line by line, what main prints: the greeting, and the object of `simple`.
  abbrev pub simple_main : Outcome (String × Value)
  simple_main = simple >>= λ obj. done ("Hello WORLD!\n", obj)
