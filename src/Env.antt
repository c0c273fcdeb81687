-- ===== src/Env.antt =====
-- All that the program takes from outside the repository, in one argument.
use rpc_broker.Msgpack.{Msgpack, IsCodec}
use rpc_broker.Stulibc.{Stulibc, IsStulibc, Net}
use rpc_broker.Outcome.{Outcome}

pub record Env : Type 1 where
  pub msgpack : Msgpack
  pub stulibc : Stulibc
  pub net : Net
  -- What becomes of the writes past the array `qry`, which C leaves open: a fault, or the program
  -- goes on as if nothing had happened.
  pub qry_overrun : Outcome (Unit {0})

pub record IsLawful (e : Env) : Type 1 where
  pub codec : IsCodec e.msgpack
  pub lists : IsStulibc e.stulibc
