-- ===== src/Common/Arguments.antt =====
-- The command line: stulibc's `struct Argument`, as server/server.c and client/client.c fill it in.
use rpc_broker.Outcome.{◌>>=◌, Outcome, done, fault}
use rpc_broker.Base.{ℕ, String, Bool, Option, none, some, List, [], ◌∷◌}
use rpc_broker.Base.{get_elem?}
use rpc_broker.Base.{Text}

-- The parameters of CMD_CreateNewArgument. The handler changes the settings of its program.
pub record Argument (S : Type 0) : Type 0 where
  pub option : String
  pub usage : String
  pub description : String
  pub is_mandatory : Bool
  pub takes_value : Bool
  pub handler : Option Text → S → Outcome S

-- The calls of handlers that CMD_Parse makes for the options that it finds in `argv`: each by the place
-- of its argument among those that were added, with what the handler is given.
abbrev pub Found : Type 0
Found = List (ℕ × Option Text)

module _ {S : Type 0} where
  abbrev pub handle : Option (Argument S) → Option Text → S → Outcome S
  handle none value s = fault
  handle (some a) value s = a.handler value s

  -- These calls, in order.
  abbrev pub handle_all : List (Argument S) → Found → S → Outcome S
  handle_all added [] s = done s
  handle_all added ((i, value) ∷ found) s =
      handle (get_elem? added i) value s >>= λ s'. handle_all added found s'
