-- ===== src/Common/KeyValue.antt =====
-- common/common.c: the printing of the settings of a file.
use rpc_broker.Stulibc.{Ptr, printed}
use rpc_broker.Outcome.{◌>>◌, Outcome, done}
use rpc_broker.Base.{Bool, List, [], ◌∷◌}
use rpc_broker.Base.{if◌then◌else◌}

-- `struct KeyValuePair` of a setting.
pub record KeyValuePair : Type 0 where
  pub key : Ptr
  pub value : Ptr

-- A section of the file: its name, and its settings.
pub record Section : Type 0 where
  pub key : Ptr
  pub settings : List KeyValuePair

abbrev pub print_key_value_pair : KeyValuePair → Outcome (Unit {0})
print_key_value_pair header = printed header.key >> printed header.value

-- LIST_Print calls `fnPrint` on every node.
unfoldable pub print_pairs : List KeyValuePair → Outcome (Unit {0})
print_pairs [] = done tt
print_pairs (header ∷ settings) = print_key_value_pair header >> print_pairs settings

abbrev pub print_setting : Section → Outcome (Unit {0})
print_setting header = printed header.key >> print_pairs header.settings

-- LIST_ForEach(settings, printSetting)
unfoldable pub print_settings : List Section → Outcome (Unit {0})
print_settings [] = done tt
print_settings (header ∷ settings) = print_setting header >> print_settings settings

abbrev pub print_config_diagnostics : Bool → List Section → Outcome (Unit {0})
print_config_diagnostics verbose settings = if verbose then print_settings settings else done tt
