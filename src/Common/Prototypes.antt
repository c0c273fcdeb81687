-- ===== src/Common/Prototypes.antt =====
-- server/server_interface.h: the functions that a client may call, with the types that
-- server/generate_proxy.pl and client/generate_proxy.pl know.
use rpc_broker.Msgpack.{Scalar, int, text}
use rpc_broker.Outcome.{Outcome, done, ◌>>=◌, fault}
use rpc_broker.Stulibc.{Ptr, to, null, unset}
use rpc_broker.Base.{List, [], ◌∷◌}
use rpc_broker.Base.{Text, codes}
use rpc_broker.Base.{ℤ}

pub data CType : Type 0 where
  int_type : CType
  char_ptr : CType

-- `fnRet fnName( fnParams );`
pub record Prototype : Type 0 where
  pub result : CType
  pub name : Text
  pub params : List CType

-- The prototypes of server_interface.h, in their order.
abbrev pub get_server_date_prototype : Prototype
get_server_date_prototype = record { result = char_ptr; name = codes "getServerDate"; params = [] }

abbrev pub add_prototype : Prototype
add_prototype = record { result = int_type; name = codes "add"; params = int_type ∷ int_type ∷ [] }

abbrev pub echo_prototype : Prototype
echo_prototype = record { result = char_ptr; name = codes "echo"; params = char_ptr ∷ [] }

abbrev pub get_broker_name_prototype : Prototype
get_broker_name_prototype = record { result = char_ptr; name = codes "getBrokerName"; params = [] }

abbrev pub say_hello_prototype : Prototype
say_hello_prototype = record {
  result = char_ptr;
  name = codes "sayHello";
  params = int_type ∷ char_ptr ∷ [];
}

abbrev pub say_dog_prototype : Prototype
say_dog_prototype = record {
  result = char_ptr;
  name = codes "sayDog";
  params = char_ptr ∷ char_ptr ∷ char_ptr ∷ char_ptr ∷ [];
}

abbrev pub diffirence_prototype : Prototype
diffirence_prototype = record {
  result = int_type;
  name = codes "diffirence";
  params = int_type ∷ int_type ∷ [];
}

-- A value of the type, and arguments for the parameters.
abbrev pub ValueOf : CType → Type 0
ValueOf int_type = ℤ
ValueOf char_ptr = Ptr

abbrev pub Args : List CType → Type 0
Args [] = Unit
Args (t ∷ ts) = ValueOf t × Args ts

-- The conversion that a proxy puts into its format, `%d` or `%s`.
abbrev pub conversions : List CType → Text
conversions [] = []
conversions (int_type ∷ ts) = b'%' ∷ b'd' ∷ conversions ts
conversions (char_ptr ∷ ts) = b'%' ∷ b's' ∷ conversions ts

-- A value as it is passed to the packing function, which takes `strlen` of a `char*`.
abbrev pub passed : (t : CType) → ValueOf t → Outcome Scalar
passed int_type i = done (int i)
passed char_ptr (to t) = done (text t)
passed char_ptr null = fault
passed char_ptr unset = fault

abbrev pub all_passed : (ts : List CType) → Args ts → Outcome (List Scalar)
all_passed [] args = done []
all_passed (t ∷ ts) (v, vs) = passed t v >>= λ x. all_passed ts vs >>= λ xs. done (x ∷ xs)
