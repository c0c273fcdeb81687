-- ===== src/Example/Libraries.antt =====
-- Lists that grow at their end, and a network that is up.
use rpc_broker.Server.Interface.{Strings}
use rpc_broker.Example.Codec.Laws.{codec-IsCodec}
use mathlib.Core.List.{append-nil}
use rpc_broker.Env.{Env, IsLawful}
use rpc_broker.Stulibc.{Stulibc, IsStulibc, Net, IsUp, Reads}
use rpc_broker.Outcome.{Outcome, done, exited, fault}
use rpc_broker.Base.{
  ℕ, refl, sym, Bool, true, false, Option, none, some, List, [], ◌∷◌, ◌++◌, reverse,
}
use rpc_broker.Base.{◌==◌}
use rpc_broker.Base.{length, get_elem?, erase_idx, take, drop, take-append, drop-append}
use rpc_broker.Base.{Text, text_eq}
use rpc_broker.Base.{pos}
use rpc_broker.Example.Codec.{codec}

abbrev same : Option Text → Option Text → Outcome Bool
same (some a) (some b) = done (text_eq a b)
same none b = done false
same (some a) none = done false

abbrev empty_text : Option Text → Bool
empty_text none = true
empty_text (some t) = length t == 0

abbrev pub stulibc : Stulibc
stulibc = record {
  list_add = λ A xs a. xs ++ a ∷ [];
  list_get = λ A xs i. get_elem? xs i;
  list_delete_node = λ A xs i. erase_idx xs i;
  str_equals = same;
  str_is_null_or_empty = empty_text;
}

pub stulibc-IsStulibc : IsStulibc stulibc
stulibc-IsStulibc = record {
  list_add_inserts = λ A xs a. (xs, [], sym (append-nil xs), refl);
  list_get_lem = λ A xs i. refl;
  list_delete_node_lem = λ A xs i h. refl;
  str_equals_lem = λ a b. refl;
  str_is_null_or_empty_lem = λ a. refl;
  str_is_null_or_empty-null = refl;
}

abbrev readn : List ℕ → ℕ → Option (List ℕ × List ℕ)
readn incoming n = some (take n incoming, drop n incoming)

abbrev pub net : Net
net = record {
  net_tcp_client = λ k a p. done tt;
  send = λ k bs. pos (length bs);
  net_error = exited 1;
  net_readn = readn;
}

pub net-IsUp : IsUp net
net-IsUp = record { connects = λ k a p. refl; sends = λ k bs. refl }

pub net-Reads : Reads net
net-Reads bs rest = rw (take-append bs rest, drop-append bs rest)

abbrev pub env : Env
env = record { msgpack = codec; stulibc = stulibc; net = net; qry_overrun = done tt }

pub env-IsLawful : IsLawful env
env-IsLawful = record { codec = codec-IsCodec; lists = stulibc-IsStulibc }

-- Strings without NULL.
abbrev joined : Option Text → Option Text → Outcome (Option Text)
joined (some a) (some b) = done (some (a ++ b))
joined none b = fault
joined (some a) none = fault

abbrev reversed : Option Text → Outcome (Option Text)
reversed (some a) = done (some (reverse a))
reversed none = fault

abbrev pub strings : Strings
strings = record { str_reverse = reversed; str_join = joined }
