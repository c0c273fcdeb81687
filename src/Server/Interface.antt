-- ===== src/Server/Interface.antt =====
-- server/server_interface.c: the operations that a server offers.
use rpc_broker.Common.Prototypes.{
  get_server_date_prototype, add_prototype, echo_prototype, get_broker_name_prototype,
  say_hello_prototype, say_dog_prototype, diffirence_prototype,
}
use rpc_broker.Server.Proxy.{Operation}
use rpc_broker.Outcome.{◌>>=◌}
use rpc_broker.Stulibc.{Ptr, to, null, given}
use rpc_broker.Base.{Option, some, none, List, [], ◌∷◌}
use rpc_broker.Base.{◌+◌, ◌≡◌, sym, ap, ◌∙◌, arith}
use rpc_broker.Base.{ltb, if◌then◌else◌}
use rpc_broker.Base.{Text, codes}
use rpc_broker.Base.{ℤ, pos, negsuc, InRange}
use rpc_broker.Base.{◌+ℤ◌, pos_part, neg_part, sub_ℕ}
use rpc_broker.Outcome.{Outcome, done, fault}

-- A result that an `int` does not hold is a signed overflow.
abbrev pub in_int : ℤ → Outcome ℤ
in_int (pos n) = if ltb n 2147483648 then done (pos n) else fault
in_int (negsuc n) = if ltb n 2147483648 then done (negsuc n) else fault

abbrev minus : ℤ → ℤ → ℤ
minus a b = sub_ℕ (pos_part a + neg_part b) (neg_part a + pos_part b)

unfoldable pub add : ℤ → ℤ → Outcome ℤ
unfolding ◌+ℤ◌
add one two = in_int (one +ℤ two)

unfoldable pub diffirence : ℤ → ℤ → Outcome ℤ
diffirence one two = in_int (minus two one)

abbrev pub get_server_date : Text
get_server_date = codes "20 jan 2012"

abbrev pub get_broker_name : Text
get_broker_name = codes "broker v1"

abbrev pub say_hello : ℤ → Ptr → Text
say_hello age name = codes "sayHello()"

-- What the argument of STR_Reverse, which works in place, points to afterwards, and what STR_Join
-- gives; `none` stands for NULL.
pub record Strings : Type 0 where
  pub str_reverse : Option Text → Outcome (Option Text)
  pub str_join : Option Text → Option Text → Outcome (Option Text)

abbrev pub pointer : Option Text → Ptr
pointer none = null
pointer (some t) = to t

module _ (s : Strings) where
  abbrev pub echo : Ptr → Outcome Ptr
  echo data_ptr = given data_ptr >>= λ t. s.str_reverse t >>= λ r. done (pointer r)

  abbrev pub say_dog : Ptr → Ptr → Ptr → Ptr → Outcome Ptr
  say_dog one two three four = given one >>= λ a. given two >>= λ b.
      s.str_join a b >>= λ first_part. given three >>= λ c. given four >>= λ d.
      s.str_join c d >>= λ second_part.
      s.str_join first_part second_part >>= λ final_part. done (pointer final_part)

-- What stands behind the prototypes.
abbrev pub get_server_date_operation : Operation
get_server_date_operation = record {
  prototype = get_server_date_prototype;
  body = λ args. done (to get_server_date);
}

abbrev pub add_operation : Operation
add_operation = record { prototype = add_prototype; body = λ args. add args.0 args.1.0 }

abbrev pub echo_operation : Strings → Operation
echo_operation s = record { prototype = echo_prototype; body = λ args. echo s args.0 }

abbrev pub get_broker_name_operation : Operation
get_broker_name_operation = record {
  prototype = get_broker_name_prototype;
  body = λ args. done (to get_broker_name);
}

abbrev pub say_hello_operation : Operation
say_hello_operation = record {
  prototype = say_hello_prototype;
  body = λ args. done (to (say_hello args.0 args.1.0));
}

abbrev pub say_dog_operation : Strings → Operation
say_dog_operation s = record {
  prototype = say_dog_prototype;
  body = λ args. say_dog s args.0 args.1.0 args.1.1.0 args.1.1.1.0;
}

abbrev pub diffirence_operation : Operation
diffirence_operation = record {
  prototype = diffirence_prototype;
  body = λ args. diffirence args.0 args.1.0;
}

-- The functions in the order of their prototypes.
abbrev pub operations : Strings → List Operation
operations s =
    get_server_date_operation
    ∷ add_operation
    ∷ echo_operation s
    ∷ get_broker_name_operation
    ∷ say_hello_operation
    ∷ say_dog_operation s
    ∷ diffirence_operation
    ∷ []

in_int-InRange : (z : ℤ) → InRange z → in_int z ≡ done z
in_int-InRange (pos n) h = ground arith
in_int-InRange (negsuc n) h = ground arith

in_int-value : (z s : ℤ) → in_int z ≡ done s → z ≡ s
in_int-value (pos n) s h = ground arith
in_int-value (negsuc n) s h = ground arith

minus-+ℤ : (a b : ℤ) → minus (a +ℤ b) a ≡ b
unfolding ◌+ℤ◌
minus-+ℤ (pos a) (pos b) = ground arith
minus-+ℤ (pos a) (negsuc b) = ground arith
minus-+ℤ (negsuc a) (pos b) = ground arith
minus-+ℤ (negsuc a) (negsuc b) = ground arith

-- The difference of a number and a sum that it is part of is the other part, when the sum is one
-- that an `int` holds; no overflow happens then.
pub diffirence-add :
    (one two sum : ℤ) → InRange two → add one two ≡ done sum → diffirence one sum ≡ done two
unfolding add diffirence
diffirence-add one two sum h e =
    ap (λ z. in_int (minus z one)) (sym (in_int-value (one +ℤ two) sum e))
    ∙ ap in_int (minus-+ℤ one two)
    ∙ in_int-InRange two h
