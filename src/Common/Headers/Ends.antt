-- ===== src/Common/Headers/Ends.antt =====
-- common/common.c: the loops of the readers end.
use rpc_broker.Msgpack.{
  Msgpack, IsCodec, Packet, Value, Entries, continue, parse_error, nomem_error,
}
use rpc_broker.Msgpack.Loop.{Ending, drained, left, each_object}
use rpc_broker.Msgpack.Loop.Rounds.{each_object-Ends}
use rpc_broker.Common.Headers.{
  int_result, str_result, op_result, str_header, display, displayed, extract_header, get_hdr_int,
  get_hdr_str, get_op_name, unpack_data, int_round, str_round, op_round,
}
use rpc_broker.Stulibc.{Stulibc, IsStulibc}
use rpc_broker.Common.Protocol.{operation_hdr}
use rpc_broker.Outcome.{Outcome, done, Ends, exited, fault, spins, ◌>>=◌}
use rpc_broker.Base.{Bool, true, false, List, [], arith}
use rpc_broker.Base.{◌==◌, if◌then◌else◌}
use rpc_broker.Base.{Text}
use rpc_broker.Base.{ℤ, pos}

bind-Ends :
    {A B : Type 0} (o : Outcome A) (f : A → Outcome B)
    → Ends o
    → ((x : A) → Ends (f x))
    → Ends (o >>= f)
bind-Ends (done x) f h k = k x
bind-Ends (exited n) f h k = tt
bind-Ends fault f h k = tt
bind-Ends spins f h k = h

key_name-Ends : (k v : Value) → Ends (extract_header (Value.map (Entries.entry k v Entries.empty)))
unfolding extract_header
key_name-Ends (Value.str k) v = ground arith
key_name-Ends Value.nil v = tt
key_name-Ends (Value.boolean b) v = tt
key_name-Ends (Value.positive_integer n) v = tt
key_name-Ends (Value.negative_integer n) v = tt
key_name-Ends (Value.array vs) v = tt
key_name-Ends (Value.map es) v = tt
key_name-Ends Value.other v = tt

extract_header-Ends : (obj : Value) → Ends (extract_header obj)
unfolding extract_header
extract_header-Ends (Value.map (Entries.entry k v Entries.empty)) = key_name-Ends k v
extract_header-Ends (Value.map (Entries.entry k v (Entries.entry k' v' es))) = tt
extract_header-Ends (Value.map Entries.empty) = tt
extract_header-Ends (Value.str k) = tt
extract_header-Ends Value.nil = tt
extract_header-Ends (Value.boolean b) = tt
extract_header-Ends (Value.positive_integer n) = tt
extract_header-Ends (Value.negative_integer n) = tt
extract_header-Ends (Value.array vs) = tt
extract_header-Ends Value.other = tt

int_round-Ends : (look : Text) (value : ℤ) (obj : Value) → Ends (int_round look value obj)
unfolding int_round
int_round-Ends look value obj =
    bind-Ends (extract_header obj) _ (extract_header-Ends obj) (λ kv. tt)

module _ (l : Stulibc) (sl : IsStulibc l) where
  str_header-Ends : (look name : Text) (v : Value) → Ends (str_header l look (name, v))
  str_header-Ends look name (Value.str bs) = rw (sl.str_equals_lem look name) tt
  str_header-Ends look name Value.nil = tt
  str_header-Ends look name (Value.boolean b) = tt
  str_header-Ends look name (Value.positive_integer n) = tt
  str_header-Ends look name (Value.negative_integer n) = tt
  str_header-Ends look name (Value.array vs) = tt
  str_header-Ends look name (Value.map es) = tt
  str_header-Ends look name Value.other = tt

  str_round-Ends : (look : Text) (u : Unit {0}) (obj : Value) → Ends (str_round l look u obj)
  unfolding str_round
  str_round-Ends look u obj =
      bind-Ends (extract_header obj) _ (extract_header-Ends obj)
        (λ kv. str_header-Ends look kv.0 kv.1)

  op_round-Ends : (u : Unit {0}) (obj : Value) → Ends (op_round l u obj)
  unfolding op_round
  op_round-Ends u obj =
      bind-Ends (extract_header obj) _ (extract_header-Ends obj)
        λ kv. rw (sl.str_equals_lem operation_hdr kv.0) tt

int_result-Ends : (x : Ending ℤ ⊥) → Ends (int_result x)
int_result-Ends (drained value parse_error) = tt
int_result-Ends (drained value continue) = tt
int_result-Ends (drained value nomem_error) = tt
int_result-Ends (left b) = tt

str_result-Ends : (l : Stulibc) (x : Ending (Unit {0}) Text) → Ends (str_result l x)
str_result-Ends l (drained u r) = tt
str_result-Ends l (left t) = tt

op_result-Ends : (l : Stulibc) (x : Ending (Unit {0}) Text) → Ends (op_result l x)
op_result-Ends l (drained u parse_error) = tt
op_result-Ends l (drained u continue) = tt
op_result-Ends l (drained u nomem_error) = tt
op_result-Ends l (left t) = tt

displayed-Ends : (x : Ending (List Value) ⊥) → Ends (displayed x)
displayed-Ends (drained value parse_error) = tt
displayed-Ends (drained value continue) = tt
displayed-Ends (drained value nomem_error) = tt
displayed-Ends (left b) = tt

if_Ends : {A : Type 0} (b : Bool) (x y : Outcome A) → Ends x → Ends y → Ends (if b then x else y)
if_Ends true x y h k = h
if_Ends false x y h k = k

module _ (m : Msgpack) (c : IsCodec m) (l : Stulibc) (sl : IsStulibc l) where
  -- On every packet, well-formed or not, the loops of the readers end.
  pub readers_return :
      (packet : Packet) (look : Text)
      → Ends (get_hdr_int m packet look)
        × Ends (get_hdr_str l m packet look)
        × Ends (get_op_name l m packet)
        × Ends (unpack_data m packet)
  unfolding get_hdr_int get_hdr_str get_op_name unpack_data
  readers_return packet look = (
    bind-Ends (each_object m (int_round look) packet (pos 0)) _
        (each_object-Ends (int_round look) m c (int_round-Ends look) packet (pos 0))
        int_result-Ends,
    bind-Ends (each_object m (str_round l look) packet tt) _
        (each_object-Ends (str_round l look) m c (str_round-Ends l sl look) packet tt)
        (str_result-Ends l),
    bind-Ends (each_object m (op_round l) packet tt) _
        (each_object-Ends (op_round l) m c (op_round-Ends l sl) packet tt) (op_result-Ends l),
    if_Ends (packet.len == 0) (done ([], false)) _ tt (
        bind-Ends (each_object m display packet []) _
          (each_object-Ends display m c (λ shown v. tt) packet []) displayed-Ends),
  )
