-- ===== src/Broker/Unpack/Fields.antt =====
-- What each kind of header does to the registration that is being read.
use mathlib.Core.List.{append_assoc}
use rpc_broker.Msgpack.{Value, values, text}
use rpc_broker.Common.Protocol.{
  sender_address_hdr, services_count_hdr, reply_port_hdr, request_type_hdr, service_name_hdr,
}
use rpc_broker.Broker.State.{ServiceReg}
use rpc_broker.Broker.Unpack.{
  registration_field, store_services, ServiceReg, sender_address_hdr, services_count_hdr, Ptr,
  Value, reply_port_hdr, unset, done, service_name_hdr, allocated, to, store_service,
}
use rpc_broker.Stulibc.{Stulibc, IsStulibc, Ptr, unset, to}
use rpc_broker.Base.{
  ℕ, suc, ◌<◌, ◌≡◌, ap, ◌∙◌, some, List, [], ◌∷◌, ◌++◌, arith, map, length-snoc, shift, set-append,
}
use rpc_broker.Base.{lt→ltb}
use rpc_broker.Base.{length, set, replicate, length-append}
use rpc_broker.Base.{Text, text_eq, text_eq_refl, until_nul}
use rpc_broker.Base.{int32}
use rpc_broker.Outcome.{done}

module _ (l : Stulibc) (sl : IsStulibc l) where
  pub field_address :
      (bs : List ℕ) (reg : ServiceReg)
      → registration_field l reg (sender_address_hdr, Value.str bs)
        ≡ done (record reg { address = to (until_nul bs) })
  unfolding registration_field
  field_address bs reg =
      rw (sl.str_equals_lem sender_address_hdr sender_address_hdr, text_eq_refl sender_address_hdr)

  pub field_port :
      (bs : List ℕ) (reg : ServiceReg)
      → registration_field l reg (reply_port_hdr, Value.str bs)
        ≡ done (record reg { port = to (until_nul bs) })
  unfolding registration_field sender_address_hdr reply_port_hdr text_eq
  field_port bs reg = rw (
    sl.str_equals_lem sender_address_hdr reply_port_hdr,
    sl.str_equals_lem reply_port_hdr reply_port_hdr,
  )

  pub field_name :
      (bs : List ℕ) (reg : ServiceReg)
      → registration_field l reg (service_name_hdr, Value.str bs)
        ≡ done (record reg { service_name = to (until_nul bs) })
  unfolding registration_field sender_address_hdr reply_port_hdr service_name_hdr text_eq
  field_name bs reg = rw (
    sl.str_equals_lem sender_address_hdr service_name_hdr,
    sl.str_equals_lem reply_port_hdr service_name_hdr,
    sl.str_equals_lem service_name_hdr service_name_hdr,
  )

  pub field_count :
      (n : ℕ) (reg : ServiceReg)
      → registration_field l reg (services_count_hdr, Value.positive_integer n)
        ≡ done (record reg { num_services = int32 n; services = some (allocated n) })
  unfolding registration_field
  field_count n reg =
      rw (sl.str_equals_lem services_count_hdr services_count_hdr, text_eq_refl services_count_hdr)

  pub field_type :
      (n : ℕ) (reg : ServiceReg)
      → registration_field l reg (request_type_hdr, Value.positive_integer n) ≡ done reg
  unfolding registration_field services_count_hdr request_type_hdr text_eq
  field_type n reg = rw (sl.str_equals_lem services_count_hdr request_type_hdr)

-- The names fill the first cells; `more` cells stay unset.
pub store_services_lem :
    (names : List Text) (cells pre : List Ptr) (i more : ℕ)
    → cells ≡ pre ++ (replicate (length names) unset ++ replicate more unset)
    → i ≡ length pre
    → store_services i (values (map text names)) (some cells)
      ≡ done (some (pre ++ (map (λ t. to (until_nul t)) names ++ replicate more unset)))
unfolding store_services
store_services_lem [] cells pre i more e h = rw e
store_services_lem (name ∷ names) cells pre i more e h =
    rw (stored, store_services)
      (store_services_lem names (set cells i (to (until_nul name)))
          (pre ++ to (until_nul name) ∷ []) (suc i) more
          (shift (set cells i (to (until_nul name))) pre (to (until_nul name))
            (replicate (length names) unset ++ replicate more unset)
            (rw (e, h)
              (set-append pre unset (to (until_nul name))
                (replicate (length names) unset ++ replicate more unset))))
          (omega (arith, h, length-snoc pre (to (until_nul name))))
        ∙ ap (λ w. done (some w))
            (append_assoc pre (to (until_nul name) ∷ [])
              (map (λ t. to (until_nul t)) names ++ replicate more unset)))
  where
    room : length pre < length cells
    room =
        rw (e, length-append pre (unset ∷ (replicate (length names) unset ++ replicate more unset)))
          (omega arith)

    stored :
        store_service i (until_nul name) (some cells)
        ≡ done (some (set cells i (to (until_nul name))))
    stored = rw (lt→ltb i (length cells) (omega (arith, room)))
