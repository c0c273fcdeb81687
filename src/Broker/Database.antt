-- ===== src/Broker/Database.antt =====
-- broker/register_service.c: the statements that a registration executes.
use rpc_broker.Broker.State.{ServiceReg}
use rpc_broker.Stulibc.{Ptr, to, unset, null}
use rpc_broker.Base.{ℕ, zero, suc, ◌+◌, ◌/◌, ◌%◌, Option, none, some, List, [], ◌∷◌, ◌++◌}
use rpc_broker.Base.{ltb, ◌==◌, if◌then◌else◌}
use rpc_broker.Base.{get_elem?, length}
use rpc_broker.Base.{Text, codes}
use rpc_broker.Base.{ℤ, pos, negsuc, rounds}
use rpc_broker.Outcome.{◌>>=◌, ◌>>◌, Outcome, fault, done}

-- `%d`, of at most as many digits as the fuel
unfoldable pub digits : ℕ → ℕ → Text
digits zero n = []
digits (suc fuel) n =
    let high = digits fuel (n / 10) in
    if ltb n 10 then (48 + n) ∷ [] else high ++ (48 + n % 10) ∷ []

unfoldable pub decimal : ℤ → Text
unfolding digits
decimal (pos n) = digits 10 n
decimal (negsuc n) = b'-' ∷ digits 10 (suc n)

-- `%s`; glibc prints NULL as "(null)"
abbrev pub shown : Ptr → Outcome Text
shown unset = fault
shown null = done (codes "(null)")
shown (to t) = done t

-- `printf(qry)` takes `qry` for a format: a `%` that is not doubled asks for an argument that is
-- not there.
unfoldable pub printf : Text → Outcome (Unit {0})
printf [] = done tt
printf (c ∷ []) = if c == b'%' then fault else done tt
printf (c ∷ d ∷ qry) =
    let both = printf qry in
    let one_less = printf (d ∷ qry) in
    if c == b'%' then (if d == b'%' then both else fault) else one_less

unfoldable pub registration_sql : Text
registration_sql =
    codes
      "CREATE TABLE IF NOT EXISTS ServiceRegistration (id INTEGER PRIMARY KEY, name TEXT, address TEXT, port TEXT, num_services INT);\nCREATE TABLE IF NOT EXISTS Services (ServiceRegistrationId INTEGER, name TEXT);\nINSERT INTO ServiceRegistration (name, address, port, num_services) VALUES('"

unfoldable pub service_sql : Text
service_sql =
    codes
      "CREATE TEMP TABLE IF NOT EXISTS Variables (Name TEXT PRIMARY KEY, Value INTEGER);\nINSERT OR REPLACE INTO Variables VALUES('ServiceSergistrationId',(SELECT MAX(id) FROM ServiceRegistration));\nINSERT INTO Services (ServiceRegistrationId, name) VALUES((SELECT coalesce(Value, Name) FROM Variables WHERE Name = 'ServiceSergistrationId' LIMIT 1),'"

-- The text that `sprintf` makes of the first template.
unfoldable pub registration_query : Text → Text → Text → ℤ → Text
registration_query name address port n =
    registration_sql
    ++ (name
        ++ (codes "','"
            ++ (address ++ (codes "','" ++ (port ++ (codes "'," ++ (decimal n ++ codes ");\n")))))))

-- The text of the second template, with the newline that `strcat` adds.
unfoldable pub service_query : Text → Text
service_query name = service_sql ++ (name ++ codes "');\nDROP TABLE Variables;\n\n")

-- The bytes of the array `qry`.
abbrev pub qry_size : ℕ
qry_size = 80

-- `overrun` is what becomes of the writes past `qry`.
module _ (overrun : Outcome (Unit {0})) where
  -- A text is written into `qry` with its NUL, and printed.
  abbrev pub write_and_print : Text → Outcome (Unit {0})
  write_and_print qry = (if ltb (length qry) qry_size then done tt else overrun) >> printf qry

  -- The loop over the services: `n` more, from index `i`.
  unfoldable pub service_queries : ℕ → ℕ → Option (List Ptr) → Outcome (List Text)
  service_queries zero i services = done []
  service_queries (suc n) i services =
      let rest = service_queries n (suc i) services in
      cell services i >>= λ p. shown p >>= λ name.
      write_and_print (service_query name) >> (rest >>= λ qs. done (service_query name ∷ qs))
    where
      cell : Option (List Ptr) → ℕ → Outcome Ptr
      cell none k = fault
      cell (some cells) k = elim (get_elem? cells k) [ some p ↦ done p | none ↦ fault ]

  -- All statements of one registration, in order.
  unfoldable pub registration_queries : ServiceReg → Outcome (List Text)
  registration_queries reg = shown reg.service_name >>= λ name. shown reg.address >>= λ address.
      shown reg.port >>= λ port.
      write_and_print (registration_query name address port reg.num_services)
      >> (service_queries (rounds reg.num_services) 0 reg.services >>= λ qs. done (
          registration_query name address port reg.num_services
          ∷ (qs ++ codes "select * from ServiceRegistration;" ∷ [])))
