-- ===== src/Broker/Printing.antt =====
-- broker/broker_support.c: the printing of the repositories, for the pointers that it reads.
use rpc_broker.Stulibc.{printed}
use rpc_broker.Base.{List, [], ◌∷◌}
use rpc_broker.Broker.State.{ServiceReg, ClientReg}
use rpc_broker.Outcome.{Outcome, done, ◌>>◌}

abbrev pub print_service_registration : ServiceReg → Outcome (Unit {0})
print_service_registration reg = printed reg.service_name >> printed reg.address >> printed reg.port

-- LIST_ForEach goes through the whole list.
unfoldable pub print_service_repository : List ServiceReg → Outcome (Unit {0})
print_service_repository [] = done tt
print_service_repository (reg ∷ repo) =
    print_service_registration reg >> print_service_repository repo

abbrev pub print_client_request_registration : ClientReg → Outcome (Unit {0})
print_client_request_registration reg =
    printed reg.address >> printed reg.port >> printed reg.operation

unfoldable pub print_client_request_repository : List ClientReg → Outcome (Unit {0})
print_client_request_repository [] = done tt
print_client_request_repository (reg ∷ repo) =
    print_client_request_registration reg >> print_client_request_repository repo
