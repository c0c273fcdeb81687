-- ===== src/Lib.antt =====
-- RPC-Broker: a broker of remote procedure calls. A server registers its services with the broker. A
-- client sends the broker a request for an operation; the broker writes the request down and forwards
-- it to a server that offers the operation; the server sends its response to the broker, which
-- forwards it to the client that asked. Every message is a packet: a length in network byte order,
-- and a sequence of msgpack maps of one entry each, the headers.
--
-- Which file models which part:
--   Common.Protocol        common/protocol.h: header names, sizes, types of messages
--   Common.Headers         common/common.c: extract_header, get_req_type, get_hdr_int, get_hdr_str,
--                          get_op_name, unpack_data
--   Common.Pack            common/common.c: pack_map_int, pack_map_str
--   Common.Format          the loops over a format in client/pack_client_request_data.c and
--                          server/pack_client_response_data.c
--   Common.ByteOrder       htonl and ntohl, with the four bytes as they are on the wire
--   Common.Receive         common/common.c: get_response, and the reads of broker/broker.c
--   Common.Wire            common/common.c: send_data, send_req
--   Common.Exchange        common/common.c: send_req_wait_response, thread_send_request
--   Common.CopyString      common/common.c: copyString, with the bytes that it writes
--   Common.Waiting         what the two accept loops wait for: select, and stulibc's lock
--   Broker.State           common/common.h: the repositories and the configuration
--   Broker.Unpack          broker/unpack_service_registration_buffer.c
--   Broker.Find            broker/find_server_for_request.c, broker/find_client_for_response.c
--   Broker.Database        broker/register_service.c: the statements
--   Broker.Ack             broker/register_service.c: send_svc_req_ack
--   Broker.Handler         broker/broker.c: read_data, with broker/get_sender_address.c,
--                          broker/register_client_request.c and reg_svc_req
--   Broker.Printing        broker/broker_support.c: the printing of the repositories
--   Broker.Forward         broker/forward_response_to_client.c, broker/forward_request_to_server.c
--   Broker.Handler.Overruns
--                          broker/register_service.c: the statements and the array `qry`
--   Broker.Loop            broker/broker.c: wait_for_connections, process_data_avail, wait_rd_socket
--   Broker.Main            broker/broker.c: main; Broker.Main.Overread: a port without a NUL
--   Broker.Contract        what the broker promises: books of services, pending requests and
--                          deliveries, and the steps that an event makes in them
--   Broker.Refines         the handler of Broker.Handler against these steps
--   Server.Register        server/service_register_with_broker.c, the names in
--                          server/server_interface.c
--   Server.Respond         server/pack_client_response_data.c
--   Server.Marshal         server/unpack_marshal_call.c
--   Server.Process         server/server.c: ReadAndProcessDataOnSocket
--   Server.Start, Main     server/server.c: main up to its loop
--   Server.Interface       server/server_interface.c: the operations
--   Server.Threads         server/server.c: the loop of main, wait_on_socket, and thread_server on
--                          threads whose steps interleave
--   Client.Exchange        client/send_and_receive.c
--   Client.Settings        client/client.c; Server.Settings and Broker.Settings: server/server.c
--                          and broker/broker.c; Common.Settings: the copies they all make
--   Client.Start           client/client.c: setupCmd
--   Common.Arguments       the options of the command line; Server.Arguments and Client.Arguments: those
--                          that server/server.c and client/client.c add
--   Common.KeyValue        common/common.c: printKeyValuePair and printSetting
--   Doc                    doc/use_buffer_unpack.c, doc/listen.c, doc/usestulibc.c
--   Client.Pack            client/pack_client_request_data.c
--   Client.Main            client/client.c: main, the calls through the proxies
--   Common.Prototypes      server/server_interface.h: the functions and their types
--   Server.Proxy           what server/generate_proxy.pl writes: call_marshelResponse_send
--   Client.Proxy           what client/generate_proxy.pl writes: a function for each prototype
--   Journey                a request through pack_client_request_data, read_data and
--                          ReadAndProcessDataOnSocket
--   Journey.Reply          a reply through pack_client_response_data, read_data, waitForResponse and
--                          the readers
--   Journey.RoundTrip      a call from the client's request to its result, through all of these
--   Journey.RemoteCall     the same from the client's proxy to what it returns; Journey.Faulting: a
--                          call that ends the server; Journey.Session: the calls of client/client.c
--   System                 clients, broker and server as one step relation, over packets that are
--                          delayed, reordered, repeated or lost
--   Base, Outcome, Action  numbers, lists, bytes; results of a run; results with a state
--   Example, Tests         a codec, a library and a network that satisfy the assumptions; runs
-- Functions keep their names. `Lookup`, `Kind`, `Delivery`, `Frames`, `Laws` and the children of
-- Find, Unpack and Handler hold what is proved about their parents.
--
-- How C is modelled:
--   A run gives an `Outcome`: a value, `exited` with a code, `fault` for undefined behaviour and for
--   what depends on a value that was never set, or `spins` when a loop is out of fuel. Code that
--   changes a state is an `Action`, which also gives the state when it ends early.
--   A pointer to a string is `unset`, `null` or `to` the bytes before the NUL. An `int` is an
--   integer, and what is stored in one wraps to 32 bits (`int32`).
--   An array that is read as a string and has no NUL is read past its end, which is a fault
--   (`c_string`). The statements that reg_svc_req writes are longer than its array `qry`; what becomes
--   of these writes, which C leaves open, is a parameter, `qry_overrun`.
--   `malloc` gives memory. Some writes of the code go one byte past a block (the NULs that
--   extract_header, get_hdr_str, get_op_name and copyString write); outside Common.CopyString these
--   writes are taken not to disturb other objects. A key of a header that does not leave a NUL in its
--   20 bytes is a fault, and so is a write outside the block of service names.
--   Bytes of a packet that do not arrive leave its buffer unset; going on with them is a fault.
--   Output to the terminal is left out, except where it reads a pointer that may be unset (`printed`)
--   or takes its text as a format.
--   The database is the list of the statements that were executed. The network is the list of what
--   was sent, with the result of each call.
--
-- What is assumed, as parameters: the codec of msgpack-c (`Msgpack`, `IsCodec`: an object is decoded
-- from bytes that it takes, and packed headers decode to themselves), the lists and the string tests
-- of stulibc (`Stulibc`, `IsStulibc`; where LIST_Add puts an element is left open), and the sockets
-- (`Net`, with `IsUp` for one that takes all it is given and `Reads` for reads that are not cut
-- short). `Env` holds the three, and `qry_overrun`. `Waiting` has stulibc's lock;
-- `IsWaiting` says that a lock which nobody holds is acquired, and is free again after its release.
--
-- Bounds: a loop over the objects of a packet has one round more than the packet has bytes, which is
-- enough because every object takes a byte. The acknowledgement has three rounds. The searches run
-- over the length of a repository.
--
-- The proxies are C files that two Perl programs write, one function or one branch for each prototype
-- of server/server_interface.h. Server.Proxy and Client.Proxy interpret a list of prototypes the way
-- the templates write them out: an `int` parameter is read through `*(int*)`, a `char*` one is the
-- pointer. What a parameter is when it is read as the other type depends on the machine, and is a
-- fault. How the programs find the prototypes in the text of the header is not modelled.
--
-- In Server.Marshal a call is recorded and the generated function is the parameter `answer`, which may
-- end the process; `answer_of` of Server.Proxy.Replies is the one that runs the server's proxy. In
-- Server.Marshal `ptrOperation` is taken to keep its value from one round of the loop to the next, and the write of
-- an int64_t into a block of sizeof(int) bytes not to disturb other objects. In Server.Process one
-- connection is read after the other; in Server.Threads the steps of the threads interleave, with a
-- step for `accept`, one for the reads, one for the look at `isRegistered` or its setting, and one for
-- the call; threads that wait in `accept` for ever are left out. The functions that take the length of
-- a packet as an `int` are given packets shorter than 2^31 bytes.
--
-- In Client.Exchange the arguments of the thread that sends stand on the stack frame of
-- send_and_receive: either the thread runs before the wait ends, and then all of it before the wait,
-- or it runs later (`is_sent_in_time` is false), which is a fault. CHECK_STRING and
-- STR_EqualsIgnoreCase are parameters of the settings.
--
-- In System a step is the start of a client's call, or one packet read by the broker or by the server,
-- from all packets that clients and the server have sent, wherever they were sent to, with which the
-- broker or the server comes back; there is one server, which is registered, and the broker's books
-- hold any registrations from the start.
--
-- The accept loops are run for any number of rounds, each with what select and accept give in it. The
-- broker's loop handles a connection before it waits again, as PROCESS_DATA_FN does when it is a call
-- and not a thread.
--
-- An overflow of a signed `int` in an operation is a fault. A `return` of main is an exit.
--
-- Not modelled: the start of the libraries; what CMD_Parse does with `argv`, of which the calls of
-- handlers that it makes are given; the usage texts.
pub mod Base
pub mod Outcome
pub mod Action
pub mod Msgpack
pub mod Stulibc
pub mod Env
pub mod Common
pub mod Broker
pub mod Server
pub mod Client
pub mod Journey
pub mod System
pub mod Doc
pub mod Example
mod Tests
