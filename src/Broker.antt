-- ===== src/Broker.antt =====
-- broker/: the registrations and requests that the broker keeps, and the handler of a connection.
pub mod State
pub mod Printing
pub mod Forward
pub mod Unpack
pub mod Find
pub mod Database
pub mod Ack
pub mod Handler
pub mod Settings
pub mod Contract
pub mod Loop
pub mod Main
pub mod Refines
