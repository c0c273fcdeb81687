-- ===== src/Client.antt =====
-- client/: the request that a client packs.
pub mod Pack
pub mod Exchange
pub mod Proxy
pub mod Settings
pub mod Arguments
pub mod Start
pub mod Main
