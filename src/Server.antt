-- ===== src/Server.antt =====
-- server/: registering with the broker, and the handler of the broker's messages.
pub mod Register
pub mod Respond
pub mod Proxy
pub mod Marshal
pub mod Process
pub mod Threads
pub mod Settings
pub mod Arguments
pub mod Interface
pub mod Start
pub mod Main
