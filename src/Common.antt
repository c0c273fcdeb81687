-- ===== src/Common.antt =====
-- common/: the protocol's constants, the header readers, the writers, and packets on the wire.
pub mod Protocol
pub mod Prototypes
pub mod Headers
pub mod Pack
pub mod Format
pub mod ByteOrder
pub mod Receive
pub mod Wire
pub mod Settings
pub mod Arguments
pub mod CopyString
pub mod Waiting
pub mod KeyValue
pub mod Exchange
