-- ===== src/Doc.antt =====
-- doc/: the programs that show how the libraries are used.
pub mod BufferUnpack
pub mod Listen
pub mod Simple
