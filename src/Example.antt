-- ===== src/Example.antt =====
-- A concrete environment, in which the hypotheses on the libraries hold, for runs and examples.
pub mod Codec
pub mod Libraries
