-- ===== src/Tests.antt =====
-- Runs at concrete inputs, and the theorems applied to them.
mod Data
mod Messages
mod Brokering
mod Registering
mod Serving
mod Looping
mod Calling
mod Session
mod Examples
mod System
mod Configuring
mod Threads
mod Starting
