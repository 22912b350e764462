-- ===== src/Tests.antt =====
-- The theorems applied to concrete inputs, and runs of the definitions.
mod Frames
mod Streams
mod Terminals
pub mod Histories
mod Engines
mod Environments
mod Sizes
mod Texts
mod Commands
