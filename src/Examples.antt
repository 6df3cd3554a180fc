-- ===== src/Examples.antt =====
-- The theorems at concrete inputs.
mod Chunks
mod Matches
mod Budgets
mod Sizes
mod Frames
mod Windows
mod Queues
pub mod Arguments
mod Parsers
mod Contributions
mod DeviceFrames
mod Searches
mod Buffers
