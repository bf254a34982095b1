-- ===== src/Tests.antt =====
-- The theorems at concrete inputs.
pub mod Machines
mod Mem
mod MemoryMap
mod Memories
mod Cpu
mod Traps
mod Files
mod Programs
pub mod Runs
pub mod Loads
mod Ends
mod Streams
mod Terminals
mod Moves
mod Directories
