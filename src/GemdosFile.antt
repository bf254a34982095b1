-- ===== src/GemdosFile.antt =====
-- gemdosfile.c
pub mod State
pub mod Path
pub mod Handles
pub mod Access
pub mod Calls
pub mod Streams
pub mod Globs
pub mod Search
pub mod PathLaws
pub mod HandleLaws
pub mod OpenFiles
pub mod FileCalls
pub mod Reading
pub mod Transfers
pub mod Opening
pub mod Reserved
pub mod GlobLaws
pub mod Dta
pub mod Listing
pub mod Directory
