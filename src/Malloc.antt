-- ===== src/Malloc.antt =====
-- sharedMalloc: the shared-memory allocator.
pub mod Memory
pub mod FreeList
pub mod Allocator
mod Tests
pub mod Tiling
pub mod Chain
pub mod Layout
pub mod Relink
pub mod Finish
pub mod Carve
pub mod Fit
pub mod FirstFit
pub mod Candidate
pub mod ExtremalFit
pub mod NextFit
pub mod Glue
pub mod Insert
pub mod Absorb
pub mod Rover
pub mod Coalesce
pub mod Position
pub mod Release
pub mod InsertFree
pub mod Free
pub mod Allocate
pub mod SetUp
pub mod Init
pub mod Dump
pub mod DumpRows
pub mod History
pub mod Demo
