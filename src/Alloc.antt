-- ===== src/Alloc.antt =====
-- lib/malloc.c
pub mod Sizes
pub mod Bounds
pub mod Pages
pub mod Frames
pub mod FreeList
pub mod Unlink
pub mod Lists
pub mod Divide
pub mod Take
pub mod Pool
pub mod Chunks
pub mod ChunkSize
mod Tests
pub mod Setup
mod SetupTests
