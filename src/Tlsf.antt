-- ===== src/Tlsf.antt =====
-- The two-level segregated fit list of a sheet, `__tlsf_list` of src/cache_list.hpp.
pub mod State
pub mod Tests
pub mod FreeList
pub mod Alloc
pub mod Free
pub mod Lists
pub mod Bitmaps
pub mod Mapping
pub mod Tiles
pub mod Core
pub mod Search
pub mod Valid
pub mod Run
pub mod Refine
pub mod Answers
