-- ===== src/Cache.antt =====
-- The free cache of a tier, of src/tcache.hpp.
pub mod Tier
