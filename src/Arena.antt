-- ===== src/Arena.antt =====
-- The arena of src/arena.hpp: its tiers, the requests, the returns and the questions.
pub mod Tier
pub mod Remove
pub mod Route
pub mod Query
pub mod Pop
pub mod Grow
pub mod Push
pub mod Others
pub mod Answers
pub mod Launder
pub mod Resize
pub mod Growth
pub mod Expansion
pub mod Insert
pub mod Cached
pub mod Recycle
pub mod Small
pub mod Routing
pub mod Unknown
pub mod Requests
mod GrowTests
mod ResizeTests
mod Tests
