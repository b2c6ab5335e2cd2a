-- ===== src/Buddy.antt =====
-- The buddy allocator, `__buddy_list` of src/free_list.hpp.
pub mod State
pub mod FreeList
pub mod Alloc
pub mod Free
pub mod Ops
pub mod Frame
pub mod Mask
pub mod DoubleFree
pub mod Order
pub mod Tests
pub mod Allocation
