-- ===== src/Slab.antt =====
-- The slab allocator, src/slab.c and src/slab.h.
pub mod Bitset
pub mod SizeClass
pub mod Links
pub mod Manager
pub mod Alloc
pub mod Places
pub mod Valid
pub mod Init
