-- ===== src/Cache.antt =====
-- src/cache.cpp and src/cache.hpp: the local block cache.
pub mod Bitmap
pub mod Entry
pub mod Region
pub mod Parts
pub mod Pins
pub mod Claim
pub mod Fetch
pub mod Wait
pub mod Retry
pub mod Checksum
pub mod Evict
pub mod Write
pub mod Capacity
pub mod Name
mod Tests
