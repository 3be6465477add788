-- ===== src/Fuse.antt =====
-- src/fuse.cpp: the parts of the file system that compute without a call of the kernel or of S3.
pub mod Multipart
pub mod Options
pub mod Names
pub mod Budget
pub mod Errors
pub mod Retry
pub mod SharedMutex
pub mod Inode
pub mod Window
mod Tests
