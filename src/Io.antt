-- ===== src/Io.antt =====
-- src/io.cpp: memory budgets and range storage of the I/O layer.
pub mod Prefetch
pub mod Range
pub mod Pool
mod Tests
