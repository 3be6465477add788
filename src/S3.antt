-- ===== src/S3.antt =====
-- src/s3.cpp: the text formats of the S3 protocol. A text is the list of its bytes.
pub mod Text
pub mod Decimal
pub mod Range
pub mod Path
pub mod Checksum
pub mod Header
pub mod Crc
pub mod Combine
pub mod Time
pub mod Mtime
mod Tests
