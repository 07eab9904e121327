-- ===== src/Hash.antt =====
-- sources/libs/brutal-hash: checksums.
pub mod Adler32
pub mod Crc32
pub mod Fnv
mod Tests
