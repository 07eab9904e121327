-- ===== src/Codec.antt =====
-- sources/libs/codec-deflate: the deflate format, both ways.
pub mod Deflate
pub mod Huff
pub mod Inflate
pub mod Stored
mod Tests
