-- ===== src/Image.antt =====
-- The image codecs: include/image and internal/image (under src/).
pub mod Codec
pub mod Factory
mod Tests
