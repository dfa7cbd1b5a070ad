-- ===== src/Tiff.antt =====
-- The TIFF container: constants, field types, the file header and the image file directory.
pub mod FieldType
pub mod Tag
pub mod Header
pub mod Entry
pub mod Value
pub mod Prefetch
pub mod Directory
