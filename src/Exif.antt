-- ===== src/Exif.antt =====
-- put/exifutil/exifutil.c: a program under test that prints the EXIF entries of a JPEG file.
pub mod Types
pub mod Endian
pub mod File
pub mod Heap
pub mod Entry
pub mod Show
pub mod Ifd
pub mod App1
pub mod Walk
pub mod Main
mod Tests
