-- ===== src/Bitmap.antt =====
-- kernel/lib/bitmap.c: bitmaps over `unsigned long` words of 64 bits.
pub mod Bits
pub mod Find
pub mod Range
mod Tests
