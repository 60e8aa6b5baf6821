-- ===== src/CString.antt =====
-- kernel/lib/string.c: C strings and memory. A `char *` is the list of the bytes from the pointer to the
-- end of its array; the string ends at the first 0, and the end of the list reads as 0. A write past
-- the end of the list is lost.
pub mod Length
pub mod Copy
pub mod Compare
pub mod Search
pub mod Memory
pub mod Number
pub mod Fill
pub mod Duplicate
pub mod Token
mod Tests
