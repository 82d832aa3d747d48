-- ===== src/Utils.antt =====
-- kernel/utils: numbers to text and back (stdlib.c), and the C strings (string.c).
pub mod Stdlib
pub mod Strings
