-- ===== src/Fs.antt =====
-- The block cache and the file system of fs/.
pub mod Blocks
pub mod Files
