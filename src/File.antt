-- ===== src/File.antt =====
-- project/projet_PNL/file.c: the regular files.
pub mod Content
pub mod Read
pub mod Map
pub mod Open
pub mod Page
pub mod Write
pub mod ReadBack
