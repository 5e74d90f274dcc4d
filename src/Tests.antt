-- ===== src/Tests.antt =====
-- The theorems at concrete inputs, on a small platform.
pub mod Gallery
pub mod Toy
pub mod Requests
pub mod Replies
pub mod Site
pub mod Pages
pub mod School
pub mod Types
