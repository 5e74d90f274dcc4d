-- ===== src/Programs.antt =====
-- The clients of two other programs, which use the SDK directly.
pub mod Execute
pub mod School
pub mod Identity
pub mod Pages
