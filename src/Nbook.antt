-- ===== src/Nbook.antt =====
-- The browser client of the nbook program (wasm_programs/nbook/ui).
pub mod Sniff
pub mod Normalize
pub mod Ops
pub mod Types
pub mod Program
pub mod Client
pub mod Session
pub mod Api
pub mod Proxy
pub mod Pages
