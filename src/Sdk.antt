-- ===== src/Sdk.antt =====
-- The TypeScript SDK (onvm-sdk/src).
pub mod Errors
pub mod Auth
pub mod Client
