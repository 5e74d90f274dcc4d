-- ===== src/Gateway.antt =====
-- The pages of the blob gateway (src/blob_gateway/ui).
pub mod Format
pub mod Explorer
