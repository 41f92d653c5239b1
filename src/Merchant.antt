-- ===== src/Merchant.antt =====
-- The merchant's stores (packages/merchant/src): nonces, idempotency keys and checkout sessions.
pub mod Nonce
pub mod Idempotency
pub mod Sessions
pub mod Mandate
mod Examples
