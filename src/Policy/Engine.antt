-- ===== src/Policy/Engine.antt =====
-- The policy engine (packages/policy/src/engine.ts): intents are decided, reserved, approved, and
-- given credentials.
pub mod State
pub mod Propose
pub mod Callback
