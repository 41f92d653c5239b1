-- ===== src/Policy.antt =====
-- The policy engine (packages/policy/src): money, the reservation ledger, snapshots, rules.
pub mod Money
pub mod Ledger
pub mod Evaluator
pub mod Snapshots
pub mod Budget
pub mod Engine
pub mod Audit
mod Examples
