-- ===== src/Core.antt =====
-- The core package (packages/core/src): the evaluation of policy documents, order states, signatures.
pub mod PolicyYaml
pub mod Der
pub mod Json
pub mod OrderState
mod Examples
