-- ===== src/Lib.antt =====
-- The Steelyard SDK: a policy engine that decides whether an agent may pay, with an audit log of its
-- decisions; the buyer's wallet, which evaluates policy documents and keeps a vault ledger of what was
-- spent; and the merchant's stores and the verifier of mandates behind a checkout.
--
-- The policy engine (packages/policy/src/engine.ts) evaluates the rules of the current policy snapshot
-- against the facts of an intent, reserves the amount in a ledger with limits, and then mints a
-- credential at once or asks the user by a prompt and mints when the prompt is approved. It
-- calls the evaluator, the reservation ledger with its counters, the snapshot store and the
-- approval budget. The vault ledger (packages/buyer/src/vault/ledger.ts) is a file of
-- events; each operation replays it, decides, and appends. A purchase of the wallet
-- (packages/buyer/src/wallet/index.ts) asks the policy documents (packages/core/src/policy-yaml) with what
-- the ledger says was spent, reserves in the ledger, lets the merchant work, adjusts the reservation when
-- the total is known, and settles, escalates or releases it. The merchant's stores
-- (packages/merchant/src) keep nonces, idempotency keys and checkout sessions.
--
-- Files, with the code that each is about:
-- Base: lists, maps, integers and results that the other modules share.
-- Policy/Money: packages/policy/src/money.ts. A text is a list of character codes.
-- Policy/Ledger: packages/policy/src/ledger/reservations.ts and counters.ts, and
-- reserveAfterLimitCheck of the engine. The SQL table is a list of rows; Rows, Lifecycle,
-- Sweep, Limits, Limits/Schedule and Overrun prove what the operations do to it.
-- Policy/Evaluator: packages/policy/src/evaluator.ts; proofs in Evaluator/Precedence.
-- Policy/Snapshots: packages/policy/src/snapshot.ts; proofs in Snapshots/Retention.
-- Policy/Budget: packages/policy/src/approval/budget.ts.
-- Policy/Engine/State: the fields of the engine and the monad of its methods, which return or throw and
-- keep what they wrote before a throw.
-- Policy/Engine/Propose: proposeIntent and createApproval; proofs in Propose/Replay,
-- Propose/Allowed and Propose/Granted.
-- Policy/Engine/Callback: handleApprovalCallback, getApprovalStatus, cancelIntent and
-- revokeCredential; proofs in Callback/Checks and Callback/Once.
-- Vault: the events and applyEvent; Vault/Operations: the operations; Vault/Refinement: the operations
-- described on a map without events; proofs in Vault/Resolution, Vault/Settlement, Vault/Limits,
-- Vault/Escalation and Refinement/Simulates.
-- Wallet: purchaseWithMerchant of packages/buyer/src/wallet/index.ts, whose merchant is a tree of calls;
-- proofs in Wallet/Totals and Wallet/Resolves.
-- Policy/Audit: packages/policy/src/audit; proofs in Audit/Chain, Audit/Tamper and Audit/Backdated.
-- Core/PolicyYaml: packages/core/src/policy-yaml/evaluate.ts and glob.ts; proofs in PolicyYaml/Glob,
-- PolicyYaml/Limits and PolicyYaml/Decides.
-- Core/OrderState: packages/core/src/order-state.ts; proofs in OrderState/Agreement.
-- Core/Json: the canonical JSON of packages/core/src/purchase.ts.
-- Core/Der: the DER codec of packages/core/src/rfc9421.ts; proofs in Der/RoundTrip.
-- Merchant/Mandate: packages/merchant/src/mandate/verifier.ts; proofs in Mandate/Checks,
-- Mandate/Accepts and Mandate/NullHeader.
-- Merchant/Nonce: packages/merchant/src/mandate/nonce.ts. Merchant/Idempotency and
-- Merchant/Sessions: packages/merchant/src/checkout/idempotency.ts and store.ts.
-- The Examples modules apply the theorems at concrete inputs.
--
-- Parameters stand for what is outside this code: SHA-256, the random ids, the clock, the rail, the
-- approval channel, the normalization of a currency or a domain, the decoding and the signature of a
-- mandate. An operation is given one reading of the clock, and a purchase the readings of its calls of the vault, each of
-- which may instead fail, as when the vault is closed;
-- times are milliseconds, those of a mandate seconds. Every function is total by structural
-- recursion; the loop of a DER length, which divides by 256, has the length itself as fuel, and the
-- draws of a nonce are a list that may run out.
--
-- Not modelled: files, locks, ciphers, HTTP, the YAML loader with its schema validator, exchange rates in
-- floating point, settlement events, the checkout routes, reconcile of the wallet, which completes or
-- releases a reservation that a purchase left pending, other purchases while one runs, the rest of
-- the packages core and buyer, and the packages agent, cli, next,
-- protocol, psp, policy-rail-card, steelyard, stripe, ucp-signing, verify and x402, which are
-- adapters, schemas or calls of services.
pub mod Base
pub mod Core
pub mod Policy
pub mod Vault
pub mod Wallet
pub mod Merchant
