-- ===== src/Policy/Engine/State.antt =====
-- The state of the engine and its actions (packages/policy/src/engine.ts). What the engine calls
-- outside itself is a parameter: SHA-256 (`authorization_hash`), the rail's `mint`, the approval
-- channel, the random ids (`Fresh`) and the clock, read once by an operation at `now`. The SQL tables
-- `audit` and `approvals` are kept as a list and a map.
use steelyard_sdk.Base.{
  ℕ, String, Bool, true, false, Option, some, none, List, [], ◌∷◌, ◌++◌, str_eq, if◌then◌else◌,
  Result, ok, err,
}
use steelyard_sdk.Base.Int.{ℤ}
use steelyard_sdk.Base.Maps.{Dict, insert}
use steelyard_sdk.Policy.Ledger.{Table, LedgerError, LimitReason}
use steelyard_sdk.Policy.Ledger as Ledger
use steelyard_sdk.Policy.Evaluator.{RailName, NormalizedFacts}
use steelyard_sdk.Policy.Snapshots.{SnapshotError, SnapshotStore}
use steelyard_sdk.Policy.Snapshots as Snapshots

pub data EngineError : Type 0 where
  unauthenticated idempotency_key_required facts_failed rail_not_registered mint_failed :
      EngineError
  foreign_authorization prompt_failed prompt_mismatch intent_not_found credential_not_found :
      EngineError
  inputs_mutated invalid_duration adapter_failed : EngineError
  snapshot_error : SnapshotError → EngineError
  ledger_error : LedgerError → EngineError

pub data DenyReason : Type 0 where
  no_matching_rule rail_env_mismatch approval_channel_missing approval_budget_exhausted : DenyReason
  matched : String → DenyReason
  limit : LimitReason → DenyReason

pub data DecisionEnvelope : Type 0 where
  allowed :
      (intent_id matched_rule policy_hash authorization_hash credential_id : String)
      → DecisionEnvelope
  denied : (intent_id matched_rule policy_hash : String) → DenyReason → DecisionEnvelope
  pending_approval :
      (intent_id matched_rule policy_hash authorization_hash approval_prompt_id : String)
      → (expires_at : ℕ) → DecisionEnvelope

-- `AuthorizationInputs`, less the constants and the quote of the exchange rate
pub record AuthorizationInputs : Type 0 where
  pub policy_hash : String
  pub rule_name : String
  pub rail : RailName
  pub amount_minor : ℤ
  pub currency : String
  pub expires_at : ℕ
  pub approval_prompt_hash : String
  pub facts : NormalizedFacts

pub data ApprovalState : Type 0 where
  waiting approved denied expired cancelled stale : ApprovalState

pub data ReasonCode : Type 0 where
  by_cancel by_expiry by_stale_policy by_user : ReasonCode

-- A `PendingApprovalRecord`. The maps `prompts` and `intents` of the code share it: it stands here
-- under its prompt id, and an intent refers to it.
pub record ApprovalRecord : Type 0 where
  pub state : ApprovalState
  pub caller_token : String
  pub intent_id : String
  pub matched_rule : String
  pub policy_hash : String
  pub authorization_hash : String
  pub auth_inputs : AuthorizationInputs
  pub reservation_id : Option String
  pub snapshot_retained : Bool
  pub approval_prompt_id : String
  pub nonce : String
  pub expires_at : ℕ
  pub credential : Option String
  pub reason_code : Option ReasonCode

pub data IntentRecord : Type 0 where
  intent_denied : (caller_token : String) → IntentRecord
  intent_allowed : (caller_token credential_id : String) → IntentRecord
  intent_prompt : (caller_token approval_prompt_id : String) → IntentRecord

pub record CredentialRecord : Type 0 where
  pub caller_token : String
  pub rail_credential_id : String
  pub snapshot_hash : String
  pub released_snapshot : Bool

pub data AuditDecision : Type 0 where
  audit_allow audit_deny audit_pending audit_approved audit_expired : AuditDecision

pub record AuditEntry : Type 0 where
  pub intent_id : String
  pub matched_rule : String
  pub policy_hash : String
  pub authorization_hash : String
  pub verdict : AuditDecision
  pub credential_id : Option String

-- `ApprovalStatus`
pub data ApprovalStatus : Type 0 where
  status_pending status_approved status_denied status_expired : ApprovalStatus

pub record Engine : Type 0 where
  pub token : String
  pub store : SnapshotStore
  pub table : Table
  pub budget : List ℕ
  pub idempotency : Dict DecisionEnvelope
  pub intents : Dict IntentRecord
  pub prompts : Dict ApprovalRecord
  pub credentials : Dict CredentialRecord
  pub approvals : Dict ApprovalStatus
  pub audit : List AuditEntry

-- A method: it returns or throws, and what it wrote before a throw stays written.
abbrev pub Action : Type 0 → Type 0
Action A = Engine → Result EngineError A × Engine

module _ {A : Type 0} where
  abbrev pub pure : A → Action A
  pure a s = (ok a, s)

  abbrev pub throw : EngineError → Action A
  throw e s = (err e, s)

  abbrev pub gets : (Engine → A) → Action A
  gets f s = (ok (f s), s)

  abbrev pub or_throw : Option A → EngineError → Action A
  or_throw none e = throw e
  or_throw (some a) e = pure a

  -- `try { m } catch (error) { cleanup; throw error; }`
  abbrev pub on_error : Action A → (EngineError → Action A) → Action A
  on_error m h s = let (r, s') = m s in elim r [ ok a ↦ (ok a, s') | err e ↦ h e s' ]

abbrev pub modify : (Engine → Engine) → Action (Unit {0})
modify f s = (ok tt, f s)

infixl 5 ◌>>=◌ ◌>>◌
unfoldable pub ◌>>=◌ : {A B : Type 0} → Action A → (A → Action B) → Action B
◌>>=◌ m f s = let (r, s') = m s in elim r [ ok a ↦ f a s' | err e ↦ (err e, s') ]

abbrev pub ◌>>◌ : {A B : Type 0} → Action A → Action B → Action B
m >> k = m >>= λ _. k

abbrev pub throw_if : Bool → EngineError → Action (Unit {0})
throw_if b e s = (if b then err e else ok tt, s)

-- The operations of the snapshot store and of the ledger, as methods of the engine.
abbrev on_store :
    Result SnapshotError SnapshotStore → Engine → Result EngineError (Unit {0}) × Engine
on_store (ok store) s = (ok tt, record s { store = store })
on_store (err e) s = (err (snapshot_error e), s)

abbrev on_table : Result LedgerError Table → Engine → Result EngineError (Unit {0}) × Engine
on_table (ok table) s = (ok tt, record s { table = table })
on_table (err e) s = (err (ledger_error e), s)

unfoldable pub retain_snapshot : String → Action (Unit {0})
retain_snapshot hash s = on_store (Snapshots.retain hash s.store) s

unfoldable pub release_and_collect : String → Action (Unit {0})
release_and_collect hash =
    (λ s. on_store (Snapshots.release hash s.store) s)
    >> modify (λ s. record s { store = (Snapshots.gc s.store).0 })

unfoldable pub commit_reservation : (id credential_id : String) → Action (Unit {0})
commit_reservation id credential_id s = on_table (Ledger.commit id credential_id s.table) s

unfoldable pub release_reservation : String → Action (Unit {0})
release_reservation id s = on_table (Ledger.release id s.table) s

unfoldable pub authenticate : String → Action (Unit {0})
authenticate caller_token = do
  token ← gets (λ s. s.token)
  throw_if (if str_eq caller_token token then false else true) unauthenticated

unfoldable pub remember : String → DecisionEnvelope → Action DecisionEnvelope
remember key env = modify (λ s. record s { idempotency = insert key env s.idempotency }) >> pure env

unfoldable pub write_audit : AuditEntry → Action (Unit {0})
write_audit entry = modify (λ s. record s { audit = s.audit ++ entry ∷ [] })
