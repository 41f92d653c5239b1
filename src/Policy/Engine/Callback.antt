-- ===== src/Policy/Engine/Callback.antt =====
-- What becomes of a prompt and of a credential: `handleApprovalCallback`, `getApprovalStatus`,
-- `cancelIntent`, `revokeCredential` and what they call
-- (packages/policy/src/engine.ts). The callback waits for the rail between its checks and its
-- writes, so it is two steps, `callback_begin` and `callback_finish`; `handle_approval_callback`
-- runs them with nothing between.
pub mod Checks
pub mod Once
use steelyard_sdk.Base.{
  ℕ, String, Bool, true, false, not, ◌&&◌, ◌||◌, Option, some, none, List, [], ◌∷◌, str_eq,
  is_empty, leb, if◌then◌else◌, Result, ok, err,
}
use steelyard_sdk.Base.Int.{ℤ}
use steelyard_sdk.Base.Maps.{Dict, lookup, insert}
use steelyard_sdk.Policy.Ledger.{not_pending}
use steelyard_sdk.Policy.Ledger as Ledger
use steelyard_sdk.Policy.Snapshots.{get_current}
use steelyard_sdk.Policy.Engine.State.{
  Engine, Action, EngineError, inputs_mutated, intent_not_found, credential_not_found,
  adapter_failed, snapshot_error, ledger_error, AuthorizationInputs, ApprovalState, waiting,
  approved, denied, expired, cancelled, stale, ReasonCode, by_cancel, by_expiry, by_stale_policy,
  by_user, ApprovalRecord, IntentRecord, intent_denied, intent_allowed, intent_prompt,
  CredentialRecord, AuditDecision, audit_deny, audit_approved, audit_expired, ApprovalStatus,
  status_pending, status_approved, status_denied, status_expired, pure, throw, gets, or_throw,
  modify, ◌>>=◌, ◌>>◌, throw_if, release_and_collect, commit_reservation, authenticate, write_audit,
}
use steelyard_sdk.Policy.Engine.Propose.{Config, World, audit_entry, mint_credential}

pub data Choice : Type 0 where
  approve deny : Choice

-- A body that parsed; `no_choice` is a `decision` that is neither of the two texts.
pub record CallbackRequest : Type 0 where
  pub approval_prompt_id : String
  pub nonce : String
  pub decision : Option Choice
  pub policy_hash : Option String

pub data Rejection : Type 0 where
  invalid_body unknown_prompt nonce_mismatch replayed_nonce is_expired policy_snapshot_stale
        is_cancelled :
      Rejection

-- The status codes are 200, and with the rejections 400, 404, 409 and 410.
pub data CallbackResult : Type 0 where
  was_approved : (credential_id : String) → CallbackResult
  was_denied : CallbackResult
  rejected : (status_code : ℕ) → Rejection → CallbackResult

abbrev pub is_waiting : ApprovalState → Bool
is_waiting waiting = true
is_waiting _ = false

abbrev pub is_answered : ApprovalState → Bool
is_answered approved = true
is_answered denied = true
is_answered _ = false

abbrev pub is_cancelled_state : ApprovalState → Bool
is_cancelled_state cancelled = true
is_cancelled_state _ = false

-- `isExpired`
abbrev pub has_expired : ℕ → ApprovalRecord → Bool
has_expired now r = leb r.expires_at now

abbrev pub set_prompt : ApprovalRecord → Action (Unit {0})
set_prompt r = modify λ s. record s { prompts = insert r.approval_prompt_id r s.prompts }

-- `releaseReservation`: an error of the ledger is swallowed
abbrev free_row : String → Engine → Engine
free_row id s = elim (Ledger.release id s.table) [
  | ok table ↦ record s { table = table }
  | err _ ↦ s
]

abbrev free_reservation : Option String → Action (Unit {0})
free_reservation none = pure tt
free_reservation (some id) = modify (free_row id)

-- `releaseSnapshot`
abbrev free_snapshot : ApprovalRecord → Action (Unit {0})
free_snapshot r = if r.snapshot_retained then release_and_collect r.policy_hash else pure tt

-- The record as its closing leaves it, and the calls that the closing makes.
abbrev pub closed_record : ApprovalState → ReasonCode → ApprovalRecord → ApprovalRecord
closed_record state reason r = record r {
  state = state;
  reason_code = some reason;
  reservation_id = none;
  snapshot_retained = false;
}

unfoldable pub close_record : ApprovalState → ReasonCode → ApprovalRecord → Action (Unit {0})
close_record state reason r = do
  set_prompt (record r { state = state; reason_code = some reason; reservation_id = none })
  free_reservation r.reservation_id
  free_snapshot r
  set_prompt (closed_record state reason r)

unfoldable pub update_approval : String → ApprovalStatus → Action (Unit {0})
update_approval id status = modify λ s. record s { approvals = insert id status s.approvals }

-- `writeAuditFromRecord`
unfoldable pub audit_record : ApprovalRecord → AuditDecision → Option String → Action (Unit {0})
audit_record r verdict credential =
    write_audit
      (audit_entry r.intent_id r.matched_rule r.policy_hash r.authorization_hash verdict credential)

unfoldable pub expire_prompt : ApprovalRecord → Action (Unit {0})
expire_prompt r =
    if is_waiting r.state
    then (close_record expired by_expiry r
        >> (update_approval r.approval_prompt_id status_expired
            >> audit_record r audit_expired none))
    else pure tt

unfoldable pub mark_stale : ApprovalRecord → Action (Unit {0})
mark_stale r = do
  close_record stale by_stale_policy r
  update_approval r.approval_prompt_id status_denied
  audit_record r audit_deny none

unfoldable pub deny_prompt : ApprovalRecord → Action (Unit {0})
deny_prompt r = do
  close_record denied by_user r
  update_approval r.approval_prompt_id status_denied
  audit_record r audit_deny none

unfoldable pub cancel_prompt : ApprovalRecord → Action (Unit {0})
cancel_prompt r = do
  close_record cancelled by_cancel r
  audit_record r audit_deny none
  update_approval r.approval_prompt_id status_denied

-- Where the checks of a callback end: with an answer, or with a record to mint for.
pub data Stage : Type 0 where
  answer : CallbackResult → Stage
  mint_for : ApprovalRecord → Stage

abbrev pub hash_differs : Option String → String → Bool
hash_differs none current = false
hash_differs (some h) current = not (is_empty h) && not (str_eq h current)

-- `commit(record.reservation_id!, …)`; the ledger has no row for an undefined id
unfoldable pub commit_held : Option String → String → Action (Unit {0})
commit_held none credential = throw (ledger_error not_pending)
commit_held (some id) credential = commit_reservation id credential

module _ (cfg : Config) (authorization_hash : AuthorizationInputs → String)
    (prompt_hash : String → String → String → String → ℤ → ℕ → String) where
  unfoldable pub decide_prompt : Choice → ApprovalRecord → Action Stage
  decide_prompt deny r = deny_prompt r >> pure (answer was_denied)
  decide_prompt approve r =
      if str_eq (authorization_hash r.auth_inputs) r.authorization_hash
      then pure (mint_for r)
      else throw inputs_mutated

  unfoldable pub check_policy : CallbackRequest → Choice → ApprovalRecord → Action Stage
  check_policy req choice r s = elim (get_current s.store) [
    | err e ↦ (err (snapshot_error e), s)
    | ok current ↦
        if not (str_eq r.policy_hash current.policy_hash)
          || hash_differs req.policy_hash current.policy_hash
        then (mark_stale r >> pure (answer (rejected 409 policy_snapshot_stale))) s
        else decide_prompt choice r s
  ]

  unfoldable pub check_record : ℕ → CallbackRequest → Choice → ApprovalRecord → Action Stage
  check_record now req choice r =
      if not (str_eq r.nonce req.nonce)
      then pure (answer (rejected 400 nonce_mismatch))
      else if is_answered r.state
      then pure (answer (rejected 409 replayed_nonce))
      else if is_cancelled_state r.state
      then pure (answer (rejected 410 is_cancelled))
      else if has_expired now r
      then expire_prompt r >> pure (answer (rejected 410 is_expired))
      else check_policy req choice r

  abbrev pub check_prompt : ℕ → CallbackRequest → Choice → Option ApprovalRecord → Action Stage
  check_prompt now req choice none = pure (answer (rejected 404 unknown_prompt))
  check_prompt now req choice (some r) = check_record now req choice r

  abbrev pub check_body : ℕ → CallbackRequest → Option Choice → Action Stage
  check_body now req none = pure (answer (rejected 400 invalid_body))
  check_body now req (some choice) =
      if is_empty req.approval_prompt_id || is_empty req.nonce
      then pure (answer (rejected 400 invalid_body))
      else λ s. check_prompt now req choice (lookup req.approval_prompt_id s.prompts) s

  -- up to the call of the rail
  unfoldable pub callback_begin : ℕ → CallbackRequest → Action Stage
  callback_begin now req = check_body now req req.decision

  -- from the rail's answer on; the record is read again, as the code reads the shared object
  unfoldable pub finish_record : ApprovalRecord → String → Action CallbackResult
  finish_record r credential = do
    commit_held r.reservation_id credential
    set_prompt (record r { state = approved; credential = some credential })
    update_approval r.approval_prompt_id status_approved
    audit_record r audit_approved (some credential)
    pure (was_approved credential)

  abbrev pub or_same : Option ApprovalRecord → ApprovalRecord → ApprovalRecord
  or_same none r = r
  or_same (some r') r = r'

  unfoldable pub finish_current : ApprovalRecord → String → Action CallbackResult
  finish_current r credential s =
      finish_record (or_same (lookup r.approval_prompt_id s.prompts) r) credential s

  unfoldable pub callback_finish : World → (credential_id : String) → Stage → Action CallbackResult
  callback_finish w credential_id (answer result) = pure result
  callback_finish w credential_id (mint_for r) = do
    credential ←
        mint_credential cfg authorization_hash prompt_hash w r.caller_token credential_id
          r.authorization_hash r.policy_hash
    finish_current r credential

  unfoldable pub handle_approval_callback :
      World → (credential_id : String) → CallbackRequest → Action CallbackResult
  handle_approval_callback w credential_id req = do
    stage ← callback_begin w.now req
    callback_finish w credential_id stage

-- `getApprovalStatus` answers a status and the credential.
unfoldable pub status_of : ApprovalRecord → ApprovalStatus
status_of r = elim r.state [
  | approved ↦ status_approved
  | expired ↦ status_expired
  | waiting ↦ status_pending
  | _ ↦ status_denied
]

abbrev token_of : IntentRecord → String
token_of (intent_denied t) = t
token_of (intent_allowed t _) = t
token_of (intent_prompt t _) = t

-- the intent of the caller, or a throw
unfoldable pub own_intent : (caller_token intent_id : String) → Action IntentRecord
own_intent caller_token intent_id = do
  authenticate caller_token
  found ← gets (λ s. lookup intent_id s.intents)
  r ← or_throw found intent_not_found
  throw_if (not (str_eq (token_of r) caller_token)) intent_not_found
  pure r

unfoldable pub prompt_status : ℕ → ApprovalRecord → Action (ApprovalStatus × Option String)
prompt_status now r =
    if is_waiting r.state && has_expired now r
    then (expire_prompt r >> pure (status_of (closed_record expired by_expiry r), r.credential))
    else pure (status_of r, r.credential)

unfoldable pub get_approval_status :
    ℕ → (caller_token intent_id : String) → Action (ApprovalStatus × Option String)
get_approval_status now caller_token intent_id = do
  r ← own_intent caller_token intent_id
  elim r [
    | intent_denied _ ↦ pure (status_denied, none)
    | intent_allowed _ credential ↦ pure (status_approved, some credential)
    | intent_prompt _ id ↦ gets (λ s. lookup id s.prompts) >>= λ found.
        or_throw found intent_not_found >>= λ prompt. prompt_status now prompt
  ]

unfoldable pub cancel_intent : (caller_token intent_id : String) → Action (Unit {0})
cancel_intent caller_token intent_id = do
  r ← own_intent caller_token intent_id
  elim r [
    | intent_denied _ ↦ pure tt
    | intent_allowed _ _ ↦ pure tt
    | intent_prompt _ id ↦ gets (λ s. lookup id s.prompts) >>= λ found.
        or_throw found intent_not_found >>= λ prompt.
        if is_waiting prompt.state then cancel_prompt prompt else pure tt
  ]

unfoldable pub own_credential : (caller_token credential_id : String) → Action CredentialRecord
own_credential caller_token credential_id = do
  authenticate caller_token
  found ← gets (λ s. lookup credential_id s.credentials)
  r ← or_throw found credential_not_found
  throw_if (not (str_eq r.caller_token caller_token)) credential_not_found
  pure r

-- `releaseCredentialSnapshot`
unfoldable pub release_credential_snapshot : String → CredentialRecord → Action (Unit {0})
release_credential_snapshot credential_id r =
    if r.released_snapshot
    then pure tt
    else (release_and_collect r.snapshot_hash
        >> modify λ s. record s {
          credentials = insert credential_id (record r { released_snapshot = true }) s.credentials;
        })

-- `revokeCredential`; `answered` is false if the rail throws
unfoldable pub revoke_credential :
    (caller_token credential_id : String) → (answered : Bool) → Action (Unit {0})
revoke_credential caller_token credential_id answered = do
  r ← own_credential caller_token credential_id
  throw_if (not answered) adapter_failed
  release_credential_snapshot credential_id r
