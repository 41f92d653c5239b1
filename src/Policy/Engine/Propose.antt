-- ===== src/Policy/Engine/Propose.antt =====
-- `proposeIntent`, `createApproval` and what they call (packages/policy/src/engine.ts).
pub mod Replay
pub mod Allowed
pub mod Granted
use Prim.Native.String
use steelyard_sdk.Base.{
  ℕ, ◌+◌, ◌*◌, String, Bool, true, false, not, ◌&&◌, ◌||◌, Option, some, none, List, [], ◌∷◌, ◌++◌,
  str_eq, is_empty, if◌then◌else◌, ◌==◌, Result, ok, err,
}
use steelyard_sdk.Base.Int.{ℤ}
use steelyard_sdk.Base.Maps.{Dict, lookup, insert}
use steelyard_sdk.Policy.Money.{take_digits, drop_digits, digits_value, not_nil}
use steelyard_sdk.Policy.Ledger.{
  LimitReason, Reserved, denied as over_limit, reserved, reserve_after_limit_check,
}
use steelyard_sdk.Policy.Evaluator.{
  RailName, virtual_card, allow, deny, require_approval, NormalizedFacts, Decision, ResolvedRule,
  no_match_name, evaluate,
}
use steelyard_sdk.Policy.Snapshots.{PolicySnapshot, get_current}
use steelyard_sdk.Policy.Budget.{BudgetOptions, try_consume}
use steelyard_sdk.Policy.Engine.State.{
  Engine, Action, EngineError, idempotency_key_required, facts_failed, rail_not_registered,
  mint_failed, foreign_authorization, prompt_failed, prompt_mismatch, invalid_duration,
  snapshot_error, ledger_error, DenyReason, no_matching_rule, rail_env_mismatch,
  approval_channel_missing, approval_budget_exhausted, matched, limit, DecisionEnvelope, allowed,
  denied, pending_approval, AuthorizationInputs, ApprovalRecord, waiting, intent_denied,
  intent_allowed, intent_prompt, CredentialRecord, AuditDecision, audit_allow, audit_deny,
  audit_pending, AuditEntry, status_pending, pure, throw, or_throw, on_error, modify, ◌>>=◌, ◌>>◌,
  throw_if, retain_snapshot, release_and_collect, commit_reservation, release_reservation,
  authenticate, remember, write_audit,
}

pub data Environment : Type 0 where
  sandbox production : Environment

-- `rail` is the adapter registered for the one rail name there is.
pub record Config : Type 0 where
  pub env : Option Environment
  pub rail : Option Environment
  pub has_channel : Bool
  pub budget : BudgetOptions
  pub reservation_ttl_seconds : ℕ
  pub credential_ttl_ms : ℕ

-- The ids that `randomUUID` gives to one call.
pub record Fresh : Type 0 where
  pub intent_id : String
  pub approval_intent_id : String
  pub reservation_id : String
  pub approval_prompt_id : String
  pub nonce : String
  pub credential_id : String

pub record Request : Type 0 where
  pub caller_token : String
  pub idempotency_key : String
  pub amount_minor : ℤ
  pub currency : String
  pub purchase_id : Option String

pub record Minted : Type 0 where
  pub rail_credential_id : String
  pub authorization_hash : String

-- What the calls outside the engine answer; `none` is a throw.
pub record World : Type 0 where
  pub now : ℕ
  pub facts : Option NormalizedFacts
  pub mint : String → Option Minted
  pub prompt : Option (String × String)

abbrev pub same_env : Environment → Environment → Bool
same_env sandbox sandbox = true
same_env production production = true
same_env _ _ = false

-- `railAdapter.env !== (opts.env ?? railAdapter.env)`
abbrev pub env_mismatch : Option Environment → Environment → Bool
env_mismatch none rail = false
env_mismatch (some e) rail = not (same_env rail e)

unfoldable pub idem_key : Request → String
idem_key req = String.◌++◌ req.caller_token (String.◌++◌ ":" req.idempotency_key)

abbrev pub unit_ms : List ℕ → Option ℕ
unit_ms [] = none
unit_ms (c ∷ []) =
    if c == b's'
    then some 1000
    else if c == b'm'
    then some 60000
    else if c == b'h'
    then some 3600000
    else none
unit_ms (c ∷ d ∷ []) = if c == b'm' && d == b's' then some 1 else none
unit_ms _ = none

-- `parseDurationMs`: `none` is a throw
unfoldable pub parse_duration_ms : List ℕ → Option ℕ
parse_duration_ms value =
    if not_nil (take_digits value)
    then elim (unit_ms (drop_digits value)) [
      | none ↦ none
      | some ms ↦ some (digits_value 0 (take_digits value) * ms)
    ]
    else none

-- `decision.rule.approval?.expires_in ?? "5m"`
abbrev pub approval_duration : ResolvedRule → List ℕ
approval_duration rule = elim rule.approval_expires_in [
  | none ↦ b'5' ∷ b'm' ∷ []
  | some text ↦ text
]

abbrev pub deny_reason : Decision → DenyReason
deny_reason d =
    if str_eq d.matched_rule no_match_name then no_matching_rule else matched d.matched_rule

abbrev pub audit_entry :
    String → String → String → String → AuditDecision → Option String → AuditEntry
audit_entry intent_id matched_rule policy_hash authorization_hash verdict credential_id = record {
  intent_id = intent_id;
  matched_rule = matched_rule;
  policy_hash = policy_hash;
  authorization_hash = authorization_hash;
  verdict = verdict;
  credential_id = credential_id;
}

module _ (cfg : Config) (authorization_hash : AuthorizationInputs → String)
    (prompt_hash : String → String → String → String → ℤ → ℕ → String) where
  -- `prepareAuthorization`
  unfoldable pub prepare_authorization :
      (now : ℕ)
      → PolicySnapshot
      → NormalizedFacts
      → Decision
      → Request
      → String
      → AuthorizationInputs
  prepare_authorization now snapshot facts d req approval_prompt_hash = record {
    policy_hash = snapshot.policy_hash;
    rule_name = d.matched_rule;
    rail = virtual_card;
    amount_minor = req.amount_minor;
    currency = req.currency;
    expires_at = now + cfg.credential_ttl_ms;
    approval_prompt_hash = approval_prompt_hash;
    facts = facts;
  }

  -- `reserveAfterLimitCheck`, on the engine's table
  unfoldable pub reserve :
      (now : ℕ)
      → Fresh
      → String
      → NormalizedFacts
      → Decision
      → Request
      → Engine
      → Result EngineError (Option LimitReason) × Engine
  reserve now fresh intent_id facts d req s =
      elim (reserve_after_limit_check d.rule.limits fresh.reservation_id d.rule.name intent_id
        facts.amount_usd req.purchase_id now cfg.reservation_ttl_seconds s.table) [
          | err e ↦ (err (ledger_error e), s)
          | ok outcome ↦ elim outcome [
            | over_limit reason ↦ (ok (some reason), s)
            | reserved table ↦ (ok none, record s { table = table })
          ]
        ]

  -- `mintCredential`
  unfoldable pub mint_credential :
      World → String → (credential_id authorization policy_hash : String) → Action String
  mint_credential w caller_token credential_id authorization policy_hash = do
    minted ← or_throw (w.mint authorization) mint_failed
    throw_if (not (str_eq minted.authorization_hash authorization)) foreign_authorization
    modify λ s. record s {
      credentials =
          insert credential_id
            (record {
              caller_token = caller_token;
              rail_credential_id = minted.rail_credential_id;
              snapshot_hash = policy_hash;
              released_snapshot = false;
            })
            s.credentials;
    }
    pure credential_id

  -- the `try` block of `proposeIntent`
  unfoldable pub issue :
      World → Fresh → PolicySnapshot → Decision → Request → String → Action DecisionEnvelope
  issue w fresh snapshot d req authorization = do
    credential ←
        mint_credential w req.caller_token fresh.credential_id authorization snapshot.policy_hash
    commit_reservation fresh.reservation_id credential
    write_audit (
        audit_entry fresh.intent_id d.matched_rule snapshot.policy_hash authorization audit_allow
          (some credential))
    modify λ s. record s {
      intents = insert fresh.intent_id (intent_allowed req.caller_token credential) s.intents;
    }
    remember (idem_key req)
        (allowed fresh.intent_id d.matched_rule snapshot.policy_hash authorization credential)

  -- the `catch` block
  unfoldable pub undo : Fresh → PolicySnapshot → EngineError → Action DecisionEnvelope
  undo fresh snapshot error = do
    release_reservation fresh.reservation_id
    release_and_collect snapshot.policy_hash
    throw error

  unfoldable pub deny_limit :
      Fresh → PolicySnapshot → Decision → Request → String → LimitReason → Action DecisionEnvelope
  deny_limit fresh snapshot d req authorization reason = do
    write_audit (
        audit_entry fresh.intent_id d.matched_rule snapshot.policy_hash authorization audit_deny
          none)
    remember (idem_key req)
        (denied fresh.intent_id d.matched_rule snapshot.policy_hash (limit reason))

  -- `proposeIntent` from `prepareAuthorization` on
  unfoldable pub allow_intent :
      World
      → Fresh
      → PolicySnapshot
      → NormalizedFacts
      → Decision
      → Request
      → Action DecisionEnvelope
  allow_intent w fresh snapshot facts d req = do
    let authorization = authorization_hash (prepare_authorization w.now snapshot facts d req "")
    over ← reserve w.now fresh fresh.intent_id facts d req
    elim over [
      | some reason ↦ deny_limit fresh snapshot d req authorization reason
      | none ↦
          retain_snapshot snapshot.policy_hash
          >> on_error (issue w fresh snapshot d req authorization) (undo fresh snapshot)
    ]

  unfoldable pub deny_by_rule :
      Fresh → PolicySnapshot → Decision → Request → Action DecisionEnvelope
  deny_by_rule fresh snapshot d req = do
    write_audit (audit_entry fresh.intent_id d.matched_rule snapshot.policy_hash "" audit_deny none)
    modify λ s. record s {
      intents = insert fresh.intent_id (intent_denied req.caller_token) s.intents;
    }
    remember (idem_key req)
        (denied fresh.intent_id d.matched_rule snapshot.policy_hash (deny_reason d))

  -- the prompt that `createApproval` sends, and its record
  abbrev pub approval_record :
      Fresh → PolicySnapshot → Decision → Request → AuthorizationInputs → ℕ → ApprovalRecord
  approval_record fresh snapshot d req inputs expires_at = record {
    state = waiting;
    caller_token = req.caller_token;
    intent_id = fresh.approval_intent_id;
    matched_rule = d.matched_rule;
    policy_hash = snapshot.policy_hash;
    authorization_hash = authorization_hash inputs;
    auth_inputs = inputs;
    reservation_id = some fresh.reservation_id;
    snapshot_retained = true;
    approval_prompt_id = fresh.approval_prompt_id;
    nonce = fresh.nonce;
    expires_at = expires_at;
    credential = none;
    reason_code = none;
  }

  unfoldable pub send_prompt : World → Fresh → Action (Unit {0})
  send_prompt w fresh = do
    returned ← or_throw w.prompt prompt_failed
    throw_if (not (str_eq returned.0 fresh.approval_prompt_id && str_eq returned.1 fresh.nonce))
        prompt_mismatch

  unfoldable pub undo_prompt : Fresh → PolicySnapshot → EngineError → Action (Unit {0})
  undo_prompt fresh snapshot error = do
    release_reservation fresh.reservation_id
    release_and_collect snapshot.policy_hash
    throw error

  unfoldable pub record_prompt : Request → ApprovalRecord → Action DecisionEnvelope
  record_prompt req r = do
    modify λ s. record s {
      prompts = insert r.approval_prompt_id r s.prompts;
      intents = insert r.intent_id (intent_prompt r.caller_token r.approval_prompt_id) s.intents;
      approvals = insert r.approval_prompt_id status_pending s.approvals;
    }
    write_audit (
        audit_entry r.intent_id r.matched_rule r.policy_hash r.authorization_hash audit_pending
          none)
    remember (idem_key req) (
        pending_approval r.intent_id r.matched_rule r.policy_hash r.authorization_hash
          r.approval_prompt_id r.expires_at)

  -- `createApproval` after the budget
  unfoldable pub open_approval :
      World
      → Fresh
      → PolicySnapshot
      → NormalizedFacts
      → Decision
      → Request
      → Action DecisionEnvelope
  open_approval w fresh snapshot facts d req = do
    duration ← or_throw (parse_duration_ms (approval_duration d.rule)) invalid_duration
    let expires_at = w.now + duration
    let digest =
        prompt_hash fresh.approval_prompt_id fresh.nonce snapshot.policy_hash facts.merchant_domain
          facts.amount_usd expires_at
    let inputs = prepare_authorization w.now snapshot facts d req digest
    over ← reserve w.now fresh fresh.approval_intent_id facts d req
    elim over [
      | some reason ↦
          remember (idem_key req)
            (denied fresh.approval_intent_id d.matched_rule snapshot.policy_hash (limit reason))
      | none ↦
          retain_snapshot snapshot.policy_hash
          >> (on_error (send_prompt w fresh) (undo_prompt fresh snapshot)
              >> record_prompt req (approval_record fresh snapshot d req inputs expires_at))
    ]

  unfoldable pub consume_budget : ℕ → Action Bool
  consume_budget now s =
      let (granted, budget) = try_consume cfg.budget now s.budget in
      (ok granted, record s { budget = budget })

  unfoldable pub deny_budget : Fresh → PolicySnapshot → Decision → Request → Action DecisionEnvelope
  deny_budget fresh snapshot d req = do
    write_audit (
        audit_entry fresh.approval_intent_id d.matched_rule snapshot.policy_hash "" audit_deny none)
    remember (idem_key req) (
        denied fresh.approval_intent_id d.matched_rule snapshot.policy_hash
          approval_budget_exhausted)

  -- `createApproval`
  unfoldable pub create_approval :
      World
      → Fresh
      → PolicySnapshot
      → NormalizedFacts
      → Decision
      → Request
      → Action DecisionEnvelope
  create_approval w fresh snapshot facts d req =
      if cfg.has_channel
      then (consume_budget w.now >>= λ granted.
          if granted
          then open_approval w fresh snapshot facts d req
          else deny_budget fresh snapshot d req)
      else remember (idem_key req) (
          denied fresh.approval_intent_id d.matched_rule snapshot.policy_hash
            approval_channel_missing)

  -- the rail is looked up, and its environment compared, before either answer
  unfoldable pub on_rail :
      Fresh
      → PolicySnapshot
      → Decision
      → Request
      → Action DecisionEnvelope
      → Action DecisionEnvelope
  on_rail fresh snapshot d req rest = do
    rail ← or_throw cfg.rail rail_not_registered
    if env_mismatch cfg.env rail
        then remember (idem_key req)
            (denied fresh.intent_id d.matched_rule snapshot.policy_hash rail_env_mismatch)
        else rest

  unfoldable pub follow_decision :
      World
      → Fresh
      → PolicySnapshot
      → NormalizedFacts
      → Decision
      → Request
      → Action DecisionEnvelope
  follow_decision w fresh snapshot facts d req = elim d.effect [
    | deny ↦ deny_by_rule fresh snapshot d req
    | allow ↦ on_rail fresh snapshot d req (allow_intent w fresh snapshot facts d req)
    | require_approval ↦ on_rail fresh snapshot d req (create_approval w fresh snapshot facts d req)
  ]

  current_snapshot : Action PolicySnapshot
  current_snapshot s = elim (get_current s.store) [
    | ok snapshot ↦ (ok snapshot, s)
    | err e ↦ (err (snapshot_error e), s)
  ]

  -- `proposeIntent` where the key is new
  unfoldable pub propose_new : World → Fresh → Request → Action DecisionEnvelope
  unfolding current_snapshot
  propose_new w fresh req = do
    snapshot ← current_snapshot
    facts ← or_throw w.facts facts_failed
    follow_decision w fresh snapshot facts (evaluate snapshot.policy facts) req

  abbrev pub answer_or : Option DecisionEnvelope → Action DecisionEnvelope → Action DecisionEnvelope
  answer_or (some env) rest = pure env
  answer_or none rest = rest

  -- `const cached = this.idempotency.get(idemKey); if (cached) return cached;`
  unfoldable pub cached_or : String → Action DecisionEnvelope → Action DecisionEnvelope
  cached_or key rest s = answer_or (lookup key s.idempotency) rest s

  unfoldable pub propose_intent : World → Fresh → Request → Action DecisionEnvelope
  propose_intent w fresh req = do
    authenticate req.caller_token
    throw_if (is_empty req.idempotency_key) idempotency_key_required
    cached_or (idem_key req) (propose_new w fresh req)
