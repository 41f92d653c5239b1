-- ===== src/Policy/Engine/Propose/Allowed.antt =====
-- What stands behind an answer "allow" (packages/policy/src/engine.ts, `proposeIntent`).
use steelyard_sdk.Base.{
  ℕ, ◌≡◌, refl, sym, String, Bool, true, false, inl, inr, some, none, str_eq, if◌then◌else◌, Result,
  ok, err, arith, Option-cases, Result-cases, ◌∙◌, ap,
}
use mathlib.Core.Path.{subst}
use steelyard_sdk.Base.Int.{ℤ}
use steelyard_sdk.Base.Maps.{insert}
use steelyard_sdk.Policy.Ledger as Ledger
use steelyard_sdk.Policy.Ledger.{
  LimitReason, Reserved, denied as over_limit, reserved, reserve_after_limit_check, Table,
}
use steelyard_sdk.Policy.Evaluator.{NormalizedFacts, Decision}
use steelyard_sdk.Policy.Snapshots as Snapshots
use steelyard_sdk.Policy.Snapshots.{PolicySnapshot, get_current}
use steelyard_sdk.Policy.Engine.State.{
  Engine, Action, EngineError, AuthorizationInputs, ApprovalRecord, DecisionEnvelope, allowed,
  denied, AuditEntry, IntentRecord, approval_channel_missing, modify, ◌>>=◌, write_audit, remember,
  retain_snapshot, commit_reservation,
}
use steelyard_sdk.Policy.Engine.Propose.{
  Config, World, Fresh, Request, Minted, prepare_authorization, reserve, issue, undo, deny_limit,
  deny_by_rule, record_prompt, open_approval, consume_budget, deny_budget, create_approval,
  idem_key,
}
use steelyard_sdk.Policy.Engine.Callback.Checks.{mint_ok}

pub bind_ok :
    {A B : Type 0} (m : Action A) (f : A → Action B) (s s' : Engine) (b : B)
    → (m >>= f) s ≡ (ok b, s')
    → (a : A) × (s1 : Engine) × (m s ≡ (ok a, s1)) × (f a s1 ≡ (ok b, s'))
unfolding ◌>>=◌
bind_ok {A} {B} m f s s' b e = go (m s) refl e
  where
    go :
        (p : Result EngineError A × Engine)
        → m s ≡ p
        → elim p.0 [ ok a ↦ f a p.1 | err x ↦ (err x, p.1) ] ≡ (ok b, s')
        → (a : A) × (s1 : Engine) × (m s ≡ (ok a, s1)) × (f a s1 ≡ (ok b, s'))
    go (ok a, s1) q k = (a, s1, q, k)
    go (err x, s1) q k = ground arith

abbrev pub is_allowed : DecisionEnvelope → Bool
is_allowed (allowed _ _ _ _ _) = true
is_allowed _ = false

pub remember_ok :
    (key : String) (env env' : DecisionEnvelope) (s s' : Engine)
    → remember key env s ≡ (ok env', s')
    → (env' ≡ env) × (s'.table ≡ s.table)
unfolding remember ◌>>=◌
remember_ok key env env' s s' e = (ground arith, ground arith)

commit_ok :
    (id c : String) (u : Unit {0}) (s s' : Engine)
    → commit_reservation id c s ≡ (ok u, s')
    → Ledger.commit id c s.table ≡ ok s'.table
unfolding commit_reservation
commit_ok id c u s s' e = elim (Result-cases (Ledger.commit id c s.table)) [
  | inl (t, h) ↦ ground arith
  | inr (x, h) ↦ ground arith
]

audited :
    (entry : AuditEntry) (u : Unit {0}) (s s' : Engine)
    → write_audit entry s ≡ (ok u, s')
    → s'.table ≡ s.table
unfolding write_audit
audited entry u s s' e = ground arith

intended_ok :
    (id : String) (r : IntentRecord) (u : Unit {0}) (s s' : Engine)
    → modify (λ x. record x { intents = insert id r x.intents }) s ≡ (ok u, s')
    → s'.table ≡ s.table
intended_ok id r u s s' e = ground arith

module _ (cfg : Config) (authorization_hash : AuthorizationInputs → String)
    (prompt_hash : String → String → String → String → ℤ → ℕ → String) where
  pub deny_limit_ok :
      (fresh : Fresh) (snapshot : PolicySnapshot) (d : Decision) (req : Request) (a : String)
      (l : LimitReason) (env : DecisionEnvelope) (s s' : Engine)
      → deny_limit cfg authorization_hash prompt_hash fresh snapshot d req a l s ≡ (ok env, s')
      → is_allowed env ≡ false
  unfolding deny_limit remember write_audit ◌>>=◌
  deny_limit_ok fresh snapshot d req a l env s s' e = ground arith

  pub deny_by_rule_ok :
      (fresh : Fresh) (snapshot : PolicySnapshot) (d : Decision) (req : Request)
      (env : DecisionEnvelope) (s s' : Engine)
      → deny_by_rule cfg authorization_hash prompt_hash fresh snapshot d req s ≡ (ok env, s')
      → is_allowed env ≡ false
  unfolding deny_by_rule remember write_audit ◌>>=◌
  deny_by_rule_ok fresh snapshot d req env s s' e = ground arith

  deny_budget_ok :
      (fresh : Fresh) (snapshot : PolicySnapshot) (d : Decision) (req : Request)
      (env : DecisionEnvelope) (s s' : Engine)
      → deny_budget cfg authorization_hash prompt_hash fresh snapshot d req s ≡ (ok env, s')
      → is_allowed env ≡ false
  unfolding deny_budget remember write_audit ◌>>=◌
  deny_budget_ok fresh snapshot d req env s s' e = ground arith

  record_prompt_ok :
      (req : Request) (r : ApprovalRecord) (env : DecisionEnvelope) (s s' : Engine)
      → record_prompt cfg authorization_hash prompt_hash req r s ≡ (ok env, s')
      → is_allowed env ≡ false
  unfolding record_prompt remember write_audit ◌>>=◌
  record_prompt_ok req r env s s' e = ground arith

  open_approval_ok :
      (w : World) (fresh : Fresh) (snapshot : PolicySnapshot) (facts : NormalizedFacts)
      (d : Decision) (req : Request) (env : DecisionEnvelope) (s s' : Engine)
      → open_approval cfg authorization_hash prompt_hash w fresh snapshot facts d req s
        ≡ (ok env, s')
      → is_allowed env ≡ false
  unfolding open_approval
  open_approval_ok w fresh snapshot facts d req env s s' e =
      let (duration, s1, q1, e1) = bind_ok _ _ s s' env e in
      let (over, s2, q2, e2) = bind_ok _ _ s1 s' env e1 in
      elim (Option-cases over) [
        | inr (l, h) ↦
            let k = rw h at e2 in
            let (same, table) = remember_ok _ _ env s2 s' k in ap is_allowed same
        | inl h ↦
            let k = rw h at e2 in
            let (u, s3, q3, e3) = bind_ok _ _ s2 s' env k in
            let (v, s4, q4, e4) = bind_ok _ _ s3 s' env e3 in record_prompt_ok req _ env s4 s' e4
      ]

  granted_ok :
      (w : World) (fresh : Fresh) (snapshot : PolicySnapshot) (facts : NormalizedFacts)
      (d : Decision) (req : Request) (env : DecisionEnvelope) (s s' : Engine) (granted : Bool)
      → (if granted
            then open_approval cfg authorization_hash prompt_hash w fresh snapshot facts d req
            else deny_budget cfg authorization_hash prompt_hash fresh snapshot d req)
          s
        ≡ (ok env, s')
      → is_allowed env ≡ false
  granted_ok w fresh snapshot facts d req env s s' true e =
      open_approval_ok w fresh snapshot facts d req env s s' e
  granted_ok w fresh snapshot facts d req env s s' false e =
      deny_budget_ok fresh snapshot d req env s s' e

  channel_ok :
      (w : World) (fresh : Fresh) (snapshot : PolicySnapshot) (facts : NormalizedFacts)
      (d : Decision) (req : Request) (env : DecisionEnvelope) (s s' : Engine) (there : Bool)
      → (if there
            then (consume_budget cfg authorization_hash prompt_hash w.now >>= λ granted.
                if granted
                then open_approval cfg authorization_hash prompt_hash w fresh snapshot facts d req
                else deny_budget cfg authorization_hash prompt_hash fresh snapshot d req)
            else remember (idem_key req) (
                denied fresh.approval_intent_id d.matched_rule snapshot.policy_hash
                  approval_channel_missing))
          s
        ≡ (ok env, s')
      → is_allowed env ≡ false
  channel_ok w fresh snapshot facts d req env s s' true e =
      let (granted, s1, q1, e1) = bind_ok _ _ s s' env e in
      granted_ok w fresh snapshot facts d req env s1 s' granted e1
  channel_ok w fresh snapshot facts d req env s s' false e =
      let (same, table) = remember_ok _ _ env s s' e in ap is_allowed same

  pub create_approval_ok :
      (w : World) (fresh : Fresh) (snapshot : PolicySnapshot) (facts : NormalizedFacts)
      (d : Decision) (req : Request) (env : DecisionEnvelope) (s s' : Engine)
      → create_approval cfg authorization_hash prompt_hash w fresh snapshot facts d req s
        ≡ (ok env, s')
      → is_allowed env ≡ false
  unfolding create_approval
  create_approval_ok w fresh snapshot facts d req env s s' e =
      channel_ok w fresh snapshot facts d req env s s' cfg.has_channel e

  pub issue_ok :
      (w : World) (fresh : Fresh) (snapshot : PolicySnapshot) (d : Decision) (req : Request)
      (a : String) (env : DecisionEnvelope) (s s' : Engine)
      → issue cfg authorization_hash prompt_hash w fresh snapshot d req a s ≡ (ok env, s')
      → (env ≡ allowed fresh.intent_id d.matched_rule snapshot.policy_hash a fresh.credential_id)
        × ((minted : Minted) × (w.mint a ≡ some minted)
            × (str_eq minted.authorization_hash a ≡ true))
        × (Ledger.commit fresh.reservation_id fresh.credential_id s.table ≡ ok s'.table)
  unfolding issue
  issue_ok w fresh snapshot d req a env s s' e =
      let (c, s1, q1, e1) = bind_ok _ _ s s' env e in
      let (u, s2, q2, e2) = bind_ok _ _ s1 s' env e1 in
      let (minted, by_rail, same, same_c, sp, st) =
        mint_ok cfg authorization_hash prompt_hash w req.caller_token fresh.credential_id a
          snapshot.policy_hash s s1 c q1 in
      let (v, s3, q3, e3) = bind_ok _ _ s2 s' env e2 in
      let (x, s4, q4, e4) = bind_ok _ _ s3 s' env e3 in
      let (same_env, same_table) = remember_ok _ _ env s4 s' e4 in
      let table : s'.table ≡ s2.table =
        same_table ∙ (intended_ok _ _ x s3 s4 q4 ∙ audited _ v s2 s3 q3) in
      let committed = commit_ok fresh.reservation_id c u s1 s2 q2 in
      (
        same_env ∙ ap (λ k. allowed fresh.intent_id d.matched_rule snapshot.policy_hash a k) same_c,
        (minted, by_rail, same),
        subst (λ k. Ledger.commit fresh.reservation_id k s.table ≡ ok s'.table) same_c
            (subst (λ k. Ledger.commit fresh.reservation_id c k ≡ ok s'.table) st
              (committed ∙ ap ok (sym table))),
      )

  -- What stands behind an allowed answer: the rule that decides allows, its limits admitted the
  -- reservation, the rail minted for the hash, and the reservation is committed.
  pub record Granted (w : World) (fresh : Fresh) (snapshot : PolicySnapshot)
      (facts : NormalizedFacts) (d : Decision) (req : Request) (env : DecisionEnvelope)
      (s s' : Engine) : Type 0 where
    pub hash : String
    pub answer :
        env ≡ allowed fresh.intent_id d.matched_rule snapshot.policy_hash hash fresh.credential_id
    pub of_inputs :
        hash
        ≡ authorization_hash
            (prepare_authorization cfg authorization_hash prompt_hash w.now snapshot facts d req "")
    pub minted : Minted
    pub by_rail : w.mint hash ≡ some minted
    pub same_hash : str_eq minted.authorization_hash hash ≡ true
    pub admitted : Table
    pub within :
        reserve_after_limit_check d.rule.limits fresh.reservation_id d.rule.name fresh.intent_id
          facts.amount_usd req.purchase_id w.now cfg.reservation_ttl_seconds s.table
        ≡ ok (reserved admitted)
    pub is_committed : Ledger.commit fresh.reservation_id fresh.credential_id admitted ≡ ok s'.table

  pub reserve_ok :
      (w : World) (fresh : Fresh) (facts : NormalizedFacts) (d : Decision) (req : Request)
      (s s1 : Engine)
      → reserve cfg authorization_hash prompt_hash w.now fresh fresh.intent_id facts d req s
        ≡ (ok none, s1)
      → reserve_after_limit_check d.rule.limits fresh.reservation_id d.rule.name fresh.intent_id
          facts.amount_usd req.purchase_id w.now cfg.reservation_ttl_seconds s.table
        ≡ ok (reserved s1.table)
  unfolding reserve
  reserve_ok w fresh facts d req s s1 e =
      elim (Result-cases (
        reserve_after_limit_check d.rule.limits fresh.reservation_id d.rule.name fresh.intent_id
          facts.amount_usd req.purchase_id w.now cfg.reservation_ttl_seconds s.table)) [
            | inr (x, h) ↦ ground arith
            | inl (over_limit l, h) ↦ ground arith
            | inl (reserved t, h) ↦ ground arith
          ]

  pub retain_ok :
      (hash : String) (u : Unit {0}) (s s1 : Engine)
      → retain_snapshot hash s ≡ (ok u, s1)
      → s1.table ≡ s.table
  unfolding retain_snapshot
  retain_ok hash u s s1 e = elim (Result-cases (Snapshots.retain hash s.store)) [
    | inl (t, h) ↦ ground arith
    | inr (x, h) ↦ ground arith
  ]

  pub undo_never :
      (fresh : Fresh) (snapshot : PolicySnapshot) (x : EngineError) (env : DecisionEnvelope)
      (s s' : Engine)
      → ¬ (undo cfg authorization_hash prompt_hash fresh snapshot x s ≡ (ok env, s'))
  unfolding undo
  undo_never fresh snapshot x env s s' e =
      let (u, s1, q1, e1) = bind_ok _ _ s s' env e in
      let (v, s2, q2, e2) = bind_ok _ _ s1 s' env e1 in ground arith
