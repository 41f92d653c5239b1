-- ===== src/Policy/Engine/Propose/Granted.antt =====
-- An answer "allow" is granted by the policy and paid for in the ledger (packages/policy/src/engine.ts,
-- `proposeIntent`).
use steelyard_sdk.Base.{
  ℕ, ◌≡◌, refl, sym, String, Bool, true, false, inl, inr, Option, some, none, if◌then◌else◌, Result,
  ok, err, arith, Option-cases, Result-cases, is_empty, ◌∙◌, ap,
}
use mathlib.Core.Path.{subst}
use steelyard_sdk.Base.Int.{ℤ}
use steelyard_sdk.Base.Maps.{lookup}
use steelyard_sdk.Policy.Ledger as Ledger
use steelyard_sdk.Policy.Ledger.{LimitReason}
use steelyard_sdk.Policy.Evaluator.{
  allow, deny, require_approval, RuleEffect, NormalizedFacts, Decision, evaluate,
}
use steelyard_sdk.Policy.Snapshots.{PolicySnapshot, get_current}
use steelyard_sdk.Policy.Engine.State.{
  Engine, Action, EngineError, AuthorizationInputs, DecisionEnvelope, denied, authenticate,
  throw_if, rail_env_mismatch, ◌>>=◌, on_error, or_throw, remember,
}
use steelyard_sdk.Policy.Engine.Propose.{
  Config, World, Fresh, Request, allow_intent, env_mismatch, issue, undo, idem_key,
  prepare_authorization, deny_by_rule, create_approval, on_rail, follow_decision, propose_new,
  current_snapshot, answer_or, cached_or, propose_intent,
}
use steelyard_sdk.Policy.Engine.Propose.Allowed.{
  bind_ok, is_allowed, remember_ok, deny_limit_ok, deny_by_rule_ok, create_approval_ok, issue_ok,
  Granted, reserve_ok, retain_ok, undo_never,
}

on_error_ok :
    {A : Type 0} (m : Action A) (h : EngineError → Action A) (s s' : Engine) (a : A)
    → ((x : EngineError) (s1 : Engine) → ¬ (h x s1 ≡ (ok a, s')))
    → on_error m h s ≡ (ok a, s')
    → m s ≡ (ok a, s')
on_error_ok {A} m h s s' a never e = go (m s) refl e
  where
    go :
        (p : Result EngineError A × Engine)
        → m s ≡ p
        → ◌≡◌ {A = Result EngineError A × Engine}
            (elim p.0 [ ok b ↦ (ok b, p.1) | err x ↦ h x p.1 ])
            (ok a, s')
        → m s ≡ (ok a, s')
    go (ok b, s1) q k = q ∙ k
    go (err x, s1) q k = absurd (never x s1 k)

authenticated :
    (token : String) (u : Unit {0}) (s s1 : Engine) → authenticate token s ≡ (ok u, s1) → s1 ≡ s
unfolding authenticate ◌>>=◌
authenticated token u s s1 e = ground arith

passed :
    (b : Bool) (x : EngineError) (u : Unit {0}) (s s1 : Engine)
    → throw_if b x s ≡ (ok u, s1)
    → s1 ≡ s
passed b x u s s1 e = ground arith

or_thrown :
    {A : Type 0} (o : Option A) (x : EngineError) (a : A) (s s1 : Engine)
    → or_throw o x s ≡ (ok a, s1)
    → (o ≡ some a) × (s1 ≡ s)
or_thrown none x a s s1 e = ground arith
or_thrown (some b) x a s s1 e = (ground arith, ground arith)

contradiction : {A : Type 0} (b : Bool) → b ≡ true → b ≡ false → A
contradiction true p q = ground arith
contradiction false p q = ground arith

module _ (cfg : Config) (authorization_hash : AuthorizationInputs → String)
    (prompt_hash : String → String → String → String → ℤ → ℕ → String) where
  allow_intent_ok :
      (w : World) (fresh : Fresh) (snapshot : PolicySnapshot) (facts : NormalizedFacts)
      (d : Decision) (req : Request) (env : DecisionEnvelope) (s s' : Engine)
      → is_allowed env ≡ true
      → allow_intent cfg authorization_hash prompt_hash w fresh snapshot facts d req s
        ≡ (ok env, s')
      → Granted cfg authorization_hash prompt_hash w fresh snapshot facts d req env s s'
  unfolding allow_intent
  allow_intent_ok w fresh snapshot facts d req env s s' yes_allowed e =
      let hash =
        authorization_hash (
          prepare_authorization cfg authorization_hash prompt_hash w.now snapshot facts d req "") in
      let (over, s1, q1, e1) = bind_ok _ _ s s' env e in
      elim (Option-cases over) [
        | inr (l, h) ↦ contradiction (is_allowed env) yes_allowed (
            deny_limit_ok cfg authorization_hash prompt_hash fresh snapshot d req hash l env s1 s'
              (rw h at e1))
        | inl h ↦
            let k = rw h at e1 in
            let within =
              reserve_ok cfg authorization_hash prompt_hash w fresh facts d req s s1 (rw h at q1) in
            let (u, s2, q2, e2) = bind_ok _ _ s1 s' env k in
            let issued =
              on_error_ok (issue cfg authorization_hash prompt_hash w fresh snapshot d req hash)
                (undo cfg authorization_hash prompt_hash fresh snapshot) s2 s' env
                (λ x s3. undo_never cfg authorization_hash prompt_hash fresh snapshot x env s3 s')
                e2 in
            let (answer, (minted, by_rail, same), committed) =
              issue_ok cfg authorization_hash prompt_hash w fresh snapshot d req hash env s2 s'
                issued in
            record {
              hash = hash;
              answer = answer;
              of_inputs = refl;
              minted = minted;
              by_rail = by_rail;
              same_hash = same;
              admitted = s1.table;
              within = within;
              is_committed =
                  ap (λ t. Ledger.commit fresh.reservation_id fresh.credential_id t)
                    (sym (
                      retain_ok cfg authorization_hash prompt_hash snapshot.policy_hash u s1 s2 q2))
                  ∙ committed;
            }
      ]

  railed :
      (fresh : Fresh) (snapshot : PolicySnapshot) (d : Decision) (req : Request)
      (rest : Action DecisionEnvelope) (env : DecisionEnvelope) (s s' : Engine) (mismatch : Bool)
      → is_allowed env ≡ true
      → (if mismatch
            then remember
                (idem_key req)
                (denied fresh.intent_id d.matched_rule snapshot.policy_hash rail_env_mismatch)
            else rest)
          s
        ≡ (ok env, s')
      → rest s ≡ (ok env, s')
  railed fresh snapshot d req rest env s s' true yes_allowed e =
      let (same, table) = remember_ok _ _ env s s' e in
      contradiction (is_allowed env) yes_allowed (ap is_allowed same)
  railed fresh snapshot d req rest env s s' false yes_allowed e = e

  on_rail_ok :
      (fresh : Fresh) (snapshot : PolicySnapshot) (d : Decision) (req : Request)
      (rest : Action DecisionEnvelope) (env : DecisionEnvelope) (s s' : Engine)
      → is_allowed env ≡ true
      → on_rail cfg authorization_hash prompt_hash fresh snapshot d req rest s ≡ (ok env, s')
      → rest s ≡ (ok env, s')
  unfolding on_rail
  on_rail_ok fresh snapshot d req rest env s s' yes_allowed e =
      let (rail, s1, q1, e1) = bind_ok _ _ s s' env e in
      let (found, same) = or_thrown cfg.rail _ rail s s1 q1 in
      subst (λ x. rest x ≡ (ok env, s')) same
        (railed fresh snapshot d req rest env s1 s' (env_mismatch cfg.env rail) yes_allowed e1)

  follow_ok :
      (w : World) (fresh : Fresh) (snapshot : PolicySnapshot) (facts : NormalizedFacts)
      (d : Decision) (req : Request) (env : DecisionEnvelope) (s s' : Engine)
      → is_allowed env ≡ true
      → follow_decision cfg authorization_hash prompt_hash w fresh snapshot facts d req s
        ≡ (ok env, s')
      → (d.effect ≡ allow)
        × Granted cfg authorization_hash prompt_hash w fresh snapshot facts d req env s s'
  unfolding follow_decision
  follow_ok w fresh snapshot facts d req env s s' yes_allowed e = go d.effect refl e
    where
      go :
          (effect : RuleEffect)
          → d.effect ≡ effect
          → (elim effect as (λ _. Action DecisionEnvelope) [
            | deny ↦ deny_by_rule cfg authorization_hash prompt_hash fresh snapshot d req
            | allow ↦
                on_rail cfg authorization_hash prompt_hash fresh snapshot d req
                  (allow_intent cfg authorization_hash prompt_hash w fresh snapshot facts d req)
            | require_approval ↦
                on_rail cfg authorization_hash prompt_hash fresh snapshot d req
                  (create_approval cfg authorization_hash prompt_hash w fresh snapshot facts d req)
          ])
              s
            ≡ (ok env, s')
          → (d.effect ≡ allow)
            × Granted cfg authorization_hash prompt_hash w fresh snapshot facts d req env s s'
      go allow q k = (
        q,
        allow_intent_ok w fresh snapshot facts d req env s s' yes_allowed
            (on_rail_ok fresh snapshot d req _ env s s' yes_allowed k),
      )
      go deny q k =
          contradiction (is_allowed env) yes_allowed
            (deny_by_rule_ok cfg authorization_hash prompt_hash fresh snapshot d req env s s' k)
      go require_approval q k = contradiction (is_allowed env) yes_allowed (
          create_approval_ok cfg authorization_hash prompt_hash w fresh snapshot facts d req env s
            s' (on_rail_ok fresh snapshot d req _ env s s' yes_allowed k))

  current_ok :
      (snapshot : PolicySnapshot) (s s1 : Engine)
      → current_snapshot cfg authorization_hash prompt_hash s ≡ (ok snapshot, s1)
      → (get_current s.store ≡ ok snapshot) × (s1 ≡ s)
  unfolding current_snapshot
  current_ok snapshot s s1 e = elim (Result-cases (get_current s.store)) [
    | inl (t, h) ↦ (ground arith, ground arith)
    | inr (x, h) ↦ ground arith
  ]

  -- the policy and the facts that an allowed answer was decided on
  pub record Decided (w : World) (fresh : Fresh) (req : Request) (env : DecisionEnvelope)
      (s s' : Engine) : Type 0 where
    pub snapshot : PolicySnapshot
    pub current : get_current s.store ≡ ok snapshot
    pub facts : NormalizedFacts
    pub known : w.facts ≡ some facts
    pub allows : (evaluate snapshot.policy facts).effect ≡ allow
    pub granted :
        Granted cfg authorization_hash prompt_hash w fresh snapshot facts
          (evaluate snapshot.policy facts)
          req
          env
          s
          s'

  propose_new_ok :
      (w : World) (fresh : Fresh) (req : Request) (env : DecisionEnvelope) (s s' : Engine)
      → is_allowed env ≡ true
      → propose_new cfg authorization_hash prompt_hash w fresh req s ≡ (ok env, s')
      → Decided w fresh req env s s'
  unfolding propose_new
  propose_new_ok w fresh req env s s' yes_allowed e =
      let (snapshot, s1, q1, e1) = bind_ok _ _ s s' env e in
      let (facts, s2, q2, e2) = bind_ok _ _ s1 s' env e1 in
      let (current, same1) = current_ok snapshot s s1 q1 in
      let (known, same2) = or_thrown w.facts _ facts s1 s2 q2 in
      let (allows, granted) =
        follow_ok w fresh snapshot facts (evaluate snapshot.policy facts) req env s2 s' yes_allowed
          e2 in
      record {
        snapshot = snapshot;
        current = current;
        facts = facts;
        known = known;
        allows = allows;
        granted =
            subst
              (λ x.
                Granted cfg authorization_hash prompt_hash w fresh snapshot facts
                  (evaluate snapshot.policy facts) req env x s')
              (same2 ∙ same1) granted;
      }

  -- An answer "allow" to a proposal whose key is new comes from a rule of the current policy that allows the
  -- facts; the limits of that rule admitted the reservation, the rail minted for exactly the hash of the
  -- authorization, and the reservation is committed under the credential of the answer.
  pub propose_intent-Decided :
      (w : World) (fresh : Fresh) (req : Request) (env : DecisionEnvelope) (s s' : Engine)
      → lookup (idem_key req) s.idempotency ≡ none
      → is_allowed env ≡ true
      → propose_intent cfg authorization_hash prompt_hash w fresh req s ≡ (ok env, s')
      → Decided w fresh req env s s'
  unfolding propose_intent cached_or
  propose_intent-Decided w fresh req env s s' new yes_allowed e =
      let (u, s1, q1, e1) = bind_ok _ _ s s' env e in
      let (v, s2, q2, e2) = bind_ok _ _ s1 s' env e1 in
      let same : s2 ≡ s =
        passed (is_empty req.idempotency_key) _ v s1 s2 q2
        ∙ authenticated req.caller_token u s s1 q1 in
      let k : answer_or cfg authorization_hash prompt_hash (lookup (idem_key req) s.idempotency)
            (propose_new cfg authorization_hash prompt_hash w fresh req) s
          ≡ (ok env, s') =
        subst
          (λ x.
            answer_or cfg authorization_hash prompt_hash (lookup (idem_key req) x.idempotency)
              (propose_new cfg authorization_hash prompt_hash w fresh req) x
            ≡ (ok env, s'))
          same e2 in
      propose_new_ok w fresh req env s s' yes_allowed (rw new at k)
