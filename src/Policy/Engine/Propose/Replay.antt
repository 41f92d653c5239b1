-- ===== src/Policy/Engine/Propose/Replay.antt =====
-- A repeated proposal (packages/policy/src/engine.ts, `proposeIntent`).
use steelyard_sdk.Base.{
  ℕ, ◌≡◌, refl, String, Bool, true, false, Option, some, none, is_empty, str_eq, str_eq_iff, Result,
  ok, err, arith, inl, inr, Bool-cases, if◌then◌else◌,
}
use steelyard_sdk.Base.Int.{ℤ}
use steelyard_sdk.Base.Maps.{lookup, insert, lookup-insert_self}
use steelyard_sdk.Policy.Evaluator.{
  RuleEffect, allow, deny, require_approval, NormalizedFacts, Decision, evaluate,
}
use steelyard_sdk.Policy.Snapshots.{PolicySnapshot}
use steelyard_sdk.Policy.Engine.State.{
  Engine, Action, EngineError, DecisionEnvelope, AuthorizationInputs, authenticate, remember, ◌>>=◌,
  throw, on_error,
}
use steelyard_sdk.Policy.Engine.Propose.{
  Config, World, Fresh, Request, idem_key, propose_intent, propose_new, follow_decision, on_rail,
  deny_by_rule, allow_intent, create_approval, issue, undo, deny_limit, open_approval, cached_or,
  answer_or, record_prompt, deny_budget,
}

-- An action that answers has stored its answer under the key.
record Stores (key : String) (m : Action DecisionEnvelope) : Type 0 where
  stored :
      (s s' : Engine) (env : DecisionEnvelope)
      → m s ≡ (ok env, s')
      → lookup key s'.idempotency ≡ some env

remember-Stores : (key : String) (env : DecisionEnvelope) → Stores key (remember key env)
unfolding remember ◌>>=◌
remember-Stores key env = record {
  stored = λ s s' e' h.
      let same_state : record s { idempotency = insert key env s.idempotency } ≡ s' = cc h in
      let same_env : env ≡ e' = cc h in
      rw (← same_state, ← same_env) (lookup-insert_self key env s.idempotency);
}

throw-Stores : (key : String) (e : EngineError) → Stores key (throw e)
throw-Stores key e = record { stored = λ s s' env h. cc h }

module _ (key : String) where
  after_result :
      {A : Type 0} (r : Result EngineError A) (s1 : Engine) (f : A → Action DecisionEnvelope)
      → ((a : A) → Stores key (f a))
      → (s' : Engine) (env : DecisionEnvelope)
      → (let k : Result EngineError DecisionEnvelope × Engine = elim r [
        | ok a ↦ f a s1
        | err e ↦ (err e, s1)
      ] in
          k)
        ≡ (ok env, s')
      → lookup key s'.idempotency ≡ some env
  after_result (ok a) s1 f k s' env h = (k a).stored s1 s' env h
  after_result (err e) s1 f k s' env h = cc h

  bind-Stores :
      {A : Type 0} (m : Action A) (f : A → Action DecisionEnvelope)
      → ((a : A) → Stores key (f a))
      → Stores key (m >>= f)
  unfolding ◌>>=◌
  bind-Stores m f k = record { stored = λ s s' env h. after_result (m s).0 (m s).1 f k s' env h }

  after_try :
      (r : Result EngineError DecisionEnvelope) (s1 : Engine)
      (h : EngineError → Action DecisionEnvelope) (s' : Engine) (env : DecisionEnvelope)
      → (r ≡ ok env → s1 ≡ s' → lookup key s'.idempotency ≡ some env)
      → ((e : EngineError) → Stores key (h e))
      → (let k : Result EngineError DecisionEnvelope × Engine = elim r [
        | ok a ↦ (ok a, s1)
        | err e ↦ h e s1
      ] in
          k)
        ≡ (ok env, s')
      → lookup key s'.idempotency ≡ some env
  after_try (ok a) s1 h s' env done k e = done (cc e) (cc e)
  after_try (err x) s1 h s' env done k e = (k x).stored s1 s' env e

  on_error-Stores :
      (m : Action DecisionEnvelope) (h : EngineError → Action DecisionEnvelope)
      → Stores key m
      → ((e : EngineError) → Stores key (h e))
      → Stores key (on_error m h)
  on_error-Stores m h sm sh = record {
    stored = λ s s' env e.
        after_try (m s).0 (m s).1 h s' env (λ er es. sm.stored s s' env (cc (er, es))) sh e;
  }

  if-Stores :
      (b : Bool) (m n : Action DecisionEnvelope)
      → Stores key m
      → Stores key n
      → Stores key (if b then m else n)
  if-Stores true m n sm sn = sm
  if-Stores false m n sm sn = sn

module _ (cfg : Config) (authorization_hash : AuthorizationInputs → String)
    (prompt_hash : String → String → String → String → ℤ → ℕ → String) where
  module _ (w : World) (fresh : Fresh) (snapshot : PolicySnapshot) (facts : NormalizedFacts)
      (d : Decision) (req : Request) where
    abbrev Keeps : Action DecisionEnvelope → Type 0
    Keeps = Stores (idem_key req)

    deny_by_rule-Keeps :
        Keeps (deny_by_rule cfg authorization_hash prompt_hash fresh snapshot d req)
    unfolding deny_by_rule
    deny_by_rule-Keeps =
        bind-Stores (idem_key req) _ _
          (λ _. bind-Stores (idem_key req) _ _ (λ _. remember-Stores (idem_key req) _))

    issue-Keeps :
        (a : String) → Keeps (issue cfg authorization_hash prompt_hash w fresh snapshot d req a)
    unfolding issue
    issue-Keeps a =
        let k = idem_key req in
        bind-Stores k _ _ (λ _.
          bind-Stores k _ _
            (λ _. bind-Stores k _ _ (λ _. bind-Stores k _ _ (λ _. remember-Stores k _))))

    undo-Keeps :
        (e : EngineError) → Keeps (undo cfg authorization_hash prompt_hash fresh snapshot e)
    unfolding undo
    undo-Keeps e =
        let k = idem_key req in bind-Stores k _ _ (λ _. bind-Stores k _ _ (λ _. throw-Stores k e))

    allow_intent-Keeps :
        Keeps (allow_intent cfg authorization_hash prompt_hash w fresh snapshot facts d req)
    unfolding allow_intent deny_limit
    allow_intent-Keeps =
        let k = idem_key req in
        bind-Stores k _ _ (elim [
          | some reason ↦ bind-Stores k _ _ (λ _. remember-Stores k _)
          | none ↦ bind-Stores k _ _ (λ _. on_error-Stores k _ _ (issue-Keeps _) undo-Keeps)
        ])

    open_approval-Keeps :
        Keeps (open_approval cfg authorization_hash prompt_hash w fresh snapshot facts d req)
    unfolding open_approval record_prompt
    open_approval-Keeps =
        let k = idem_key req in
        bind-Stores k _ _ (λ _. bind-Stores k _ _ (elim [
          | some reason ↦ remember-Stores k _
          | none ↦ bind-Stores k _ _ (λ _.
              bind-Stores k _ _
                (λ _. bind-Stores k _ _ (λ _. bind-Stores k _ _ (λ _. remember-Stores k _))))
        ]))

    create_approval-Keeps :
        Keeps (create_approval cfg authorization_hash prompt_hash w fresh snapshot facts d req)
    unfolding create_approval deny_budget
    create_approval-Keeps =
        let k = idem_key req in
        if-Stores k cfg.has_channel _ _
          (bind-Stores k _ _ (elim [
            | true ↦ open_approval-Keeps
            | false ↦ bind-Stores k _ _ (λ _. remember-Stores k _)
          ]))
          (remember-Stores k _)

    on_rail-Keeps :
        (rest : Action DecisionEnvelope)
        → Keeps rest
        → Keeps (on_rail cfg authorization_hash prompt_hash fresh snapshot d req rest)
    unfolding on_rail
    on_rail-Keeps rest h =
        let k = idem_key req in
        bind-Stores k _ _ (λ rail. if-Stores k _ _ _ (remember-Stores k _) h)

    follow-Keeps :
        (e : RuleEffect)
        → d.effect ≡ e
        → Keeps (follow_decision cfg authorization_hash prompt_hash w fresh snapshot facts d req)
    unfolding follow_decision
    follow-Keeps deny h = rw (h, follow_decision) deny_by_rule-Keeps
    follow-Keeps allow h = rw (h, follow_decision) (on_rail-Keeps _ allow_intent-Keeps)
    follow-Keeps require_approval h =
        rw (h, follow_decision) (on_rail-Keeps _ create_approval-Keeps)

  module _ (w : World) (fresh : Fresh) (req : Request) where
    propose_new-Stores :
        Stores (idem_key req) (propose_new cfg authorization_hash prompt_hash w fresh req)
    unfolding propose_new
    propose_new-Stores =
        let k = idem_key req in
        bind-Stores k _ _ (λ snapshot. bind-Stores k _ _ (λ facts.
          follow-Keeps w fresh snapshot facts (evaluate snapshot.policy facts) req _ refl))

    cached_or-Stores :
        (key : String) (rest : Action DecisionEnvelope)
        → Stores key rest
        → Stores key (cached_or cfg authorization_hash prompt_hash key rest)
    unfolding cached_or
    cached_or-Stores key rest h = record {
      stored = λ s s' env e. by_cache (lookup key s.idempotency) s s' env refl e;
    }
      where
        by_cache :
            (o : Option DecisionEnvelope) (s s' : Engine) (env : DecisionEnvelope)
            → lookup key s.idempotency ≡ o
            → answer_or cfg authorization_hash prompt_hash o rest s ≡ (ok env, s')
            → lookup key s'.idempotency ≡ some env
        by_cache none s s' env e k = h.stored s s' env k
        by_cache (some c) s s' env e k =
            let same : s ≡ s' = cc k in let answer : c ≡ env = cc k in rw (← same, ← answer) e

    propose_intent-Stores :
        Stores (idem_key req) (propose_intent cfg authorization_hash prompt_hash w fresh req)
    unfolding propose_intent
    propose_intent-Stores =
        let k = idem_key req in
        bind-Stores k _ _ (λ _. bind-Stores k _ _ (λ _. cached_or-Stores k _ propose_new-Stores))

    accepted :
        (s s' : Engine) (env : DecisionEnvelope)
        → propose_intent cfg authorization_hash prompt_hash w fresh req s ≡ (ok env, s')
        → is_empty req.idempotency_key ≡ false
    unfolding propose_intent authenticate ◌>>=◌
    accepted s s' env h = elim (Bool-cases (is_empty req.idempotency_key)) [
      | inr e ↦ e
      | inl e ↦ ground arith
    ]

  replay :
      (w : World) (fresh : Fresh) (req : Request) (s : Engine) (env : DecisionEnvelope)
      → req.caller_token ≡ s.token
      → is_empty req.idempotency_key ≡ false
      → lookup (idem_key req) s.idempotency ≡ some env
      → propose_intent cfg authorization_hash prompt_hash w fresh req s ≡ (ok env, s)
  unfolding propose_intent authenticate ◌>>=◌ cached_or
  replay w fresh req s env t e k =
      let known : str_eq req.caller_token s.token ≡ true = (str_eq_iff _ _).1 t in
      ground (arith, known)

-- A proposal that was answered is answered again in the same way, and the engine does not change:
-- no second reservation, credential, prompt or audit entry, whatever the clock, the random ids and
-- the systems outside say then, and whatever else the repeated request asks for. The repeated
-- request carries the caller's token, which must be the engine's still, and the same key.
pub propose_intent-replays :
    (cfg : Config) (authorization_hash : AuthorizationInputs → String)
    (prompt_hash : String → String → String → String → ℤ → ℕ → String) (w w' : World)
    (fresh fresh' : Fresh) (req req' : Request) (s s' : Engine) (env : DecisionEnvelope)
    → propose_intent cfg authorization_hash prompt_hash w fresh req s ≡ (ok env, s')
    → req'.caller_token ≡ req.caller_token
    → req'.idempotency_key ≡ req.idempotency_key
    → req'.caller_token ≡ s'.token
    → propose_intent cfg authorization_hash prompt_hash w' fresh' req' s' ≡ (ok env, s')
unfolding idem_key
propose_intent-replays cfg ah ph w w' fresh fresh' req req' s s' env h ct ik tk =
    replay cfg ah ph w' fresh' req' s' env tk (rw ik (accepted cfg ah ph w fresh req s s' env h))
      (rw (ct, ik) ((propose_intent-Stores cfg ah ph w fresh req).stored s s' env h))
