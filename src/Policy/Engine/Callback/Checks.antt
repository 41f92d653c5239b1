-- ===== src/Policy/Engine/Callback/Checks.antt =====
-- What a callback has checked when it goes to the rail, and what it has written when the rail has
-- answered (packages/policy/src/engine.ts, `handleApprovalCallback`).
use steelyard_sdk.Base.{
  ℕ, ◌<◌, ◌≢◌, ◌≡◌, refl, String, true, false, Option, none, str_eq_iff, ◌||◌, ◌⊎◌, some, is_empty,
  str_eq, Result, ok, err, arith, inl, inr, Bool-cases, Option-cases, Result-cases,
}
use mathlib.Core.Path.{subst, ap, ◌∙◌}
use steelyard_sdk.Base.Int.{ℤ}
use steelyard_sdk.Base.Maps.{lookup, lookup-insert_self}
use steelyard_sdk.Policy.Ledger.{Table}
use steelyard_sdk.Policy.Ledger as Ledger
use steelyard_sdk.Policy.Snapshots.{PolicySnapshot, get_current}
use steelyard_sdk.Policy.Engine.State.{
  Engine, EngineError, AuthorizationInputs, ApprovalRecord, ApprovalState, approved, denied,
  cancelled, ◌>>=◌, write_audit, commit_reservation,
}
use steelyard_sdk.Policy.Engine.Propose.{Config, World, Minted, mint_credential}
use steelyard_sdk.Policy.Engine.Callback
use steelyard_sdk.Policy.Engine.Callback.{
  Choice, approve, deny, CallbackRequest, CallbackResult, was_approved, was_denied, rejected,
  replayed_nonce, Stage, answer, mint_for, is_answered, is_cancelled_state, has_expired,
  callback_begin, check_record, check_policy, decide_prompt, mark_stale, deny_prompt, expire_prompt,
  callback_finish, finish_current, finish_record, hash_differs, commit_held, update_approval,
  audit_record, handle_approval_callback, close_record, closed_record,
}

-- The policy hash that a request names, if it is neither missing nor empty, is `current`.
abbrev pub Names : Option String → (current : String) → Type 0
Names none current = Unit
Names (some h) current = (is_empty h ≡ true) ⊎ (h ≡ current)

hash_differs-Names :
    (o : Option String) (current : String) → hash_differs o current ≡ false → Names o current
hash_differs-Names none current e = tt
hash_differs-Names (some h) current e = elim (Bool-cases (is_empty h)) [
  | inl empty ↦ inl empty
  | inr full ↦ inr ((str_eq_iff h current).0 (ground (arith, e, full)))
]

module _ (cfg : Config) (authorization_hash : AuthorizationInputs → String)
    (prompt_hash : String → String → String → String → ℤ → ℕ → String) where
  -- What a callback has checked when it goes to the rail.
  pub record Checked (now : ℕ) (req : CallbackRequest) (r : ApprovalRecord) (s : Engine)
      : Type 0 where
    pub approves : req.decision ≡ some approve
    pub full : (is_empty req.approval_prompt_id || is_empty req.nonce) ≡ false
    pub nonce : r.nonce ≡ req.nonce
    pub not_approved : r.state ≢ approved
    pub not_denied : r.state ≢ denied
    pub not_cancelled : r.state ≢ cancelled
    pub live : now < r.expires_at
    pub genuine : authorization_hash r.auth_inputs ≡ r.authorization_hash
    pub current : PolicySnapshot
    pub is_current : get_current s.store ≡ ok current
    pub same_policy : r.policy_hash ≡ current.policy_hash
    pub names_policy : Names req.policy_hash current.policy_hash

  unanswered-not_approved : (a : ApprovalState) → is_answered a ≡ false → a ≢ approved
  unanswered-not_approved a h e = absurd (ground (arith, ap is_answered e, h))

  unanswered-not_denied : (a : ApprovalState) → is_answered a ≡ false → a ≢ denied
  unanswered-not_denied a h e = absurd (ground (arith, ap is_answered e, h))

  waiting-not_cancelled : (a : ApprovalState) → is_cancelled_state a ≡ false → a ≢ cancelled
  waiting-not_cancelled a h e = absurd (ground (arith, ap is_cancelled_state e, h))

  decide_mint :
      (choice : Choice) (r r' : ApprovalRecord) (s s1 : Engine)
      → decide_prompt cfg authorization_hash prompt_hash choice r s ≡ (ok (mint_for r'), s1)
      → (choice ≡ approve)
        × (r' ≡ r)
        × (s1 ≡ s)
        × (str_eq (authorization_hash r.auth_inputs) r.authorization_hash ≡ true)
  unfolding decide_prompt ◌>>=◌
  decide_mint approve r r' s s1 e = ground arith
  decide_mint deny r r' s s1 e = absurd (ground arith)

  policy_mint :
      (req : CallbackRequest) (choice : Choice) (r r' : ApprovalRecord) (s s1 : Engine)
      → check_policy cfg authorization_hash prompt_hash req choice r s ≡ (ok (mint_for r'), s1)
      → (current : PolicySnapshot) × (get_current s.store ≡ ok current)
        × (str_eq r.policy_hash current.policy_hash ≡ true)
        × Names req.policy_hash current.policy_hash
        × (decide_prompt cfg authorization_hash prompt_hash choice r s ≡ (ok (mint_for r'), s1))
  unfolding check_policy ◌>>=◌
  policy_mint req choice r r' s s1 e = elim (Result-cases (get_current s.store)) [
    | inl (current, h) ↦ (
      current,
      h,
      ground arith,
      hash_differs-Names req.policy_hash current.policy_hash (ground arith),
      ground arith,
    )
    | inr (x, h) ↦ ground arith
  ]

  record_mint :
      (now : ℕ) (req : CallbackRequest) (choice : Choice) (r r' : ApprovalRecord) (s s1 : Engine)
      → check_record cfg authorization_hash prompt_hash now req choice r s ≡ (ok (mint_for r'), s1)
      → (str_eq r.nonce req.nonce ≡ true)
        × (is_answered r.state ≡ false)
        × (is_cancelled_state r.state ≡ false)
        × (has_expired now r ≡ false)
        × (check_policy cfg authorization_hash prompt_hash req choice r s ≡ (ok (mint_for r'), s1))
  unfolding check_record ◌>>=◌
  record_mint now req choice r r' s s1 e = ground arith

  pub record_mint-Checked :
      (now : ℕ) (req : CallbackRequest) (choice : Choice) (r r' : ApprovalRecord) (s s1 : Engine)
      → req.decision ≡ some choice
      → (is_empty req.approval_prompt_id || is_empty req.nonce) ≡ false
      → check_record cfg authorization_hash prompt_hash now req choice r s ≡ (ok (mint_for r'), s1)
      → (r' ≡ r) × (s1 ≡ s) × Checked now req r s
  record_mint-Checked now req choice r r' s s1 given full e =
      let (n, a, c, l, p) = record_mint now req choice r r' s s1 e in
      let (current, k, same, named, q) = policy_mint req choice r r' s s1 p in
      let (chosen, eq, st, genuine) = decide_mint choice r r' s s1 q in
      (
        eq,
        st,
        record {
          approves = given ∙ ap (λ x. some x) chosen;
          full = full;
          nonce = (str_eq_iff r.nonce req.nonce).0 n;
          not_approved = unanswered-not_approved r.state a;
          not_denied = unanswered-not_denied r.state a;
          not_cancelled = waiting-not_cancelled r.state c;
          live = ground (arith, l);
          genuine = (str_eq_iff (authorization_hash r.auth_inputs) r.authorization_hash).0 genuine;
          current = current;
          is_current = k;
          same_policy = (str_eq_iff r.policy_hash current.policy_hash).0 same;
          names_policy = named;
        },
      )

  pub begin_known :
      (now : ℕ) (req : CallbackRequest) (r : ApprovalRecord) (s s1 : Engine) (st : Stage)
      → lookup req.approval_prompt_id s.prompts ≡ some r
      → callback_begin cfg authorization_hash prompt_hash now req s ≡ (ok st, s1)
      → (st ≡ answer (rejected 400 Callback.invalid_body))
        ⊎ ((choice : Choice) × (req.decision ≡ some choice)
            × ((is_empty req.approval_prompt_id || is_empty req.nonce) ≡ false)
            × (check_record cfg authorization_hash prompt_hash now req choice r s ≡ (ok st, s1)))
  unfolding callback_begin
  begin_known now req r s s1 st found e = elim (Option-cases req.decision) [
    | inl none_given ↦ inl (ground arith)
    | inr (choice, given) ↦
        elim (Bool-cases (is_empty req.approval_prompt_id || is_empty req.nonce)) [
          | inl empty ↦ inl (ground arith)
          | inr full ↦ inr (choice, given, full, ground arith)
        ]
  ]

  -- What a mint and its bookkeeping have done when they answer.
  pub record Issued (w : World) (credential_id : String) (r : ApprovalRecord) (s s' : Engine)
      : Type 0 where
    pub held : String
    pub holds : r.reservation_id ≡ some held
    pub minted : Minted
    pub by_rail : w.mint r.authorization_hash ≡ some minted
    pub same_hash : str_eq minted.authorization_hash r.authorization_hash ≡ true
    pub committed : Ledger.commit held credential_id s.table ≡ ok s'.table
    pub resolved :
        lookup r.approval_prompt_id s'.prompts
        ≡ some (record r { state = approved; credential = some credential_id })

  finish_record_ok :
      (r : ApprovalRecord) (c : String) (s s' : Engine) (result : CallbackResult)
      → finish_record cfg authorization_hash prompt_hash r c s ≡ (ok result, s')
      → (result ≡ was_approved c)
        × (held : String) × (r.reservation_id ≡ some held)
        × (Ledger.commit held c s.table ≡ ok s'.table)
        × (lookup r.approval_prompt_id s'.prompts
            ≡ some (record r { state = approved; credential = some c }))
  unfolding finish_record commit_held commit_reservation update_approval audit_record write_audit
      ◌>>=◌
  finish_record_ok r c s s' result e = elim (Option-cases r.reservation_id) [
    | inl nothing ↦ ground arith
    | inr (held, h) ↦ elim (Result-cases (Ledger.commit held c s.table)) [
      | inr (x, k) ↦ ground arith
      | inl (t, k) ↦ (
        ground arith,
        held,
        h,
        ground arith,
        ground (
          arith,
          lookup-insert_self r.approval_prompt_id
              (record r { state = approved; credential = some c }) s.prompts,
        ),
      )
    ]
  ]

  pub mint_ok :
      (w : World) (tok c auth policy : String) (s s1 : Engine) (c' : String)
      → mint_credential cfg authorization_hash prompt_hash w tok c auth policy s ≡ (ok c', s1)
      → (minted : Minted) × (w.mint auth ≡ some minted)
        × (str_eq minted.authorization_hash auth ≡ true)
        × (c' ≡ c)
        × (s1.prompts ≡ s.prompts)
        × (s1.table ≡ s.table)
  unfolding mint_credential ◌>>=◌
  mint_ok w tok c auth policy s s1 c' e = elim (Option-cases (w.mint auth)) [
    | inl thrown ↦ ground arith
    | inr (minted, h) ↦ elim (Bool-cases (str_eq minted.authorization_hash auth)) [
      | inl same ↦ (minted, h, same, ground arith, ground arith, ground arith)
      | inr other ↦ ground arith
    ]
  ]

  finish_after_mint :
      (w : World) (c : String) (r : ApprovalRecord) (s s1 s' : Engine) (result : CallbackResult)
      (minted : Minted)
      → w.mint r.authorization_hash ≡ some minted
      → str_eq minted.authorization_hash r.authorization_hash ≡ true
      → s1.prompts ≡ s.prompts
      → s1.table ≡ s.table
      → lookup r.approval_prompt_id s.prompts ≡ some r
      → finish_current cfg authorization_hash prompt_hash r c s1 ≡ (ok result, s')
      → (result ≡ was_approved c) × Issued w c r s s'
  unfolding finish_current
  finish_after_mint w c r s s1 s' result minted by_rail same_hash sp st found e =
      let found' : lookup r.approval_prompt_id s1.prompts ≡ some r =
        ap (lookup r.approval_prompt_id) sp ∙ found in
      let rest : finish_record cfg authorization_hash prompt_hash r c s1 ≡ (ok result, s') =
        ground arith in
      let (answered, held, holds, committed, resolved) = finish_record_ok r c s1 s' result rest in
      (
        answered,
        record {
          held = held;
          holds = holds;
          minted = minted;
          by_rail = by_rail;
          same_hash = same_hash;
          committed = subst (λ t. Ledger.commit held c t ≡ ok s'.table) st committed;
          resolved = resolved;
        },
      )

  after_mint :
      (w : World) (c : String) (r : ApprovalRecord) (s s1 s' : Engine) (result : CallbackResult)
      (o : Result EngineError String)
      → lookup r.approval_prompt_id s.prompts ≡ some r
      → mint_credential cfg authorization_hash prompt_hash w r.caller_token c r.authorization_hash
          r.policy_hash s
        ≡ (o, s1)
      → callback_finish cfg authorization_hash prompt_hash w c (mint_for r) s ≡ (ok result, s')
      → (result ≡ was_approved c) × Issued w c r s s'
  unfolding callback_finish ◌>>=◌
  after_mint w c r s s1 s' result (err x) found m e = ground arith
  after_mint w c r s s1 s' result (ok c') found m e =
      let (minted, by_rail, same_hash, same_c, same_prompts, same_table) =
        mint_ok w r.caller_token c r.authorization_hash r.policy_hash s s1 c' m in
      let rest : finish_current cfg authorization_hash prompt_hash r c s1 ≡ (ok result, s') =
        ground arith in
      finish_after_mint w c r s s1 s' result minted by_rail same_hash same_prompts same_table found
        rest

  pub finish_mint :
      (w : World) (c : String) (r : ApprovalRecord) (s s' : Engine) (result : CallbackResult)
      → lookup r.approval_prompt_id s.prompts ≡ some r
      → callback_finish cfg authorization_hash prompt_hash w c (mint_for r) s ≡ (ok result, s')
      → (result ≡ was_approved c) × Issued w c r s s'
  finish_mint w c r s s' result found e = after_mint w c r s _ s' result _ found refl e
