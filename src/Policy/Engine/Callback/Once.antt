-- ===== src/Policy/Engine/Callback/Once.antt =====
-- A prompt is answered once (packages/policy/src/engine.ts, `handleApprovalCallback`).
use steelyard_sdk.Base.{
  ℕ, ◌≡◌, str_eq_iff, refl, String, Bool, true, false, ◌||◌, some, is_empty, str_eq, Result, ok,
  err, arith, inl, inr, Result-cases,
}
use mathlib.Core.Path.{subst, ap, sym, ◌∙◌}
use steelyard_sdk.Base.Int.{ℤ}
use steelyard_sdk.Base.Maps.{lookup}
use steelyard_sdk.Policy.Snapshots.{get_current}
use steelyard_sdk.Policy.Engine.State.{
  Engine, EngineError, AuthorizationInputs, ApprovalRecord, approved, ◌>>=◌,
}
use steelyard_sdk.Policy.Engine.Propose.{Config, World}
use steelyard_sdk.Policy.Engine.Callback.{
  Choice, CallbackRequest, CallbackResult, was_approved, rejected, replayed_nonce, Stage, answer,
  mint_for, is_answered, callback_begin, check_record, check_policy, decide_prompt, callback_finish,
  handle_approval_callback,
}
use steelyard_sdk.Policy.Engine.Callback.Checks.{
  Checked, Issued, record_mint-Checked, finish_mint, begin_known,
}

module _ (cfg : Config) (authorization_hash : AuthorizationInputs → String)
    (prompt_hash : String → String → String → String → ℤ → ℕ → String) where
  -- an answer that is no approval
  abbrev is_approval : CallbackResult → Bool
  is_approval (was_approved c) = true
  is_approval _ = false

  decide_answer :
      (choice : Choice) (r : ApprovalRecord) (s s1 : Engine) (result : CallbackResult)
      → decide_prompt cfg authorization_hash prompt_hash choice r s ≡ (ok (answer result), s1)
      → is_approval result ≡ false
  unfolding decide_prompt ◌>>=◌
  decide_answer choice r s s1 result e = ground arith

  policy_answer :
      (req : CallbackRequest) (choice : Choice) (r : ApprovalRecord) (s s1 : Engine)
      (result : CallbackResult)
      → check_policy cfg authorization_hash prompt_hash req choice r s ≡ (ok (answer result), s1)
      → is_approval result ≡ false
  unfolding check_policy ◌>>=◌
  policy_answer req choice r s s1 result e = elim (Result-cases (get_current s.store)) [
    | inl (current, h) ↦ ground (arith, decide_answer choice r s s1 result)
    | inr (x, h) ↦ ground arith
  ]

  record_answer :
      (now : ℕ) (req : CallbackRequest) (choice : Choice) (r : ApprovalRecord) (s s1 : Engine)
      (result : CallbackResult)
      → check_record cfg authorization_hash prompt_hash now req choice r s
        ≡ (ok (answer result), s1)
      → is_approval result ≡ false
  unfolding check_record ◌>>=◌
  record_answer now req choice r s s1 result e =
      ground (arith, policy_answer req choice r s s1 result)

  after_begin :
      (w : World) (c c' : String) (req : CallbackRequest) (r : ApprovalRecord) (s s1 s' : Engine)
      (o : Result EngineError Stage)
      → lookup req.approval_prompt_id s.prompts ≡ some r
      → r.approval_prompt_id ≡ req.approval_prompt_id
      → callback_begin cfg authorization_hash prompt_hash w.now req s ≡ (o, s1)
      → handle_approval_callback cfg authorization_hash prompt_hash w c req s
        ≡ (ok (was_approved c'), s')
      → (c' ≡ c)
        × Checked cfg authorization_hash prompt_hash w.now req r s
        × Issued cfg authorization_hash prompt_hash w c r s s'
  unfolding handle_approval_callback callback_finish ◌>>=◌
  after_begin w c c' req r s s1 s' (err x) found keyed b e = ground arith
  after_begin w c c' req r s s1 s' (ok (answer result)) found keyed b e =
      elim (begin_known cfg authorization_hash prompt_hash w.now req r s s1 (answer result) found
        b) [
          | inl bad ↦ ground arith
          | inr (choice, given, full, k) ↦
              let no = record_answer w.now req choice r s s1 result k in ground arith
        ]
  after_begin w c c' req r s s1 s' (ok (mint_for r')) found keyed b e =
      elim (begin_known cfg authorization_hash prompt_hash w.now req r s s1 (mint_for r') found b) [
        | inl bad ↦ ground arith
        | inr (choice, given, full, k) ↦
            let (same, still, checked) =
              record_mint-Checked cfg authorization_hash prompt_hash w.now req choice r r' s s1
                given full k in
            let rest : callback_finish cfg authorization_hash prompt_hash w c (mint_for r') s1
                ≡ (ok (was_approved c'), s') =
              ground arith in
            let rest' : callback_finish cfg authorization_hash prompt_hash w c (mint_for r) s
                ≡ (ok (was_approved c'), s') =
              subst
                (λ t.
                  callback_finish cfg authorization_hash prompt_hash w c (mint_for r) t
                  ≡ (ok (was_approved c'), s'))
                still
                (subst
                  (λ t.
                    callback_finish cfg authorization_hash prompt_hash w c (mint_for t) s1
                    ≡ (ok (was_approved c'), s'))
                  same rest) in
            let found' : lookup r.approval_prompt_id s.prompts ≡ some r = ground arith in
            let (equal, issued) =
              finish_mint cfg authorization_hash prompt_hash w c r s s' (was_approved c') found'
                rest' in
            (ground arith, checked, issued)
      ]

  -- A callback for a known prompt that answers "approved" has passed every check: its body names a
  -- prompt and a nonce and its decision is "approve", the nonce is the prompt's, which is
  -- not answered, cancelled or expired, the prompt's policy hash is the current one, and so is
  -- the request's, unless it is missing or empty, and the prompt's authorization hash is that of its inputs.
  -- The rail has minted for exactly that authorization hash, the
  -- reservation of the prompt is committed in the ledger under the credential, and the prompt is
  -- recorded as approved with it.
  pub handle_approval_callback-Issued :
      (w : World) (c c' : String) (req : CallbackRequest) (r : ApprovalRecord) (s s' : Engine)
      → lookup req.approval_prompt_id s.prompts ≡ some r
      → r.approval_prompt_id ≡ req.approval_prompt_id
      → handle_approval_callback cfg authorization_hash prompt_hash w c req s
        ≡ (ok (was_approved c'), s')
      → (c' ≡ c)
        × Checked cfg authorization_hash prompt_hash w.now req r s
        × Issued cfg authorization_hash prompt_hash w c r s s'
  handle_approval_callback-Issued w c c' req r s s' found keyed e =
      after_begin w c c' req r s _ s' _ found keyed refl e

  replayed :
      (w : World) (c : String) (req : CallbackRequest) (r : ApprovalRecord) (s : Engine)
      (choice : Choice)
      → lookup req.approval_prompt_id s.prompts ≡ some r
      → req.decision ≡ some choice
      → (is_empty req.approval_prompt_id || is_empty req.nonce) ≡ false
      → str_eq r.nonce req.nonce ≡ true
      → is_answered r.state ≡ true
      → handle_approval_callback cfg authorization_hash prompt_hash w c req s
        ≡ (ok (rejected 409 replayed_nonce), s)
  unfolding handle_approval_callback callback_begin callback_finish check_record ◌>>=◌
  replayed w c req r s choice found given full nonce answered = ground arith

  -- Once a callback for a known prompt has answered "approved", the next callback with the same prompt and nonce,
  -- whatever it chooses, whatever policy hash it names and whatever the clock and the rail say, is
  -- rejected with status 409 as a replay, and changes nothing.
  pub handle_approval_callback-once :
      (w w' : World) (c c' c'' : String) (req req' : CallbackRequest) (r : ApprovalRecord)
      (s s' : Engine) (choice : Choice)
      → lookup req.approval_prompt_id s.prompts ≡ some r
      → r.approval_prompt_id ≡ req.approval_prompt_id
      → handle_approval_callback cfg authorization_hash prompt_hash w c req s
        ≡ (ok (was_approved c'), s')
      → req'.approval_prompt_id ≡ req.approval_prompt_id
      → req'.nonce ≡ req.nonce
      → req'.decision ≡ some choice
      → handle_approval_callback cfg authorization_hash prompt_hash w' c'' req' s'
        ≡ (ok (rejected 409 replayed_nonce), s')
  handle_approval_callback-once w w' c c' c'' req req' r s s' choice found keyed e same_prompt
        same_nonce given =
      let (same, checked, issued) =
        handle_approval_callback-Issued w c c' req r s s' found keyed e in
      let kept = issued.resolved in
      let full = checked.full in
      let nonce = (str_eq_iff r.nonce req.nonce).1 checked.nonce in
      replayed w' c'' req' (record r { state = approved; credential = some c }) s' choice
        (ap (λ id. lookup id s'.prompts) (same_prompt ∙ sym keyed) ∙ kept) given
        (rw (same_prompt, same_nonce) full) (rw same_nonce nonce) refl
