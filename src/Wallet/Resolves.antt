-- ===== src/Wallet/Resolves.antt =====
-- How a purchase leaves its reservation (packages/buyer/src/wallet/index.ts).
use steelyard_sdk.Base.{
  ℕ, ◌≡◌, refl, sym, ap, ◌∙◌, ◌⊎◌, inl, inr, String, Bool, true, false, not, ◌||◌, some, none, List,
  [], ◌∷◌, ◌++◌, Result, ok, err, arith, Bool-cases, Option-cases, Result-cases,
}
use mathlib.Core.Path.{subst}
use steelyard_sdk.Base.Maps.{lookup, lookup-insert_self}
use steelyard_sdk.Vault.{
  SpendLimits, Receipt, ReservationState, pending, pending_escalated, released, captured, settle,
  release, mark_escalated, reserve, reserved_state, is_active, update, apply_body, apply_event,
  replay_events,
}
use steelyard_sdk.Vault.Operations.{
  File, row, assert_within_limits, mark, release_reservation, settle_reservation,
  write_shadow_receipt, reserve_amount,
}
use steelyard_sdk.Vault.Settlement.{freed_row, refused, settled}
use steelyard_sdk.Vault.Resolution.{lookup-row, replay-row}
use steelyard_sdk.Wallet.{
  PurchaseOptions, Thrown, resumable, vault_error, not_allowed, approval_needed,
  receipt_persistence_failed, vault_unavailable, failure, Call, works, fails, decided,
  settled_or_shadow, shadow_written, Merchant, Ended, paid, threw, Reserved, reservation_released,
  run_merchant, release_unless_told, handle_error, settle_paid, finish, proceed, choose_key, obtain,
  purchase_with_merchant,
}
use steelyard_sdk.Core.PolicyYaml.{Document, Intent, normalize_intent}
use steelyard_sdk.Wallet.Totals.{Honest, Returns, is_working, Open, live, Fits, run_merchant-Fits}

module _ (split_dots : String → List String) (normalize_domain normalize_currency : String → String)
    (error_summary : Thrown → String) where
  -- How a purchase that has reserved ends: paid and captured at the receipt's amount, waiting for an
  -- approval, or thrown with the reservation released. Where the vault is not reliable it may also end
  -- pending: charged, with the receipt in the error and perhaps in the ledger, or because
  -- a call of the vault failed.
  pub data Resolved (reliable : Bool) (m : Merchant) (s : ReservationState)
      : Result Thrown Receipt → Type 0 where
    spent :
        (receipt : Receipt)
        → Returns receipt m
        → s.status ≡ captured
        → s.amount ≡ receipt.charged_amount
        → Resolved reliable m s (ok receipt)
    waiting :
        (t : ℕ)
        → s.status ≡ pending_escalated
        → s.expires_at ≡ some t
        → Resolved reliable m s (err (resumable t))
    let_go : (e : Thrown) → s.status ≡ released → Resolved reliable m s (err e)
    shadowed :
        (receipt : Receipt)
        → Returns receipt m
        → reliable ≡ false
        → s.status ≡ pending
        → s.shadow_receipt ≡ some receipt
        → Resolved reliable m s (err (receipt_persistence_failed receipt true))
    unpersisted :
        (receipt : Receipt)
        → Returns receipt m
        → reliable ≡ false
        → s.status ≡ pending
        → Resolved reliable m s (err (receipt_persistence_failed receipt false))
    stranded : reliable ≡ false → s.status ≡ pending → Resolved reliable m s (err vault_unavailable)

  abbrev pub Ends : Bool → Merchant → String → Result Thrown Receipt × File → Type 0
  Ends reliable m id (result, file) =
      (s : ReservationState) × (lookup id (replay_events normalize_currency file) ≡ some s)
      × Resolved reliable m s result

  -- only where the vault is not reliable a call may fail
  unreliable : (reliable : Bool) → (not reliable || is_working fails) ≡ true → reliable ≡ false
  unreliable false e = refl
  unreliable true e = absurd (cc e)

  release_pending :
      (reliable : Bool) (m : Merchant) (r : Reserved) (e : Thrown) (c : Call) (file : File)
      (s : ReservationState)
      → reservation_released e ≡ false
      → (not reliable || is_working c) ≡ true
      → lookup r.id (replay_events normalize_currency file) ≡ some s
      → s.status ≡ pending
      → Ends reliable m r.id (
          release_unless_told split_dots normalize_domain normalize_currency error_summary r e c
            file)
  unfolding release_unless_told release_reservation
  release_pending reliable m r e fails file s quiet w found st =
      rw quiet (s, found, stranded (unreliable reliable w) st)
  release_pending reliable m r e (works at) file s quiet w found st =
      rw (quiet, live normalize_currency r.id at (release (error_summary e)) file s found st)
        (_, freed_row normalize_currency r.id _ at file s found (ap is_active st), let_go e refl)

  release_released :
      (reliable : Bool) (m : Merchant) (r : Reserved) (e : Thrown) (c : Call) (file : File)
      (s : ReservationState)
      → lookup r.id (replay_events normalize_currency file) ≡ some s
      → s.status ≡ released
      → Ends reliable m r.id (
          release_unless_told split_dots normalize_domain normalize_currency error_summary r e c
            file)
  unfolding release_unless_told release_reservation
  release_released reliable m r e fails file s found st =
      elim (Bool-cases (reservation_released e)) [
        | inl says ↦ rw says (s, found, let_go e st)
        | inr quiet ↦ rw quiet (s, found, let_go _ st)
      ]
  release_released reliable m r e (works at) file s found st =
      elim (Bool-cases (reservation_released e)) [
        | inl says ↦ rw says (s, found, let_go e st)
        | inr quiet ↦
            rw
              (
                quiet,
                refused normalize_currency r.id at (release (error_summary e)) file s found
                    (ap is_active st),
              )
              (s, found, let_go _ st)
      ]

  release_unless_told-Ends :
      (reliable : Bool) (m : Merchant) (r : Reserved) (e : Thrown) (c : Call) (file : File)
      (told : Bool)
      → (not (reservation_released e) || told) ≡ true
      → (not reliable || is_working c) ≡ true
      → Open normalize_currency r.id told file
      → Ends reliable m r.id (
          release_unless_told split_dots normalize_domain normalize_currency error_summary r e c
            file)
  release_unless_told-Ends reliable m r e c file told t w (s, found, inl (st, untold)) =
      release_pending reliable m r e c file s (ground (arith, t, untold)) w found st
  release_unless_told-Ends reliable m r e c file told t w (s, found, inr (st, _)) =
      release_released reliable m r e c file s found st

  handle_error-Ends :
      (reliable : Bool) (m : Merchant) (r : Reserved) (e : Thrown) (c : Call) (file : File)
      (told : Bool)
      → (not (reservation_released e) || told) ≡ true
      → (not reliable || is_working c) ≡ true
      → Open normalize_currency r.id told file
      → Ends reliable m r.id
          (handle_error split_dots normalize_domain normalize_currency error_summary r e c file)
  unfolding handle_error mark update
  handle_error-Ends reliable m r (resumable t) fails file told _ w (s, found, inl (st, _)) =
      (s, found, stranded (unreliable reliable w) st)
  handle_error-Ends reliable m r (resumable t) fails file told _ w (s, found, inr (st, _)) =
      (s, found, let_go _ st)
  handle_error-Ends reliable m r (resumable t) (works at) file told _ w (s, found, inl (st, _)) =
      rw (live normalize_currency r.id at (mark_escalated t) file s found st) (
        record s { status = pending_escalated; expires_at = some t },
        lookup-row normalize_currency r.id at (mark_escalated t) file s refl found ∙ rw st refl,
        waiting t refl refl,
      )
  handle_error-Ends reliable m r (resumable t) (works at) file told _ w (s, found, inr (st, _)) =
      rw (refused normalize_currency r.id at (mark_escalated t) file s found (ap is_active st))
        (s, found, let_go _ st)
  handle_error-Ends reliable m r (not_allowed x) c file told t w o =
      release_unless_told-Ends reliable m r (not_allowed x) c file told t w o
  handle_error-Ends reliable m r approval_needed c file told t w o =
      release_unless_told-Ends reliable m r approval_needed c file told t w o
  handle_error-Ends reliable m r (vault_error x) c file told t w o =
      release_unless_told-Ends reliable m r (vault_error x) c file told t w o
  handle_error-Ends reliable m r (receipt_persistence_failed x y) c file told t w o =
      release_unless_told-Ends reliable m r (receipt_persistence_failed x y) c file told t w o
  handle_error-Ends reliable m r vault_unavailable c file told t w o =
      release_unless_told-Ends reliable m r vault_unavailable c file told t w o
  handle_error-Ends reliable m r (failure x) c file told t w o =
      release_unless_told-Ends reliable m r (failure x) c file told t w o

  settle_pending :
      (reliable : Bool) (m : Merchant) (r : Reserved) (receipt : Receipt)
      (settling shadowing : Call) (file : File) (s : ReservationState)
      → Returns receipt m
      → (not reliable || is_working settling) ≡ true
      → lookup r.id (replay_events normalize_currency file) ≡ some s
      → s.status ≡ pending
      → Ends reliable m r.id (
          settle_paid split_dots normalize_domain normalize_currency error_summary r receipt
            settling shadowing file)
  unfolding settle_paid settled_or_shadow shadow_written settle_reservation write_shadow_receipt
      update
  settle_pending reliable m r receipt (works at) shadowing file s back w found st =
      let (s', found', captured', amount, _) =
        settled normalize_currency r.id at receipt file s found (ap is_active st) in
      rw (live normalize_currency r.id at (settle receipt false) file s found st)
        (s', found', spent receipt back captured' amount)
  settle_pending reliable m r receipt fails fails file s back w found st =
      (s, found, unpersisted receipt back (unreliable reliable w) st)
  settle_pending reliable m r receipt fails (works at) file s back w found st =
      rw (live normalize_currency r.id at (settle receipt true) file s found st) (
        record s { shadow_receipt = some receipt },
        lookup-row normalize_currency r.id at (settle receipt true) file s refl found,
        shadowed receipt back (unreliable reliable w) st refl,
      )

  -- a released reservation stays so, and the receipt is in the error
  settle_released :
      (reliable : Bool) (m : Merchant) (r : Reserved) (receipt : Receipt)
      (settling shadowing : Call) (file : File) (s : ReservationState)
      → lookup r.id (replay_events normalize_currency file) ≡ some s
      → s.status ≡ released
      → Ends reliable m r.id (
          settle_paid split_dots normalize_domain normalize_currency error_summary r receipt
            settling shadowing file)
  unfolding settle_paid settled_or_shadow shadow_written settle_reservation write_shadow_receipt
  settle_released reliable m r receipt fails fails file s found st = (s, found, let_go _ st)
  settle_released reliable m r receipt fails (works b) file s found st =
      rw (refused normalize_currency r.id b (settle receipt true) file s found (ap is_active st))
        (s, found, let_go _ st)
  settle_released reliable m r receipt (works a) fails file s found st =
      rw (refused normalize_currency r.id a (settle receipt false) file s found (ap is_active st))
        (s, found, let_go _ st)
  settle_released reliable m r receipt (works a) (works b) file s found st =
      rw
        (
          refused normalize_currency r.id a (settle receipt false) file s found (ap is_active st),
          refused normalize_currency r.id b (settle receipt true) file s found (ap is_active st),
        )
        (s, found, let_go _ st)

  finish-Ends :
      (reliable : Bool) (m : Merchant) (r : Reserved) (p : Ended × File)
      → Fits split_dots normalize_domain normalize_currency error_summary reliable m r p
      → Ends reliable m r.id
          (finish split_dots normalize_domain normalize_currency error_summary r p)
  finish-Ends reliable m r (paid receipt a b, file) (told, w, _, back, (s, found, inl (st, _))) =
      settle_pending reliable m r receipt a b file s back w found st
  finish-Ends reliable m r (paid receipt a b, file) (told, w, _, back, (s, found, inr (st, _))) =
      settle_released reliable m r receipt a b file s found st
  finish-Ends reliable m r (threw e c, file) (told, t, w, o) =
      handle_error-Ends reliable m r e c file told t w o

  abbrev done :
      List Document
      → SpendLimits
      → Intent
      → PurchaseOptions
      → (new_key new_id : String) → (deciding reserving : Call) → Merchant
      → File
      → Result Thrown Receipt × File
  done = purchase_with_merchant split_dots normalize_domain normalize_currency error_summary

  abbrev obtain_new :
      Intent → SpendLimits → (key new_id : String) → Call → File → Result Thrown Reserved × File
  obtain_new = obtain split_dots normalize_domain normalize_currency error_summary none

  -- a new reservation, or a throw that writes nothing
  obtained :
      (intent : Intent) (limits : SpendLimits) (key id : String) (c : Call) (file : File)
      → ((e : Thrown) × (obtain_new intent limits key id c file ≡ (err e, file)))
        ⊎ ((r : Reserved) × (file' : File) × (obtain_new intent limits key id c file
              ≡ (ok r, file'))
            × (r.id ≡ id)
            × Open normalize_currency id false file')
  unfolding obtain reserve_amount apply_event apply_body reserved_state
  obtained intent limits key id fails file = inl (vault_unavailable, refl)
  obtained intent limits key id (works at) file =
      let i = (normalize_intent split_dots normalize_domain normalize_currency intent).purchase in
      let event = row at id (reserve i i.amount i.currency key limits) in
      let found =
        ap (lookup id) (replay-row normalize_currency file event)
        ∙ lookup-insert_self id (reserved_state at id i i.amount i.currency key limits)
            (replay_events normalize_currency file) in
      elim (Result-cases (
        assert_within_limits normalize_currency (replay_events normalize_currency file) i.amount
          i.currency at limits none false)) [
            | inr (x, h) ↦ inl (vault_error x, rw (h, obtain, reserve_amount) refl)
            | inl (u, h) ↦ inr (
              record { id = id; currency = i.currency },
              file ++ (event ∷ []),
              rw (h, obtain, reserve_amount) refl,
              refl,
              (_, found, inl (refl, refl)),
            )
          ]

  proceed-Ends :
      (reliable : Bool) (id : String) (start : Result Thrown Reserved × File) (m : Merchant)
      (file : File)
      → Honest reliable false m
      → ((e : Thrown) × (start ≡ (err e, file)))
        ⊎ ((r : Reserved) × (file' : File) × (start ≡ (ok r, file'))
            × (r.id ≡ id)
            × Open normalize_currency id false file')
      → ((e : Thrown) × ((any : Merchant)
            → proceed split_dots normalize_domain normalize_currency error_summary start any
              ≡ (err e, file)))
        ⊎ Ends reliable m id
            (proceed split_dots normalize_domain normalize_currency error_summary start m)
  proceed-Ends reliable id start m file t (inl (e, stop)) = inl (e, (λ any. rw stop refl))
  proceed-Ends reliable id start m file t (inr (r, file', go, same, o)) =
      rw (go, sym same)
        (inr (
          finish-Ends reliable m r
            (run_merchant split_dots normalize_domain normalize_currency error_summary r m file')
            (run_merchant-Fits split_dots normalize_domain normalize_currency error_summary r
              reliable false m file' t
              (subst (λ k. Open normalize_currency k false file') (sym same) o))))

  -- A purchase that resumes nothing, from a merchant that says that the reservation is released only when it
  -- was told so: either it throws whatever the merchant is and the ledger is as it was, or its new reservation is in the replayed
  -- ledger, in a state that fits the result. If the purchase returns a receipt, it is one that the merchant
  -- returns, and the reservation is captured with the amount that it charges. If it throws, the reservation is
  -- released, or it is escalated until the time that the thrown error gives, or, only where calls of the
  -- vault may fail from the merchant on, it is still pending: then the error has a receipt that
  -- the merchant returns, which the reservation keeps too if the error says so, or it is the failed call's.
  pub purchase_with_merchant-resolves :
      (documents : List Document) (limits : SpendLimits) (intent : Intent)
      (options : PurchaseOptions) (new_key new_id : String) (deciding reserving : Call)
      (merchant : Merchant) (file : File) (reliable : Bool)
      → options.resume ≡ none
      → Honest reliable false merchant
      → ((e : Thrown) × ((any : Merchant)
            → done documents limits intent options new_key new_id deciding reserving any file
              ≡ (err e, file)))
        ⊎ Ends reliable merchant new_id
            (done documents limits intent options new_key new_id deciding reserving merchant file)
  unfolding purchase_with_merchant
  purchase_with_merchant-resolves documents limits intent options new_key new_id deciding reserving
        merchant file reliable fresh t =
      let start = obtain_new intent limits (choose_key options new_key) new_id reserving file in
      elim (Option-cases (
        decided split_dots normalize_domain normalize_currency error_summary deciding documents
          intent options file)) [
            | inr (e, stop) ↦ inl (e, (λ any. rw (stop, purchase_with_merchant) refl))
            | inl go ↦
                let same : (any : Merchant)
                    → done documents limits intent options new_key new_id deciding reserving any
                        file
                      ≡ proceed split_dots normalize_domain normalize_currency error_summary start
                          any =
                  λ any. rw (go, purchase_with_merchant, fresh) refl in
                let end =
                  proceed-Ends reliable new_id start merchant file t
                    (obtained intent limits (choose_key options new_key) new_id reserving file) in
                elim end [
                  | inl (e, stop) ↦ inl (e, (λ any. same any ∙ stop any))
                  | inr resolved ↦ inr (rw (same merchant) resolved)
                ]
          ]
