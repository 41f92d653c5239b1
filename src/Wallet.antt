-- ===== src/Wallet.antt =====
-- A purchase by the buyer's wallet (packages/buyer/src/wallet/index.ts): the decision of the policy, the
-- reservation in the vault ledger, the merchant, and the settlement. The merchant is other code: it is a
-- tree of what it does, which tells the total any number of times, goes on with the answer, and then
-- returns a receipt or throws. A failure to build the port for the driver is such a throw. Each call of
-- the vault reads the clock, or it fails because the vault is closed or its files cannot be read or
-- written (`assertOpen` in packages/buyer/src/vault/vault.ts); a node of the tree has the `Call`s that
-- the wallet makes for it. A call that fails writes nothing. No other purchase runs meanwhile.
pub mod Totals
pub mod Resolves
mod Examples
use steelyard_sdk.Base.{
  ℕ, String, Bool, true, false, not, ◌&&◌, Option, some, none, List, str_eq, is_some, if◌then◌else◌,
  Result, ok, err,
}
use steelyard_sdk.Vault.{SpendWindow, SpendLimits, Receipt, ReservationState, replay_events}
use steelyard_sdk.Vault.Operations.{
  VaultError, wallet_amount_exceeded, File, usage_for_window, reserve_amount, adjust_amount, mark,
  release_reservation, settle_reservation, write_shadow_receipt, reattach,
}
use steelyard_sdk.Core.PolicyYaml.{
  Document, Intent, Decision, DeniedReason, denied, allowed_by, allowed_by_default,
  approval_required, Spend, normalize_intent, evaluate_policy,
}

-- `source` is none if it is not a text, and `ts` if it is no date
pub record ApprovalProof : Type 0 where
  pub source : Option String
  pub ts : Option ℕ

pub record ApprovalResume : Type 0 where
  pub reservation_id : String
  pub idempotency_key : String

pub record PurchaseOptions : Type 0 where
  pub approval : Option ApprovalProof
  pub resume : Option ApprovalResume
  pub idempotency_key : Option String

-- What a purchase throws: `vault_unavailable` is the error of a call that fails, `resumable` is a `WalletApprovalRequired` of the merchant that has a `resume`, and
-- `failure` any error of no class below.
pub data Thrown : Type 0 where
  not_allowed : DeniedReason → Thrown
  approval_needed : Thrown
  resumable : (expires_at : ℕ) → Thrown
  vault_error : VaultError → Thrown
  receipt_persistence_failed : (receipt : Receipt) (shadow_persisted : Bool) → Thrown
  vault_unavailable : Thrown
  failure : (summary : String) → Thrown

-- a call of the vault at a time, or one that fails
pub data Call : Type 0 where
  works : (at : ℕ) → Call
  fails : Call

pub data Merchant : Type 0 where
  returns : Receipt → (settling shadowing : Call) → Merchant
  throws : Thrown → (cleanup : Call) → Merchant
  totals :
      (final_total : ℕ) (currency : String) (telling : Call)
      (rest : Result Thrown (Unit {0}) → Merchant)
      → Merchant

-- how the merchant's `purchase` ends
pub data Ended : Type 0 where
  paid : Receipt → (settling shadowing : Call) → Ended
  threw : Thrown → (cleanup : Call) → Ended

-- what a purchase reads of its reservation
pub record Reserved : Type 0 where
  pub id : String
  pub currency : String

abbrev pub Step : Type 0 → Type 0
Step A = Result Thrown A × File

-- `validApproval`
unfoldable pub valid_approval : Option ApprovalProof → Bool
valid_approval none = false
valid_approval (some proof) = is_some proof.source && is_some proof.ts

-- `error instanceof WalletAmountExceeded && error.reservation_released`
abbrev pub reservation_released : Thrown → Bool
reservation_released (vault_error (wallet_amount_exceeded _ _ _ released)) = released
reservation_released _ = false

-- what follows an operation of the ledger if it does not throw
abbrev pub and_then : {A B : Type 0} → Result VaultError A × File → (A → Result Thrown B) → Step B
and_then (err e, file) k = (err (vault_error e), file)
and_then (ok a, file) k = (k a, file)

abbrev pub call :
    {A B : Type 0}
    → Call
    → (ℕ → File → Result VaultError A × File)
    → (A → Result Thrown B)
    → File
    → Step B
call fails operation k file = (err vault_unavailable, file)
call (works at) operation k file = and_then (operation at file) k

-- `opts.idempotencyKey ?? opts.resume?.idempotency_key ?? newIdempotencyKey()`
unfoldable pub choose_key : PurchaseOptions → (new_key : String) → String
choose_key options new_key = elim options.idempotency_key [
  | some key ↦ key
  | none ↦ elim options.resume [ some r ↦ r.idempotency_key | none ↦ new_key ]
]

unfoldable pub gate : PurchaseOptions → Decision → Option Thrown
gate options (denied reason) = some (not_allowed reason)
gate options (approval_required _ _) =
    if not (valid_approval options.approval) && not (is_some options.resume)
    then some approval_needed
    else none
gate options _ = none

module _ (split_dots : String → List String) (normalize_domain normalize_currency : String → String)
    (error_summary : Thrown → String) where
  -- `adaptSpendContext` of packages/buyer/src/policy/load.ts over `spendInWindow` of the ledger
  unfoldable pub spend_in_window : File → ℕ → SpendWindow → String → Spend
  spend_in_window file now window currency =
      let usage =
        usage_for_window normalize_currency (replay_events normalize_currency file) window currency
          now none in
      record { pending = usage.pending; captured = usage.captured }

  unfoldable pub decide : List Document → Intent → ℕ → File → Decision
  decide documents intent now file =
      evaluate_policy split_dots normalize_domain normalize_currency documents intent
        (some (spend_in_window file now))

  abbrev pub reserved_of : ReservationState → Reserved
  reserved_of r = record { id = r.id; currency = r.currency }

  -- The reservation: a new one, or the one to resume. `limits` are the policy's, normalized.
  unfoldable pub obtain :
      Option ApprovalResume
      → Intent
      → SpendLimits
      → (key new_id : String) → Call
      → File
      → Step Reserved
  obtain (some r) intent limits key new_id reserving file =
      call reserving (reattach normalize_currency r.reservation_id)
        (λ found. ok (reserved_of found)) file
  obtain none intent limits key new_id reserving file =
      let i = (normalize_intent split_dots normalize_domain normalize_currency intent).purchase in
      call reserving
        (λ at. reserve_amount normalize_currency new_id i i.amount i.currency key at limits)
        (λ id. ok record { id = id; currency = i.currency }) file

  -- the callback `onTotalsKnown`
  unfoldable pub totals_known :
      Reserved → (final_total : ℕ) → String → Call → File → Step (Unit {0})
  totals_known r final_total currency telling file =
      if not (str_eq (normalize_currency currency) r.currency)
      then call telling (release_reservation normalize_currency r.id "currency_mismatch")
          (λ _.
            err (
              vault_error
                (wallet_amount_exceeded final_total 0 (normalize_currency currency) true)))
          file
      else call telling (adjust_amount normalize_currency r.id final_total) (λ u. ok u) file

  unfoldable pub run_merchant : Reserved → Merchant → File → Ended × File
  run_merchant r (returns receipt settling shadowing) file = (paid receipt settling shadowing, file)
  run_merchant r (throws e cleanup) file = (threw e cleanup, file)
  run_merchant r (totals final_total currency telling rest) file =
      let answer = totals_known r final_total currency telling file in
      run_merchant r (rest answer.0) answer.1

  unfoldable pub release_unless_told : Reserved → Thrown → Call → File → Step Receipt
  release_unless_told r e cleanup file =
      if reservation_released e
      then (err e, file)
      else call cleanup (release_reservation normalize_currency r.id (error_summary e)) (λ _. err e)
          file

  -- the `catch` of the merchant's errors
  unfoldable pub handle_error : Reserved → Thrown → Call → File → Step Receipt
  handle_error r (resumable expires_at) cleanup file =
      call cleanup (mark normalize_currency r.id expires_at) (λ _. err (resumable expires_at)) file
  handle_error r e cleanup file = release_unless_told r e cleanup file

  unfoldable pub shadow_written : Receipt → Step (Unit {0}) → Step Receipt
  shadow_written receipt (ok _, file) = (err (receipt_persistence_failed receipt true), file)
  shadow_written receipt (err _, file) = (err (receipt_persistence_failed receipt false), file)

  unfoldable pub settled_or_shadow : Reserved → Receipt → Call → Step (Unit {0}) → Step Receipt
  settled_or_shadow r receipt shadowing (ok _, file) = (ok receipt, file)
  settled_or_shadow r receipt shadowing (err _, file) =
      shadow_written receipt
        (call shadowing (write_shadow_receipt normalize_currency r.id receipt) (λ u. ok u) file)

  unfoldable pub settle_paid :
      Reserved → Receipt → (settling shadowing : Call) → File → Step Receipt
  settle_paid r receipt settling shadowing file =
      settled_or_shadow r receipt shadowing
        (call settling (settle_reservation normalize_currency r.id receipt) (λ u. ok u) file)

  abbrev pub finish : Reserved → Ended × File → Step Receipt
  finish r (paid receipt settling shadowing, file) = settle_paid r receipt settling shadowing file
  finish r (threw e cleanup, file) = handle_error r e cleanup file

  abbrev pub proceed : Step Reserved → Merchant → Step Receipt
  proceed (err e, file) merchant = (err e, file)
  proceed (ok r, file) merchant = finish r (run_merchant r merchant file)

  abbrev pub decided : Call → List Document → Intent → PurchaseOptions → File → Option Thrown
  decided fails documents intent options file = some vault_unavailable
  decided (works at) documents intent options file = gate options (decide documents intent at file)

  -- `purchaseWithMerchant`; `deciding` fails if the decision reads the spend and that throws
  unfoldable pub purchase_with_merchant :
      List Document
      → SpendLimits
      → Intent
      → PurchaseOptions
      → (new_key new_id : String) → (deciding reserving : Call) → Merchant
      → File
      → Step Receipt
  purchase_with_merchant documents limits intent options new_key new_id deciding reserving merchant
        file =
      elim (decided deciding documents intent options file) [
        | some e ↦ (err e, file)
        | none ↦
            proceed
              (obtain options.resume intent limits (choose_key options new_key) new_id reserving
                file)
              merchant
      ]
