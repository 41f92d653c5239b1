-- ===== src/Vault/Refinement.antt =====
-- The operations on the ledger file (packages/buyer/src/vault/ledger.ts), and a description of each on a
-- map of reservations, without events.
pub mod Simulates
use steelyard_sdk.Base.{
  ℕ, ◌≡◌, refl, sym, ap, ◌∙◌, String, Bool, true, false, Option, some, none, List, [], ◌∷◌, ◌++◌,
  leb, ltb, if◌then◌else◌, Result, ok, err, arith, inl, inr, Bool-cases, Option-cases, Result-cases,
}
use steelyard_sdk.Base.Maps.{Dict, lookup, insert}
use steelyard_sdk.Vault.{
  SpendLimits, PurchaseIntent, Receipt, LedgerStatus, pending, pending_escalated, released,
  captured, EventBody, reserve, adjust, mark_escalated, release, settle, legacy_spend,
  ReservationState, is_active, is_pending, reserved_state, update, update_known, apply_body,
  apply_event, replay_events,
}
use steelyard_sdk.Vault.Operations.{
  VaultError, wallet_amount_exceeded, resume_expired, not_active, File, Outcome, row,
  assert_within_limits, reserve_amount, active_reservation, if_active, adjust_amount,
  adjust_reservation, append_if_active, mark, release_reservation, settle_reservation,
  write_shadow_receipt, reattach, resume_found, resume,
}
use steelyard_sdk.Vault.Resolution.{is_new, replay-row, active_ok}

pub data Command : Type 0 where
  to_reserve :
      (id : String) (intent : PurchaseIntent) (amount : ℕ) (currency key : String) (at : ℕ)
      (limits : SpendLimits)
      → Command
  to_adjust : (id : String) (final_total at : ℕ) → Command
  to_mark : (id : String) (expires_at at : ℕ) → Command
  to_release : (id why : String) (at : ℕ) → Command
  to_settle to_shadow : (id : String) (receipt : Receipt) (at : ℕ) → Command
  to_resume : (id : String) (at : ℕ) → Command

abbrev pub Store : Type 0
Store = Dict ReservationState

abbrev pub Answer : Type 0 → Type 0
Answer S = Result VaultError (Unit {0}) × S

abbrev forget : {A : Type 0} → Outcome A → Answer File
forget (ok _, file) = (ok tt, file)
forget (err e, file) = (err e, file)

abbrev freed : ℕ → ReservationState → ReservationState
freed at r = record r { status = released; released_at = some at }

abbrev escalate : ℕ → ReservationState → ReservationState
escalate t r =
    if is_pending r.status then record r { status = pending_escalated; expires_at = some t } else r

abbrev on_active :
    String → Store → Option ReservationState → (ReservationState → Answer Store) → Answer Store
on_active id m none act = (err (not_active id), m)
on_active id m (some r) act = if is_active r.status then act r else (err (not_active id), m)

abbrev resumed : String → ℕ → Store → ReservationState → LedgerStatus → Option ℕ → Answer Store
resumed id at m r pending_escalated (some t) =
    if leb t at then (err (resume_expired id t), insert id (freed at r) m) else (ok tt, m)
resumed id at m r pending_escalated none = (ok tt, m)
resumed id at m r _ _ = (err (not_active id), m)

abbrev resumed_found : String → ℕ → Store → Option ReservationState → Answer Store
resumed_found id at m none = (err (not_active id), m)
resumed_found id at m (some r) = resumed id at m r r.status r.expires_at

module _ (normalize_currency : String → String) where
  -- a command on the file
  unfoldable pub run : Command → File → Answer File
  run (to_reserve id intent amount currency key at limits) file =
      forget (reserve_amount normalize_currency id intent amount currency key at limits file)
  run (to_adjust id final_total at) file = adjust_amount normalize_currency id final_total at file
  run (to_mark id expires_at at) file = mark normalize_currency id expires_at at file
  run (to_release id why at) file = release_reservation normalize_currency id why at file
  run (to_settle id receipt at) file = settle_reservation normalize_currency id receipt at file
  run (to_shadow id receipt at) file = write_shadow_receipt normalize_currency id receipt at file
  run (to_resume id at) file = forget (reattach normalize_currency id at file)

  abbrev paid : Receipt → ℕ → ReservationState → ReservationState
  paid receipt at r = record r {
    status = captured;
    settled_at = some at;
    receipt = some receipt;
    amount = receipt.charged_amount;
    currency = normalize_currency receipt.charged_currency;
  }

  abbrev lowered : String → (final_total at : ℕ) → Store → ReservationState → Answer Store
  lowered id final_total at m r =
      if ltb r.amount final_total
      then (
        err (wallet_amount_exceeded final_total r.amount r.currency true),
        insert id (freed at r) m,
      )
      else elim (assert_within_limits normalize_currency m final_total r.currency at r.limits
          (some id) true) [
            | err e ↦ (err e, insert id (freed at r) m)
            | ok _ ↦ (ok tt, insert id (record r { amount = final_total }) m)
          ]

  -- what a command does to the store
  unfoldable pub act : Command → Store → Answer Store
  act (to_reserve id intent amount currency key at limits) m =
      elim (assert_within_limits normalize_currency m amount currency at limits none false) [
        | err e ↦ (err e, m)
        | ok _ ↦ (ok tt, insert id (reserved_state at id intent amount currency key limits) m)
      ]
  act (to_adjust id final_total at) m = on_active id m (lookup id m) (lowered id final_total at m)
  act (to_mark id expires_at at) m =
      on_active id m (lookup id m) (λ r. (ok tt, insert id (escalate expires_at r) m))
  act (to_release id why at) m =
      on_active id m (lookup id m) (λ r. (ok tt, insert id (freed at r) m))
  act (to_settle id receipt at) m =
      on_active id m (lookup id m) (λ r. (ok tt, insert id (paid receipt at r) m))
  act (to_shadow id receipt at) m =
      on_active id m (lookup id m)
        (λ r. (ok tt, insert id (record r { shadow_receipt = some receipt }) m))
  act (to_resume id at) m = resumed_found id at m (lookup id m)

  -- the file and the answer, seen as the store
  abbrev pub seen : Answer File → Answer Store
  seen (r, file) = (r, replay_events normalize_currency file)

  -- commands one after the other, with their answers
  unfoldable pub run_all : List Command → File → List (Result VaultError (Unit {0})) × File
  run_all [] file = ([], file)
  run_all (c ∷ cs) file =
      let step = run c file in let rest = run_all cs step.1 in (step.0 ∷ rest.0, rest.1)

  unfoldable pub act_all : List Command → Store → List (Result VaultError (Unit {0})) × Store
  act_all [] m = ([], m)
  act_all (c ∷ cs) m =
      let step = act c m in let rest = act_all cs step.1 in (step.0 ∷ rest.0, rest.1)
