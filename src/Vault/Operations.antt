-- ===== src/Vault/Operations.antt =====
-- The operations of the vault ledger (packages/buyer/src/vault/ledger.ts). Each runs under the lock
-- of the file: it replays the events, decides, and appends. It answers with its result, or what it throws,
-- and with the file.
use steelyard_sdk.Base.{
  ℕ, ◌+◌, ◌-◌, String, Bool, true, false, not, ◌&&◌, Option, some, none, List, [], ◌∷◌, ◌++◌,
  str_eq, ltb, leb, if◌then◌else◌, Result, ok, err, ◌>>◌,
}
use steelyard_sdk.Base.Maps.{Dict, lookup}
use steelyard_sdk.Vault.{
  SpendWindow, daily, weekly, monthly, SpendLimits, PurchaseIntent, Receipt, SpendReceipt,
  LedgerStatus, pending, pending_escalated, released, captured, reserve, adjust, mark_escalated,
  release, settle, legacy_spend, EventBody, LedgerEvent, ReservationState, is_active, replay_events,
}

pub data VaultError : Type 0 where
  wallet_amount_exceeded :
      (requested allowed : ℕ) (currency : String) (reservation_released : Bool) → VaultError
  resume_expired : (id : String) (expires_at : ℕ) → VaultError
  not_active : (id : String) → VaultError

abbrev pub File : Type 0
File = List LedgerEvent

abbrev pub Outcome : Type 0 → Type 0
Outcome A = Result VaultError A × File

unfoldable pub window_ms : SpendWindow → ℕ
window_ms daily = 86400000
window_ms weekly = 604800000
window_ms monthly = 2592000000

abbrev pub caps : SpendWindow → SpendLimits → Dict ℕ
caps daily limits = limits.daily_caps
caps weekly limits = limits.weekly_caps
caps monthly limits = limits.monthly_caps

abbrev timestamp_or : Option ℕ → ℕ → ℕ
timestamp_or none ts = ts
timestamp_or (some t) ts = t

-- `reservationTimestamp`
abbrev pub reservation_timestamp : ReservationState → ℕ
reservation_timestamp r = timestamp_or r.settled_at r.ts

abbrev pub same_status : LedgerStatus → LedgerStatus → Bool
same_status pending pending = true
same_status pending_escalated pending_escalated = true
same_status released released = true
same_status captured captured = true
same_status _ _ = false

abbrev pub is_id : Option String → String → Bool
is_id none id = false
is_id (some x) id = str_eq id x

abbrev pub row : ℕ → String → EventBody → LedgerEvent
row ts id body = record { ts = ts; id = id; body = body }

pub record Usage : Type 0 where
  pub pending : ℕ
  pub pending_escalated : ℕ
  pub captured : ℕ

module _ (normalize_currency : String → String) where
  -- The tests of `usageForWindow` that do not read the status.
  abbrev pub counted : SpendWindow → String → ℕ → Option String → ReservationState → Bool
  counted window currency at exclude r =
      not (is_id exclude r.id)
      && (str_eq (normalize_currency r.currency) (normalize_currency currency)
          && not (ltb (reservation_timestamp r + window_ms window) at))

  unfoldable pub amount_in : LedgerStatus → (ReservationState → Bool) → ReservationState → ℕ
  amount_in status test r = if test r && same_status r.status status then r.amount else 0

  unfoldable pub total : LedgerStatus → (ReservationState → Bool) → Dict ReservationState → ℕ
  total status test [] = 0
  total status test ((k, r) ∷ m) = amount_in status test r + total status test m

  unfoldable pub usage_for_window :
      Dict ReservationState → SpendWindow → String → ℕ → Option String → Usage
  usage_for_window m window currency at exclude =
      let test = counted window currency at exclude in
      record {
        pending = total pending test m + total pending_escalated test m;
        pending_escalated = total pending_escalated test m;
        captured = total captured test m;
      }

  abbrev pub check_cap :
      (current amount : ℕ) (currency : String) → Bool → Option ℕ → Result VaultError (Unit {0})
  check_cap current amount currency releases none = ok tt
  check_cap current amount currency releases (some cap) =
      if ltb cap (current + amount)
      then err (wallet_amount_exceeded amount (cap - current) currency releases)
      else ok tt

  unfoldable pub check_window :
      Dict ReservationState
      → ℕ
      → String
      → ℕ
      → SpendLimits
      → Option String
      → Bool
      → SpendWindow
      → Result VaultError (Unit {0})
  check_window m amount currency at limits exclude releases window =
      let usage = usage_for_window m window currency at exclude in
      check_cap (usage.pending + usage.pending_escalated + usage.captured) amount currency releases
        (lookup currency (caps window limits))

  unfoldable pub assert_within_limits :
      Dict ReservationState
      → ℕ
      → String
      → ℕ
      → SpendLimits
      → Option String
      → Bool
      → Result VaultError (Unit {0})
  assert_within_limits m amount currency at limits exclude releases = do
    check_window m amount currency at limits exclude releases daily
    check_window m amount currency at limits exclude releases weekly
    check_window m amount currency at limits exclude releases monthly

  -- `reserve`, its arguments after the defaults and the normalization; `id` is the new random id
  unfoldable pub reserve_amount :
      (id : String)
      → PurchaseIntent
      → ℕ
      → (currency key : String) → ℕ
      → SpendLimits
      → File
      → Outcome String
  reserve_amount id intent amount currency key at limits file =
      elim (assert_within_limits (replay_events normalize_currency file) amount currency at limits
        none false) [
          | err e ↦ (err e, file)
          | ok _ ↦ (ok id, file ++ (row at id (reserve intent amount currency key limits) ∷ []))
        ]

  -- `activeReservation`
  abbrev pub if_active : String → Option ReservationState → Result VaultError ReservationState
  if_active id none = err (not_active id)
  if_active id (some r) = if is_active r.status then ok r else err (not_active id)

  unfoldable pub active_reservation :
      Dict ReservationState → String → Result VaultError ReservationState
  active_reservation m id = if_active id (lookup id m)

  unfoldable pub adjust_reservation :
      String → (final_total at : ℕ) → ReservationState → File → Outcome (Unit {0})
  adjust_reservation id final_total at r file =
      if ltb r.amount final_total
      then (
        err (wallet_amount_exceeded final_total r.amount r.currency true),
        file ++ (row at id (release "amount_exceeded") ∷ []),
      )
      else elim (assert_within_limits (replay_events normalize_currency file) final_total r.currency
          at r.limits (some id) true) [
            | err e ↦ (err e, file ++ (row at id (release "cap_exceeded") ∷ []))
            | ok _ ↦ (ok tt, file ++ (row at id (adjust final_total) ∷ []))
          ]

  unfoldable pub adjust_amount : String → (final_total at : ℕ) → File → Outcome (Unit {0})
  adjust_amount id final_total at file =
      elim (active_reservation (replay_events normalize_currency file) id) [
        | err e ↦ (err e, file)
        | ok r ↦ adjust_reservation id final_total at r file
      ]

  -- `markEscalated`, `release`, `settle` and `writeShadowReceipt` each append one event
  unfoldable pub append_if_active : String → ℕ → EventBody → File → Outcome (Unit {0})
  append_if_active id at body file =
      elim (active_reservation (replay_events normalize_currency file) id) [
        | err e ↦ (err e, file)
        | ok r ↦ (ok tt, file ++ (row at id body ∷ []))
      ]

  unfoldable pub mark : String → (expires_at at : ℕ) → File → Outcome (Unit {0})
  mark id expires_at at = append_if_active id at (mark_escalated expires_at)

  unfoldable pub release_reservation : (id error_summary : String) → ℕ → File → Outcome (Unit {0})
  release_reservation id error_summary at = append_if_active id at (release error_summary)

  unfoldable pub settle_reservation : String → Receipt → ℕ → File → Outcome (Unit {0})
  settle_reservation id receipt at = append_if_active id at (settle receipt false)

  unfoldable pub write_shadow_receipt : String → Receipt → ℕ → File → Outcome (Unit {0})
  write_shadow_receipt id receipt at = append_if_active id at (settle receipt true)

  abbrev pub expires_by : ℕ → Option ℕ → Bool
  expires_by at none = false
  expires_by at (some t) = leb t at

  -- what `reattach` makes of the reservation it finds
  abbrev pub resume :
      String → ℕ → ReservationState → LedgerStatus → Option ℕ → File → Outcome ReservationState
  resume id at r pending_escalated (some t) file =
      if leb t at
      then (err (resume_expired id t), file ++ (row at id (release "resume_expired") ∷ []))
      else (ok r, file)
  resume id at r pending_escalated none file = (ok r, file)
  resume id at r _ _ file = (err (not_active id), file)

  abbrev pub resume_found : String → ℕ → Option ReservationState → File → Outcome ReservationState
  resume_found id at none file = (err (not_active id), file)
  resume_found id at (some r) file = resume id at r r.status r.expires_at file

  unfoldable pub reattach : String → ℕ → File → Outcome ReservationState
  reattach id at file = resume_found id at (lookup id (replay_events normalize_currency file)) file

  abbrev pub is_lapsed : ℕ → ReservationState → Bool
  is_lapsed at r = same_status r.status pending_escalated && expires_by at r.expires_at

  abbrev pub lapsed_rows : ℕ → Dict ReservationState → File
  lapsed_rows at [] = []
  lapsed_rows at ((k, r) ∷ m) =
      if is_lapsed at r
      then row at r.id (release "resume_expired") ∷ lapsed_rows at m
      else lapsed_rows at m

  unfoldable pub release_expired_escalations : ℕ → File → File
  release_expired_escalations at file =
      file ++ lapsed_rows at (replay_events normalize_currency file)

  -- `recordSpend` of a receipt that is normal; `id` is the hash of the receipt
  unfoldable pub record_spend : String → SpendReceipt → File → File
  record_spend id receipt file = file ++ (row receipt.ts id (legacy_spend receipt) ∷ [])

  abbrev active_rows : Dict ReservationState → List ReservationState
  active_rows [] = []
  active_rows ((k, r) ∷ m) = if is_active r.status then r ∷ active_rows m else active_rows m

  unfoldable pub pending_reservations : File → List ReservationState
  pending_reservations file = active_rows (replay_events normalize_currency file)
