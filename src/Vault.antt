-- ===== src/Vault.antt =====
-- The buyer's vault ledger (packages/buyer/src/vault/ledger.ts): the events of the file, and the state
-- that replaying them gives. Times are milliseconds and amounts are whole minor units, not negative.
-- The rows of the file are sealed by a cipher and opened again when they are read; the model keeps
-- the list of opened events, oldest first. `normalizeCurrency` is a parameter.
pub mod Operations
pub mod Resolution
pub mod Settlement
pub mod Limits
pub mod Escalation
pub mod Refinement
mod Examples
use steelyard_sdk.Base.{
  ℕ, ◌+◌, ◌*◌, String, Bool, true, false, not, ◌||◌, Option, some, none, List, [], ◌∷◌, str_eq, ltb,
  if◌then◌else◌, Result, ok, err,
}
use steelyard_sdk.Base.Maps.{Dict, lookup, insert}

pub data SpendWindow : Type 0 where
  daily weekly monthly : SpendWindow

pub record SpendLimits : Type 0 where
  pub daily_caps : Dict ℕ
  pub weekly_caps : Dict ℕ
  pub monthly_caps : Dict ℕ

-- the fields of an intent that the ledger reads
pub record PurchaseIntent : Type 0 where
  pub intent_id : String
  pub merchant_domain : String
  pub amount : ℕ
  pub currency : String

pub record Receipt : Type 0 where
  pub order_id : String
  pub charged_amount : ℕ
  pub charged_currency : String
  pub created_at : ℕ

pub record SpendReceipt : Type 0 where
  pub ts : ℕ
  pub intent_id : String
  pub merchant_domain : String
  pub amount : ℕ
  pub currency : String
  pub completed : Bool

-- `LedgerReservationStatus`
pub data LedgerStatus : Type 0 where
  pending pending_escalated released captured : LedgerStatus

pub data EventBody : Type 0 where
  reserve :
      (intent : PurchaseIntent) (amount : ℕ) (currency idempotency_key : String)
      (limits : SpendLimits)
      → EventBody
  adjust : (amount : ℕ) → EventBody
  mark_escalated : (expires_at : ℕ) → EventBody
  release : (error_summary : String) → EventBody
  settle : (receipt : Receipt) (shadow : Bool) → EventBody
  legacy_spend : SpendReceipt → EventBody

pub record LedgerEvent : Type 0 where
  pub ts : ℕ
  pub id : String
  pub body : EventBody

pub record ReservationState : Type 0 where
  pub id : String
  pub intent : PurchaseIntent
  pub amount : ℕ
  pub currency : String
  pub idempotency_key : String
  pub ts : ℕ
  pub status : LedgerStatus
  pub limits : SpendLimits
  pub expires_at : Option ℕ
  pub released_at : Option ℕ
  pub settled_at : Option ℕ
  pub receipt : Option Receipt
  pub shadow_receipt : Option Receipt
  pub legacy : Option SpendReceipt

abbrev pub is_active : LedgerStatus → Bool
is_active pending = true
is_active pending_escalated = true
is_active _ = false

abbrev pub is_pending : LedgerStatus → Bool
is_pending pending = true
is_pending _ = false

-- `legacyState`
unfoldable pub legacy_state : String → SpendReceipt → ReservationState
legacy_state id receipt = record {
  id = id;
  intent = record {
    intent_id = receipt.intent_id;
    merchant_domain = receipt.merchant_domain;
    amount = receipt.amount;
    currency = receipt.currency;
  };
  amount = if receipt.completed then receipt.amount else 0;
  currency = receipt.currency;
  idempotency_key = id;
  ts = receipt.ts;
  status = if receipt.completed then captured else released;
  limits = record { daily_caps = []; weekly_caps = []; monthly_caps = [] };
  expires_at = none;
  released_at = none;
  settled_at = none;
  receipt = none;
  shadow_receipt = none;
  legacy = some receipt;
}

-- the state of a new reservation
unfoldable pub reserved_state :
    (ts : ℕ) (id : String)
    → PurchaseIntent
    → ℕ
    → (currency key : String) → SpendLimits
    → ReservationState
reserved_state ts id intent amount currency key limits = record {
  id = id;
  intent = intent;
  amount = amount;
  currency = currency;
  idempotency_key = key;
  ts = ts;
  status = pending;
  limits = limits;
  expires_at = none;
  released_at = none;
  settled_at = none;
  receipt = none;
  shadow_receipt = none;
  legacy = none;
}

module _ (normalize_currency : String → String) where
  -- What an event about a known reservation makes of it: the `switch` of `applyEvent`.
  unfoldable pub update : ℕ → EventBody → ReservationState → ReservationState
  update ts (reserve _ _ _ _ _) r = r
  update ts (legacy_spend _) r = r
  update ts (adjust amount) r = if is_active r.status then record r { amount = amount } else r
  update ts (mark_escalated expires_at) r =
      if is_pending r.status
      then record r { status = pending_escalated; expires_at = some expires_at }
      else r
  update ts (release _) r =
      if is_active r.status then record r { status = released; released_at = some ts } else r
  update ts (settle receipt true) r = record r { shadow_receipt = some receipt }
  update ts (settle receipt false) r =
      if is_active r.status
      then record r {
        status = captured;
        settled_at = some ts;
        receipt = some receipt;
        amount = receipt.charged_amount;
        currency = normalize_currency receipt.charged_currency;
      }
      else r

  abbrev pub update_known :
      String
      → ℕ
      → EventBody
      → Dict ReservationState
      → Option ReservationState
      → Dict ReservationState
  update_known id ts body m none = m
  update_known id ts body m (some r) = insert id (update ts body r) m

  unfoldable pub apply_body : String → ℕ → EventBody → Dict ReservationState → Dict ReservationState
  unfolding reserved_state legacy_state
  apply_body id ts (reserve intent amount currency key limits) m =
      insert id (reserved_state ts id intent amount currency key limits) m
  apply_body id ts (legacy_spend receipt) m = insert id (legacy_state id receipt) m
  apply_body id ts body m = update_known id ts body m (lookup id m)

  unfoldable pub apply_event : Dict ReservationState → LedgerEvent → Dict ReservationState
  apply_event m event = apply_body event.id event.ts event.body m

  abbrev pub replay_from : Dict ReservationState → List LedgerEvent → Dict ReservationState
  replay_from m [] = m
  replay_from m (e ∷ events) = replay_from (apply_event m e) events

  unfoldable pub replay_events : List LedgerEvent → Dict ReservationState
  replay_events events = replay_from [] events
