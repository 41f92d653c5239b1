-- ===== src/Policy/Ledger.antt =====
-- The reservation ledger (packages/policy/src/ledger/reservations.ts and counters.ts) and the
-- limit check that inserts into it (`reserveAfterLimitCheck` in packages/policy/src/engine.ts).
-- The table `reservations` is a list of rows. A time is a number of milliseconds; the code's ISO
-- texts compare as the times do. An operation reads the clock once, at `now`. A transaction that
-- throws is rolled back, so the caller keeps the table that it had.
pub mod Rows
pub mod Lifecycle
pub mod Sweep
pub mod Limits
pub mod Overrun
use steelyard_sdk.Base.{
  ℕ, ◌+◌, ◌*◌, String, Bool, true, false, ◌&&◌, ◌||◌, Option, some, none, List, [], ◌∷◌, ◌++◌, any,
  ltb, leb, ◌==◌, if◌then◌else◌, str_eq, is_empty, Result, ok, err, ◌>>=◌, ◌>>◌, require,
}
use steelyard_sdk.Base.Int.{ℤ, pos, ◌+ℤ◌, ltb_ℤ, magnitude}
use steelyard_sdk.Policy.Money.{MoneyError, limit_usd_minor}

pub data Status : Type 0 where
  pending committed released : Status

pub record Reservation : Type 0 where
  pub id : String
  pub rule_name : String
  pub intent_id : String
  pub amount_usd_minor : ℤ
  pub count : ℕ
  pub purchase_id : Option String
  pub created_at : ℕ
  pub expires_at : ℕ
  pub status : Status
  pub credential_id : Option String

abbrev pub Table : Type 0
Table = List Reservation

pub data LedgerError : Type 0 where
  not_pending duplicate_id unsafe_amount : LedgerError
  bad_limit : MoneyError → LedgerError

abbrev pub is_pending : Status → Bool
is_pending pending = true
is_pending _ = false

abbrev pub is_committed : Status → Bool
is_committed committed = true
is_committed _ = false

-- `Number.MAX_SAFE_INTEGER`
abbrev pub max_safe_integer : ℕ
max_safe_integer = 9007199254740991

abbrev pub day_ms : ℕ
day_ms = 86400000

-- The row that `reserve` and `insertReservation` insert.
abbrev pub new_row :
    (id rule_name intent_id : String) → ℤ → Option String → (now ttl_seconds : ℕ) → Reservation
new_row id rule_name intent_id amount purchase_id now ttl_seconds = record {
  id = id;
  rule_name = rule_name;
  intent_id = intent_id;
  amount_usd_minor = amount;
  count = 1;
  purchase_id = purchase_id;
  created_at = now;
  expires_at = now + ttl_seconds * 1000;
  status = pending;
  credential_id = none;
}

-- `sqliteInteger`, `safeSqliteInteger`: throws out of the safe range
abbrev pub sqlite_integer : ℤ → Result LedgerError (Unit {0})
sqlite_integer amount = require (leb (magnitude amount) max_safe_integer) unsafe_amount

-- `INSERT INTO reservations`; `id` is the primary key
unfoldable pub insert_row : Reservation → Table → Result LedgerError Table
insert_row r t = do
  sqlite_integer r.amount_usd_minor
  require (if any (λ (s : Reservation). str_eq s.id r.id) t then false else true) duplicate_id
  ok (t ++ r ∷ [])

unfoldable pub reserve :
    (id rule_name intent_id : String)
    → ℤ
    → Option String
    → (now ttl_seconds : ℕ) → Table
    → Result LedgerError Table
reserve id rule_name intent_id amount purchase_id now ttl_seconds =
    insert_row (new_row id rule_name intent_id amount purchase_id now ttl_seconds)

-- `UPDATE reservations SET … WHERE id = ? AND status = 'pending'`, and `result.changes`
abbrev pub is_open : String → Reservation → Bool
is_open id r = str_eq r.id id && is_pending r.status

unfoldable pub update_pending : (Reservation → Reservation) → String → Table → Table
update_pending f id [] = []
update_pending f id (r ∷ t) = (if is_open id r then f r else r) ∷ update_pending f id t

abbrev pub set_committed : String → Reservation → Reservation
set_committed credential_id r = record r { status = committed; credential_id = some credential_id }

abbrev pub set_released : Reservation → Reservation
set_released r = record r { status = released }

unfoldable pub commit : (id credential_id : String) → Table → Result LedgerError Table
commit id credential_id t = do
  require (any (is_open id) t) not_pending
  ok (update_pending (set_committed credential_id) id t)

unfoldable pub release : String → Table → Result LedgerError Table
release id t = do require (any (is_open id) t) not_pending; ok (update_pending set_released id t)

unfoldable pub get : String → Table → Option Reservation
get id [] = none
get id (r ∷ t) = if str_eq r.id id then some r else get id t

-- `SELECT id … WHERE status = 'pending' AND expires_at < ?`
unfoldable pub expired_ids : ℕ → Table → List String
expired_ids now [] = []
expired_ids now (r ∷ t) =
    let rest = expired_ids now t in
    if is_pending r.status && ltb r.expires_at now then r.id ∷ rest else rest

unfoldable pub release_each : List String → Table → Table
release_each [] t = t
release_each (id ∷ ids) t = release_each ids (update_pending set_released id t)

-- `sweepExpired` and `recoverExpired`
unfoldable pub sweep_expired : ℕ → Table → Table × List String
sweep_expired now t = (release_each (expired_ids now t) t, expired_ids now t)

-- `activeReservationPredicate`
unfoldable pub is_active : ℕ → Reservation → Bool
is_active now r = is_committed r.status || (is_pending r.status && leb now r.expires_at)

-- `COALESCE(SUM(…), 0)` over the rows that a test selects. The code reads the sum as a double, which is
-- exact below 2^53.
unfoldable pub sum_where : (Reservation → Bool) → Table → ℤ
sum_where p [] = pos 0
sum_where p (r ∷ t) = let rest = sum_where p t in if p r then r.amount_usd_minor +ℤ rest else rest

unfoldable pub count_where : (Reservation → Bool) → Table → ℕ
count_where p [] = 0
count_where p (r ∷ t) = let rest = count_where p t in if p r then r.count + rest else rest

-- `rule_name = ? AND created_at >= ?`, the second being 24 hours before `now`
abbrev pub in_day : String → ℕ → Reservation → Bool
in_day rule_name now r =
    is_active now r && (str_eq r.rule_name rule_name && leb now (r.created_at + day_ms))

abbrev pub in_purchase : String → ℕ → Reservation → Bool
in_purchase purchase_id now r =
    is_active now r && elim r.purchase_id [ none ↦ false | some p ↦ str_eq p purchase_id ]

unfoldable pub per_day_usd_minor : String → ℕ → Table → ℤ
per_day_usd_minor rule_name now = sum_where (in_day rule_name now)

unfoldable pub per_day_count : String → ℕ → Table → ℕ
per_day_count rule_name now = count_where (in_day rule_name now)

unfoldable pub per_purchase_usd_minor : String → ℕ → Table → ℤ
per_purchase_usd_minor purchase_id now = sum_where (in_purchase purchase_id now)

-- A rule's `limits`; a dollar limit is its decimal text.
pub record RuleLimits : Type 0 where
  pub per_day_usd : Option (List ℕ)
  pub per_day_count : Option ℕ
  pub per_purchase_usd : Option (List ℕ)

pub data LimitReason : Type 0 where
  limit_per_day_usd limit_per_day_count limit_per_purchase_usd : LimitReason

-- `limits.x !== undefined && total > limitUsdMinor(limits.x)`
abbrev pub over_cap : Result MoneyError ℤ → ℤ → Result LedgerError Bool
over_cap (ok cap) total = ok (ltb_ℤ cap total)
over_cap (err e) total = err (bad_limit e)

unfoldable pub over_usd : Option (List ℕ) → ℤ → Result LedgerError Bool
over_usd none total = ok false
over_usd (some text) total = over_cap (limit_usd_minor text) total

abbrev pub over_count : Option ℕ → ℕ → Bool
over_count none total = false
over_count (some cap) total = ltb cap total

-- an empty purchase id is falsy
abbrev pub purchase_total : Option String → ℕ → Table → Option ℤ
purchase_total none now t = none
purchase_total (some p) now t = if is_empty p then none else some (per_purchase_usd_minor p now t)

unfoldable pub over_purchase : Option (List ℕ) → Option ℤ → ℤ → Result LedgerError Bool
over_purchase limit none amount = ok false
over_purchase limit (some total) amount = over_usd limit (total +ℤ amount)

pub data Reserved : Type 0 where
  denied : LimitReason → Reserved
  reserved : Table → Reserved

unfoldable pub insert_reserved : Reservation → Table → Result LedgerError Reserved
insert_reserved row t = do t' ← insert_row row t; ok (reserved t')

unfoldable pub reserve_after_limit_check :
    RuleLimits
    → (id rule_name intent_id : String) → ℤ
    → Option String
    → (now ttl_seconds : ℕ) → Table
    → Result LedgerError Reserved
reserve_after_limit_check limits id rule_name intent_id amount purchase_id now ttl_seconds t = do
  over_day ← over_usd limits.per_day_usd (per_day_usd_minor rule_name now t +ℤ amount)
  let too_many = over_count limits.per_day_count (per_day_count rule_name now t + 1)
  let total = purchase_total purchase_id now t
  if over_day
      then ok (denied limit_per_day_usd)
      else if too_many
      then ok (denied limit_per_day_count)
      else do
        over ← over_purchase limits.per_purchase_usd total amount
        if over
            then ok (denied limit_per_purchase_usd)
            else insert_reserved (new_row id rule_name intent_id amount purchase_id now ttl_seconds)
                t
