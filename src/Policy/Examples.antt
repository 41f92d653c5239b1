-- ===== src/Policy/Examples.antt =====
-- The properties of the ledger, the budget and the money texts at concrete inputs
-- (packages/policy/src).
mod Rules
mod Engine
mod Audit
use steelyard_sdk.Base.{
  ℕ, ◌+◌, ◌≤◌, ◌≡◌, ◌≢◌, refl, String, Bool, true, false, ◌&&◌, Option, some, none, List, [], ◌∷◌,
  ◌++◌, map, keep, any, length, ltb, ◌==◌, ◌-◌, if◌then◌else◌, str_eq, str_eq_iff, Result, ok, err,
  arith, inl, inr, is_some,
}
use steelyard_sdk.Base.Int.{ℤ, pos, negsuc, ◌≤ℤ◌}
use steelyard_sdk.Base.Maps.{lookup, UniqueKeys}
use steelyard_sdk.Policy.Money.{exponent, to_major, from_major, to_digits, limit_usd_minor}
use steelyard_sdk.Policy.Money.RoundTrip.{from_major-to_major}
use steelyard_sdk.Policy.Ledger.{
  Reservation, Table, Status, pending, committed, new_row, commit, release, set_committed,
  set_released, sweep_expired, is_pending, per_day_usd_minor, per_day_count, per_purchase_usd_minor,
  RuleLimits, reserved, reserve_after_limit_check, purchase_total, over_usd, over_purchase,
  insert_reserved, insert_row, sum_where, count_where, is_active, update_pending, max_safe_integer,
  day_ms,
}
use steelyard_sdk.Policy.Ledger.Rows.{IsUnique}
use steelyard_sdk.Policy.Ledger.Lifecycle.{Resolves, commit-Resolves, release-Resolves}
use steelyard_sdk.Policy.Ledger.Sweep.{sweep_expired-keeps_counters}
use steelyard_sdk.Policy.Ledger.Limits.{
  WithinUsd, WithinCount, WithinPurchase, reserve_after_limit_check-bounded,
}
use steelyard_sdk.Policy.Ledger.Limits.Schedule.{Book, Step, Reach, Reach-within_day}
use steelyard_sdk.Policy.Ledger.Overrun.{day_limit, after, late_commit-exceeds_limit}
use steelyard_sdk.Policy.Budget.{
  BudgetOptions, try_consume, prune, remaining, prompts_in_window, times_of, try_consume-bounded,
}

abbrev limits : RuleLimits
limits = record {
  per_day_usd = some (b'1' ∷ b'0' ∷ []);
  per_day_count = some 3;
  per_purchase_usd = some (b'9' ∷ []);
}

-- 6 dollars, reserved at 1000 for 60 seconds
abbrev row_a : Reservation
row_a = new_row "a" "groceries" "i1" (pos 600) (some "p") 1000 60

abbrev row_b : Reservation
row_b = new_row "b" "groceries" "i2" (pos 200) (some "p") 2000 60

abbrev table_a : Table
table_a = row_a ∷ []

abbrev table_ab : Table
table_ab = row_a ∷ row_b ∷ []

from_major-to_major_example :
    from_major (b'-' ∷ b'1' ∷ b'.' ∷ b'0' ∷ b'5' ∷ []) "USD" ≡ ok (negsuc 104)
unfolding to_major to_digits exponent str_eq steelyard_sdk.Policy.Money.pad_start
    steelyard_sdk.Policy.Money.decimal steelyard_sdk.Policy.Money.decimal_from
from_major-to_major_example =
    from_major-to_major (negsuc 104) "USD" (b'-' ∷ b'1' ∷ b'.' ∷ b'0' ∷ b'5' ∷ []) refl

reserve_after_limit_check-bounded_example :
    (table_ab ≡ table_a ++ row_b ∷ [])
    × WithinUsd limits.per_day_usd (per_day_usd_minor "groceries" 2000 table_ab)
    × WithinCount limits.per_day_count (per_day_count "groceries" 2000 table_ab)
    × WithinPurchase limits.per_purchase_usd (purchase_total (some "p") 2000 table_ab)
unfolding reserve_after_limit_check over_usd over_purchase insert_reserved insert_row
    per_day_usd_minor per_day_count per_purchase_usd_minor sum_where count_where is_active
    limit_usd_minor from_major exponent str_eq steelyard_sdk.Policy.Money.take_digits
    steelyard_sdk.Policy.Money.split_sign steelyard_sdk.Policy.Money.frac_part
    steelyard_sdk.Policy.Money.drop_digits steelyard_sdk.Policy.Money.from_digits
    steelyard_sdk.Policy.Money.digits_value steelyard_sdk.Base.Int.◌+ℤ◌
reserve_after_limit_check-bounded_example =
    reserve_after_limit_check-bounded limits "b" "groceries" "i2" (pos 200) (some "p") 2000 60
      table_a table_ab refl

abbrev book : ℕ → Table → Book
book now table = record { now = now; table = table }

Reach-within_day_example : per_day_usd_minor "groceries" 1000 table_a ≤ℤ pos 1000
unfolding reserve_after_limit_check over_usd over_purchase insert_reserved insert_row
    per_day_usd_minor per_day_count per_purchase_usd_minor sum_where count_where is_active
    limit_usd_minor from_major exponent str_eq steelyard_sdk.Policy.Money.take_digits
    steelyard_sdk.Policy.Money.split_sign steelyard_sdk.Policy.Money.frac_part
    steelyard_sdk.Policy.Money.drop_digits steelyard_sdk.Policy.Money.from_digits
    steelyard_sdk.Policy.Money.digits_value steelyard_sdk.Base.Int.◌+ℤ◌
Reach-within_day_example =
    Reach-within_day "groceries" (b'1' ∷ b'0' ∷ []) 1000 1000 (book 1000 table_a) refl (
      Reach.next Reach.here (
        Step.admit limits "a" "groceries" "i1" (pos 600) (some "p") 60 (inr refl) (omega arith) refl
          refl))

commit-Resolves_example :
    Resolves
      (set_committed "c")
      "a"
      table_ab
      (record row_a { status = committed; credential_id = some "c" } ∷ row_b ∷ [])
unfolding commit update_pending str_eq
commit-Resolves_example =
    commit-Resolves "a" "c" table_ab
      (record row_a { status = committed; credential_id = some "c" } ∷ row_b ∷ [])
      (refl, (refl, tt)) refl

release-Resolves_example : Resolves set_released "b" table_ab (row_a ∷ set_released row_b ∷ [])
unfolding release update_pending str_eq
release-Resolves_example =
    release-Resolves "b" table_ab (row_a ∷ set_released row_b ∷ []) (refl, (refl, tt)) refl

sweep_expired-keeps_counters_example :
    (any
        (λ (r : Reservation). is_pending r.status && ltb r.expires_at 61500)
        (sweep_expired 61500 table_ab).0
      ≡ false)
    × (per_day_usd_minor "groceries" 61500 (sweep_expired 61500 table_ab).0
        ≡ per_day_usd_minor "groceries" 61500 table_ab)
    × (per_purchase_usd_minor "p" 61500 (sweep_expired 61500 table_ab).0
        ≡ per_purchase_usd_minor "p" 61500 table_ab)
unfolding str_eq
sweep_expired-keeps_counters_example =
    sweep_expired-keeps_counters 61500 "groceries" "p" table_ab (refl, (refl, tt))

late_commit-exceeds_limit_example :
    (t1 : Table) × (t2 : Table) × (t3 : Table) × (reserve_after_limit_check
        (day_limit (b'1' ∷ b'0' ∷ []))
        "a"
        "groceries"
        "i1"
        (pos 600)
        none
        1000
        60
        []
      ≡ ok (reserved t1))
    × (reserve_after_limit_check
          (day_limit (b'1' ∷ b'0' ∷ []))
          "b"
          "groceries"
          "i2"
          (pos 700)
          none
          (after 1000 60)
          60
          t1
        ≡ ok (reserved t2))
    × (commit "a" "c" t2 ≡ ok t3)
    × (per_day_usd_minor "groceries" (after 1000 60) t3 ≡ pos 1300)
unfolding limit_usd_minor from_major exponent str_eq steelyard_sdk.Policy.Money.take_digits
    steelyard_sdk.Policy.Money.split_sign steelyard_sdk.Policy.Money.frac_part
    steelyard_sdk.Policy.Money.drop_digits steelyard_sdk.Policy.Money.from_digits
    steelyard_sdk.Policy.Money.digits_value
late_commit-exceeds_limit_example =
    late_commit-exceeds_limit "groceries" "a" "b" "i1" "i2" "c" (b'1' ∷ b'0' ∷ []) 1000 600 700 1000
      60 refl (omega arith) (omega arith) (omega arith) (omega arith) (omega arith)
      (λ e. ground (arith, (str_eq_iff "a" "b").1 e))

try_consume-bounded_example :
    let (granted, kept) = try_consume (record { max = 2; window_ms = 100 }) 500 (350 ∷ 450 ∷ []) in
    (granted ≡ ltb (prompts_in_window (record { max = 2; window_ms = 100 }) 500 (350 ∷ 450 ∷ [])) 2)
    × (times_of 450 kept
        ≡ (if ltb 500 (450 + 100) then times_of 450 (350 ∷ 450 ∷ []) else 0)
          + (if granted && (500 == 450) then 1 else 0))
    × (length kept
        ≡ prompts_in_window (record { max = 2; window_ms = 100 }) 500 (350 ∷ 450 ∷ [])
          + (if granted then 1 else 0))
    × (length kept ≤ 2)
    × (remaining (record { max = 2; window_ms = 100 }) 500 (350 ∷ 450 ∷ [])
        ≡ 2 - prompts_in_window (record { max = 2; window_ms = 100 }) 500 (350 ∷ 450 ∷ []))
try_consume-bounded_example =
    try_consume-bounded (record { max = 2; window_ms = 100 }) 500 450 (350 ∷ 450 ∷ []) (omega arith)
