-- ===== src/Policy/Ledger/Limits.antt =====
-- The limit check bounds what a rule may spend (packages/policy/src/engine.ts,
-- `reserveAfterLimitCheck`, over packages/policy/src/ledger/counters.ts).
pub mod Schedule
use steelyard_sdk.Base.{
  ℕ, ◌+◌, ◌*◌, ◌≤◌, ◌≡◌, refl, sym, ap, ◌∙◌, String, Bool, true, false, Option, some, none, List,
  [], ◌∷◌, ◌++◌, any, All, All-append, ltb, leb, if◌then◌else◌, str_eq, str_eq_iff, str_eq_refl,
  is_empty, Result, ok, err, ◌>>=◌, arith, inl, inr, Bool-cases, Result-cases,
}
use steelyard_sdk.Base.Int.{ℤ, pos, ◌+ℤ◌, ◌≤ℤ◌, ltb_ℤ, ltb_ℤ_false, int_laws, pos_part, neg_part}
use steelyard_sdk.Policy.Money.{MoneyError, limit_usd_minor}
use steelyard_sdk.Policy.Ledger.{
  Reservation, Table, LedgerError, RuleLimits, Reserved, denied, reserved, new_row, in_day,
  in_purchase, is_active, is_pending, is_open, insert_row, insert_reserved, over_cap, over_usd,
  over_count, over_purchase, purchase_total, per_day_usd_minor, per_day_count, count_where,
  per_purchase_usd_minor, sum_where, day_ms, reserve_after_limit_check, commit, release,
  update_pending, set_committed, set_released,
}
use steelyard_sdk.Policy.Ledger.Rows.{
  sum_where-append, sum_where_mono, NonNeg, Shrinks, IsUpdate, set_committed-IsUpdate,
  set_released-IsUpdate, NonNeg-update_pending,
}
use steelyard_sdk.Policy.Ledger.Lifecycle.{insert_row_lem}

count_where-append :
    (p : Reservation → Bool) (t : Table) (r : Reservation)
    → p r ≡ true
    → count_where p (t ++ r ∷ []) ≡ count_where p t + r.count
unfolding count_where
count_where-append p [] r h = rw h (omega arith)
count_where-append p (s ∷ t) r h = elim (Bool-cases (p s)) [
  | inl counted ↦ rw counted (omega (arith, count_where-append p t r h))
  | inr skipped ↦ rw skipped (count_where-append p t r h)
]

-- What a check that admits a row has established.
pub record Admits (limits : RuleLimits) (row : Reservation) (purchase : Option ℤ) (now : ℕ)
    (t t' : Table) : Type 0 where
  pub inserted : insert_row row t ≡ ok t'
  pub day :
      over_usd limits.per_day_usd (per_day_usd_minor row.rule_name now t +ℤ row.amount_usd_minor)
      ≡ ok false
  pub times : over_count limits.per_day_count (per_day_count row.rule_name now t + 1) ≡ false
  pub bought : over_purchase limits.per_purchase_usd purchase row.amount_usd_minor ≡ ok false

insert_reserved_ok :
    (row : Reservation) (t t' : Table)
    → insert_reserved row t ≡ ok (reserved t')
    → insert_row row t ≡ ok t'
unfolding insert_reserved
insert_reserved_ok row t t' e = elim (Result-cases (insert_row row t)) [
  | inl (s, h) ↦ ground arith
  | inr (x, h) ↦ ground arith
]

module _ (limits : RuleLimits) (id rule_name intent_id : String) (amount : ℤ)
    (purchase_id : Option String) (now ttl_seconds : ℕ) (t t' : Table) where
  abbrev row : Reservation
  row = new_row id rule_name intent_id amount purchase_id now ttl_seconds

  pub reserve_after_limit_check-Admits :
      reserve_after_limit_check limits id rule_name intent_id amount purchase_id now ttl_seconds t
        ≡ ok (reserved t')
      → Admits limits row (purchase_total purchase_id now t) now t t'
  unfolding reserve_after_limit_check
  reserve_after_limit_check-Admits e =
      elim (Result-cases
        (over_usd limits.per_day_usd (per_day_usd_minor rule_name now t +ℤ amount))) [
          | inl (true, h) ↦ ground arith
          | inl (false, h) ↦
              elim (Bool-cases
                (over_count limits.per_day_count (per_day_count rule_name now t + 1))) [
                  | inl over ↦ ground arith
                  | inr under ↦
                      elim (Result-cases (
                        over_purchase limits.per_purchase_usd (purchase_total purchase_id now t)
                          amount)) [
                            | inl (true, k) ↦ ground arith
                            | inl (false, k) ↦ record {
                              inserted = insert_reserved_ok row t t' (ground arith);
                              day = h;
                              times = under;
                              bought = k;
                            }
                            | inr (x, k) ↦ ground arith
                          ]
                ]
          | inr (x, h) ↦ ground arith
        ]

over_usd_bound :
    (text : List ℕ) (cap total : ℤ)
    → limit_usd_minor text ≡ ok cap
    → over_usd (some text) total ≡ ok false
    → total ≤ℤ cap
unfolding over_usd
over_usd_bound text cap total k e = ltb_ℤ_false cap total (ground arith)

new_row-in_day :
    (id rule_name intent_id : String) (amount : ℤ) (purchase_id : Option String)
    (now ttl_seconds : ℕ)
    → in_day rule_name now (new_row id rule_name intent_id amount purchase_id now ttl_seconds)
      ≡ true
unfolding is_active
new_row-in_day id rule_name intent_id amount purchase_id now ttl =
    ground (arith, str_eq_refl rule_name)

module _ (limits : RuleLimits) (id rule_name intent_id : String) (amount : ℤ)
    (purchase_id : Option String) (now ttl_seconds : ℕ) (t t' : Table)
    (admitted : reserve_after_limit_check limits id rule_name intent_id amount purchase_id now
        ttl_seconds t
      ≡ ok (reserved t')) where
  abbrev added : Reservation
  added = new_row id rule_name intent_id amount purchase_id now ttl_seconds

  the_check : Admits limits added (purchase_total purchase_id now t) now t t'
  the_check =
      reserve_after_limit_check-Admits limits id rule_name intent_id amount purchase_id now
        ttl_seconds t t' admitted

  pub admitted_table : t' ≡ t ++ added ∷ []
  admitted_table = (insert_row_lem added t t' the_check.inserted).0

  admitted_sum : per_day_usd_minor rule_name now t' ≡ per_day_usd_minor rule_name now t +ℤ amount
  unfolding per_day_usd_minor
  admitted_sum = rw admitted_table (
      sum_where-append (in_day rule_name now) t added
      ∙ rw (new_row-in_day id rule_name intent_id amount purchase_id now ttl_seconds))

  pub admitted_day :
      (text : List ℕ) (cap : ℤ)
      → limits.per_day_usd ≡ some text
      → limit_usd_minor text ≡ ok cap
      → per_day_usd_minor rule_name now t' ≤ℤ cap
  admitted_day text cap l k = rw admitted_sum (over_usd_bound text cap _ k (rw l at the_check.day))

  admitted_count : per_day_count rule_name now t' ≡ per_day_count rule_name now t + 1
  unfolding per_day_count
  admitted_count = rw admitted_table (
      count_where-append (in_day rule_name now) t added
        (new_row-in_day id rule_name intent_id amount purchase_id now ttl_seconds))

-- A total respects a dollar limit: there is none, or its text is an amount that is not exceeded.
abbrev WithinCap : Result MoneyError ℤ → ℤ → Type 0
WithinCap (ok cap) total = total ≤ℤ cap
WithinCap (err _) total = ⊥

abbrev pub WithinUsd : Option (List ℕ) → ℤ → Type 0
WithinUsd none total = Unit
WithinUsd (some text) total = WithinCap (limit_usd_minor text) total

abbrev pub WithinCount : Option ℕ → ℕ → Type 0
WithinCount none total = Unit
WithinCount (some cap) total = total ≤ cap

abbrev pub WithinPurchase : Option (List ℕ) → Option ℤ → Type 0
WithinPurchase limit none = Unit
WithinPurchase limit (some total) = WithinUsd limit total

WithinCap_lem :
    (cap : Result MoneyError ℤ) (total : ℤ) → over_cap cap total ≡ ok false → WithinCap cap total
WithinCap_lem (ok cap) total e = ltb_ℤ_false cap total (ground arith)
WithinCap_lem (err x) total e = cc

over_usd-WithinUsd :
    (limit : Option (List ℕ)) (total : ℤ) → over_usd limit total ≡ ok false → WithinUsd limit total
unfolding over_usd
over_usd-WithinUsd none total e = tt
over_usd-WithinUsd (some text) total e = WithinCap_lem (limit_usd_minor text) total e

over_count-WithinCount :
    (limit : Option ℕ) (total : ℕ) → over_count limit total ≡ false → WithinCount limit total
over_count-WithinCount none total e = tt
over_count-WithinCount (some cap) total e = ground arith

new_row-in_purchase :
    (id rule_name intent_id p : String) (amount : ℤ) (now ttl_seconds : ℕ)
    → in_purchase p now (new_row id rule_name intent_id amount (some p) now ttl_seconds) ≡ true
unfolding is_active
new_row-in_purchase id rule_name intent_id p amount now ttl = ground (arith, str_eq_refl p)

purchase_sum :
    (id rule_name intent_id p : String) (amount : ℤ) (now ttl_seconds : ℕ) (t : Table)
    → per_purchase_usd_minor p now
        (t ++ new_row id rule_name intent_id amount (some p) now ttl_seconds ∷ [])
      ≡ per_purchase_usd_minor p now t +ℤ amount
unfolding per_purchase_usd_minor
purchase_sum id rule_name intent_id p amount now ttl t =
    sum_where-append (in_purchase p now) t (new_row id rule_name intent_id amount (some p) now ttl)
    ∙ rw (new_row-in_purchase id rule_name intent_id p amount now ttl)

over_purchase-WithinPurchase :
    (limit : Option (List ℕ)) (id rule_name intent_id : String) (amount : ℤ)
    (purchase_id : Option String) (now ttl_seconds : ℕ) (t : Table)
    → over_purchase limit (purchase_total purchase_id now t) amount ≡ ok false
    → WithinPurchase limit (
        purchase_total purchase_id now
          (t ++ new_row id rule_name intent_id amount purchase_id now ttl_seconds ∷ []))
unfolding over_purchase
over_purchase-WithinPurchase limit id rule_name intent_id amount none now ttl t e = tt
over_purchase-WithinPurchase limit id rule_name intent_id amount (some p) now ttl t e =
    elim (Bool-cases (is_empty p)) [
      | inl empty ↦ rw empty tt
      | inr named ↦ rw named (
          rw (purchase_sum id rule_name intent_id p amount now ttl t) (
            over_usd-WithinUsd limit (per_purchase_usd_minor p now t +ℤ amount)
              (rw (named, over_purchase) at e)))
    ]

-- A check that admits a reservation has appended exactly its row, and with the row counted no
-- total exceeds the limit that the rule sets on it: the dollars and the number of the rule's
-- reservations of the last 24 hours, and the dollars of the purchase.
pub reserve_after_limit_check-bounded :
    (limits : RuleLimits) (id rule_name intent_id : String) (amount : ℤ)
    (purchase_id : Option String) (now ttl_seconds : ℕ) (t t' : Table)
    → reserve_after_limit_check limits id rule_name intent_id amount purchase_id now ttl_seconds t
      ≡ ok (reserved t')
    → (t' ≡ t ++ new_row id rule_name intent_id amount purchase_id now ttl_seconds ∷ [])
      × WithinUsd limits.per_day_usd (per_day_usd_minor rule_name now t')
      × WithinCount limits.per_day_count (per_day_count rule_name now t')
      × WithinPurchase limits.per_purchase_usd (purchase_total purchase_id now t')
reserve_after_limit_check-bounded limits id rule intent amount purchase now ttl t t' e =
    let a = reserve_after_limit_check-Admits limits id rule intent amount purchase now ttl t t' e in
    let grown = admitted_table limits id rule intent amount purchase now ttl t t' e in
    (
      grown,
      rw (admitted_sum limits id rule intent amount purchase now ttl t t' e)
          (over_usd-WithinUsd limits.per_day_usd _ a.day),
      rw (admitted_count limits id rule intent amount purchase now ttl t t' e)
          (over_count-WithinCount limits.per_day_count _ a.times),
      rw grown (
          over_purchase-WithinPurchase limits.per_purchase_usd id rule intent amount purchase now
            ttl t a.bought),
    )
