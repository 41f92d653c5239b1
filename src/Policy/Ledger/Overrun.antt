-- ===== src/Policy/Ledger/Overrun.antt =====
-- A commit does not look at the expiry of its reservation, while the counters drop an expired one
-- (packages/policy/src/ledger/reservations.ts and counters.ts).
use steelyard_sdk.Base.{
  ℕ, ◌+◌, ◌*◌, ◌≤◌, ◌<◌, ◌≡◌, ◌≢◌, refl, sym, String, true, false, some, none, List, [], ◌∷◌, ◌++◌,
  any, leb, str_eq, str_eq_refl, ok, arith,
}
use steelyard_sdk.Base.Int.{pos, ◌+ℤ◌, ltb_ℤ}
use steelyard_sdk.Policy.Money.{limit_usd_minor}
use steelyard_sdk.Policy.Ledger.Lifecycle.{str_ne}
use steelyard_sdk.Policy.Ledger.{
  Reservation, Table, RuleLimits, reserved, new_row, in_day, is_active, insert_row, insert_reserved,
  over_usd, over_purchase, per_day_usd_minor, sum_where, set_committed, update_pending, commit,
  reserve_after_limit_check, max_safe_integer, day_ms,
}

abbrev pub day_limit : List ℕ → RuleLimits
day_limit text = record { per_day_usd = some text; per_day_count = none; per_purchase_usd = none }

-- A reservation outside any purchase.
abbrev pub row : (id name intent : String) → (amount now ttl_seconds : ℕ) → Reservation
row id name intent amount now ttl_seconds = new_row id name intent (pos amount) none now ttl_seconds

-- The first moment at which a reservation made at `now` has expired.
abbrev pub after : ℕ → ℕ → ℕ
after now ttl_seconds = now + ttl_seconds * 1000 + 1

module _ (name : String) (text : List ℕ) (cap : ℕ) (parsed : limit_usd_minor text ≡ ok (pos cap))
    (safe : cap ≤ max_safe_integer) where
  -- With the daily dollars as the rule's only limit, an amount that fits is admitted.
  admits :
      (id intent_id : String) (amount used : ℕ) (now ttl_seconds : ℕ) (t : Table)
      → per_day_usd_minor name now t ≡ pos used
      → used + amount ≤ cap
      → any (λ (s : Reservation). str_eq s.id id) t ≡ false
      → reserve_after_limit_check
          (day_limit text)
          id
          name
          intent_id
          (pos amount)
          none
          now
          ttl_seconds
          t
        ≡ ok (reserved (t ++ new_row id name intent_id (pos amount) none now ttl_seconds ∷ []))
  unfolding reserve_after_limit_check over_usd over_purchase insert_reserved insert_row ◌+ℤ◌
  admits id intent amount used now ttl t u fits fresh =
      let small : leb amount max_safe_integer ≡ true = ground arith in
      let under : ltb_ℤ (pos cap) (pos used +ℤ pos amount) ≡ false = ground arith in
      simp (parsed, u, under, fresh, small)

module _ (name id1 id2 intent1 intent2 credential : String) (a b now ttl_seconds : ℕ)
    (short : ttl_seconds * 1000 < day_ms) (different : str_eq id1 id2 ≡ false) where
  abbrev later : ℕ
  later = after now ttl_seconds

  abbrev first : Reservation
  first = row id1 name intent1 a now ttl_seconds

  abbrev second : Reservation
  second = row id2 name intent2 b later ttl_seconds

  first_expired : in_day name later first ≡ false
  unfolding is_active
  first_expired = ground arith

  first_counts : in_day name later (set_committed credential first) ≡ true
  unfolding is_active
  first_counts = ground (arith, str_eq_refl name)

  second_counts : in_day name later second ≡ true
  unfolding is_active
  second_counts = ground (arith, str_eq_refl name)

  committed_total :
      per_day_usd_minor name later (set_committed credential first ∷ second ∷ []) ≡ pos (a + b)
  unfolding per_day_usd_minor sum_where ◌+ℤ◌
  committed_total = rw (first_counts, second_counts) (ground arith)

  unused : per_day_usd_minor name later (first ∷ []) ≡ pos 0
  unfolding per_day_usd_minor sum_where
  unused = rw first_expired

  late_commit :
      str_eq id2 id1 ≡ false
      → commit id1 credential (first ∷ second ∷ [])
        ≡ ok (set_committed credential first ∷ second ∷ [])
  unfolding commit update_pending
  late_commit e = rw (str_eq_refl id1, e)

unused_at_start : (name : String) (now : ℕ) → per_day_usd_minor name now [] ≡ pos 0
unfolding per_day_usd_minor sum_where
unused_at_start name now = refl

-- Two reservations that each fit the daily limit, and together exceed it, can both be spent: the
-- second is admitted after the first has expired, and the first is still committed then. The
-- rule's dollars of the last 24 hours are then the sum of both, above the limit.
pub late_commit-exceeds_limit :
    (name id1 id2 intent1 intent2 credential : String) (text : List ℕ) (cap a b now ttl_seconds : ℕ)
    → limit_usd_minor text ≡ ok (pos cap)
    → cap ≤ max_safe_integer
    → a ≤ cap
    → b ≤ cap
    → cap < a + b
    → ttl_seconds * 1000 < day_ms
    → id1 ≢ id2
    → (t1 : Table) × (t2 : Table) × (t3 : Table) × (reserve_after_limit_check
          (day_limit text)
          id1
          name
          intent1
          (pos a)
          none
          now
          ttl_seconds
          []
        ≡ ok (reserved t1))
      × (reserve_after_limit_check
            (day_limit text)
            id2
            name
            intent2
            (pos b)
            none
            (after now ttl_seconds)
            ttl_seconds
            t1
          ≡ ok (reserved t2))
      × (commit id1 credential t2 ≡ ok t3)
      × (per_day_usd_minor name (after now ttl_seconds) t3 ≡ pos (a + b))
late_commit-exceeds_limit name id1 id2 i1 i2 c text cap a b now ttl parsed safe ha hb over short
      ne =
    let d = str_ne id1 id2 (λ e. ne (sym e)) in
    let r1 : Reservation = row id1 name i1 a now ttl in
    let r2 : Reservation = row id2 name i2 b (after now ttl) ttl in
    (
      r1 ∷ [],
      r1 ∷ r2 ∷ [],
      set_committed c r1 ∷ r2 ∷ [],
      admits name text cap parsed safe id1 i1 a 0 now ttl [] (unused_at_start name now)
          (omega arith) refl,
      admits name text cap parsed safe id2 i2 b 0 (after now ttl) ttl (r1 ∷ [])
          (unused name id1 id2 i1 i2 c a b now ttl short d) (omega arith) (rw d),
      late_commit name id1 id2 i1 i2 c a b now ttl short d (str_ne id2 id1 ne),
      committed_total name id1 id2 i1 i2 c a b now ttl short d,
    )
