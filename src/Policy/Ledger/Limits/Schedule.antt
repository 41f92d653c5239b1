-- ===== src/Policy/Ledger/Limits/Schedule.antt =====
-- The daily dollar limit over whole schedules of the ledger's operations and of the clock
-- (packages/policy/src/ledger and `reserveAfterLimitCheck` of packages/policy/src/engine.ts).
use steelyard_sdk.Base.{
  ℕ, ◌≤◌, ◌≡◌, refl, sym, ◌∙◌, String, Bool, true, false, ◌&&◌, Option, some, List, [], ◌∷◌, ◌++◌,
  any, All, All-append, ltb, if◌then◌else◌, str_eq, str_eq_iff, ok, arith, inl, inr, Bool-cases,
  ◌⊎◌,
}
use mathlib.Core.Path.{subst, subst₂}
use steelyard_sdk.Policy.Ledger.Limits.{admitted_table, admitted_day}
use steelyard_sdk.Base.Int.{ℤ, pos, ◌+ℤ◌, ◌≤ℤ◌, int_laws}
use steelyard_sdk.Policy.Money.{limit_usd_minor}
use steelyard_sdk.Policy.Ledger.{
  Reservation, Table, RuleLimits, reserved, new_row, in_day, is_active, is_open, per_day_usd_minor,
  sum_where, reserve_after_limit_check, commit, release, update_pending, set_committed,
  set_released, release_each, expired_ids, sweep_expired,
}
use steelyard_sdk.Policy.Ledger.Rows.{
  sum_where-append, sum_where_mono, NonNeg, Shrinks, IsUpdate, set_committed-IsUpdate,
  set_released-IsUpdate, NonNeg-update_pending,
}

-- The clock and the table.
pub record Book : Type 0 where
  pub now : ℕ
  pub table : Table

-- A pending row of the id has passed its expiry.
abbrev pub is_late : ℕ → String → Reservation → Bool
is_late now id r = is_open id r && ltb r.expires_at now

module _ (name : String) (text : List ℕ) where
  -- One operation, or time passing. Rules named `name` have the daily limit `text`; a credential
  -- is committed before its reservation expires.
  pub data Step (s s' : Book) : Type 0 where
    tick : s.now ≤ s'.now → s'.table ≡ s.table → Step s s'
    admit :
        (limits : RuleLimits) (id rule_name intent_id : String) (amount : ℤ)
        (purchase_id : Option String) (ttl_seconds : ℕ)
        → (str_eq rule_name name ≡ false) ⊎ (limits.per_day_usd ≡ some text)
        → pos 0 ≤ℤ amount
        → reserve_after_limit_check limits id rule_name intent_id amount purchase_id s.now
            ttl_seconds s.table
          ≡ ok (reserved s'.table)
        → s'.now ≡ s.now
        → Step s s'
    commit_live :
        (id credential_id : String)
        → any (is_late s.now id) s.table ≡ false
        → commit id credential_id s.table ≡ ok s'.table
        → s'.now ≡ s.now
        → Step s s'
    release_one : (id : String) → release id s.table ≡ ok s'.table → s'.now ≡ s.now → Step s s'
    sweep : s'.table ≡ (sweep_expired s.now s.table).0 → s'.now ≡ s.now → Step s s'

  pub data Reach (s : Book) : Book → Type 0 where
    here : Reach s s
    next : {t u : Book} → Reach s t → Step t u → Reach s u

in_day_later :
    (name : String) (now now' : ℕ) (r : Reservation)
    → now ≤ now'
    → in_day name now' r ≡ true
    → in_day name now r ≡ true
unfolding is_active
in_day_later name now now' r h e = ground arith

Shrinks-later :
    (name : String) (now now' : ℕ) (t : Table)
    → now ≤ now'
    → Shrinks (in_day name now') (in_day name now) t t
Shrinks-later name now now' [] h = tt
Shrinks-later name now now' (r ∷ t) h =
    (refl, in_day_later name now now' r h, Shrinks-later name now now' t h)

released_in_day :
    (name id : String) (now : ℕ) (r : Reservation)
    → in_day name now (if is_open id r then set_released r else r) ≡ true
    → in_day name now r ≡ true
unfolding is_active
released_in_day name id now r e = ground arith

committed_in_day :
    (name id c : String) (now : ℕ) (r : Reservation)
    → is_late now id r ≡ false
    → in_day name now (if is_open id r then set_committed c r else r) ≡ true
    → in_day name now r ≡ true
unfolding is_active
committed_in_day name id c now r l e = ground arith

kept_amount :
    (f : Reservation → Reservation) (u : IsUpdate f) (b : Bool) (r : Reservation)
    → (if b then f r else r).amount_usd_minor ≡ r.amount_usd_minor
kept_amount f u true r = u.amount r
kept_amount f u false r = refl

Shrinks-release :
    (name id : String) (now : ℕ) (t : Table)
    → Shrinks (in_day name now) (in_day name now) (update_pending set_released id t) t
unfolding update_pending
Shrinks-release name id now [] = tt
Shrinks-release name id now (r ∷ t) = (
  kept_amount set_released set_released-IsUpdate (is_open id r) r,
  released_in_day name id now r,
  Shrinks-release name id now t,
)

Shrinks-commit :
    (name id c : String) (now : ℕ) (t : Table)
    → any (is_late now id) t ≡ false
    → Shrinks (in_day name now) (in_day name now) (update_pending (set_committed c) id t) t
unfolding update_pending
Shrinks-commit name id c now [] l = tt
Shrinks-commit name id c now (r ∷ t) l = (
  kept_amount (set_committed c) (set_committed-IsUpdate c) (is_open id r) r,
  committed_in_day name id c now r (ground arith),
  Shrinks-commit name id c now t (ground arith),
)

-- What holds of the clock and the table at every moment.
abbrev Holds : String → ℤ → ℕ → Table → Type 0
Holds name cap now t = (per_day_usd_minor name now t ≤ℤ cap) × All NonNeg t

Holds-mono :
    (name : String) (cap : ℤ) (now now' : ℕ) (t t' : Table)
    → Shrinks (in_day name now') (in_day name now) t' t
    → All NonNeg t'
    → Holds name cap now t
    → Holds name cap now' t'
unfolding per_day_usd_minor
Holds-mono name cap now now' t t' k n (b, m) =
    (omega (arith, sum_where_mono (in_day name now') (in_day name now) t' t k m), n)

Holds-release :
    (name id : String) (cap : ℤ) (now : ℕ) (t : Table)
    → Holds name cap now t
    → Holds name cap now (update_pending set_released id t)
Holds-release name id cap now t h =
    Holds-mono name cap now now t (update_pending set_released id t) (Shrinks-release name id now t)
      (NonNeg-update_pending set_released-IsUpdate id t h.1) h

Holds-release_each :
    (name : String) (cap : ℤ) (now : ℕ) (ids : List String) (t : Table)
    → Holds name cap now t
    → Holds name cap now (release_each ids t)
unfolding release_each
Holds-release_each name cap now [] t h = h
Holds-release_each name cap now (id ∷ ids) t h =
    Holds-release_each name cap now ids (update_pending set_released id t)
      (Holds-release name id cap now t h)

Holds-commit :
    (name id c : String) (cap : ℤ) (now : ℕ) (t t' : Table)
    → any (is_late now id) t ≡ false
    → commit id c t ≡ ok t'
    → Holds name cap now t
    → Holds name cap now t'
unfolding commit
Holds-commit name id c cap now t t' l e h =
    let same : update_pending (set_committed c) id t ≡ t' = ground arith in
    rw (← same) (
      Holds-mono name cap now now t (update_pending (set_committed c) id t)
        (Shrinks-commit name id c now t l)
        (NonNeg-update_pending (set_committed-IsUpdate c) id t h.1) h)

Holds-released :
    (name id : String) (cap : ℤ) (now : ℕ) (t t' : Table)
    → release id t ≡ ok t'
    → Holds name cap now t
    → Holds name cap now t'
unfolding release
Holds-released name id cap now t t' e h =
    let same : update_pending set_released id t ≡ t' = ground arith in
    rw (← same) (Holds-release name id cap now t h)

other_rule_sum :
    (name id rule_name intent_id : String) (amount : ℤ) (purchase_id : Option String)
    (now ttl_seconds : ℕ) (t : Table)
    → str_eq rule_name name ≡ false
    → per_day_usd_minor name now
        (t ++ new_row id rule_name intent_id amount purchase_id now ttl_seconds ∷ [])
      ≡ per_day_usd_minor name now t +ℤ pos 0
unfolding per_day_usd_minor
other_rule_sum name id rule_name intent amount purchase now ttl t other =
    let row : Reservation = new_row id rule_name intent amount purchase now ttl in
    let out : in_day name now row ≡ false = ground arith in
    sum_where-append (in_day name now) t row ∙ rw out

module _ (name : String) (text : List ℕ) (cap : ℤ) (parsed : limit_usd_minor text ≡ ok cap) where
  Holds-admit :
      (limits : RuleLimits) (id rule_name intent_id : String) (amount : ℤ)
      (purchase_id : Option String) (now ttl_seconds : ℕ) (t t' : Table)
      → (str_eq rule_name name ≡ false) ⊎ (limits.per_day_usd ≡ some text)
      → pos 0 ≤ℤ amount
      → reserve_after_limit_check limits id rule_name intent_id amount purchase_id now ttl_seconds t
        ≡ ok (reserved t')
      → Holds name cap now t
      → Holds name cap now t'
  Holds-admit limits id rule intent amount purchase now ttl t t' which n e (b, m) =
      let grown = admitted_table limits id rule intent amount purchase now ttl t t' e in
      let row : Reservation = new_row id rule intent amount purchase now ttl in
      (
        elim (Bool-cases (str_eq rule name)) [
          | inr other ↦
              rw (grown, other_rule_sum name id rule intent amount purchase now ttl t other)
                (omega int_laws)
          | inl same ↦ elim which [
            | inl other ↦ cc
            | inr limited ↦
                let eq : rule ≡ name = ground (arith, str_eq_iff rule name) in
                subst (λ n. per_day_usd_minor n now t' ≤ℤ cap) eq
                  (admitted_day limits id rule intent amount purchase now ttl t t' e text cap
                    limited parsed)
          ]
        ],
        rw grown (All-append NonNeg t (row ∷ []) m (n, tt)),
      )

  Step-Holds :
      {s s' : Book}
      → Step name text s s'
      → Holds name cap s.now s.table
      → Holds name cap s'.now s'.table
  unfolding sweep_expired release_each
  Step-Holds {s} {s'} (tick later same) h = subst (Holds name cap s'.now) (sym same) (
      Holds-mono name cap s.now s'.now s.table s.table
        (Shrinks-later name s.now s'.now s.table later) h.1 h)
  Step-Holds {s} {s'} (admit limits id rule intent amount purchase ttl which n e clock) h =
      subst (λ k. Holds name cap k s'.table) (sym clock)
        (Holds-admit limits id rule intent amount purchase s.now ttl s.table s'.table which n e h)
  Step-Holds {s} {s'} (commit_live id c live e clock) h =
      subst (λ k. Holds name cap k s'.table) (sym clock)
        (Holds-commit name id c cap s.now s.table s'.table live e h)
  Step-Holds {s} {s'} (release_one id e clock) h =
      subst (λ k. Holds name cap k s'.table) (sym clock)
        (Holds-released name id cap s.now s.table s'.table e h)
  Step-Holds {s} {s'} (sweep e clock) h =
      subst₂ (Holds name cap) (sym clock) (sym e)
        (Holds-release_each name cap s.now (expired_ids s.now s.table) s.table h)

  Reach-Holds :
      {s s' : Book}
      → Reach name text s s'
      → Holds name cap s.now s.table
      → Holds name cap s'.now s'.table
  Reach-Holds here h = h
  Reach-Holds (next r st) h = Step-Holds st (Reach-Holds r h)

-- From an empty ledger, after any operations in any order and any passing of time, the rule's
-- dollars of the last 24 hours stay within its daily limit. The amounts are not negative, every
-- rule of that name has the limit, and a credential is committed only while its reservation has
-- not expired.
pub Reach-within_day :
    (name : String) (text : List ℕ) (cap : ℕ) (start : ℕ) (s : Book)
    → limit_usd_minor text ≡ ok (pos cap)
    → Reach name text (record { now = start; table = [] }) s
    → per_day_usd_minor name s.now s.table ≤ℤ pos cap
unfolding per_day_usd_minor sum_where
Reach-within_day name text cap start s parsed r =
    (Reach-Holds name text (pos cap) parsed r (omega arith, tt)).0
