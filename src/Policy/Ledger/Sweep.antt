-- ===== src/Policy/Ledger/Sweep.antt =====
-- Sweeping the expired reservations (`sweepExpired` and `recoverExpired` of
-- packages/policy/src/ledger/reservations.ts) against the counters.
use steelyard_sdk.Base.{
  ℕ, ◌≡◌, refl, sym, ap, ◌∙◌, String, Bool, true, false, ◌&&◌, List, [], ◌∷◌, any, ltb,
  if◌then◌else◌, includes, str_eq_iff, arith, inl, inr, Bool-cases,
}
use mathlib.Core.Path.{subst}
use steelyard_sdk.Base.Int.{ℤ, ◌+ℤ◌}
use steelyard_sdk.Policy.Ledger.{
  Reservation, Table, is_pending, is_open, is_active, in_day, in_purchase, set_released,
  update_pending, expired_ids, release_each, sweep_expired, sum_where, per_day_usd_minor,
  per_purchase_usd_minor,
}
use steelyard_sdk.Policy.Ledger.Rows.{same_id, IsUnique}

abbrev is_expired : ℕ → Reservation → Bool
is_expired now r = is_pending r.status && ltb r.expires_at now

-- What the releases of `ids` make of one row.
abbrev released_by : List String → Reservation → Reservation
released_by ids r = if includes ids r.id && is_pending r.status then set_released r else r

abbrev release_rows : List String → Table → Table
release_rows ids [] = []
release_rows ids (r ∷ t) = released_by ids r ∷ release_rows ids t

released_by_nil : (t : Table) → release_rows [] t ≡ t
released_by_nil [] = refl
released_by_nil (r ∷ t) = ap (λ (s : Table). r ∷ s) (released_by_nil t)

released_by_cons :
    (id : String) (ids : List String) (r : Reservation)
    → released_by ids (if is_open id r then set_released r else r) ≡ released_by (id ∷ ids) r
released_by_cons id ids r = ground (arith, str_eq_iff r.id id, str_eq_iff id r.id)

release_rows_cons :
    (id : String) (ids : List String) (t : Table)
    → release_rows ids (update_pending set_released id t) ≡ release_rows (id ∷ ids) t
unfolding update_pending
release_rows_cons id ids [] = refl
release_rows_cons id ids (r ∷ t) = cc (released_by_cons id ids r, release_rows_cons id ids t)

-- The releases, one after the other, rewrite each row on its own.
release_each-rows : (ids : List String) (t : Table) → release_each ids t ≡ release_rows ids t
unfolding release_each
release_each-rows [] t = sym (released_by_nil t)
release_each-rows (id ∷ ids) t =
    release_each-rows ids (update_pending set_released id t) ∙ release_rows_cons id ids t

-- With unique ids the expired ids name expired rows only.
abbrev Names : ℕ → List String → Table → Type 0
Names now ids [] = Unit
Names now ids (r ∷ t) =
    ((includes ids r.id && is_pending r.status) ≡ is_expired now r) × Names now ids t

includes-expired_ids :
    (now : ℕ) (k : String) (t : Table)
    → any (same_id k) t ≡ false
    → includes (expired_ids now t) k ≡ false
unfolding expired_ids
includes-expired_ids now k [] h = refl
includes-expired_ids now k (r ∷ t) h = ground (arith, includes-expired_ids now k t)

Names-cons :
    (now : ℕ) (k : String) (ids : List String) (t : Table)
    → any (same_id k) t ≡ false
    → Names now ids t
    → Names now (k ∷ ids) t
Names-cons now k ids [] h n = tt
Names-cons now k ids (r ∷ t) h n = (
  ground (arith, str_eq_iff r.id k, str_eq_iff k r.id, n.0),
  Names-cons now k ids t (ground arith) n.1,
)

expired_ids-Names : (now : ℕ) (t : Table) → IsUnique t → Names now (expired_ids now t) t
unfolding expired_ids
expired_ids-Names now [] h = tt
expired_ids-Names now (r ∷ t) h = elim (Bool-cases (is_expired now r)) [
  | inl late ↦
      let first : expired_ids now (r ∷ t) ≡ r.id ∷ expired_ids now t = rw late in
      subst (λ ids. Names now ids (r ∷ t)) (sym first)
        (
          ground (arith, str_eq_iff r.id r.id),
          Names-cons now r.id (expired_ids now t) t h.0 (expired_ids-Names now t h.1),
        )
  | inr live ↦
      let rest : expired_ids now (r ∷ t) ≡ expired_ids now t = rw live in
      subst (λ ids. Names now ids (r ∷ t)) (sym rest)
        (ground (arith, includes-expired_ids now r.id t h.0), expired_ids-Names now t h.1)
]

abbrev set_if : Bool → Reservation → Reservation
set_if b r = if b then set_released r else r

released_active :
    (now : ℕ) (b : Bool) (r : Reservation)
    → b ≡ is_expired now r
    → is_active now (set_if b r) ≡ is_active now r
unfolding is_active
released_active now b r e = ground arith

-- A test that looks at the status only through `is_active`.
module _ (now : ℕ) (p : Reservation → Bool)
    (blind : (b : Bool) (r : Reservation) → b ≡ is_expired now r → p (set_if b r) ≡ p r) where
  sum_row :
      (b : Bool) (r : Reservation) (s' s : ℤ)
      → b ≡ is_expired now r
      → s' ≡ s
      → (if p (set_if b r) then (set_if b r).amount_usd_minor +ℤ s' else s')
        ≡ (if p r then r.amount_usd_minor +ℤ s else s)
  sum_row true r s' s e k = cc (blind true r e, k)
  sum_row false r s' s e k = cc k

  sum_where-release_rows :
      (ids : List String) (t : Table)
      → Names now ids t
      → sum_where p (release_rows ids t) ≡ sum_where p t
  unfolding sum_where
  sum_where-release_rows ids [] n = refl
  sum_where-release_rows ids (r ∷ t) n =
      sum_row (includes ids r.id && is_pending r.status) r (sum_where p (release_rows ids t))
        (sum_where p t) n.0 (sum_where-release_rows ids t n.1)

  sum_where-sweep_expired :
      (t : Table) → IsUnique t → sum_where p (sweep_expired now t).0 ≡ sum_where p t
  unfolding sweep_expired
  sum_where-sweep_expired t h =
      rw (release_each-rows (expired_ids now t) t)
        (sum_where-release_rows (expired_ids now t) t (expired_ids-Names now t h))

blind_day :
    (name : String) (now : ℕ) (b : Bool) (r : Reservation)
    → b ≡ is_expired now r
    → in_day name now (set_if b r) ≡ in_day name now r
blind_day name now true r e = cc (released_active now true r e)
blind_day name now false r e = refl

blind_purchase :
    (purchase : String) (now : ℕ) (b : Bool) (r : Reservation)
    → b ≡ is_expired now r
    → in_purchase purchase now (set_if b r) ≡ in_purchase purchase now r
blind_purchase purchase now true r e = cc (released_active now true r e)
blind_purchase purchase now false r e = refl

abbrev none_expired : ℕ → Table → Bool
none_expired now t = any (is_expired now) t

none_expired_rows :
    (now : ℕ) (ids : List String) (t : Table)
    → Names now ids t
    → any (is_expired now) (release_rows ids t) ≡ false
none_expired_rows now ids [] n = refl
none_expired_rows now ids (r ∷ t) n = ground (arith, n.0, none_expired_rows now ids t n.1)

-- In a table with unique ids, a sweep leaves no expired reservation pending, and changes no counter: what a rule has spent in
-- the last 24 hours and what a purchase has cost are the same before and after it.
pub sweep_expired-keeps_counters :
    (now : ℕ) (name purchase : String) (t : Table)
    → IsUnique t
    → let t' = (sweep_expired now t).0 in
      (any (λ (r : Reservation). is_pending r.status && ltb r.expires_at now) t' ≡ false)
      × (per_day_usd_minor name now t' ≡ per_day_usd_minor name now t)
      × (per_purchase_usd_minor purchase now t' ≡ per_purchase_usd_minor purchase now t)
unfolding per_day_usd_minor per_purchase_usd_minor sweep_expired
sweep_expired-keeps_counters now name purchase t h = (
  rw (release_each-rows (expired_ids now t) t)
      (none_expired_rows now (expired_ids now t) t (expired_ids-Names now t h)),
  sum_where-sweep_expired now (in_day name now) (blind_day name now) t h,
  sum_where-sweep_expired now (in_purchase purchase now) (blind_purchase purchase now) t h,
)
