-- ===== src/Policy/Ledger/Rows.antt =====
-- Lemmas on the rows of the reservation table: keys, sums over tests, and how the operations of
-- packages/policy/src/ledger/reservations.ts rewrite rows.
use steelyard_sdk.Base.{
  ◌≡◌, refl, sym, ap, ◌∙◌, String, Bool, true, false, some, [], ◌∷◌, ◌++◌, any, All, if◌then◌else◌,
  str_eq, str_eq_iff, arith, inl, inr, Bool-cases,
}
use steelyard_sdk.Base.Int.{ℤ, pos, pos_part, neg_part, ◌+ℤ◌, ◌≤ℤ◌, +ℤ_assoc, int_laws}
use steelyard_sdk.Policy.Ledger.{
  Reservation, Table, is_pending, is_open, update_pending, set_committed, set_released, get,
  sum_where,
}

abbrev pub same_id : String → Reservation → Bool
same_id id r = str_eq r.id id

-- No two rows have the same id: the table's primary key.
abbrev pub IsUnique : Table → Type 0
IsUnique [] = Unit
IsUnique (r ∷ t) = (any (same_id r.id) t ≡ false) × IsUnique t

-- A rewrite of a row that keeps its key and its amount.
pub record IsUpdate (f : Reservation → Reservation) : Type 0 where
  pub id : (r : Reservation) → (f r).id ≡ r.id
  pub amount : (r : Reservation) → (f r).amount_usd_minor ≡ r.amount_usd_minor
  pub closes : (r : Reservation) → is_pending (f r).status ≡ false

pub set_committed-IsUpdate : (c : String) → IsUpdate (set_committed c)
set_committed-IsUpdate c = record { id = λ r. refl; amount = λ r. refl; closes = λ r. refl }

pub set_released-IsUpdate : IsUpdate set_released
set_released-IsUpdate = record { id = λ r. refl; amount = λ r. refl; closes = λ r. refl }

module _ {f : Reservation → Reservation} (u : IsUpdate f) where
  pub any_id-update_pending :
      (id j : String) (t : Table) → any (same_id j) (update_pending f id t) ≡ any (same_id j) t
  unfolding update_pending
  any_id-update_pending id j [] = refl
  any_id-update_pending id j (r ∷ t) = ground (arith, u.id r, any_id-update_pending id j t)

  pub IsUnique-update_pending :
      (id : String) (t : Table) → IsUnique t → IsUnique (update_pending f id t)
  unfolding update_pending
  IsUnique-update_pending id [] h = tt
  IsUnique-update_pending id (r ∷ t) h =
      ground (arith, u.id r, any_id-update_pending id r.id t, IsUnique-update_pending id t h.1)

  -- After the update no pending row has the id.
  pub not_open-update_pending :
      (id : String) (t : Table) → any (is_open id) (update_pending f id t) ≡ false
  unfolding update_pending
  not_open-update_pending id [] = refl
  not_open-update_pending id (r ∷ t) =
      ground (arith, u.id r, u.closes r, not_open-update_pending id t)

  pub get-update_pending_ne :
      (id j : String) (t : Table) → str_eq id j ≡ false → get j (update_pending f id t) ≡ get j t
  unfolding update_pending get
  get-update_pending_ne id j [] h = refl
  get-update_pending_ne id j (r ∷ t) h = ground (
    arith,
    u.id r,
    str_eq_iff r.id id,
    str_eq_iff r.id j,
    str_eq_iff id j,
    get-update_pending_ne id j t h,
  )

get-absent : (id : String) (t : Table) → any (same_id id) t ≡ false → any (is_open id) t ≡ false
get-absent id [] h = refl
get-absent id (r ∷ t) h = ground (arith, get-absent id t)

-- A pending row with the id is the one that `get` finds, and the update rewrites that one.
pub get-update_pending :
    (f : Reservation → Reservation) (u : IsUpdate f) (id : String) (t : Table)
    → IsUnique t
    → any (is_open id) t ≡ true
    → (r : Reservation) × (get id t ≡ some r)
      × (is_pending r.status ≡ true)
      × (get id (update_pending f id t) ≡ some (f r))
unfolding get update_pending
get-update_pending f u id [] h o = cc
get-update_pending f u id (r ∷ t) h o = elim (Bool-cases (str_eq r.id id)) [
  | inl same ↦ (
    r,
    rw same,
    ground (arith, str_eq_iff r.id id, get-absent id t),
    ground (arith, str_eq_iff r.id id, get-absent id t, u.id r),
  )
  | inr other ↦
      let (s, found, open_row, updated) = get-update_pending f u id t h.1 (ground arith) in
      (s, rw other found, open_row, rw other (rw other updated))
]

-- Sums.

pub sum_where-append :
    (p : Reservation → Bool) (t : Table) (r : Reservation)
    → sum_where p (t ++ r ∷ []) ≡ sum_where p t +ℤ (if p r then r.amount_usd_minor else pos 0)
unfolding sum_where
sum_where-append p [] r = elim (Bool-cases (p r)) [
  | inl counted ↦ rw counted (omega int_laws)
  | inr skipped ↦ rw skipped (omega int_laws)
]
sum_where-append p (s ∷ t) r = elim (Bool-cases (p s)) [
  | inl counted ↦ rw counted (
      ap (λ (z : ℤ). s.amount_usd_minor +ℤ z) (sum_where-append p t r)
      ∙ sym
          (+ℤ_assoc s.amount_usd_minor (sum_where p t) (if p r then r.amount_usd_minor else pos 0)))
  | inr skipped ↦ rw skipped (sum_where-append p t r)
]

abbrev pub NonNeg : Reservation → Type 0
NonNeg r = pos 0 ≤ℤ r.amount_usd_minor

-- The first table has the amounts of the second, and selects no row that the second does not.
abbrev pub Shrinks : (p' p : Reservation → Bool) → Table → Table → Type 0
Shrinks p' p [] [] = Unit
Shrinks p' p [] (r ∷ t) = ⊥
Shrinks p' p (r' ∷ t') [] = ⊥
Shrinks p' p (r' ∷ t') (r ∷ t) =
    (r'.amount_usd_minor ≡ r.amount_usd_minor) × (p' r' ≡ true → p r ≡ true) × Shrinks p' p t' t

sum_step :
    (b' b : Bool) (x' x s' s : ℤ)
    → x' ≡ x
    → (b' ≡ true → b ≡ true)
    → pos 0 ≤ℤ x
    → s' ≤ℤ s
    → (if b' then x' +ℤ s' else s') ≤ℤ (if b then x +ℤ s else s)
sum_step true true x' x s' s e f n h = omega (int_laws, ap pos_part e, ap neg_part e)
sum_step true false x' x s' s e f n h = cc (f refl)
sum_step false true x' x s' s e f n h = omega (int_laws, ap pos_part e, ap neg_part e)
sum_step false false x' x s' s e f n h = h

pub sum_where_mono :
    (p' p : Reservation → Bool) (t' t : Table)
    → Shrinks p' p t' t
    → All NonNeg t
    → sum_where p' t' ≤ℤ sum_where p t
unfolding sum_where
sum_where_mono p' p [] [] k n = omega arith
sum_where_mono p' p [] (r ∷ t) k n = absurd k
sum_where_mono p' p (r' ∷ t') [] k n = absurd k
sum_where_mono p' p (r' ∷ t') (r ∷ t) k n =
    sum_step (p' r') (p r) r'.amount_usd_minor r.amount_usd_minor (sum_where p' t') (sum_where p t)
      k.0 k.1 n.0 (sum_where_mono p' p t' t k.2 n.1)

pub NonNeg-update_pending :
    {f : Reservation → Reservation} (u : IsUpdate f) (id : String) (t : Table)
    → All NonNeg t
    → All NonNeg (update_pending f id t)
unfolding update_pending
NonNeg-update_pending u id [] n = tt
NonNeg-update_pending u id (r ∷ t) n =
    (ground (arith, u.amount r, n.0), NonNeg-update_pending u id t n.1)
