-- ===== src/Policy/Ledger/Lifecycle.antt =====
-- A reservation is resolved once (packages/policy/src/ledger/reservations.ts).
use steelyard_sdk.Base.{
  ◌≡◌, refl, ◌≢◌, String, true, false, some, [], ◌∷◌, ◌++◌, any, str_eq, str_eq_iff, ok, err, arith,
  inl, inr, Bool-cases,
}
use steelyard_sdk.Policy.Ledger.{
  Reservation, Table, not_pending, is_pending, is_open, set_committed, set_released, update_pending,
  insert_row, commit, release, get,
}
use steelyard_sdk.Policy.Ledger.Rows.{
  same_id, IsUnique, IsUpdate, set_committed-IsUpdate, set_released-IsUpdate,
  IsUnique-update_pending, not_open-update_pending, get-update_pending_ne, get-update_pending,
}

-- The table after one row with the key has been rewritten.
abbrev pub Resolves : (Reservation → Reservation) → String → Table → Table → Type 0
Resolves f id t t' =
    ((r : Reservation) × (get id t ≡ some r)
      × (is_pending r.status ≡ true)
      × (get id t' ≡ some (f r)))
    × ((j : String) → j ≢ id → get j t' ≡ get j t)
    × (commit id "" t' ≡ err not_pending)
    × (release id t' ≡ err not_pending)
    × IsUnique t'

pub str_ne : (a b : String) → b ≢ a → str_eq a b ≡ false
str_ne a b h = elim (Bool-cases (str_eq a b)) [
  | inl e ↦ absurd (h (ground (arith, str_eq_iff a b)))
  | inr e ↦ e
]

resolve :
    (f : Reservation → Reservation) (u : IsUpdate f) (id : String) (t : Table)
    → IsUnique t
    → any (is_open id) t ≡ true
    → Resolves f id t (update_pending f id t)
unfolding commit release
resolve f u id t h o = (
  get-update_pending f u id t h o,
  λ j ne. get-update_pending_ne u id j t (str_ne id j ne),
  rw (not_open-update_pending u id t),
  rw (not_open-update_pending u id t),
  IsUnique-update_pending u id t h,
)

-- In a table with unique ids, a commit that succeeds finds the pending row of its id, makes it committed with the credential,
-- leaves every other row alone, and no later commit or release of that id succeeds.
pub commit-Resolves :
    (id credential_id : String) (t t' : Table)
    → IsUnique t
    → commit id credential_id t ≡ ok t'
    → Resolves (set_committed credential_id) id t t'
unfolding commit
commit-Resolves id c t t' h e = elim (Bool-cases (any (is_open id) t)) [
  | inl o ↦
      let same : update_pending (set_committed c) id t ≡ t' = ground arith in
      rw (← same) (resolve (set_committed c) (set_committed-IsUpdate c) id t h o)
  | inr shut ↦ ground arith
]

-- In a table with unique ids, a release that succeeds finds the pending row of its id, makes it
-- released, leaves every other row alone, and no later commit or release of that id succeeds.
pub release-Resolves :
    (id : String) (t t' : Table) → IsUnique t → release id t ≡ ok t' → Resolves set_released id t t'
unfolding release
release-Resolves id t t' h e = elim (Bool-cases (any (is_open id) t)) [
  | inl o ↦
      let same : update_pending set_released id t ≡ t' = ground arith in
      rw (← same) (resolve set_released set_released-IsUpdate id t h o)
  | inr shut ↦ ground arith
]

any_id-append :
    (id : String) (t : Table) (r : Reservation)
    → any (same_id id) t ≡ false
    → str_eq r.id id ≡ false
    → any (same_id id) (t ++ r ∷ []) ≡ false
any_id-append id [] r h k = rw k
any_id-append id (s ∷ t) r h k = ground (arith, any_id-append id t r)

IsUnique-append :
    (t : Table) (r : Reservation)
    → IsUnique t
    → any (same_id r.id) t ≡ false
    → IsUnique (t ++ r ∷ [])
IsUnique-append [] r h k = (refl, tt)
IsUnique-append (s ∷ t) r h k = (
  any_id-append s.id t r h.0 (ground (arith, str_eq_iff s.id r.id, str_eq_iff r.id s.id)),
  IsUnique-append t r h.1 (ground arith),
)

-- The insert appends its row, and keeps the primary key unique.
pub insert_row_lem :
    (r : Reservation) (t t' : Table)
    → insert_row r t ≡ ok t'
    → (t' ≡ t ++ r ∷ []) × (any (same_id r.id) t ≡ false)
unfolding insert_row
insert_row_lem r t t' e = ground arith

pub insert_row-IsUnique :
    (r : Reservation) (t t' : Table) → IsUnique t → insert_row r t ≡ ok t' → IsUnique t'
insert_row-IsUnique r t t' h e =
    let (same, fresh) = insert_row_lem r t t' e in rw same (IsUnique-append t r h fresh)
