-- ===== src/Vault/Settlement.antt =====
-- What settling, releasing and adjusting a reservation do (packages/buyer/src/vault/ledger.ts).
use steelyard_sdk.Base.{
  ℕ, ◌≤◌, ◌≡◌, refl, String, true, false, ◌⊎◌, inl, inr, some, none, [], ◌∷◌, ◌++◌, ltb, Result, ok,
  err, arith, Bool-cases, Option-cases, Result-cases, ◌∙◌, ap,
}
use steelyard_sdk.Base.Maps.{lookup}
use steelyard_sdk.Vault.{
  Receipt, LedgerStatus, pending, pending_escalated, released, captured, adjust, release, settle,
  EventBody, ReservationState, is_active, update, replay_events,
}
use steelyard_sdk.Vault.Operations.{
  VaultError, not_active, File, row, active_reservation, append_if_active, settle_reservation,
  release_reservation, adjust_amount, adjust_reservation, assert_within_limits,
}
use steelyard_sdk.Vault.Resolution.{lookup-row, active_ok, appended}

-- pending, escalated or not
abbrev pub IsOpen : LedgerStatus → Type 0
IsOpen pending = Unit
IsOpen pending_escalated = Unit
IsOpen captured = ⊥
IsOpen released = ⊥

active-IsOpen : (s : LedgerStatus) → is_active s ≡ true → IsOpen s
active-IsOpen pending h = tt
active-IsOpen pending_escalated h = tt
active-IsOpen captured h = absurd (cc h)
active-IsOpen released h = absurd (cc h)

inactive-IsOpen : (s : LedgerStatus) → is_active s ≡ false → ¬ IsOpen s
inactive-IsOpen pending h = absurd (cc h)
inactive-IsOpen pending_escalated h = absurd (cc h)
inactive-IsOpen captured h = λ x. x
inactive-IsOpen released h = λ x. x

module _ (normalize_currency : String → String) where
  pub refused :
      (id : String) (at : ℕ) (body : EventBody) (file : File) (r : ReservationState)
      → lookup id (replay_events normalize_currency file) ≡ some r
      → is_active r.status ≡ false
      → append_if_active normalize_currency id at body file ≡ (err (not_active id), file)
  unfolding append_if_active active_reservation
  refused id at body file r found h = rw (found, h, append_if_active, active_reservation) refl

  pub adjust-refused :
      (id : String) (total at : ℕ) (file : File) (r : ReservationState)
      → lookup id (replay_events normalize_currency file) ≡ some r
      → is_active r.status ≡ false
      → adjust_amount normalize_currency id total at file ≡ (err (not_active id), file)
  unfolding adjust_amount active_reservation
  adjust-refused id total at file r found h = rw (found, h, adjust_amount, active_reservation) refl

  pub settled :
      (id : String) (at : ℕ) (receipt : Receipt) (file : File) (r : ReservationState)
      → lookup id (replay_events normalize_currency file) ≡ some r
      → is_active r.status ≡ true
      → (r' : ReservationState) × (lookup id
            (replay_events normalize_currency (file ++ (row at id (settle receipt false) ∷ [])))
          ≡ some r')
        × (r'.status ≡ captured)
        × (r'.amount ≡ receipt.charged_amount)
        × (r'.currency ≡ normalize_currency receipt.charged_currency)
  unfolding update
  settled id at receipt file r found live = (
    update normalize_currency at (settle receipt false) r,
    lookup-row normalize_currency id at (settle receipt false) file r refl found,
    rw live refl,
    rw live refl,
    rw live refl,
  )

  -- If settling succeeds, the replayed reservation is captured with the amount and the normalized currency of
  -- the receipt; and from then on settling it again, releasing it or adjusting it throws
  -- and leaves the file as it is.
  pub settle_reservation-once :
      (id : String) (receipt : Receipt) (at : ℕ) (file file' : File)
      → settle_reservation normalize_currency id receipt at file ≡ (ok tt, file')
      → ((r' : ReservationState) × (lookup id (replay_events normalize_currency file') ≡ some r')
          × (r'.status ≡ captured)
          × (r'.amount ≡ receipt.charged_amount)
          × (r'.currency ≡ normalize_currency receipt.charged_currency))
        × ((again : Receipt) (later : ℕ)
            → settle_reservation normalize_currency id again later file'
              ≡ (err (not_active id), file'))
        × ((why : String) (later : ℕ)
            → release_reservation normalize_currency id why later file'
              ≡ (err (not_active id), file'))
        × ((total later : ℕ)
            → adjust_amount normalize_currency id total later file' ≡ (err (not_active id), file'))
  unfolding settle_reservation release_reservation
  settle_reservation-once id receipt at file file' e =
      let (r, found, live, same) =
        appended normalize_currency id at (settle receipt false) file file' e in
      let (r', found1, st, am, cu) = settled id at receipt file r found live in
      let found' : lookup id (replay_events normalize_currency file') ≡ some r' =
        ap (λ f. lookup id (replay_events normalize_currency f)) same ∙ found1 in
      let over : is_active r'.status ≡ false = ap is_active st in
      (
        (r', found', st, am, cu),
        (λ again later. refused id later (settle again false) file' r' found' over),
        (λ why later. refused id later (release why) file' r' found' over),
        (λ total later. adjust-refused id total later file' r' found' over),
      )

  -- What adjusting has done: the final total is no more than was reserved and is the new amount, or the
  -- call threw and the reservation is released.
  pub data Adjusted (id : String) (total at : ℕ) (r : ReservationState) (file' : File)
      : Result VaultError (Unit {0}) → Type 0 where
    lowered :
        total ≤ r.amount
        → lookup id (replay_events normalize_currency file') ≡ some (record r { amount = total })
        → Adjusted id total at r file' (ok tt)
    freed :
        (e : VaultError)
        → lookup id (replay_events normalize_currency file')
          ≡ some (record r { status = released; released_at = some at })
        → Adjusted id total at r file' (err e)

  pub freed_row :
      (id why : String) (at : ℕ) (file : File) (r : ReservationState)
      → lookup id (replay_events normalize_currency file) ≡ some r
      → is_active r.status ≡ true
      → lookup id (replay_events normalize_currency (file ++ (row at id (release why) ∷ [])))
        ≡ some (record r { status = released; released_at = some at })
  unfolding update
  freed_row id why at file r found live =
      lookup-row normalize_currency id at (release why) file r refl found ∙ rw live refl

  pub lowered_row :
      (id : String) (total at : ℕ) (file : File) (r : ReservationState)
      → lookup id (replay_events normalize_currency file) ≡ some r
      → is_active r.status ≡ true
      → lookup id (replay_events normalize_currency (file ++ (row at id (adjust total) ∷ [])))
        ≡ some (record r { amount = total })
  unfolding update
  lowered_row id total at file r found live =
      lookup-row normalize_currency id at (adjust total) file r refl found ∙ rw live refl

  adjust-live :
      (id : String) (total at : ℕ) (file : File) (r : ReservationState)
      → lookup id (replay_events normalize_currency file) ≡ some r
      → is_active r.status ≡ true
      → Adjusted id total at r
          (adjust_reservation normalize_currency id total at r file).1
          (adjust_reservation normalize_currency id total at r file).0
  unfolding adjust_reservation
  adjust-live id total at file r found live = elim (Bool-cases (ltb r.amount total)) [
    | inl over ↦ rw over (freed _ (freed_row id _ at file r found live))
    | inr under ↦
        elim (Result-cases (
          assert_within_limits normalize_currency (replay_events normalize_currency file) total
            r.currency at r.limits (some id) true)) [
              | inl (u, h) ↦
                  rw (under, h) (lowered (ground arith) (lowered_row id total at file r found live))
              | inr (x, h) ↦ rw (under, h) (freed x (freed_row id _ at file r found live))
            ]
  ]

  not_active_ok :
      (id : String) (file : File) (x : VaultError)
      → active_reservation normalize_currency (replay_events normalize_currency file) id ≡ err x
      → (x ≡ not_active id)
        × ((lookup id (replay_events normalize_currency file) ≡ none)
            ⊎ ((r : ReservationState) × (lookup id (replay_events normalize_currency file) ≡ some r)
                × (¬ IsOpen r.status)))
  unfolding active_reservation
  not_active_ok id file x h =
      elim (Option-cases (lookup id (replay_events normalize_currency file))) [
        | inl missing ↦ (ground arith, inl missing)
        | inr (r, found) ↦ elim (Bool-cases (is_active r.status)) [
          | inl live ↦ absurd (ground arith)
          | inr over ↦ (ground arith, inr (r, found, inactive-IsOpen r.status over))
        ]
      ]

  -- Adjusting an active reservation never raises its amount: it succeeds only with a final total that is at
  -- most what was reserved, which becomes the amount; if it throws, the reservation
  -- is released. An id with no reservation, or with one that is not active, throws and writes nothing.
  pub adjust_amount-Adjusted :
      (id : String) (total at : ℕ) (file : File)
      → ((r : ReservationState) × (lookup id (replay_events normalize_currency file) ≡ some r)
          × IsOpen r.status
          × Adjusted id total at r
              (adjust_amount normalize_currency id total at file).1
              (adjust_amount normalize_currency id total at file).0)
        ⊎ (((lookup id (replay_events normalize_currency file) ≡ none)
              ⊎ ((r : ReservationState) × (lookup id (replay_events normalize_currency file)
                    ≡ some r)
                  × (¬ IsOpen r.status)))
            × (adjust_amount normalize_currency id total at file ≡ (err (not_active id), file)))
  unfolding adjust_amount
  adjust_amount-Adjusted id total at file =
      elim (Result-cases
        (active_reservation normalize_currency (replay_events normalize_currency file) id)) [
          | inr (x, h) ↦
              let (which, why) = not_active_ok id file x h in
              inr (why, rw (h, adjust_amount) (ap (λ y. (err y, file)) which))
          | inl (r, h) ↦
              let (found, live) = active_ok normalize_currency id _ r h in
              inl (
                r,
                found,
                active-IsOpen r.status live,
                rw (h, adjust_amount) (adjust-live id total at file r found live),
              )
        ]
