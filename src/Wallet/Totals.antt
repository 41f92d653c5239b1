-- ===== src/Wallet/Totals.antt =====
-- The reservation while the merchant is at work (packages/buyer/src/wallet/index.ts).
use steelyard_sdk.Base.{
  ℕ, ◌≡◌, refl, sym, ap, ◌∙◌, ◌⊎◌, inl, inr, String, Bool, true, false, not, ◌||◌, Option, some,
  none, List, [], ◌∷◌, ◌++◌, str_eq, Result, ok, err, ◌>>◌, ◌+◌, Bool-cases, Result-cases, ltb,
}
use steelyard_sdk.Base.Maps.{lookup, Dict}
use steelyard_sdk.Vault.{
  SpendWindow, daily, weekly, monthly, SpendLimits, Receipt, ReservationState, pending, released,
  EventBody, release, is_active, replay_events,
}
use steelyard_sdk.Vault.Operations.{
  VaultError, File, row, adjust_amount, adjust_reservation, assert_within_limits, check_cap,
  check_window, append_if_active, active_reservation, release_reservation,
}
use steelyard_sdk.Vault.Settlement.{freed_row, lowered_row, refused, adjust-refused}
use steelyard_sdk.Wallet.{
  Thrown, vault_error, Call, works, fails, Merchant, returns, throws, totals, Ended, paid, threw,
  Reserved, reservation_released, and_then, totals_known, run_merchant,
}

abbrev pub tells_release : Result Thrown (Unit {0}) → Bool
tells_release (ok _) = false
tells_release (err e) = reservation_released e

abbrev pub is_working : Call → Bool
is_working (works _) = true
is_working fails = false

-- The merchant throws an error that says that the reservation is released only if it was told so; and
-- if the vault is reliable, no call of it fails.
abbrev pub Honest : (reliable told : Bool) → Merchant → Type 0
Honest reliable told (returns _ settling shadowing) =
    ((not reliable || is_working settling) ≡ true) × ((not reliable || is_working shadowing) ≡ true)
Honest reliable told (throws e cleanup) =
    ((not (reservation_released e) || told) ≡ true) × ((not reliable || is_working cleanup) ≡ true)
Honest reliable told (totals _ _ telling rest) =
    ((not reliable || is_working telling) ≡ true)
    × ((answer : Result Thrown (Unit {0}))
        → Honest reliable (told || tells_release answer) (rest answer))

-- The merchant returns the receipt after some answers.
pub data Returns (receipt : Receipt) : Merchant → Type 0 where
  at_once : (settling shadowing : Call) → Returns receipt (returns receipt settling shadowing)
  later :
      (final_total : ℕ) (currency : String) (telling : Call)
      (rest : Result Thrown (Unit {0}) → Merchant) (answer : Result Thrown (Unit {0}))
      → Returns receipt (rest answer)
      → Returns receipt (totals final_total currency telling rest)

module _ (normalize_currency : String → String) where
  -- while the merchant is at work the reservation is pending, or it has been told that it is released
  abbrev pub Open : (id : String) (told : Bool) → File → Type 0
  Open id told file =
      (r : ReservationState) × (lookup id (replay_events normalize_currency file) ≡ some r)
      × (((r.status ≡ pending) × (told ≡ false)) ⊎ ((r.status ≡ released) × (told ≡ true)))

  pub live :
      (id : String) (at : ℕ) (body : EventBody) (file : File) (r : ReservationState)
      → lookup id (replay_events normalize_currency file) ≡ some r
      → r.status ≡ pending
      → append_if_active normalize_currency id at body file ≡ (ok tt, file ++ (row at id body ∷ []))
  unfolding append_if_active active_reservation
  live id at body file r found st = rw (found, st, append_if_active, active_reservation) refl

  abbrev tells_true : Result VaultError (Unit {0}) → Bool
  tells_true (ok _) = true
  tells_true (err e) = reservation_released (vault_error e)

  cap-tells :
      (current amount : ℕ) (currency : String) (cap : Option ℕ)
      → tells_true (check_cap normalize_currency current amount currency true cap) ≡ true
  cap-tells current amount currency none = refl
  cap-tells current amount currency (some cap) = elim (Bool-cases (ltb cap (current + amount))) [
    | inl over ↦ rw over refl
    | inr under ↦ rw under refl
  ]

  window-tells :
      (m : Dict ReservationState) (amount : ℕ) (currency : String) (at : ℕ) (limits : SpendLimits)
      (exclude : Option String) (window : SpendWindow)
      → tells_true (check_window normalize_currency m amount currency at limits exclude true window)
        ≡ true
  unfolding check_window
  window-tells m amount currency at limits exclude window = cap-tells _ amount currency _

  bind-tells :
      (a b : Result VaultError (Unit {0}))
      → tells_true a ≡ true
      → tells_true b ≡ true
      → tells_true (a >> b) ≡ true
  bind-tells (ok _) b ha hb = hb
  bind-tells (err e) b ha hb = ha

  limits-tell :
      (m : Dict ReservationState) (amount : ℕ) (currency : String) (at : ℕ) (limits : SpendLimits)
      (exclude : Option String)
      → tells_true
          (assert_within_limits normalize_currency m amount currency at limits exclude true)
        ≡ true
  unfolding assert_within_limits
  limits-tell m amount currency at limits exclude =
      let one = window-tells m amount currency at limits exclude in
      let check = λ (w : SpendWindow).
        check_window normalize_currency m amount currency at limits exclude true w in
      bind-tells (check daily) (check weekly >> check monthly) (one daily)
        (bind-tells (check weekly) (check monthly) (one weekly) (one monthly))

  abbrev tells : Result VaultError (Unit {0}) → Bool
  tells (ok _) = false
  tells (err e) = reservation_released (vault_error e)

  -- what adjusting a pending reservation leaves
  adjusted :
      (id : String) (total at : ℕ) (file : File) (r : ReservationState)
      → lookup id (replay_events normalize_currency file) ≡ some r
      → r.status ≡ pending
      → Open id
          (tells (adjust_reservation normalize_currency id total at r file).0)
          (adjust_reservation normalize_currency id total at r file).1
  unfolding adjust_reservation
  adjusted id total at file r found st = elim (Bool-cases (ltb r.amount total)) [
    | inl over ↦
        rw over
          (_, freed_row normalize_currency id _ at file r found (ap is_active st), inr (refl, refl))
    | inr under ↦
        let limits =
          assert_within_limits normalize_currency (replay_events normalize_currency file) total
            r.currency at r.limits (some id) true in
        elim (Result-cases limits) [
          | inl (u, h) ↦
              rw (under, h)
                (
                  _,
                  lowered_row normalize_currency id total at file r found (ap is_active st),
                  inl (st, refl),
                )
          | inr (x, h) ↦
              let told : reservation_released (vault_error x) ≡ true =
                sym (ap tells_true h)
                ∙ limits-tell (replay_events normalize_currency file) total r.currency at r.limits
                    (some id) in
              rw (under, h)
                (
                  _,
                  freed_row normalize_currency id _ at file r found (ap is_active st),
                  inr (refl, told),
                )
        ]
  ]

  adjust_pending :
      (id : String) (total at : ℕ) (file : File) (r : ReservationState)
      → lookup id (replay_events normalize_currency file) ≡ some r
      → r.status ≡ pending
      → adjust_amount normalize_currency id total at file
        ≡ adjust_reservation normalize_currency id total at r file
  unfolding adjust_amount active_reservation
  adjust_pending id total at file r found st =
      rw (found, st, adjust_amount, active_reservation) refl

  passed :
      (id : String) (p : Result VaultError (Unit {0}) × File)
      → Open id (tells p.0) p.1
      → Open id (tells_release (and_then p (λ u. ok u)).0) (and_then p (λ u. ok u)).1
  passed id (ok u, file) o = o
  passed id (err e, file) o = o

module _ (split_dots : String → List String) (normalize_domain normalize_currency : String → String)
    (error_summary : Thrown → String) where
  abbrev told_by : Reserved → ℕ → String → Call → File → Result Thrown (Unit {0}) × File
  told_by = totals_known split_dots normalize_domain normalize_currency error_summary

  totals_pending :
      (r : Reserved) (total : ℕ) (currency : String) (c : Call) (file : File) (s : ReservationState)
      → lookup r.id (replay_events normalize_currency file) ≡ some s
      → s.status ≡ pending
      → Open normalize_currency r.id
          (tells_release (told_by r total currency c file).0)
          (told_by r total currency c file).1
  unfolding totals_known release_reservation
  totals_pending r total currency fails file s found st =
      elim (Bool-cases (str_eq (normalize_currency currency) r.currency)) [
        | inl same ↦ rw same (s, found, inl (st, refl))
        | inr other ↦ rw other (s, found, inl (st, refl))
      ]
  totals_pending r total currency (works at) file s found st =
      elim (Bool-cases (str_eq (normalize_currency currency) r.currency)) [
        | inl same ↦
            rw (same, adjust_pending normalize_currency r.id total at file s found st)
              (passed normalize_currency r.id
                (adjust_reservation normalize_currency r.id total at s file)
                (adjusted normalize_currency r.id total at file s found st))
        | inr other ↦
            rw
              (other, live normalize_currency r.id at (release "currency_mismatch") file s found st)
              (
                _,
                freed_row normalize_currency r.id _ at file s found (ap is_active st),
                inr (refl, refl),
              )
      ]

  totals_released :
      (r : Reserved) (total : ℕ) (currency : String) (c : Call) (file : File) (s : ReservationState)
      → lookup r.id (replay_events normalize_currency file) ≡ some s
      → s.status ≡ released
      → (told_by r total currency c file).1 ≡ file
  unfolding totals_known release_reservation
  totals_released r total currency fails file s found st =
      elim (Bool-cases (str_eq (normalize_currency currency) r.currency)) [
        | inl same ↦ rw same refl
        | inr other ↦ rw other refl
      ]
  totals_released r total currency (works at) file s found st =
      elim (Bool-cases (str_eq (normalize_currency currency) r.currency)) [
        | inl same ↦
            rw
              (same, adjust-refused normalize_currency r.id total at file s found (ap is_active st))
              refl
        | inr other ↦
            rw
              (
                other,
                refused normalize_currency r.id at (release "currency_mismatch") file s found
                    (ap is_active st),
              )
              refl
      ]

  totals-Open :
      (r : Reserved) (total : ℕ) (currency : String) (c : Call) (file : File) (told : Bool)
      → Open normalize_currency r.id told file
      → Open normalize_currency r.id
          (told || tells_release (told_by r total currency c file).0)
          (told_by r total currency c file).1
  totals-Open r total currency c file told (s, found, inl (st, e)) =
      rw e (totals_pending r total currency c file s found st)
  totals-Open r total currency c file told (s, found, inr (st, e)) =
      rw (e, totals_released r total currency c file s found st) (s, found, inr (st, refl))

  abbrev pub Fits : (reliable : Bool) → Merchant → Reserved → Ended × File → Type 0
  Fits reliable m r (paid receipt settling shadowing, file) =
      (told : Bool) × ((not reliable || is_working settling) ≡ true)
      × ((not reliable || is_working shadowing) ≡ true)
      × Returns receipt m
      × Open normalize_currency r.id told file
  Fits reliable m r (threw e cleanup, file) =
      (told : Bool) × ((not (reservation_released e) || told) ≡ true)
      × ((not reliable || is_working cleanup) ≡ true)
      × Open normalize_currency r.id told file

  Fits-later :
      (r : Reserved) (reliable : Bool) (total : ℕ) (currency : String) (c : Call)
      (rest : Result Thrown (Unit {0}) → Merchant) (answer : Result Thrown (Unit {0}))
      (p : Ended × File)
      → Fits reliable (rest answer) r p
      → Fits reliable (totals total currency c rest) r p
  Fits-later r reliable total currency c rest answer (paid receipt a b, file)
        (told, x, y, back, o) =
      (told, x, y, later total currency c rest answer back, o)
  Fits-later r reliable total currency c rest answer (threw e a, file) f = f

  pub run_merchant-Fits :
      (r : Reserved) (reliable told : Bool) (m : Merchant) (file : File)
      → Honest reliable told m
      → Open normalize_currency r.id told file
      → Fits reliable m r
          (run_merchant split_dots normalize_domain normalize_currency error_summary r m file)
  unfolding run_merchant
  run_merchant-Fits r reliable told (returns receipt x y) file (a, b) o =
      (told, a, b, at_once x y, o)
  run_merchant-Fits r reliable told (throws _ _) file (t, c) o = (told, t, c, o)
  run_merchant-Fits r reliable told (totals total currency c rest) file (_, t) o =
      let answer = told_by r total currency c file in
      Fits-later r reliable total currency c rest answer.0 _ (
        run_merchant-Fits r reliable (told || tells_release answer.0) (rest answer.0) answer.1
          (t answer.0) (totals-Open r total currency c file told o))
