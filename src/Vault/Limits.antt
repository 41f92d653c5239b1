-- ===== src/Vault/Limits.antt =====
-- The spending caps of the vault ledger (packages/buyer/src/vault/ledger.ts).
use steelyard_sdk.Base.{
  ℕ, ◌+◌, ◌*◌, ◌≤◌, ◌<◌, ◌≡◌, refl, String, Bool, false, Option, some, none, [], ◌∷◌, ◌++◌, str_eq,
  ok, err, arith, inl, inr, Result-cases, ap, sym, ◌∙◌,
}
use mathlib.Core.Path.{subst}
use steelyard_sdk.Base.Maps.{Dict, lookup, insert}
use steelyard_sdk.Vault.{
  SpendWindow, daily, weekly, monthly, SpendLimits, PurchaseIntent, LedgerStatus, pending,
  pending_escalated, captured, reserve, ReservationState, reserved_state, apply_body, apply_event,
  replay_events,
}
use steelyard_sdk.Vault.Operations.{
  VaultError, File, caps, row, counted, amount_in, total, usage_for_window, check_window,
  assert_within_limits, reserve_amount,
}
use steelyard_sdk.Vault.Resolution.{replay-row}

module _ (normalize_currency : String → String) where
  total-insert :
      (status : LedgerStatus) (test : ReservationState → Bool) (id : String) (r : ReservationState)
      (m : Dict ReservationState)
      → lookup id m ≡ none
      → total normalize_currency status test (insert id r m)
        ≡ total normalize_currency status test m + amount_in normalize_currency status test r
  unfolding total lookup insert
  total-insert status test id r [] fresh = omega arith
  total-insert status test id r ((k, x) ∷ m) fresh =
      let other : str_eq k id ≡ false = ground arith in
      let rest = total-insert status test id r m (ground arith) in rw other (omega (arith, rest))

  new_amount :
      (test : ReservationState → Bool) (at : ℕ) (id : String) (intent : PurchaseIntent) (amount : ℕ)
      (currency key : String) (limits : SpendLimits)
      → amount_in normalize_currency pending test
          (reserved_state at id intent amount currency key limits)
        ≤ amount
  unfolding amount_in reserved_state
  new_amount test at id intent amount currency key limits = ground arith

  new_other :
      (test : ReservationState → Bool) (at : ℕ) (id : String) (intent : PurchaseIntent) (amount : ℕ)
      (currency key : String) (limits : SpendLimits)
      → (amount_in normalize_currency pending_escalated test
            (reserved_state at id intent amount currency key limits)
          ≡ 0)
        × (amount_in normalize_currency captured test
              (reserved_state at id intent amount currency key limits)
            ≡ 0)
  unfolding amount_in reserved_state
  new_other test at id intent amount currency key limits = (ground arith, ground arith)

  -- what is reserved, escalated and spent in a window
  abbrev pub committed : Dict ReservationState → SpendWindow → String → ℕ → Option String → ℕ
  committed m window currency at exclude =
      let test = counted normalize_currency window currency at exclude in
      total normalize_currency pending test m
      + total normalize_currency pending_escalated test m
      + total normalize_currency captured test m

  window_ok :
      (m : Dict ReservationState) (amount : ℕ) (currency : String) (at : ℕ) (limits : SpendLimits)
      (exclude : Option String) (releases : Bool) (window : SpendWindow) (cap : ℕ)
      → check_window normalize_currency m amount currency at limits exclude releases window ≡ ok tt
      → lookup currency (caps window limits) ≡ some cap
      → committed m window currency at exclude
          + total normalize_currency pending_escalated
              (counted normalize_currency window currency at exclude)
              m
          + amount
        ≤ cap
  unfolding check_window usage_for_window
  window_ok m amount currency at limits exclude releases window cap e h = ground arith

  all_windows :
      (m : Dict ReservationState) (amount : ℕ) (currency : String) (at : ℕ) (limits : SpendLimits)
      (exclude : Option String) (releases : Bool)
      → assert_within_limits normalize_currency m amount currency at limits exclude releases ≡ ok tt
      → (window : SpendWindow)
      → check_window normalize_currency m amount currency at limits exclude releases window ≡ ok tt
  unfolding assert_within_limits
  all_windows m amount currency at limits exclude releases e daily = ground arith
  all_windows m amount currency at limits exclude releases e weekly = ground arith
  all_windows m amount currency at limits exclude releases e monthly = ground arith

  after_reserve :
      (m : Dict ReservationState) (id : String) (intent : PurchaseIntent) (amount : ℕ)
      (currency key : String) (at now : ℕ) (limits : SpendLimits) (window : SpendWindow)
      (cur : String) (exclude : Option String)
      → lookup id m ≡ none
      → committed
          (insert id (reserved_state at id intent amount currency key limits) m)
          window
          cur
          now
          exclude
        ≤ committed m window cur now exclude + amount
  unfolding usage_for_window
  after_reserve m id intent amount currency key at now limits window cur exclude fresh =
      let test = counted normalize_currency window cur now exclude in
      let r = reserved_state at id intent amount currency key limits in
      let (no_esc, no_cap) = new_other test at id intent amount currency key limits in
      omega (
        arith,
        total-insert pending test id r m fresh,
        total-insert pending_escalated test id r m fresh,
        total-insert captured test id r m fresh,
        new_amount test at id intent amount currency key limits,
        no_esc,
        no_cap,
      )

  reserved_file :
      (id : String) (intent : PurchaseIntent) (amount : ℕ) (currency key : String) (at : ℕ)
      (limits : SpendLimits) (file : File)
      → replay_events normalize_currency
          (file ++ (row at id (reserve intent amount currency key limits) ∷ []))
        ≡ insert id
            (reserved_state at id intent amount currency key limits)
            (replay_events normalize_currency file)
  unfolding apply_event apply_body
  reserved_file id intent amount currency key at limits file =
      replay-row normalize_currency file (row at id (reserve intent amount currency key limits))

  reserve_ok :
      (id id' : String) (intent : PurchaseIntent) (amount : ℕ) (currency key : String) (at : ℕ)
      (limits : SpendLimits) (file file' : File)
      → reserve_amount normalize_currency id intent amount currency key at limits file
        ≡ (ok id', file')
      → (assert_within_limits normalize_currency
            (replay_events normalize_currency file)
            amount
            currency
            at
            limits
            none
            false
          ≡ ok tt)
        × (file' ≡ file ++ (row at id (reserve intent amount currency key limits) ∷ []))
  unfolding reserve_amount
  reserve_ok id id' intent amount currency key at limits file file' e =
      elim (Result-cases (
        assert_within_limits normalize_currency (replay_events normalize_currency file) amount
          currency at limits none false)) [
            | inl (u, h) ↦ (ground arith, ground arith)
            | inr (x, h) ↦ ground arith
          ]

  -- A reservation with a new id that succeeds leaves, in every window that has a cap for its currency, the
  -- pending (escalated ones included) and captured amounts of the replayed file together at most the cap.
  pub reserve_amount-bounded :
      (id id' : String) (intent : PurchaseIntent) (amount : ℕ) (currency key : String) (at : ℕ)
      (limits : SpendLimits) (file file' : File) (window : SpendWindow) (cap : ℕ)
      → lookup id (replay_events normalize_currency file) ≡ none
      → lookup currency (caps window limits) ≡ some cap
      → reserve_amount normalize_currency id intent amount currency key at limits file
        ≡ (ok id', file')
      → committed (replay_events normalize_currency file') window currency at none ≤ cap
  reserve_amount-bounded id id' intent amount currency key at limits file file' window cap fresh
        capped e =
      let m = replay_events normalize_currency file in
      let (within, same) = reserve_ok id id' intent amount currency key at limits file file' e in
      let before =
        window_ok m amount currency at limits none false window cap
          (all_windows m amount currency at limits none false within window) capped in
      let after =
        after_reserve m id intent amount currency key at at limits window currency none fresh in
      let state =
        ap (replay_events normalize_currency) same
        ∙ reserved_file id intent amount currency key at limits file in
      subst (λ d. committed d window currency at none ≤ cap) (sym state)
        (omega (arith, before, after))

  -- A reservation is refused as soon as the pending amount, twice the escalated amount, the captured amount
  -- and the new amount together exceed the daily cap: what is escalated is counted twice, in the
  -- pending amount and by itself.
  pub reserve_amount-counts_twice :
      (id : String) (intent : PurchaseIntent) (amount : ℕ) (currency key : String) (at : ℕ)
      (limits : SpendLimits) (file : File) (cap : ℕ)
      → lookup currency limits.daily_caps ≡ some cap
      → cap
        < total normalize_currency pending
            (counted normalize_currency daily currency at none)
            (replay_events normalize_currency file)
          + 2
            * total normalize_currency pending_escalated
                (counted normalize_currency daily currency at none)
                (replay_events normalize_currency file)
          + total normalize_currency captured
              (counted normalize_currency daily currency at none)
              (replay_events normalize_currency file)
          + amount
      → (e : VaultError) × (reserve_amount normalize_currency id intent amount currency key at
            limits file
          ≡ (err e, file))
  unfolding reserve_amount assert_within_limits check_window usage_for_window
  reserve_amount-counts_twice id intent amount currency key at limits file cap capped over =
      elim (Result-cases (
        assert_within_limits normalize_currency (replay_events normalize_currency file) amount
          currency at limits none false)) [
            | inr (x, h) ↦ (x, rw (h, reserve_amount) refl)
            | inl (u, h) ↦
                let m = replay_events normalize_currency file in
                let within =
                  window_ok m amount currency at limits none false daily cap
                    (all_windows m amount currency at limits none false (h ∙ refl) daily) capped in
                ground (arith, within)
          ]
