-- ===== src/Vault/Examples.antt =====
-- The properties of the vault ledger at concrete files (packages/buyer/src/vault/ledger.ts).
use steelyard_sdk.Base.{
  ℕ, ◌≤◌, ◌≡◌, refl, String, false, List, some, none, [], ◌∷◌, ◌++◌, ok, err, arith, str_eq, ◌⊎◌,
}
use steelyard_sdk.Base.Maps.{lookup, insert}
use steelyard_sdk.Vault.{
  daily, pending_escalated, reserved_state, SpendLimits, PurchaseIntent, Receipt, captured, reserve,
  mark_escalated, settle, release, LedgerEvent, ReservationState, update, apply_body, apply_event,
  replay_events,
}
use steelyard_sdk.Vault.Operations.{
  VaultError, not_active, resume_expired, mark, reattach, File, row, reserve_amount,
  settle_reservation, release_reservation, adjust_amount, append_if_active, active_reservation,
  assert_within_limits, check_window, usage_for_window, total, amount_in, window_ms,
}
use steelyard_sdk.Vault.Resolution.{Same, replay_events-keeps_resolved}
use steelyard_sdk.Vault.Settlement.{
  Adjusted, IsOpen, settle_reservation-once, adjust_amount-Adjusted,
}
use steelyard_sdk.Vault.Escalation.{mark-escalated_again}
use steelyard_sdk.Vault.Refinement.{Command, to_reserve, to_adjust, to_settle, run_all, act_all}
use steelyard_sdk.Vault.Refinement.Simulates.{run_all-act_all}
use steelyard_sdk.Vault.Limits.{committed, reserve_amount-bounded, reserve_amount-counts_twice}

-- currencies that are in their normal form
abbrev same : String → String
same c = c

abbrev limits : SpendLimits
limits = record { daily_caps = ("USD", 1000) ∷ []; weekly_caps = []; monthly_caps = [] }

abbrev intent : PurchaseIntent
intent = record {
  intent_id = "i";
  merchant_domain = "shop.example";
  amount = 400;
  currency = "USD";
}

abbrev receipt : Receipt
receipt = record { order_id = "o"; charged_amount = 380; charged_currency = "USD"; created_at = 50 }

abbrev reserved_event : LedgerEvent
reserved_event = row 10 "r" (reserve intent 400 "USD" "k" limits)

abbrev reserved_file : File
reserved_file = reserved_event ∷ []

abbrev settled_file : File
settled_file = reserved_event ∷ row 50 "r" (settle receipt false) ∷ []

abbrev escalated_file : File
escalated_file = reserved_event ∷ row 20 "r" (mark_escalated 9000) ∷ []

abbrev settled_state : ReservationState
settled_state = record {
  id = "r";
  intent = intent;
  amount = 380;
  currency = "USD";
  idempotency_key = "k";
  ts = 10;
  status = captured;
  limits = limits;
  expires_at = none;
  released_at = none;
  settled_at = some 50;
  receipt = some receipt;
  shadow_receipt = none;
  legacy = none;
}

replay_events-keeps_resolved_example :
    (r' : ReservationState) × (lookup "r"
        (replay_events same (settled_file ++ (row 60 "r" (release "late") ∷ [])))
      ≡ some r')
    × Same same settled_state r'
unfolding replay_events lookup apply_event apply_body insert str_eq update
replay_events-keeps_resolved_example =
    replay_events-keeps_resolved same "r" settled_file (row 60 "r" (release "late") ∷ [])
      settled_state refl refl refl

settle_reservation-once_example :
    ((r' : ReservationState) × (lookup "r" (replay_events same settled_file) ≡ some r')
      × (r'.status ≡ captured)
      × (r'.amount ≡ 380)
      × (r'.currency ≡ "USD"))
    × ((again : Receipt) (later : ℕ)
        → settle_reservation same "r" again later settled_file
          ≡ (err (not_active "r"), settled_file))
    × ((why : String) (later : ℕ)
        → release_reservation same "r" why later settled_file
          ≡ (err (not_active "r"), settled_file))
    × ((total later : ℕ)
        → adjust_amount same "r" total later settled_file ≡ (err (not_active "r"), settled_file))
unfolding settle_reservation append_if_active active_reservation lookup replay_events apply_event
    apply_body insert str_eq
settle_reservation-once_example =
    settle_reservation-once same "r" receipt 50 reserved_file settled_file refl

adjust_amount-Adjusted_example :
    ((r : ReservationState) × (lookup "r" (replay_events same reserved_file) ≡ some r)
      × IsOpen r.status
      × Adjusted same "r" 350 30 r
          (adjust_amount same "r" 350 30 reserved_file).1
          (adjust_amount same "r" 350 30 reserved_file).0)
    ⊎ (((lookup "r" (replay_events same reserved_file) ≡ none)
          ⊎ ((r : ReservationState) × (lookup "r" (replay_events same reserved_file) ≡ some r)
              × (¬ IsOpen r.status)))
        × (adjust_amount same "r" 350 30 reserved_file ≡ (err (not_active "r"), reserved_file)))
adjust_amount-Adjusted_example = adjust_amount-Adjusted same "r" 350 30 reserved_file

reserve_amount-bounded_example :
    committed same
      (replay_events same
        (reserved_file ++ (row 40 "q" (reserve intent 500 "USD" "k2" limits) ∷ [])))
      daily
      "USD"
      40
      none
    ≤ 1000
unfolding reserve_amount lookup replay_events apply_event apply_body insert str_eq
    assert_within_limits check_window usage_for_window total amount_in window_ms
reserve_amount-bounded_example =
    reserve_amount-bounded same "q" "q" intent 500 "USD" "k2" 40 limits reserved_file
      (reserved_file ++ (row 40 "q" (reserve intent 500 "USD" "k2" limits) ∷ [])) daily 1000 refl
      refl refl

-- 400 escalated and 500 more would be 900, within the cap of 1000
reserve_amount-counts_twice_example :
    (e : VaultError) × (reserve_amount same "q" intent 500 "USD" "k2" 40 limits escalated_file
      ≡ (err e, escalated_file))
unfolding total lookup str_eq replay_events apply_event apply_body insert amount_in update window_ms
reserve_amount-counts_twice_example =
    reserve_amount-counts_twice same "q" intent 500 "USD" "k2" 40 limits escalated_file 1000 refl
      (omega arith)

abbrev escalated : ReservationState
escalated = record (reserved_state 10 "r" intent 400 "USD" "k" limits) {
  status = pending_escalated;
  expires_at = some 9000;
}

-- escalated until 9000 and again until 20000, resumed at 9500
mark-escalated_again_example :
    (file' : File) × (mark same "r" 20000 60 escalated_file ≡ (ok tt, file'))
    × (lookup "r" (replay_events same file') ≡ some escalated)
    × (reattach same "r" 9500 file'
        ≡ (err (resume_expired "r" 9000), file' ++ (row 9500 "r" (release "resume_expired") ∷ [])))
unfolding lookup replay_events apply_event apply_body insert str_eq update
mark-escalated_again_example =
    mark-escalated_again same "r" 9000 20000 60 9500 escalated_file escalated refl refl refl
      (omega arith)

-- a reservation, a lower total, and a receipt
abbrev commands : List Command
commands =
    to_reserve "r" intent 400 "USD" "k" 10 limits
    ∷ to_adjust "r" 380 20
    ∷ to_settle "r" receipt 50
    ∷ []

run_all-act_all_example :
    ((run_all same commands []).0 ≡ (act_all same commands []).0)
    × (replay_events same (run_all same commands []).1 ≡ (act_all same commands []).1)
unfolding replay_events
run_all-act_all_example = run_all-act_all same commands []
