-- ===== src/Vault/Refinement/Simulates.antt =====
-- The file and the map, command by command (packages/buyer/src/vault/ledger.ts).
use steelyard_sdk.Base.{
  ℕ, ◌≡◌, refl, ap, ◌∙◌, String, true, false, Option, some, none, List, [], ◌∷◌, ◌++◌, leb, ltb, ok,
  inl, inr, Bool-cases, Option-cases, Result-cases,
}
use steelyard_sdk.Base.Maps.{lookup, insert}
use steelyard_sdk.Vault.{
  SpendLimits, PurchaseIntent, Receipt, LedgerStatus, pending, pending_escalated, released,
  captured, EventBody, reserve, adjust, mark_escalated, release, settle, legacy_spend,
  ReservationState, is_active, update, apply_body, apply_event, replay_events,
}
use steelyard_sdk.Vault.Operations.{
  File, row, assert_within_limits, reserve_amount, active_reservation, adjust_amount,
  adjust_reservation, append_if_active, mark, release_reservation, settle_reservation,
  write_shadow_receipt, reattach, resume_found, resume,
}
use steelyard_sdk.Vault.Resolution.{is_new, replay-row}
use steelyard_sdk.Vault.Refinement.{
  Command, to_reserve, to_adjust, to_mark, to_release, to_settle, to_shadow, to_resume, Store,
  forget, freed, escalate, on_active, resumed, resumed_found, run, act, seen, paid, lowered,
  run_all, act_all,
}

module _ (normalize_currency : String → String) where
  apply-known :
      (id : String) (at : ℕ) (body : EventBody) (m : Store) (r : ReservationState)
      → is_new body ≡ false
      → lookup id m ≡ some r
      → apply_body normalize_currency id at body m
        ≡ insert id (update normalize_currency at body r) m
  unfolding apply_body
  apply-known id at (adjust _) m r known found = rw found refl
  apply-known id at (mark_escalated _) m r known found = rw found refl
  apply-known id at (release _) m r known found = rw found refl
  apply-known id at (settle _ _) m r known found = rw found refl
  apply-known id at (reserve _ _ _ _ _) m r known found = absurd (cc known)
  apply-known id at (legacy_spend _) m r known found = absurd (cc known)

  known_row :
      (id : String) (at : ℕ) (body : EventBody) (file : File) (r : ReservationState)
      → is_new body ≡ false
      → lookup id (replay_events normalize_currency file) ≡ some r
      → replay_events normalize_currency (file ++ (row at id body ∷ []))
        ≡ insert id (update normalize_currency at body r) (replay_events normalize_currency file)
  unfolding apply_event
  known_row id at body file r known found =
      replay-row normalize_currency file (row at id body)
      ∙ apply-known id at body (replay_events normalize_currency file) r known found

  -- an operation that appends one event if the reservation is active
  append-act :
      (id : String) (at : ℕ) (body : EventBody) (file : File)
      (change : ReservationState → ReservationState)
      → is_new body ≡ false
      → ((r : ReservationState)
          → is_active r.status ≡ true
          → update normalize_currency at body r ≡ change r)
      → on_active id
          (replay_events normalize_currency file)
          (lookup id (replay_events normalize_currency file))
          (λ r. (ok tt, insert id (change r) (replay_events normalize_currency file)))
        ≡ seen normalize_currency (append_if_active normalize_currency id at body file)
  unfolding append_if_active active_reservation
  append-act id at body file change known same =
      elim (Option-cases (lookup id (replay_events normalize_currency file))) [
        | inl none_there ↦ rw (none_there, append_if_active, active_reservation) refl
        | inr (r, found) ↦ elim (Bool-cases (is_active r.status)) [
          | inr over ↦ rw (found, over, append_if_active, active_reservation) refl
          | inl live ↦
              rw (found, live, append_if_active, active_reservation)
                (rw (known_row id at body file r known found, same r live) refl)
        ]
      ]

  update-release :
      (at : ℕ) (why : String) (r : ReservationState)
      → is_active r.status ≡ true
      → update normalize_currency at (release why) r ≡ freed at r
  unfolding update
  update-release at why r live = rw live refl

  update-settle :
      (at : ℕ) (receipt : Receipt) (r : ReservationState)
      → is_active r.status ≡ true
      → update normalize_currency at (settle receipt false) r ≡ paid normalize_currency receipt at r
  unfolding update
  update-settle at receipt r live = rw live refl

  update-adjust :
      (at total : ℕ) (r : ReservationState)
      → is_active r.status ≡ true
      → update normalize_currency at (adjust total) r ≡ record r { amount = total }
  unfolding update
  update-adjust at total r live = rw live refl

  adjust-act :
      (id : String) (total at : ℕ) (file : File) (r : ReservationState)
      → lookup id (replay_events normalize_currency file) ≡ some r
      → is_active r.status ≡ true
      → lowered normalize_currency id total at (replay_events normalize_currency file) r
        ≡ seen normalize_currency (adjust_reservation normalize_currency id total at r file)
  unfolding adjust_reservation
  adjust-act id total at file r found live =
      let m = replay_events normalize_currency file in
      let gone = λ (why : String).
        known_row id at (release why) file r refl found
        ∙ ap (λ x. insert id x m) (update-release at why r live) in
      let lower =
        known_row id at (adjust total) file r refl found
        ∙ ap (λ x. insert id x m) (update-adjust at total r live) in
      elim (Bool-cases (ltb r.amount total)) [
        | inl over ↦ rw (over, adjust_reservation) (rw (gone "amount_exceeded") refl)
        | inr under ↦
            elim (Result-cases (
              assert_within_limits normalize_currency m total r.currency at r.limits (some id)
                true)) [
                  | inl (u, h) ↦ rw (under, h, adjust_reservation) (rw lower refl)
                  | inr (x, h) ↦ rw (under, h, adjust_reservation) (rw (gone "cap_exceeded") refl)
                ]
      ]

  resume-act :
      (id : String) (at : ℕ) (file : File) (r : ReservationState) (status : LedgerStatus)
      (until : Option ℕ)
      → lookup id (replay_events normalize_currency file) ≡ some r
      → r.status ≡ status
      → resumed id at (replay_events normalize_currency file) r status until
        ≡ seen normalize_currency (forget (resume normalize_currency id at r status until file))
  resume-act id at file r pending until found st = refl
  resume-act id at file r released until found st = refl
  resume-act id at file r captured until found st = refl
  resume-act id at file r pending_escalated none found st = refl
  resume-act id at file r pending_escalated (some t) found st = elim (Bool-cases (leb t at)) [
    | inl due ↦ rw due (
        rw
          (known_row id at (release "resume_expired") file r refl found
            ∙ ap (λ x. insert id x (replay_events normalize_currency file))
                (update-release at "resume_expired" r (ap is_active st)))
          refl)
    | inr early ↦ rw early refl
  ]

  reattach-act :
      (id : String) (at : ℕ) (file : File) (o : Option ReservationState)
      → lookup id (replay_events normalize_currency file) ≡ o
      → resumed_found id at (replay_events normalize_currency file) o
        ≡ seen normalize_currency (forget (resume_found normalize_currency id at o file))
  reattach-act id at file none found = refl
  reattach-act id at file (some r) found = resume-act id at file r r.status r.expires_at found refl

  adjust_amount-act :
      (id : String) (total at : ℕ) (file : File)
      → on_active id
          (replay_events normalize_currency file)
          (lookup id (replay_events normalize_currency file))
          (lowered normalize_currency id total at (replay_events normalize_currency file))
        ≡ seen normalize_currency (adjust_amount normalize_currency id total at file)
  unfolding adjust_amount active_reservation
  adjust_amount-act id total at file =
      elim (Option-cases (lookup id (replay_events normalize_currency file))) [
        | inl none_there ↦ rw (none_there, adjust_amount, active_reservation) refl
        | inr (r, found) ↦ elim (Bool-cases (is_active r.status)) [
          | inr over ↦ rw (found, over, adjust_amount, active_reservation) refl
          | inl live ↦
              rw (found, live, adjust_amount, active_reservation)
                (adjust-act id total at file r found live)
        ]
      ]

  reserve_amount-act :
      (id : String) (intent : PurchaseIntent) (amount : ℕ) (currency key : String) (at : ℕ)
      (limits : SpendLimits) (file : File)
      → act normalize_currency
          (to_reserve id intent amount currency key at limits)
          (replay_events normalize_currency file)
        ≡ seen normalize_currency (
            forget (reserve_amount normalize_currency id intent amount currency key at limits file))
  unfolding act reserve_amount apply_event apply_body
  reserve_amount-act id intent amount currency key at limits file =
      let event = row at id (reserve intent amount currency key limits) in
      elim (Result-cases (
        assert_within_limits normalize_currency (replay_events normalize_currency file) amount
          currency at limits none false)) [
            | inl (u, h) ↦
                rw (h, act, reserve_amount) (rw (replay-row normalize_currency file event) refl)
            | inr (x, h) ↦ rw (h, act, reserve_amount) refl
          ]

  run-act :
      (c : Command) (file : File)
      → act normalize_currency c (replay_events normalize_currency file)
        ≡ seen normalize_currency (run normalize_currency c file)
  unfolding act run mark release_reservation settle_reservation write_shadow_receipt reattach update
  run-act (to_reserve id intent amount currency key at limits) file =
      reserve_amount-act id intent amount currency key at limits file
  run-act (to_adjust id total at) file = adjust_amount-act id total at file
  run-act (to_mark id t at) file =
      append-act id at (mark_escalated t) file (escalate t) refl (λ r live. refl)
  run-act (to_release id why at) file =
      append-act id at (release why) file (freed at) refl (λ r live. update-release at why r live)
  run-act (to_settle id receipt at) file =
      append-act id at (settle receipt false) file (paid normalize_currency receipt at) refl
        (λ r live. update-settle at receipt r live)
  run-act (to_shadow id receipt at) file =
      append-act id at (settle receipt true) file (λ r. record r { shadow_receipt = some receipt })
        refl (λ r live. refl)
  run-act (to_resume id at) file =
      reattach-act id at file (lookup id (replay_events normalize_currency file)) refl

  -- Whatever commands run normalize_currency on a ledger file, in any order, their answers and the replayed file in the end are
  -- those of the same commands on the replayed map, where each looks its reservation up, decides, and
  -- changes that reservation alone.
  pub run_all-act_all :
      (commands : List Command) (file : File)
      → ((run_all normalize_currency commands file).0
          ≡ (act_all normalize_currency commands (replay_events normalize_currency file)).0)
        × (replay_events normalize_currency (run_all normalize_currency commands file).1
            ≡ (act_all normalize_currency commands (replay_events normalize_currency file)).1)
  unfolding run_all act_all
  run_all-act_all [] file = (refl, refl)
  run_all-act_all (c ∷ cs) file =
      let step = run-act c file in
      let (answers, store) = run_all-act_all cs (run normalize_currency c file).1 in
      rw step (ap (λ l. (run normalize_currency c file).0 ∷ l) answers, store)
