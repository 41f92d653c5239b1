-- ===== src/Vault/Escalation.antt =====
-- A second escalation of a reservation (packages/buyer/src/vault/ledger.ts).
use steelyard_sdk.Base.{
  ℕ, ◌≤◌, ◌≡◌, refl, ◌∙◌, String, leb, true, some, [], ◌∷◌, ◌++◌, ok, err, arith,
}
use steelyard_sdk.Base.Maps.{lookup}
use steelyard_sdk.Vault.{
  pending_escalated, release, mark_escalated, ReservationState, update, replay_events,
}
use steelyard_sdk.Vault.Operations.{
  File, row, append_if_active, active_reservation, mark, reattach, resume_expired,
}
use steelyard_sdk.Vault.Resolution.{lookup-row}

module _ (normalize_currency : String → String) where
  again :
      (id : String) (at : ℕ) (t : ℕ) (file : File) (r : ReservationState)
      → lookup id (replay_events normalize_currency file) ≡ some r
      → r.status ≡ pending_escalated
      → mark normalize_currency id t at file ≡ (ok tt, file ++ (row at id (mark_escalated t) ∷ []))
  unfolding mark append_if_active active_reservation
  again id at t file r found st = rw (found, st, mark, append_if_active, active_reservation) refl

  unmoved :
      (id : String) (at : ℕ) (t : ℕ) (file : File) (r : ReservationState)
      → lookup id (replay_events normalize_currency file) ≡ some r
      → r.status ≡ pending_escalated
      → lookup id (replay_events normalize_currency (file ++ (row at id (mark_escalated t) ∷ [])))
        ≡ some r
  unfolding update
  unmoved id at t file r found st =
      lookup-row normalize_currency id at (mark_escalated t) file r refl found ∙ rw st refl

  -- If a reservation is escalated until some time and is escalated again until another, which is what a
  -- resumed purchase does that needs one more approval, then the call succeeds, but the reservation is
  -- as it was; and resuming it when the first time has come throws, with that time as its expiry,
  -- and appends its release, whatever the second time is.
  pub mark-escalated_again :
      (id : String) (first second at later : ℕ) (file : File) (r : ReservationState)
      → lookup id (replay_events normalize_currency file) ≡ some r
      → r.status ≡ pending_escalated
      → r.expires_at ≡ some first
      → first ≤ later
      → (file' : File) × (mark normalize_currency id second at file ≡ (ok tt, file'))
        × (lookup id (replay_events normalize_currency file') ≡ some r)
        × (reattach normalize_currency id later file' ≡ (
          err (resume_expired id first),
          file' ++ (row later id (release "resume_expired") ∷ []),
        ))
  unfolding reattach
  mark-escalated_again id first second at later file r found st ex le =
      let same = unmoved id at second file r found st in
      let due : leb first later ≡ true = ground (arith, le) in
      (_, again id at second file r found st, same, rw (same, st, ex, due, reattach) refl)
