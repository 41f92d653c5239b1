-- ===== src/Vault/Resolution.antt =====
-- How reservations of the vault ledger end (packages/buyer/src/vault/ledger.ts): a reservation that is
-- captured or released stays so, and each operation's effect on the replayed state.
use steelyard_sdk.Base.{
  ℕ, ◌≡◌, refl, String, Bool, true, false, ◌&&◌, inl, inr, Option, some, none, List, [], ◌∷◌, ◌++◌,
  str_eq, str_eq_iff, ok, any, arith, Bool-cases, Option-cases, Result-cases, ◌∙◌, ap,
}
use mathlib.Core.Path.{subst}
use steelyard_sdk.Base.Maps.{Dict, lookup, lookup-insert, lookup-insert_self}
use steelyard_sdk.Vault.{
  LedgerStatus, reserve, adjust, mark_escalated, release, settle, legacy_spend, EventBody,
  LedgerEvent, ReservationState, is_active, is_pending, update, update_known, apply_body,
  apply_event, replay_from, replay_events,
}
use steelyard_sdk.Vault.Operations.{File, row, active_reservation, append_if_active}

-- the body of an event that makes a new state of a reservation
abbrev pub is_new : EventBody → Bool
is_new (reserve _ _ _ _ _) = true
is_new (legacy_spend _) = true
is_new _ = false

abbrev pub renews : String → LedgerEvent → Bool
renews id event = str_eq event.id id && is_new event.body

resolved-not_pending :
    (status : LedgerStatus) → is_active status ≡ false → is_pending status ≡ false
resolved-not_pending status h = ground arith

module _ (normalize_currency : String → String) where
  pub replay_from-append :
      (m : Dict ReservationState) (xs ys : List LedgerEvent)
      → replay_from normalize_currency m (xs ++ ys)
        ≡ replay_from normalize_currency (replay_from normalize_currency m xs) ys
  replay_from-append m [] ys = refl
  replay_from-append m (x ∷ xs) ys = replay_from-append (apply_event normalize_currency m x) xs ys

  pub replay-row :
      (file : File) (e : LedgerEvent)
      → replay_events normalize_currency (file ++ (e ∷ []))
        ≡ apply_event normalize_currency (replay_events normalize_currency file) e
  unfolding replay_events
  replay-row file e = replay_from-append [] file (e ∷ [])

  -- Only the money side of a resolved reservation is compared: a shadow receipt may still be written.
  pub record Same (r r' : ReservationState) : Type 0 where
    pub status : r'.status ≡ r.status
    pub amount : r'.amount ≡ r.amount
    pub currency : r'.currency ≡ r.currency

  update-Same :
      (ts : ℕ) (body : EventBody) (r : ReservationState)
      → is_active r.status ≡ false
      → Same r (update normalize_currency ts body r)
  unfolding update
  update-Same ts (reserve _ _ _ _ _) r h = record { status = refl; amount = refl; currency = refl }
  update-Same ts (legacy_spend _) r h = record { status = refl; amount = refl; currency = refl }
  update-Same ts (adjust a) r h = rw h (record { status = refl; amount = refl; currency = refl })
  update-Same ts (mark_escalated t) r h =
      rw (resolved-not_pending r.status h)
        (record { status = refl; amount = refl; currency = refl })
  update-Same ts (release s) r h = rw h (record { status = refl; amount = refl; currency = refl })
  update-Same ts (settle receipt true) r h = record {
    status = refl;
    amount = refl;
    currency = refl;
  }
  update-Same ts (settle receipt false) r h =
      rw h (record { status = refl; amount = refl; currency = refl })

  lookup-known :
      (id : String) (ts : ℕ) (body : EventBody) (m : Dict ReservationState) (r : ReservationState)
      → is_new body ≡ false
      → lookup id m ≡ some r
      → lookup id (apply_body normalize_currency id ts body m)
        ≡ some (update normalize_currency ts body r)
  unfolding apply_body
  lookup-known id ts (adjust a) m r known found = rw found (lookup-insert_self id _ m)
  lookup-known id ts (mark_escalated t) m r known found = rw found (lookup-insert_self id _ m)
  lookup-known id ts (release s) m r known found = rw found (lookup-insert_self id _ m)
  lookup-known id ts (settle receipt shadow) m r known found = rw found (lookup-insert_self id _ m)
  lookup-known id ts (reserve _ _ _ _ _) m r known found = ground arith
  lookup-known id ts (legacy_spend _) m r known found = ground arith

  pub lookup-row :
      (id : String) (ts : ℕ) (body : EventBody) (file : File) (r : ReservationState)
      → is_new body ≡ false
      → lookup id (replay_events normalize_currency file) ≡ some r
      → lookup id (replay_events normalize_currency (file ++ (row ts id body ∷ [])))
        ≡ some (update normalize_currency ts body r)
  unfolding apply_event
  lookup-row id ts body file r known found =
      ap (lookup id) (replay-row file (row ts id body))
      ∙ lookup-known id ts body (replay_events normalize_currency file) r known found

  known_other :
      (id key : String) (ts : ℕ) (body : EventBody) (m : Dict ReservationState)
      (o : Option ReservationState)
      → str_eq key id ≡ false
      → lookup id (update_known normalize_currency key ts body m o) ≡ lookup id m
  known_other id key ts body m none other = refl
  known_other id key ts body m (some r) other =
      lookup-insert key id (update normalize_currency ts body r) m ∙ ground arith

  lookup-other :
      (id key : String) (ts : ℕ) (body : EventBody) (m : Dict ReservationState)
      → str_eq key id ≡ false
      → lookup id (apply_body normalize_currency key ts body m) ≡ lookup id m
  unfolding apply_body
  lookup-other id key ts (reserve _ _ _ _ _) m other = lookup-insert key id _ m ∙ ground arith
  lookup-other id key ts (legacy_spend _) m other = lookup-insert key id _ m ∙ ground arith
  lookup-other id key ts (adjust a) m other =
      known_other id key ts (adjust a) m (lookup key m) other
  lookup-other id key ts (mark_escalated t) m other =
      known_other id key ts (mark_escalated t) m (lookup key m) other
  lookup-other id key ts (release s) m other =
      known_other id key ts (release s) m (lookup key m) other
  lookup-other id key ts (settle x b) m other =
      known_other id key ts (settle x b) m (lookup key m) other

  apply-Same :
      (id key : String) (ts : ℕ) (body : EventBody) (m : Dict ReservationState)
      (r : ReservationState)
      → lookup id m ≡ some r
      → is_active r.status ≡ false
      → (str_eq key id && is_new body) ≡ false
      → (r' : ReservationState) × (lookup id (apply_body normalize_currency key ts body m)
          ≡ some r')
        × Same r r'
  apply-Same id key ts body m r found h kept = elim (Bool-cases (str_eq key id)) [
    | inl same ↦
        let known : is_new body ≡ false = ground arith in
        let equal : id ≡ key = ground (arith, str_eq_iff key id) in
        (
          update normalize_currency ts body r,
          subst
              (λ k.
                lookup id (apply_body normalize_currency k ts body m)
                ≡ some (update normalize_currency ts body r))
              equal (lookup-known id ts body m r known found),
          update-Same ts body r h,
        )
    | inr other ↦ (
      r,
      lookup-other id key ts body m other ∙ found,
      record { status = refl; amount = refl; currency = refl },
    )
  ]

  Same-trans : (a b c : ReservationState) → Same a b → Same b c → Same a c
  Same-trans a b c p q = record {
    status = q.status ∙ p.status;
    amount = q.amount ∙ p.amount;
    currency = q.currency ∙ p.currency;
  }

  replay-Same :
      (id : String) (later : List LedgerEvent) (m : Dict ReservationState) (r : ReservationState)
      → lookup id m ≡ some r
      → is_active r.status ≡ false
      → any (renews id) later ≡ false
      → (r' : ReservationState) × (lookup id (replay_from normalize_currency m later) ≡ some r')
        × Same r r'
  unfolding apply_event
  replay-Same id [] m r found h kept =
      (r, found, record { status = refl; amount = refl; currency = refl })
  replay-Same id (e ∷ later) m r found h kept =
      let (r1, found1, same1) = apply-Same id e.id e.ts e.body m r found h (ground arith) in
      let (r2, found2, same2) =
        replay-Same id later (apply_event normalize_currency m e) r1 found1
          (ap is_active same1.status ∙ h) (ground arith) in
      (r2, found2, Same-trans r r1 r2 same1 same2)

  -- A reservation that a ledger file has resolved (captured or released) keeps its status, amount and
  -- currency whatever rows are appended, unless one of them is a new reservation or a legacy spend under
  -- the same id.
  pub replay_events-keeps_resolved :
      (id : String) (file later : List LedgerEvent) (r : ReservationState)
      → lookup id (replay_events normalize_currency file) ≡ some r
      → is_active r.status ≡ false
      → any (renews id) later ≡ false
      → (r' : ReservationState) × (lookup id (replay_events normalize_currency (file ++ later))
          ≡ some r')
        × Same r r'
  unfolding replay_events
  replay_events-keeps_resolved id file later r found h kept =
      let (r', found', same) =
        replay-Same id later (replay_events normalize_currency file) r found h kept in
      (r', ap (lookup id) (replay_from-append [] file later) ∙ found', same)

  pub active_ok :
      (id : String) (m : Dict ReservationState) (r : ReservationState)
      → active_reservation normalize_currency m id ≡ ok r
      → (lookup id m ≡ some r) × (is_active r.status ≡ true)
  unfolding active_reservation
  active_ok id m r e = elim (Option-cases (lookup id m)) [
    | inl h ↦ ground arith
    | inr (r', h) ↦ ground arith
  ]

  pub appended :
      (id : String) (at : ℕ) (body : EventBody) (file file' : File)
      → append_if_active normalize_currency id at body file ≡ (ok tt, file')
      → (r : ReservationState) × (lookup id (replay_events normalize_currency file) ≡ some r)
        × (is_active r.status ≡ true)
        × (file' ≡ file ++ (row at id body ∷ []))
  unfolding append_if_active
  appended id at body file file' e =
      elim (Result-cases
        (active_reservation normalize_currency (replay_events normalize_currency file) id)) [
          | inr (x, h) ↦ ground arith
          | inl (r, h) ↦ let (found, live) = active_ok id _ r h in (r, found, live, ground arith)
        ]
