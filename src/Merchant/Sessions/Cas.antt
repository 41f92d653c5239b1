-- ===== src/Merchant/Sessions/Cas.antt =====
-- A transition compares and swaps (packages/merchant/src/checkout/store.ts).
use steelyard_sdk.Base.{
  ◌≡◌, String, true, false, Option, some, str_eq, ok, err, arith, inl, inr, Option-cases,
  Result-cases,
}
use steelyard_sdk.Base.Maps.{lookup, insert, lookup-insert_self}
use steelyard_sdk.Merchant.Sessions.{
  StoredCheckout, cas_conflict, Rows, Step, normalize_session, claim, run_callback, transition,
}

finished :
    (id : String) (fn : StoredCheckout → Option Step) (claimed next : StoredCheckout)
    (rows rows' : Rows)
    → run_callback id fn claimed rows ≡ (ok next, rows')
    → lookup id rows' ≡ some next
unfolding normalize_session
finished id fn claimed next rows rows' e = elim (Option-cases (fn claimed)) [
  | inl threw ↦ ground arith
  | inr (step, h) ↦ ground (arith, lookup-insert_self id step.next rows)
]

claimed-finished :
    (id next_status : String) (fn : StoredCheckout → Option Step) (current next : StoredCheckout)
    (rows rows' : Rows)
    → claim id next_status fn current rows ≡ (ok next, rows')
    → lookup id rows' ≡ some next
unfolding claim
claimed-finished id next_status fn current next rows rows' e =
    elim (Result-cases (normalize_session (record current { status = next_status }))) [
      | inr (x, h) ↦ ground arith
      | inl (claimed, h) ↦ finished id fn claimed next (insert id claimed rows) rows' (ground arith)
    ]

claimed-by :
    (id expected next_status : String) (fn : StoredCheckout → Option Step) (rows rows' : Rows)
    (next : StoredCheckout)
    → transition id expected next_status fn rows ≡ (ok next, rows')
    → (current : StoredCheckout) × (lookup id rows ≡ some current)
      × (str_eq current.status expected ≡ true)
      × (claim id next_status fn current rows ≡ (ok next, rows'))
unfolding transition
claimed-by id expected next_status fn rows rows' next e = elim (Option-cases (lookup id rows)) [
  | inl nothing ↦ ground arith
  | inr (current, found) ↦ (current, found, ground arith, ground arith)
]

conflict :
    (id expected next_status : String) (fn : StoredCheckout → Option Step) (rows : Rows)
    (current : StoredCheckout)
    → lookup id rows ≡ some current
    → str_eq current.status expected ≡ false
    → transition id expected next_status fn rows
      ≡ (err (cas_conflict id expected current.status), rows)
unfolding transition
conflict id expected next_status fn rows current found other = ground arith

-- A transition that succeeds found the session in the expected status and leaves what it answers stored under
-- the id; so a second transition from the same expected status, unless the first one ended in that
-- status, meets a conflict and changes nothing.
pub transition-exclusive :
    (id expected next_status next_status' : String) (fn fn' : StoredCheckout → Option Step)
    (rows rows' : Rows) (next : StoredCheckout)
    → transition id expected next_status fn rows ≡ (ok next, rows')
    → str_eq next.status expected ≡ false
    → ((current : StoredCheckout) × (lookup id rows ≡ some current)
        × (str_eq current.status expected ≡ true))
      × (lookup id rows' ≡ some next)
      × (transition id expected next_status' fn' rows'
          ≡ (err (cas_conflict id expected next.status), rows'))
transition-exclusive id expected next_status next_status' fn fn' rows rows' next e moved =
    let (current, found, same, claims) = claimed-by id expected next_status fn rows rows' next e in
    let stored = claimed-finished id next_status fn current next rows rows' claims in
    ((current, found, same), stored, conflict id expected next_status' fn' rows' next stored moved)
