-- ===== src/Merchant/Idempotency/Replay.antt =====
-- A handler runs once for a key (packages/merchant/src/checkout/idempotency.ts).
use steelyard_sdk.Base.{
  ℕ, ◌+◌, ◌*◌, ◌<◌, ◌≡◌, refl, String, false, some, none, [], ◌∷◌, str_eq, if◌then◌else◌, arith,
  inl, inr, Bool-cases, Option-cases,
}
use steelyard_sdk.Base.Maps.{Dict, lookup, insert, lookup-insert_self}
use steelyard_sdk.Merchant.Idempotency.{
  Response, CacheRecord, Store, replays, conflicts, joins, runs, is_expired, prune_expired,
  replay_or_conflict, remember_begin, remember_finish, new_record,
}

lookup-prune_expired :
    (key : String) (now : ℕ) (r : CacheRecord) (m : Dict CacheRecord)
    → lookup key m ≡ some r
    → is_expired r now ≡ false
    → lookup key (prune_expired now m) ≡ some r
unfolding lookup prune_expired
lookup-prune_expired key now r [] found live = found
lookup-prune_expired key now r ((k, x) ∷ m) found live = elim (Bool-cases (str_eq k key)) [
  | inl same ↦ ground arith
  | inr other ↦ ground (arith, lookup-prune_expired key now r m (ground arith) live)
]

-- Once a handler has answered, every call with its key before the record expires answers the stored response
-- if the body hash is the same and a conflict if it is not, and runs no handler, whatever else is in
-- the store.
pub remember_finish-replays :
    (key body_hash other_hash : String) (response : Response) (now later : ℕ) (s : Store)
    → later < now + s.ttl_seconds * 1000
    → (remember_begin key other_hash later (remember_finish key body_hash (some response) now s)).0
      ≡ (if str_eq body_hash other_hash then replays response else conflicts)
unfolding remember_begin remember_finish new_record replay_or_conflict
remember_finish-replays key body_hash other_hash response now later s live =
    rw
      (lookup-prune_expired key later (new_record body_hash response now s.ttl_seconds)
        (insert key (new_record body_hash response now s.ttl_seconds) s.cache)
        (lookup-insert_self key _ s.cache) (ground arith))
      refl

missing-prune_expired :
    (key : String) (now : ℕ) (m : Dict CacheRecord)
    → lookup key m ≡ none
    → lookup key (prune_expired now m) ≡ none
unfolding lookup prune_expired
missing-prune_expired key now [] h = refl
missing-prune_expired key now ((k, x) ∷ m) h =
    ground (arith, missing-prune_expired key now m (ground arith))

begun :
    (key body_hash : String) (now : ℕ) (s s' : Store)
    → remember_begin key body_hash now s ≡ (runs, s')
    → (lookup key s'.cache ≡ none) × (lookup key s'.in_flight ≡ some body_hash)
unfolding remember_begin replay_or_conflict
begun key body_hash now s s' e = elim (Option-cases (lookup key (prune_expired now s.cache))) [
  | inr (r, h) ↦ ground arith
  | inl h ↦ elim (Option-cases (lookup key s.in_flight)) [
    | inr (running, k) ↦ ground arith
    | inl k ↦ (ground arith, ground (arith, lookup-insert_self key body_hash s.in_flight))
  ]
]

joined :
    (key body_hash other_hash : String) (later : ℕ) (s : Store)
    → lookup key (prune_expired later s.cache) ≡ none
    → lookup key s.in_flight ≡ some body_hash
    → (remember_begin key other_hash later s).0
      ≡ (if str_eq body_hash other_hash then joins else conflicts)
unfolding remember_begin
joined key body_hash other_hash later s nothing running = rw (nothing, running) refl

-- After a call has begun to run its handler, the next call with its key, at any time, runs no handler: it
-- joins the running call if the body hash is the same and meets a conflict if it is not.
pub remember_begin-exclusive :
    (key body_hash other_hash : String) (now later : ℕ) (s s' : Store)
    → remember_begin key body_hash now s ≡ (runs, s')
    → (remember_begin key other_hash later s').0
      ≡ (if str_eq body_hash other_hash then joins else conflicts)
remember_begin-exclusive key body_hash other_hash now later s s' e =
    let (nothing, running) = begun key body_hash now s s' e in
    joined key body_hash other_hash later s' (missing-prune_expired key later s'.cache nothing)
      running
