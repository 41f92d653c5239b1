-- ===== src/Merchant/Idempotency.antt =====
-- The idempotency store in memory (packages/merchant/src/checkout/idempotency.ts). `remember` waits for
-- the handler, so a call is two steps: `remember_begin`, up to the wait, and `remember_finish`, from the
-- handler's answer on; other calls may come between.
pub mod Replay
use steelyard_sdk.Base.{
  ℕ, ◌+◌, ◌*◌, String, Bool, true, false, not, Option, some, none, List, [], ◌∷◌, str_eq, leb,
  if◌then◌else◌,
}
use steelyard_sdk.Base.Maps.{Dict, lookup, insert, erase}

pub record Response : Type 0 where
  pub status : ℕ
  pub body : String

pub record CacheRecord : Type 0 where
  pub body_hash : String
  pub response : Response
  pub created_at : ℕ
  pub expires_at : ℕ

-- The cache, and the body hashes of the calls whose handlers run.
pub record Store : Type 0 where
  pub ttl_seconds : ℕ
  pub cache : Dict CacheRecord
  pub in_flight : Dict String

-- How a call begins: the stored response, a conflict, a wait for the call that runs, or a run of the handler.
pub data Begun : Type 0 where
  replays : Response → Begun
  conflicts : Begun
  joins : Begun
  runs : Begun

abbrev pub is_expired : CacheRecord → ℕ → Bool
is_expired r now = leb r.expires_at now

unfoldable pub prune_expired : ℕ → Dict CacheRecord → Dict CacheRecord
prune_expired now [] = []
prune_expired now ((k, r) ∷ m) =
    let rest = prune_expired now m in if is_expired r now then rest else (k, r) ∷ rest

-- `replayOrConflict`
unfoldable pub replay_or_conflict : CacheRecord → String → Begun
replay_or_conflict r body_hash =
    if str_eq r.body_hash body_hash then replays r.response else conflicts

abbrev pub join_or_run : String → String → Option String → Store → Begun × Store
join_or_run key body_hash (some running) s =
    (if str_eq running body_hash then joins else conflicts, s)
join_or_run key body_hash none s = (runs, record s { in_flight = insert key body_hash s.in_flight })

abbrev pub cached_or_run : String → String → Option CacheRecord → Store → Begun × Store
cached_or_run key body_hash (some r) s = (replay_or_conflict r body_hash, s)
cached_or_run key body_hash none s = join_or_run key body_hash (lookup key s.in_flight) s

-- The code starts the handler just before it sets `inFlight`; a handler that calls `remember` before its
-- first wait is not modelled.
unfoldable pub remember_begin : (key body_hash : String) → ℕ → Store → Begun × Store
remember_begin key body_hash now s =
    let cache = prune_expired now s.cache in
    cached_or_run key body_hash (lookup key cache) (record s { cache = cache })

-- the record that `runAndRemember` stores
unfoldable pub new_record : String → Response → (now ttl_seconds : ℕ) → CacheRecord
new_record body_hash response now ttl_seconds = record {
  body_hash = body_hash;
  response = response;
  created_at = now;
  expires_at = now + ttl_seconds * 1000;
}

-- The handler's answer is `none` if it throws; then nothing is stored.
unfoldable pub remember_finish : (key body_hash : String) → Option Response → ℕ → Store → Store
remember_finish key body_hash none now s = record s { in_flight = erase key s.in_flight }
remember_finish key body_hash (some response) now s = record s {
  cache = insert key (new_record body_hash response now s.ttl_seconds) s.cache;
  in_flight = erase key s.in_flight;
}
