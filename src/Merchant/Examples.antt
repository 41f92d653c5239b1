-- ===== src/Merchant/Examples.antt =====
-- The properties of the merchant's stores at concrete inputs (packages/merchant/src).
mod Mandate
use steelyard_sdk.Base.{
  ℕ, ◌≤◌, ◌≡◌, refl, String, true, Option, some, none, [], ◌∷◌, err, arith, str_eq, if◌then◌else◌,
}
use steelyard_sdk.Base.Maps.{lookup, insert}
use steelyard_sdk.Merchant.Nonce.{NonceStore}
use steelyard_sdk.Merchant.Nonce.SingleUse.{Attempt, times_accepted, times_accepted-at_most_once}
use steelyard_sdk.Merchant.Idempotency.{
  Response, Store, replays, conflicts, joins, remember_begin, remember_finish, prune_expired,
}
use steelyard_sdk.Merchant.Idempotency.Replay.{remember_finish-replays, remember_begin-exclusive}
use steelyard_sdk.Merchant.Sessions.{
  acp, StoredCheckout, cas_conflict, Step, transition, claim, normalize_session,
}
use steelyard_sdk.Merchant.Sessions.Cas.{transition-exclusive}

abbrev nonces : NonceStore
nonces =
    ("n", record { session_id = "s"; issued_at = 0; expires_at = 900000; consumed_at = none }) ∷ []

abbrev try_once : ℕ → Attempt
try_once now = record { nonce = "n"; session_id = "s"; now = now }

times_accepted-at_most_once_example : times_accepted "n" (try_once 10 ∷ try_once 20 ∷ []) nonces ≤ 1
times_accepted-at_most_once_example =
    times_accepted-at_most_once "n" (try_once 10 ∷ try_once 20 ∷ []) nonces

abbrev idle : Store
idle = record { ttl_seconds = 60; cache = []; in_flight = [] }

abbrev busy : Store
busy = record idle { in_flight = ("k", "h") ∷ [] }

abbrev created : Response
created = record { status = 201; body = "{}" }

remember_finish-replays_example :
    (remember_begin "k" "h" 30000 (remember_finish "k" "h" (some created) 5 busy)).0
    ≡ (if str_eq "h" "h" then replays created else conflicts)
remember_finish-replays_example =
    remember_finish-replays "k" "h" "h" created 5 30000 busy (omega arith)

remember_begin-exclusive_example :
    (remember_begin "k" "g" 7 busy).0 ≡ (if str_eq "h" "g" then joins else conflicts)
unfolding remember_begin lookup insert prune_expired
remember_begin-exclusive_example = remember_begin-exclusive "k" "h" "g" 5 7 idle busy refl

abbrev session : String → StoredCheckout
session status = record { id = "c"; status = status; protocol = acp; rest = "" }

abbrev completes : StoredCheckout → Option Step
completes current = some (record { next = record current { status = "completed" }; commits = true })

transition-exclusive_example :
    ((current : StoredCheckout) × (lookup "c" (("c", session "ready") ∷ []) ≡ some current)
      × (str_eq current.status "ready" ≡ true))
    × (lookup "c" (("c", session "completed") ∷ []) ≡ some (session "completed"))
    × (transition "c" "ready" "in_progress" completes (("c", session "completed") ∷ [])
        ≡ (err (cas_conflict "c" "ready" "completed"), ("c", session "completed") ∷ []))
unfolding transition claim normalize_session lookup insert str_eq
transition-exclusive_example =
    transition-exclusive "c" "ready" "in_progress" "in_progress" completes completes
      (("c", session "ready") ∷ []) (("c", session "completed") ∷ []) (session "completed") refl
      refl
