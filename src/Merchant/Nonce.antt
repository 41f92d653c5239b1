-- ===== src/Merchant/Nonce.antt =====
-- The nonce store in memory (packages/merchant/src/mandate/nonce.ts). A call reads the clock once here;
-- the random nonces that `issue` draws until one is free are a list.
pub mod SingleUse
use steelyard_sdk.Base.{
  ℕ, ◌+◌, ◌*◌, String, Bool, true, false, not, Option, some, none, List, [], ◌∷◌, str_eq, is_empty,
  leb, ltb, is_some, if◌then◌else◌, Result, ok, err,
}
use steelyard_sdk.Base.Maps.{Dict, lookup, insert, erase}

pub data FailureReason : Type 0 where
  missing expired session_mismatch already_consumed : FailureReason

pub data ConsumeResult : Type 0 where
  accepted : ConsumeResult
  refused : FailureReason → ConsumeResult

-- `requiredString` and `validTtlSeconds` throw
pub data NonceError : Type 0 where
  is_required invalid_ttl : NonceError

pub record NonceRecord : Type 0 where
  pub session_id : String
  pub issued_at : ℕ
  pub expires_at : ℕ
  pub consumed_at : Option ℕ

pub record Issued : Type 0 where
  pub nonce : String
  pub expires_at : ℕ

abbrev pub NonceStore : Type 0
NonceStore = Dict NonceRecord

abbrev pub is_expired : NonceRecord → ℕ → Bool
is_expired r now = leb r.expires_at now

unfoldable pub prune_expired : ℕ → NonceStore → NonceStore
prune_expired now [] = []
prune_expired now ((k, r) ∷ m) =
    let rest = prune_expired now m in if is_expired r now then rest else (k, r) ∷ rest

unfoldable pub create_record : String → (now ttl_seconds : ℕ) → NonceRecord
create_record session_id now ttl_seconds = record {
  session_id = session_id;
  issued_at = now;
  expires_at = now + ttl_seconds * 1000;
  consumed_at = none;
}

-- `while (this.#records.has(nonce)) nonce = newNonce();`, and `none` if every draw is taken
unfoldable pub first_free : List String → NonceStore → Option String
first_free [] m = none
first_free (nonce ∷ draws) m =
    let rest = first_free draws m in if is_some (lookup nonce m) then rest else some nonce

abbrev store_new :
    String → (now ttl_seconds : ℕ) → NonceStore → Option String → Option (Issued × NonceStore)
store_new session_id now ttl_seconds m none = none
store_new session_id now ttl_seconds m (some nonce) = some (
  record { nonce = nonce; expires_at = now + ttl_seconds * 1000 },
  insert nonce (create_record session_id now ttl_seconds) m,
)

-- `none` inside stands for a loop that the draws do not end
unfoldable pub issue :
    (draws : List String)
    → String
    → (ttl_seconds now : ℕ) → NonceStore
    → Result NonceError (Option (Issued × NonceStore))
issue draws session_id ttl_seconds now m =
    if is_empty session_id
    then err is_required
    else if leb ttl_seconds 0
    then err invalid_ttl
    else ok (
        store_new session_id now ttl_seconds (prune_expired now m)
          (first_free draws (prune_expired now m)))

-- `consumeRecord`
unfoldable pub consume_record : NonceRecord → String → ℕ → ConsumeResult
consume_record r session_id now =
    if is_expired r now
    then refused expired
    else if not (str_eq r.session_id session_id)
    then refused session_mismatch
    else if is_some r.consumed_at
    then refused already_consumed
    else accepted

-- the writes that follow a result
unfoldable pub after_consume : String → ℕ → NonceRecord → NonceStore → ConsumeResult → NonceStore
after_consume nonce now r m accepted = insert nonce (record r { consumed_at = some now }) m
after_consume nonce now r m (refused expired) = erase nonce m
after_consume nonce now r m (refused _) = m

abbrev pub consume_found :
    String → String → ℕ → Option NonceRecord → NonceStore → ConsumeResult × NonceStore
consume_found nonce session_id now none m = (refused missing, m)
consume_found nonce session_id now (some r) m =
    (consume_record r session_id now, after_consume nonce now r m (consume_record r session_id now))

-- `consume` once its arguments are not empty
unfoldable pub consume_known : String → String → ℕ → NonceStore → ConsumeResult × NonceStore
consume_known nonce session_id now m = consume_found nonce session_id now (lookup nonce m) m

unfoldable pub consume :
    (nonce session_id : String) → ℕ → NonceStore → Result NonceError (ConsumeResult × NonceStore)
consume nonce session_id now m =
    if is_empty nonce
    then err is_required
    else if is_empty session_id
    then err is_required
    else ok (consume_known nonce session_id now m)
