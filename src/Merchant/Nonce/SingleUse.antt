-- ===== src/Merchant/Nonce/SingleUse.antt =====
-- A nonce is consumed at most once (packages/merchant/src/mandate/nonce.ts).
use steelyard_sdk.Base.{
  ℕ, ◌+◌, ◌≤◌, ◌≡◌, refl, String, Bool, true, false, ◌⊎◌, inl, inr, Option, some, none, List, [],
  ◌∷◌, str_eq, str_eq_iff, is_some, if◌then◌else◌, Result, ok, err, arith, Bool-cases, Option-cases,
}
use steelyard_sdk.Base.Maps.{lookup, lookup-insert, lookup-erase}
use steelyard_sdk.Merchant.Nonce.{
  ConsumeResult, accepted, refused, missing, expired, session_mismatch, already_consumed,
  NonceError, NonceRecord, NonceStore, consume_record, after_consume, consume_known, consume,
}

pub record Attempt : Type 0 where
  pub nonce : String
  pub session_id : String
  pub now : ℕ

abbrev pub is_accepted : ConsumeResult → Bool
is_accepted accepted = true
is_accepted (refused _) = false

-- what a call answers and the store that it leaves; a call that throws changes nothing
abbrev pub outcome : NonceStore → Result NonceError (ConsumeResult × NonceStore) → Bool × NonceStore
outcome m (err e) = (false, m)
outcome m (ok (result, m')) = (is_accepted result, m')

abbrev pub attempt : Attempt → NonceStore → Bool × NonceStore
attempt a m = outcome m (consume a.nonce a.session_id a.now m)

abbrev pub as_one : Bool → ℕ
as_one true = 1
as_one false = 0

-- how often a nonce is accepted in a run of attempts
unfoldable pub times_accepted : String → List Attempt → NonceStore → ℕ
times_accepted nonce [] m = 0
times_accepted nonce (a ∷ attempts) m =
    (if str_eq a.nonce nonce then as_one (attempt a m).0 else 0)
    + times_accepted nonce attempts (attempt a m).1

-- a nonce that is not in the store, or is consumed
abbrev pub is_spent : Option NonceRecord → Bool
is_spent none = true
is_spent (some r) = is_some r.consumed_at

spent_record :
    (r : NonceRecord) (session_id : String) (now : ℕ)
    → is_some r.consumed_at ≡ true
    → is_accepted (consume_record r session_id now) ≡ false
unfolding consume_record
spent_record r session_id now h = ground arith

after-lookup :
    (nonce key : String) (now : ℕ) (r : NonceRecord) (m : NonceStore) (result : ConsumeResult)
    → lookup key m ≡ some r
    → (is_spent (lookup nonce m) ≡ true) ⊎ ((str_eq key nonce ≡ true) × (is_accepted result ≡ true))
    → is_spent (lookup nonce (after_consume key now r m result)) ≡ true
unfolding after_consume
after-lookup nonce key now r m accepted found h =
    ground (arith, lookup-insert key nonce (record r { consumed_at = some now }) m)
after-lookup nonce key now r m (refused expired) found h = ground (arith, lookup-erase key nonce m)
after-lookup nonce key now r m (refused missing) found h = ground arith
after-lookup nonce key now r m (refused session_mismatch) found h = ground arith
after-lookup nonce key now r m (refused already_consumed) found h = ground arith

attempt-spent :
    (nonce : String) (a : Attempt) (m : NonceStore)
    → (is_spent (lookup nonce m) ≡ true)
      ⊎ ((str_eq a.nonce nonce ≡ true) × ((attempt a m).0 ≡ true))
    → is_spent (lookup nonce (attempt a m).1) ≡ true
unfolding consume consume_known
attempt-spent nonce a m h = elim (Option-cases (lookup a.nonce m)) [
  | inl nothing ↦ ground arith
  | inr (r, found) ↦
      ground
        (arith, after-lookup nonce a.nonce a.now r m (consume_record r a.session_id a.now) found)
]

spent-refused :
    (nonce : String) (a : Attempt) (m : NonceStore)
    → str_eq a.nonce nonce ≡ true
    → is_spent (lookup nonce m) ≡ true
    → (attempt a m).0 ≡ false
unfolding consume consume_known
spent-refused nonce a m same h =
    let equal : a.nonce ≡ nonce = ground (arith, str_eq_iff a.nonce nonce) in
    elim (Option-cases (lookup a.nonce m)) [
      | inl nothing ↦ ground arith
      | inr (r, found) ↦ ground (arith, spent_record r a.session_id a.now)
    ]

spent-never :
    (nonce : String) (attempts : List Attempt) (m : NonceStore)
    → is_spent (lookup nonce m) ≡ true
    → times_accepted nonce attempts m ≡ 0
unfolding times_accepted
spent-never nonce [] m h = refl
spent-never nonce (a ∷ attempts) m h =
    let rest = spent-never nonce attempts (attempt a m).1 (attempt-spent nonce a m (inl h)) in
    elim (Bool-cases (str_eq a.nonce nonce)) [
      | inl same ↦ rw (same, spent-refused nonce a m same h) (omega (arith, rest))
      | inr other ↦ rw other (omega (arith, rest))
    ]

-- In any run of attempts to consume, in any order, with any sessions and at any times, and from any store,
-- a nonce is accepted at most once.
pub times_accepted-at_most_once :
    (nonce : String) (attempts : List Attempt) (m : NonceStore)
    → times_accepted nonce attempts m ≤ 1
unfolding times_accepted
times_accepted-at_most_once nonce [] m = omega arith
times_accepted-at_most_once nonce (a ∷ attempts) m =
    let rest = times_accepted-at_most_once nonce attempts (attempt a m).1 in
    elim (Bool-cases (str_eq a.nonce nonce)) [
      | inr other ↦ rw other (omega (arith, rest))
      | inl same ↦ elim (Bool-cases (attempt a m).0) [
        | inr failed ↦ rw (same, failed) (omega (arith, rest))
        | inl passed ↦
            let never =
              spent-never nonce attempts (attempt a m).1
                (attempt-spent nonce a m (inr (same, passed))) in
            rw (same, passed) (omega (arith, never))
      ]
    ]
