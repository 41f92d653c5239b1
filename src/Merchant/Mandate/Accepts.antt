-- ===== src/Merchant/Mandate/Accepts.antt =====
-- What a mandate that the verifier accepts has been checked for
-- (packages/merchant/src/mandate/verifier.ts).
use mathlib.Core.Path.{subst}
use steelyard_sdk.Base.{
  ℕ, ◌≡◌, refl, ap, String, Bool, true, false, Option, some, none, List, is_empty, ok, inl, inr,
  bind_ok, ok_injective, Bool-cases, arith,
}
use steelyard_sdk.Core.Json.{Json, Fields, get, as_record}
use steelyard_sdk.Merchant.Mandate.{
  Verified, JsonWebKey, TrustedKeys, ParsedJws, parse_compact_jws, given_token, mandate_token,
  signing_key, check_claims, check_payment, verify,
}
use steelyard_sdk.Merchant.Mandate.Checks.{
  id_of, Signed, Claims, Pays, signing_key-Signed, check_claims-Claims, check_payment-Pays,
}

module _ (split_dots : String → List String) (decode : String → Option Json)
    (crypto_verify : (first second signature : String) → JsonWebKey → Bool)
    (thumbprint : JsonWebKey → String) (stringify : Json → String)
    (before : String → String → Bool) where
  given_token-text :
      (enabled : Bool) (envelope : Fields) (o : Option Json) (token : String)
      → given_token split_dots decode crypto_verify thumbprint stringify before enabled envelope o
        ≡ ok token
      → (enabled ≡ true) × (o ≡ some (Json.text token))
  given_token-text enabled envelope none token e = absurd (cc e)
  given_token-text false envelope (some (Json.text t)) token e = absurd (cc e)
  given_token-text true envelope (some (Json.text t)) token e = elim (Bool-cases (is_empty t)) [
    | inl b ↦ absurd (ground (arith, e, b))
    | inr b ↦
        let same : t ≡ token = ground (arith, e, b) in (refl, ap (λ x. some (Json.text x)) same)
  ]
  given_token-text enabled envelope (some Json.null) token e = absurd (cc e)
  given_token-text enabled envelope (some (Json.boolean _)) token e = absurd (cc e)
  given_token-text enabled envelope (some (Json.natural _)) token e = absurd (cc e)
  given_token-text enabled envelope (some (Json.negative _)) token e = absurd (cc e)
  given_token-text enabled envelope (some (Json.other_number _)) token e = absurd (cc e)
  given_token-text enabled envelope (some (Json.array _)) token e = absurd (cc e)
  given_token-text enabled envelope (some (Json.object _)) token e = absurd (cc e)

  -- If the verifier accepts, then it is enabled, the envelope's mandate is a token of three segments that
  -- decode, its header has the algorithm EdDSA and the type JWT, and a trusted key has the id that the
  -- header names and has signed the token. The payload has the mandate version v0.1. The result's key
  -- id is the id of that key, which is the issuer; its subject is the one of the payload; the audience is the
  -- one that was expected; the time of issue is a safe integer no later than now, and the time of expiry
  -- a safe integer later than now. The payload's checkout has
  -- the canonical text of the expected one, whose payment has a selected instrument with the credential
  -- and the handler that the payload names.
  pub verify-accepts :
      (enabled : Bool) (trusted : TrustedKeys) (now : ℕ) (envelope checkout : Fields)
      (audience : String) (v : Verified)
      → verify split_dots decode crypto_verify thumbprint stringify before enabled trusted now
          envelope checkout audience
        ≡ ok v
      → (enabled ≡ true)
        × (token : String) × (jws : ParsedJws) × (key : JsonWebKey) × (get
              "steelyard.checkout_mandate" envelope
            ≡ some (Json.text token))
        × (parse_compact_jws split_dots decode crypto_verify thumbprint stringify before token
            ≡ ok jws)
        × Signed split_dots decode crypto_verify thumbprint stringify before trusted jws key
        × (id_of split_dots decode crypto_verify thumbprint stringify before key ≡ v.key_id)
        × Claims split_dots decode crypto_verify thumbprint stringify before
            (as_record (some jws.payload))
            v.key_id
            audience
            now
            v.subject_id
        × Pays split_dots decode crypto_verify thumbprint stringify before
            (as_record (some jws.payload))
            checkout
  unfolding verify mandate_token
  verify-accepts enabled trusted now envelope checkout audience v e =
      let (token, has, e1) =
        bind_ok
          (mandate_token split_dots decode crypto_verify thumbprint stringify before enabled
            envelope)
          _ v e in
      let (jws, decoded, e2) =
        bind_ok
          (parse_compact_jws split_dots decode crypto_verify thumbprint stringify before token) _ v
          e1 in
      let (key, signs, e3) =
        bind_ok
          (signing_key split_dots decode crypto_verify thumbprint stringify before trusted jws) _ v
          e2 in
      let (subject, claims, e4) =
        bind_ok
          (check_claims split_dots decode crypto_verify thumbprint stringify before jws.payload
            (id_of split_dots decode crypto_verify thumbprint stringify before key) audience now)
          _ v e3 in
      let (u, pays, e5) =
        bind_ok
          (check_payment split_dots decode crypto_verify thumbprint stringify before
            (as_record (some jws.payload)) checkout)
          _ v e4 in
      let same_id : id_of split_dots decode crypto_verify thumbprint stringify before key
          ≡ v.key_id =
        ap (λ (r : Verified). r.key_id) (ok_injective _ v e5) in
      let same_subject : subject ≡ v.subject_id =
        ap (λ (r : Verified). r.subject_id) (ok_injective _ v e5) in
      let (on, found) =
        given_token-text enabled envelope (get "steelyard.checkout_mandate" envelope) token has in
      (
        on,
        token,
        jws,
        key,
        found,
        decoded,
        signing_key-Signed split_dots decode crypto_verify thumbprint stringify before trusted jws
            key signs,
        same_id,
        subst
            (λ s.
              Claims split_dots decode crypto_verify thumbprint stringify before
                (as_record (some jws.payload)) v.key_id audience now s)
            same_subject
            (subst
              (λ k.
                Claims split_dots decode crypto_verify thumbprint stringify before
                  (as_record (some jws.payload)) k audience now subject)
              same_id
              (check_claims-Claims split_dots decode crypto_verify thumbprint stringify before
                jws.payload (id_of split_dots decode crypto_verify thumbprint stringify before key)
                audience now subject claims)),
        check_payment-Pays split_dots decode crypto_verify thumbprint stringify before
            (as_record (some jws.payload)) checkout pays,
      )
