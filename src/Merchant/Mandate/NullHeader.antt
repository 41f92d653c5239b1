-- ===== src/Merchant/Mandate/NullHeader.antt =====
-- A header that is the JSON text null (packages/merchant/src/mandate/verifier.ts).
use steelyard_sdk.Base.{
  ℕ, ◌≡◌, refl, String, Bool, true, false, Option, some, List, [], ◌∷◌, is_empty, err,
}
use steelyard_sdk.Core.Json.{Json, Fields, get}
use steelyard_sdk.Merchant.Mandate.{
  type_error, JsonWebKey, TrustedKeys, property, parse_compact_jws, mandate_token, signing_key,
  verify,
}

module _ (split_dots : String → List String) (decode : String → Option Json)
    (crypto_verify : (first second signature : String) → JsonWebKey → Bool)
    (thumbprint : JsonWebKey → String) (stringify : Json → String)
    (before : String → String → Bool) where
  -- An enabled verifier throws a type error, and does not answer with a reason, on every mandate of three
  -- non-empty segments of which the first decodes to null and the second decodes.
  pub verify-null_header :
      (trusted : TrustedKeys) (now : ℕ) (envelope checkout : Fields) (audience token a b c : String)
      (payload : Json)
      → get "steelyard.checkout_mandate" envelope ≡ some (Json.text token)
      → is_empty token ≡ false
      → split_dots token ≡ a ∷ b ∷ c ∷ []
      → is_empty a ≡ false
      → is_empty b ≡ false
      → is_empty c ≡ false
      → decode a ≡ some Json.null
      → decode b ≡ some payload
      → verify split_dots decode crypto_verify thumbprint stringify before true trusted now envelope
          checkout audience
        ≡ err type_error
  unfolding verify mandate_token parse_compact_jws signing_key property
  verify-null_header trusted now envelope checkout audience token a b c payload has t split ea eb ec
        da db =
      rw (has, t, split, ea, eb, ec, da, db, verify, mandate_token, parse_compact_jws, signing_key)
        refl
