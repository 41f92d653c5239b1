-- ===== src/Merchant/Mandate.antt =====
-- The verifier of mandates (packages/merchant/src/mandate/verifier.ts). Outside are `split_dots`, the
-- split of a text at its dots; `decode`, a segment's base64url and `JSON.parse`, none where that throws;
-- `crypto_verify`, the check of a signature over the two segments before it; `thumbprint`, the hash of a
-- key without an id; `stringify`, which is `JSON.stringify`; and the order of texts. `now` is in seconds.
pub mod Checks
pub mod Accepts
pub mod NullHeader
use steelyard_sdk.Base.{
  ℕ, String, Bool, true, false, not, ◌&&◌, ◌||◌, Option, some, none, List, [], ◌∷◌, str_eq,
  is_empty, ltb, ◌==◌, is_some, if◌then◌else◌, Result, ok, err, require, or_throw, find, ◌>>=◌,
  ◌>>◌,
}
use steelyard_sdk.Core.Json.{
  Json, null, boolean, natural, negative, other_number, text, array, object, Items, no_items, item,
  Fields, no_fields, field, get, as_record, canonicalize,
}

pub data Reason : Type 0 where
  steelyard_mode_not_enabled invalid_mandate wrong_namespace missing_mandate invalid_jws
        invalid_header :
      Reason
  untrusted_key invalid_signature issuer_mismatch invalid_subject audience_mismatch : Reason
  invalid_iat issued_in_future invalid_exp expired : Reason
  checkout_mismatch selected_payment_missing payment_credential_missing : Reason
  payment_credential_mismatch payment_handler_mismatch : Reason

-- `fail` with its reason, or the type error that reading a property of null throws
pub data Refusal : Type 0 where
  fail : Reason → Refusal
  type_error : Refusal

pub record Verified : Type 0 where
  pub subject_id : String
  pub key_id : String

-- `material` is the rest of a key, which the model does not look into
pub record JsonWebKey : Type 0 where
  pub kid : Option String
  pub key_id : Option String
  pub material : String

pub data TrustedKeys : Type 0 where
  key_set : List JsonWebKey → TrustedKeys
  key_function : (String → Option JsonWebKey) → TrustedKeys

pub record ParsedJws : Type 0 where
  pub header : Json
  pub payload : Json
  pub first : String
  pub second : String
  pub signature : String

abbrev pub text_of : Option Json → Option String
text_of (some (text t)) = some t
text_of _ = none

abbrev pub is_text : Option Json → String → Bool
is_text (some (text t)) s = str_eq t s
is_text _ s = false

-- `value.key` of a value of any kind: null has no properties
unfoldable pub property : String → Json → Result Refusal (Option Json)
property key null = err type_error
property key (object fields) = ok (get key fields)
property key other = ok none

-- `typeof x === "number" && Number.isSafeInteger(x)`
abbrev pub is_safe_integer : Option Json → Bool
is_safe_integer (some (natural n)) = true
is_safe_integer (some (negative n)) = true
is_safe_integer _ = false

-- `x > now`
abbrev pub later_than : Option Json → ℕ → Bool
later_than (some (natural n)) now = ltb now n
later_than _ now = false

-- `"ap2:mandate_version" in payload` throws where the payload is no object; both answers are the same
abbrev pub wrong_version : Json → Refusal
wrong_version (object _) = fail wrong_namespace
wrong_version (array _) = fail wrong_namespace
wrong_version _ = type_error

-- the text that a missing or an empty text is not
abbrev pub non_empty : Option String → Option String
non_empty none = none
non_empty (some t) = if is_empty t then none else some t

unfoldable pub has_ap2_mandate : Fields → Bool
has_ap2_mandate envelope =
    is_some (text_of (get "checkout_mandate" (as_record (get "ap2" envelope))))
    || is_some (text_of (get "ap2.checkout_mandate" envelope))

abbrev pub is_selected : Json → Bool
is_selected (object fields) = flag (get "selected" fields)
  where
    flag : Option Json → Bool
    flag (some (boolean b)) = b
    flag _ = false
is_selected _ = false

abbrev pub find_selected : Items → Option Json
find_selected no_items = none
find_selected (item v rest) =
    let later = find_selected rest in if is_selected v then some v else later

abbrev pub only_one : Items → Option Fields
only_one (item v no_items) = some (as_record (some v))
only_one _ = none

abbrev pub selected_among : Items → Option Json → Option Fields
selected_among items (some v) = some (as_record (some v))
selected_among items none = only_one items

abbrev pub instruments_of : Option Json → Option Fields
instruments_of (some (array items)) = selected_among items (find_selected items)
instruments_of _ = none

-- `selectedPaymentInstrument`
unfoldable pub selected_payment_instrument : Fields → Option Fields
selected_payment_instrument checkout =
    instruments_of (get "instruments" (as_record (get "payment" checkout)))

unfoldable pub credential_token_from_instrument : Fields → Option String
credential_token_from_instrument instrument =
    text_of (get "token" (as_record (get "credential" instrument)))

-- a field of an object literal whose value may be undefined
abbrev pub picked : String → Option Json → Fields → Fields
picked key none rest = rest
picked key (some v) rest = field key v rest

-- `a === b` of a value of the payload and one of the checkout, which are never one object
abbrev pub same_value : Option Json → Option Json → Bool
same_value none none = true
same_value (some null) (some null) = true
same_value (some (boolean true)) (some (boolean b)) = b
same_value (some (boolean false)) (some (boolean b)) = not b
same_value (some (natural a)) (some (natural b)) = a == b
same_value (some (negative a)) (some (negative b)) = a == b
same_value (some (other_number a)) (some (other_number b)) = str_eq a b
same_value (some (text a)) (some (text b)) = str_eq a b
same_value _ _ = false

module _ (split_dots : String → List String) (decode : String → Option Json)
    (crypto_verify : (first second signature : String) → JsonWebKey → Bool)
    (thumbprint : JsonWebKey → String) (stringify : Json → String)
    (before : String → String → Bool) where
  -- `jwk.kid ?? jwk.key_id`, unless it is empty
  unfoldable pub key_id_for_jwk : JsonWebKey → String
  key_id_for_jwk key = elim (non_empty (elim key.kid [ some k ↦ some k | none ↦ key.key_id ])) [
    | some k ↦ k
    | none ↦ thumbprint key
  ]

  abbrev pub of_this_id : String → Option JsonWebKey → Option JsonWebKey
  of_this_id id none = none
  of_this_id id (some key) = if str_eq (key_id_for_jwk key) id then some key else none

  unfoldable pub resolve_trusted_key : TrustedKeys → String → Option JsonWebKey
  resolve_trusted_key (key_function f) id = of_this_id id (f id)
  resolve_trusted_key (key_set keys) id = find (λ key. str_eq (key_id_for_jwk key) id) keys

  abbrev pub parsed :
      String → String → String → Option Json → Option Json → Result Refusal ParsedJws
  parsed a b c (some header) (some payload) =
      ok record { header = header; payload = payload; first = a; second = b; signature = c }
  parsed a b c _ _ = err (fail invalid_jws)

  abbrev pub parse_parts : List String → Result Refusal ParsedJws
  parse_parts (a ∷ b ∷ c ∷ []) =
      if is_empty a || (is_empty b || is_empty c)
      then err (fail invalid_jws)
      else parsed a b c (decode a) (decode b)
  parse_parts _ = err (fail invalid_jws)

  unfoldable pub parse_compact_jws : String → Result Refusal ParsedJws
  parse_compact_jws jwt = parse_parts (split_dots jwt)

  -- `canonicalMandateCheckout`
  unfoldable pub canonical_mandate_checkout : Fields → Json
  canonical_mandate_checkout checkout = canonicalize before (
      object (
        picked "id" (get "id" checkout) (
          picked "line_items" (get "line_items" checkout) (
            picked "totals" (get "totals" checkout)
              (picked "currency" (get "currency" checkout) no_fields)))))

  abbrev pub or_null : Option Json → Json
  or_null none = null
  or_null (some v) = v

  unfoldable pub same_canonical : Option Json → Json → Bool
  same_canonical left right =
      str_eq (stringify (canonicalize before (or_null left)))
        (stringify (canonicalize before right))

  abbrev pub no_token : Fields → Refusal
  no_token envelope = fail (if has_ap2_mandate envelope then wrong_namespace else missing_mandate)

  abbrev pub given_token : (enabled : Bool) → Fields → Option Json → Result Refusal String
  given_token enabled envelope none = err (no_token envelope)
  given_token enabled envelope (some (text token)) =
      if not enabled
      then err (fail steelyard_mode_not_enabled)
      else if is_empty token
      then err (no_token envelope)
      else ok token
  given_token enabled envelope (some _) = err (fail invalid_mandate)

  -- the token of the envelope
  unfoldable pub mandate_token : (enabled : Bool) → Fields → Result Refusal String
  mandate_token enabled envelope =
      given_token enabled envelope (get "steelyard.checkout_mandate" envelope)

  -- the trusted key that has signed the token
  unfoldable pub signing_key : TrustedKeys → ParsedJws → Result Refusal JsonWebKey
  signing_key trusted jws = do
    alg ← property "alg" jws.header
    require (is_text alg "EdDSA") (fail invalid_header)
    typ ← property "typ" jws.header
    require (is_text typ "JWT") (fail invalid_header)
    kid ← property "kid" jws.header
    id ← or_throw (text_of kid) (fail invalid_header)
    key ← or_throw (resolve_trusted_key trusted id) (fail untrusted_key)
    require (crypto_verify jws.first jws.second jws.signature key) (fail invalid_signature)
    ok key

  -- the claims about the issuer, the audience and the time; the subject is the result
  unfoldable pub check_claims : Json → (key_id audience : String) → ℕ → Result Refusal String
  check_claims payload key_id audience now = do
    version ← property "steelyard:mandate_version" payload
    require (is_text version "v0.1") (wrong_version payload)
    require (is_text (get "iss" (as_record (some payload))) key_id) (fail issuer_mismatch)
    subject ←
        or_throw (non_empty (text_of (get "sub" (as_record (some payload))))) (fail invalid_subject)
    require (is_text (get "aud" (as_record (some payload))) audience) (fail audience_mismatch)
    require (is_safe_integer (get "iat" (as_record (some payload)))) (fail invalid_iat)
    require (not (later_than (get "iat" (as_record (some payload))) now)) (fail issued_in_future)
    require (is_safe_integer (get "exp" (as_record (some payload)))) (fail invalid_exp)
    require (later_than (get "exp" (as_record (some payload))) now) (fail expired)
    ok subject

  -- the claims about the checkout and its payment
  unfoldable pub check_payment : Fields → Fields → Result Refusal (Unit {0})
  check_payment payload checkout = do
    require
        (same_canonical (get "steelyard:checkout" payload) (canonical_mandate_checkout checkout))
        (fail checkout_mismatch)
    selected ← or_throw (selected_payment_instrument checkout) (fail selected_payment_missing)
    token ←
        or_throw (non_empty (credential_token_from_instrument selected))
          (fail payment_credential_missing)
    require (is_text (get "credential_id" (as_record (get "steelyard:payment" payload))) token)
        (fail payment_credential_mismatch)
    require
        (same_value (get "handler_id" (as_record (get "steelyard:payment" payload)))
          (get "handler_id" selected))
        (fail payment_handler_mismatch)

  -- `verify` of `steelyardJwsVerifier`
  unfoldable pub verify :
      (enabled : Bool)
      → TrustedKeys
      → (now : ℕ) → (envelope checkout : Fields) → (audience : String) → Result Refusal Verified
  verify enabled trusted now envelope checkout audience = do
    token ← mandate_token enabled envelope
    jws ← parse_compact_jws token
    key ← signing_key trusted jws
    subject ← check_claims jws.payload (key_id_for_jwk key) audience now
    check_payment (as_record (some jws.payload)) checkout
    ok record { subject_id = subject; key_id = key_id_for_jwk key }
