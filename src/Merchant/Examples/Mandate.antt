-- ===== src/Merchant/Examples/Mandate.antt =====
-- A mandate that the verifier accepts, and one that makes it throw
-- (packages/merchant/src/mandate/verifier.ts).
use steelyard_sdk.Base.{
  ◌≡◌, refl, String, Bool, true, false, Option, some, none, List, [], ◌∷◌, str_eq, ok, err,
  if◌then◌else◌,
}
use steelyard_sdk.Core.Json.{
  Json, natural, text, array, object, no_items, item, Fields, no_fields, field, get, as_record,
  insert_field, canonicalize,
}
use steelyard_sdk.Merchant.Mandate.{
  type_error, Verified, JsonWebKey, TrustedKeys, key_set, ParsedJws, text_of, key_id_for_jwk,
  parse_compact_jws, verify,
}
use steelyard_sdk.Merchant.Mandate.Checks.{Signed, Claims, Pays}
use steelyard_sdk.Merchant.Mandate.Accepts.{verify-accepts}
use steelyard_sdk.Merchant.Mandate.NullHeader.{verify-null_header}

abbrev three : String → List String
three s = "h" ∷ "p" ∷ "s" ∷ []

abbrev header : Json
header =
    object
      (field "alg" (text "EdDSA") (field "typ" (text "JWT") (field "kid" (text "k1") no_fields)))

abbrev payload : Json
payload = object (
    field "steelyard:mandate_version" (text "v0.1") (
      field "iss" (text "k1") (
        field "sub" (text "buyer") (
          field "aud" (text "shop") (
            field "iat" (natural 100) (
              field "exp" (natural 200) (
                field "steelyard:checkout" (object (field "id" (text "c1") no_fields)) (
                  field "steelyard:payment"
                    (object (
                      field "credential_id" (text "t1") (field "handler_id" (text "h1") no_fields)))
                    no_fields))))))))

abbrev decode : String → Option Json
decode s = if str_eq s "h" then some header else some payload

-- a header that is null
abbrev decode_null : String → Option Json
decode_null s = if str_eq s "h" then some Json.null else some payload

abbrev genuine : (first second signature : String) → JsonWebKey → Bool
genuine first second signature key = str_eq signature "s"

abbrev thumbprint : JsonWebKey → String
thumbprint key = key.material

-- the id of a checkout
abbrev id_text : Json → String
id_text (object (field key (text t) rest)) = if str_eq key "id" then t else ""
id_text _ = ""

abbrev unsorted : String → String → Bool
unsorted a b = false

abbrev trusted : TrustedKeys
trusted = key_set (record { kid = some "k1"; key_id = none; material = "x" } ∷ [])

abbrev envelope : Fields
envelope = field "steelyard.checkout_mandate" (text "h.p.s") no_fields

abbrev checkout : Fields
checkout = field "id" (text "c1") (
    field "payment"
      (object (
        field "instruments"
          (array (
            item
              (object (
                field "handler_id" (text "h1")
                  (field "credential" (object (field "token" (text "t1") no_fields)) no_fields)))
              no_items))
          no_fields))
      no_fields)

abbrev accepted : Verified
accepted = record { subject_id = "buyer"; key_id = "k1" }

verify-accepts_example :
    (◌≡◌ {A = Bool} true true)
    × (token : String) × (jws : ParsedJws) × (key : JsonWebKey) × (get "steelyard.checkout_mandate"
          envelope
        ≡ some (Json.text token))
    × (parse_compact_jws three decode genuine thumbprint id_text unsorted token ≡ ok jws)
    × Signed three decode genuine thumbprint id_text unsorted trusted jws key
    × (key_id_for_jwk three decode genuine thumbprint id_text unsorted key ≡ "k1")
    × Claims three decode genuine thumbprint id_text unsorted
        (as_record (some jws.payload))
        "k1"
        "shop"
        150
        "buyer"
    × Pays three decode genuine thumbprint id_text unsorted (as_record (some jws.payload)) checkout
unfolding verify steelyard_sdk.Merchant.Mandate.mandate_token get str_eq parse_compact_jws
    steelyard_sdk.Merchant.Mandate.signing_key steelyard_sdk.Merchant.Mandate.property
    steelyard_sdk.Merchant.Mandate.resolve_trusted_key key_id_for_jwk
    steelyard_sdk.Merchant.Mandate.check_claims steelyard_sdk.Merchant.Mandate.check_payment
    steelyard_sdk.Merchant.Mandate.same_canonical canonicalize insert_field
    steelyard_sdk.Merchant.Mandate.canonical_mandate_checkout
    steelyard_sdk.Merchant.Mandate.selected_payment_instrument
    steelyard_sdk.Merchant.Mandate.credential_token_from_instrument
    steelyard_sdk.Merchant.Mandate.has_ap2_mandate
verify-accepts_example =
    verify-accepts three decode genuine thumbprint id_text unsorted true trusted 150 envelope
      checkout "shop" accepted refl

verify-null_header_example :
    verify three decode_null genuine thumbprint id_text unsorted true trusted 150 envelope checkout
      "shop"
    ≡ err type_error
unfolding get str_eq
verify-null_header_example =
    verify-null_header three decode_null genuine thumbprint id_text unsorted trusted 150 envelope
      checkout "shop" "h.p.s" "h" "p" "s" payload refl refl refl refl refl refl refl refl
