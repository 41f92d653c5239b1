-- ===== src/Merchant/Mandate/Checks.antt =====
-- The checks of a mandate one by one (packages/merchant/src/mandate/verifier.ts).
use steelyard_sdk.Base.{
  ℕ, ◌≤◌, ◌<◌, ok_injective, ◌≡◌, ap, ◌∙◌, sym, String, Bool, true, not, Option, some, none, List,
  [], ◌∷◌, str_eq, str_eq_iff, is_empty, find, ok, inl, inr, bind_ok, or_throw_ok, require_ok,
  require_last, Bool-cases, arith,
}
use steelyard_sdk.Core.Json.{Json, Fields, get, as_record}
use steelyard_sdk.Merchant.Mandate.{
  JsonWebKey, TrustedKeys, key_set, key_function, ParsedJws, property, is_text, text_of, later_than,
  is_safe_integer, key_id_for_jwk, resolve_trusted_key, of_this_id, non_empty, signing_key,
  check_claims, check_payment, same_canonical, canonical_mandate_checkout,
  selected_payment_instrument, credential_token_from_instrument, same_value,
}

module _ (split_dots : String → List String) (decode : String → Option Json)
    (crypto_verify : (first second signature : String) → JsonWebKey → Bool)
    (thumbprint : JsonWebKey → String) (stringify : Json → String)
    (before : String → String → Bool) where
  abbrev pub id_of : JsonWebKey → String
  id_of = key_id_for_jwk split_dots decode crypto_verify thumbprint stringify before

  abbrev pub resolve : TrustedKeys → String → Option JsonWebKey
  resolve = resolve_trusted_key split_dots decode crypto_verify thumbprint stringify before

  -- a safe integer that is no later than `now`
  abbrev pub IsBy : Option Json → ℕ → Type 0
  IsBy (some (Json.natural n)) now = n ≤ now
  IsBy (some (Json.negative n)) now = Unit
  IsBy _ now = ⊥

  -- a safe integer that is later than `now`
  abbrev pub IsAfter : Option Json → ℕ → Type 0
  IsAfter (some (Json.natural n)) now = now < n
  IsAfter _ now = ⊥

  pub record Signed (trusted : TrustedKeys) (jws : ParsedJws) (key : JsonWebKey) : Type 0 where
    pub algorithm : property "alg" jws.header ≡ ok (some (Json.text "EdDSA"))
    pub type_of : property "typ" jws.header ≡ ok (some (Json.text "JWT"))
    pub kid : String
    pub has_kid : property "kid" jws.header ≡ ok (some (Json.text kid))
    pub trusted_key : resolve trusted kid ≡ some key
    pub is_its_id : id_of key ≡ kid
    pub is_signature : crypto_verify jws.first jws.second jws.signature key ≡ true

  pub record Claims (payload : Fields) (key_id audience : String) (now : ℕ) (subject : String)
      : Type 0 where
    pub version : get "steelyard:mandate_version" payload ≡ some (Json.text "v0.1")
    pub issuer : is_text (get "iss" payload) key_id ≡ true
    pub subject_claim : non_empty (text_of (get "sub" payload)) ≡ some subject
    pub audience_claim : is_text (get "aud" payload) audience ≡ true
    pub issued : IsBy (get "iat" payload) now
    pub unexpired : IsAfter (get "exp" payload) now

  pub record Pays (payload checkout : Fields) : Type 0 where
    pub same_checkout :
        same_canonical split_dots decode crypto_verify thumbprint stringify before
          (get "steelyard:checkout" payload)
          (canonical_mandate_checkout split_dots decode crypto_verify thumbprint stringify before
            checkout)
        ≡ true
    pub instrument : Fields
    pub selected : selected_payment_instrument checkout ≡ some instrument
    pub token : String
    pub credential : credential_token_from_instrument instrument ≡ some token
    pub same_token :
        is_text (get "credential_id" (as_record (get "steelyard:payment" payload))) token ≡ true
    pub same_handler :
        same_value
          (get "handler_id" (as_record (get "steelyard:payment" payload)))
          (get "handler_id" instrument)
        ≡ true

  find_id :
      (keys : List JsonWebKey) (id : String) (key : JsonWebKey)
      → find (λ k. str_eq (id_of k) id) keys ≡ some key
      → id_of key ≡ id
  find_id [] id key e = absurd (cc e)
  find_id (k ∷ keys) id key e = elim (Bool-cases (str_eq (id_of k) id)) [
    | inl t ↦
        let same : k ≡ key = ground (arith, e, t) in
        ap id_of (sym same) ∙ (str_eq_iff (id_of k) id).0 t
    | inr t ↦ find_id keys id key (ground (arith, e, t))
  ]

  resolve-id :
      (trusted : TrustedKeys) (id : String) (key : JsonWebKey)
      → resolve trusted id ≡ some key
      → id_of key ≡ id
  unfolding resolve_trusted_key
  resolve-id (key_set keys) id key e = find_id keys id key e
  resolve-id (key_function f) id key e = of_id (f id) e
    where
      of_id :
          (o : Option JsonWebKey)
          → of_this_id split_dots decode crypto_verify thumbprint stringify before id o ≡ some key
          → id_of key ≡ id
      of_id none e = absurd (cc e)
      of_id (some k) e = elim (Bool-cases (str_eq (id_of k) id)) [
        | inl t ↦
            let same : k ≡ key = ground (arith, e, t) in
            ap id_of (sym same) ∙ (str_eq_iff (id_of k) id).0 t
        | inr t ↦ absurd (ground (arith, e, t))
      ]

  text_of-text : (o : Option Json) (t : String) → text_of o ≡ some t → o ≡ some (Json.text t)
  text_of-text none t e = absurd (cc e)
  text_of-text (some (Json.text s)) t e = cc e
  text_of-text (some Json.null) t e = absurd (cc e)
  text_of-text (some (Json.boolean _)) t e = absurd (cc e)
  text_of-text (some (Json.natural _)) t e = absurd (cc e)
  text_of-text (some (Json.negative _)) t e = absurd (cc e)
  text_of-text (some (Json.other_number _)) t e = absurd (cc e)
  text_of-text (some (Json.array _)) t e = absurd (cc e)
  text_of-text (some (Json.object _)) t e = absurd (cc e)

  is_text-text : (o : Option Json) (t : String) → is_text o t ≡ true → o ≡ some (Json.text t)
  is_text-text none t e = absurd (cc e)
  is_text-text (some (Json.text s)) t e = ap (λ x. some (Json.text x)) ((str_eq_iff s t).0 e)
  is_text-text (some Json.null) t e = absurd (cc e)
  is_text-text (some (Json.boolean _)) t e = absurd (cc e)
  is_text-text (some (Json.natural _)) t e = absurd (cc e)
  is_text-text (some (Json.negative _)) t e = absurd (cc e)
  is_text-text (some (Json.other_number _)) t e = absurd (cc e)
  is_text-text (some (Json.array _)) t e = absurd (cc e)
  is_text-text (some (Json.object _)) t e = absurd (cc e)

  is_safe_integer-IsBy :
      (o : Option Json) (now : ℕ)
      → is_safe_integer o ≡ true
      → not (later_than o now) ≡ true
      → IsBy o now
  is_safe_integer-IsBy (some (Json.natural n)) now e h = ground arith
  is_safe_integer-IsBy (some (Json.negative n)) now e h = tt
  is_safe_integer-IsBy none now e h = absurd (cc e)
  is_safe_integer-IsBy (some Json.null) now e h = absurd (cc e)
  is_safe_integer-IsBy (some (Json.boolean _)) now e h = absurd (cc e)
  is_safe_integer-IsBy (some (Json.other_number _)) now e h = absurd (cc e)
  is_safe_integer-IsBy (some (Json.text _)) now e h = absurd (cc e)
  is_safe_integer-IsBy (some (Json.array _)) now e h = absurd (cc e)
  is_safe_integer-IsBy (some (Json.object _)) now e h = absurd (cc e)

  later_than-IsAfter : (o : Option Json) (now : ℕ) → later_than o now ≡ true → IsAfter o now
  later_than-IsAfter (some (Json.natural n)) now h = ground arith
  later_than-IsAfter none now h = absurd (cc h)
  later_than-IsAfter (some Json.null) now h = absurd (cc h)
  later_than-IsAfter (some (Json.boolean _)) now h = absurd (cc h)
  later_than-IsAfter (some (Json.negative _)) now h = absurd (cc h)
  later_than-IsAfter (some (Json.other_number _)) now h = absurd (cc h)
  later_than-IsAfter (some (Json.text _)) now h = absurd (cc h)
  later_than-IsAfter (some (Json.array _)) now h = absurd (cc h)
  later_than-IsAfter (some (Json.object _)) now h = absurd (cc h)

  -- a property that is a text is a field of the record
  property-get :
      (key : String) (v : Json) (t : String)
      → property key v ≡ ok (some (Json.text t))
      → get key (as_record (some v)) ≡ some (Json.text t)
  unfolding property
  property-get key Json.null t e = absurd (cc e)
  property-get key (Json.object entries) t e = ok_injective _ _ e
  property-get key (Json.boolean _) t e = absurd (cc (ok_injective _ _ e))
  property-get key (Json.natural _) t e = absurd (cc (ok_injective _ _ e))
  property-get key (Json.negative _) t e = absurd (cc (ok_injective _ _ e))
  property-get key (Json.other_number _) t e = absurd (cc (ok_injective _ _ e))
  property-get key (Json.text _) t e = absurd (cc (ok_injective _ _ e))
  property-get key (Json.array _) t e = absurd (cc (ok_injective _ _ e))

  pub signing_key-Signed :
      (trusted : TrustedKeys) (jws : ParsedJws) (key : JsonWebKey)
      → signing_key split_dots decode crypto_verify thumbprint stringify before trusted jws ≡ ok key
      → Signed trusted jws key
  unfolding signing_key
  signing_key-Signed trusted jws key e =
      let (alg, algorithm, e1) = bind_ok (property "alg" jws.header) _ key e in
      let (is_eddsa, e2) = require_ok (is_text alg "EdDSA") _ _ key e1 in
      let (typ, type_of, e3) = bind_ok (property "typ" jws.header) _ key e2 in
      let (is_jwt, e4) = require_ok (is_text typ "JWT") _ _ key e3 in
      let (kid, has, e5) = bind_ok (property "kid" jws.header) _ key e4 in
      let (id, named, e6) = or_throw_ok (text_of kid) _ _ key e5 in
      let (k, found, e7) = or_throw_ok (resolve trusted id) _ _ key e6 in
      let (genuine, e8) =
        require_ok (crypto_verify jws.first jws.second jws.signature k) _ _ key e7 in
      let same : k ≡ key = cc e8 in
      let trusts = found ∙ ap (λ x. some x) same in
      record {
        algorithm = algorithm ∙ ap (λ o. ok o) (is_text-text alg "EdDSA" is_eddsa);
        type_of = type_of ∙ ap (λ o. ok o) (is_text-text typ "JWT" is_jwt);
        kid = id;
        has_kid = has ∙ ap (λ o. ok o) (text_of-text kid id named);
        trusted_key = trusts;
        is_its_id = resolve-id trusted id key trusts;
        is_signature = ap (crypto_verify jws.first jws.second jws.signature) (sym same) ∙ genuine;
      }

  pub check_claims-Claims :
      (payload : Json) (key_id audience : String) (now : ℕ) (subject : String)
      → check_claims split_dots decode crypto_verify thumbprint stringify before payload key_id
          audience now
        ≡ ok subject
      → Claims (as_record (some payload)) key_id audience now subject
  unfolding check_claims
  check_claims-Claims payload key_id audience now subject e =
      let claim = λ (key : String). get key (as_record (some payload)) in
      let (version, versioned, e1) =
        bind_ok (property "steelyard:mandate_version" payload) _ subject e in
      let (is_v, e2) = require_ok (is_text version "v0.1") _ _ subject e1 in
      let (iss, e3) = require_ok (is_text (claim "iss") key_id) _ _ subject e2 in
      let (sub, named, e4) = or_throw_ok (non_empty (text_of (claim "sub"))) _ _ subject e3 in
      let (aud, e5) = require_ok (is_text (claim "aud") audience) _ _ subject e4 in
      let (whole, e6) = require_ok (is_safe_integer (claim "iat")) _ _ subject e5 in
      let (iat, e7) = require_ok (not (later_than (claim "iat") now)) _ _ subject e6 in
      let (_, e8) = require_ok (is_safe_integer (claim "exp")) _ _ subject e7 in
      let (exp, e9) = require_ok (later_than (claim "exp") now) _ _ subject e8 in
      let same : sub ≡ subject = cc e9 in
      record {
        version =
            property-get "steelyard:mandate_version" payload "v0.1"
              (versioned ∙ ap (λ o. ok o) (is_text-text version "v0.1" is_v));
        issuer = iss;
        subject_claim = named ∙ ap (λ x. some x) same;
        audience_claim = aud;
        issued = is_safe_integer-IsBy (claim "iat") now whole iat;
        unexpired = later_than-IsAfter (claim "exp") now exp;
      }

  pub check_payment-Pays :
      (payload checkout : Fields)
      → check_payment split_dots decode crypto_verify thumbprint stringify before payload checkout
        ≡ ok tt
      → Pays payload checkout
  unfolding check_payment
  check_payment-Pays payload checkout e =
      let payment = as_record (get "steelyard:payment" payload) in
      let (same, e1) =
        require_ok
          (same_canonical split_dots decode crypto_verify thumbprint stringify before
            (get "steelyard:checkout" payload)
            (canonical_mandate_checkout split_dots decode crypto_verify thumbprint stringify before
              checkout))
          _ _ tt e in
      let (chosen, found, e2) = or_throw_ok (selected_payment_instrument checkout) _ _ tt e1 in
      let (token, has, e3) =
        or_throw_ok (non_empty (credential_token_from_instrument chosen)) _ _ tt e2 in
      let (credential, e4) = require_ok (is_text (get "credential_id" payment) token) _ _ tt e3 in
      let handler : same_value (get "handler_id" payment) (get "handler_id" chosen) ≡ true =
        require_last (same_value (get "handler_id" payment) (get "handler_id" chosen)) _ e4 in
      record {
        same_checkout = same;
        instrument = chosen;
        selected = found;
        token = token;
        credential = filled (credential_token_from_instrument chosen) token has;
        same_token = credential;
        same_handler = handler;
      }
    where
      filled : (o : Option String) (t : String) → non_empty o ≡ some t → o ≡ some t
      filled none t h = absurd (cc h)
      filled (some s) t h = elim (Bool-cases (is_empty s)) [
        | inl b ↦ absurd (ground (arith, h, b))
        | inr b ↦ ground (arith, h, b)
      ]
