-- ===== src/Policy/Evaluator.antt =====
-- Rules and their evaluation (packages/policy/src/evaluator.ts, the types of schema/load.ts and
-- facts.ts). The bounds of an amount are in cents: the code compares dollars, and a bound of at
-- most two decimals is a number of cents. The tags that say where a fact comes from decide nothing
-- and are left out.
pub mod Precedence
use steelyard_sdk.Base.{
  ℕ, String, Bool, true, false, not, ◌&&◌, ◌||◌, Option, some, none, List, [], ◌∷◌, map, any, keep,
  find, is_some, if◌then◌else◌, includes, str_eq,
}
use steelyard_sdk.Base.Int.{ℤ, ltb_ℤ}
use steelyard_sdk.Policy.Ledger.{RuleLimits}

pub data RuleEffect : Type 0 where
  allow deny require_approval : RuleEffect

pub data IntentType : Type 0 where
  one_time subscription mandate installment : IntentType

pub data RailName : Type 0 where
  virtual_card : RailName

pub record AmountRange : Type 0 where
  pub min_cents : Option ℤ
  pub max_cents : Option ℤ

-- `type` is the array of the allowed values, of one if the source has a single one.
pub record ResolvedWhen : Type 0 where
  pub merchant_domain_in : Option (List String)
  pub amount_usd : Option AmountRange
  pub types : Option (List IntentType)
  pub cart_contains : Option (List String)
  pub merchant_supports_ucp_acp : Bool
  pub merchant_signature_verified : Bool
  pub tls_required : Bool

pub record ResolvedRule : Type 0 where
  pub name : String
  pub effect : RuleEffect
  pub rail : Option RailName
  pub condition : Option ResolvedWhen
  pub limits : RuleLimits
  pub approval_expires_in : Option (List ℕ)

pub record ResolvedPolicy : Type 0 where
  pub version : String
  pub rules : List ResolvedRule

pub record NormalizedFacts : Type 0 where
  pub merchant_domain : String
  pub amount_usd : ℤ
  pub intent_type : IntentType
  pub cart_contains : List String
  pub merchant_supports_ucp_acp : Bool
  pub tls_ok : Bool

pub record Decision : Type 0 where
  pub effect : RuleEffect
  pub matched_rule : String
  pub rule : ResolvedRule
  pub counterfactuals : List String

abbrev pub same_type : IntentType → IntentType → Bool
same_type one_time one_time = true
same_type subscription subscription = true
same_type mandate mandate = true
same_type installment installment = true
same_type _ _ = false

abbrev pub is_deny : RuleEffect → Bool
is_deny deny = true
is_deny _ = false

-- A condition that is absent does not restrict.
abbrev pub holds_if {ℓ} : {A : Type ℓ} → Option A → (A → Bool) → Bool
holds_if none test = true
holds_if (some a) test = test a

abbrev pub exceeds {ℓ} : {A : Type ℓ} → Option A → (A → Bool) → Bool
exceeds none test = false
exceeds (some a) test = test a

unfoldable pub amount_matches : AmountRange → NormalizedFacts → Bool
amount_matches range facts =
    not (exceeds range.min_cents (λ lo. ltb_ℤ facts.amount_usd lo))
    && not (exceeds range.max_cents (λ hi. ltb_ℤ hi facts.amount_usd))

unfoldable pub type_matches : List IntentType → IntentType → Bool
type_matches allowed value = any (λ a. same_type a value) allowed

unfoldable pub cart_matches : List String → List String → Bool
cart_matches needed actual = any (includes actual) needed

unfoldable pub when_matches : ResolvedWhen → NormalizedFacts → Bool
when_matches w facts =
    holds_if w.merchant_domain_in (λ domains. includes domains facts.merchant_domain)
    && (holds_if w.amount_usd (λ range. amount_matches range facts)
        && (holds_if w.types (λ allowed. type_matches allowed facts.intent_type)
            && (holds_if w.cart_contains (λ needed. cart_matches needed facts.cart_contains)
                && ((not w.merchant_supports_ucp_acp || facts.merchant_supports_ucp_acp)
                    && (not w.merchant_signature_verified
                        && (not w.tls_required || facts.tls_ok))))))

unfoldable pub predicate_matches : ResolvedRule → NormalizedFacts → Bool
predicate_matches rule facts = holds_if rule.condition (λ w. when_matches w facts)

-- `matches.filter((rule) => rule !== winner)`, the winner being the first that passes the test
unfoldable pub without_first : (ResolvedRule → Bool) → List ResolvedRule → List ResolvedRule
without_first p [] = []
without_first p (r ∷ rs) = if p r then rs else r ∷ without_first p rs

abbrev pub is_hard_deny : ResolvedRule → Bool
is_hard_deny r = is_deny r.effect && is_some r.condition

abbrev pub is_grant : ResolvedRule → Bool
is_grant r = not (is_deny r.effect)

abbrev pub is_denial : ResolvedRule → Bool
is_denial r = is_deny r.effect

abbrev pub no_match_name : String
no_match_name = "<no-match>"

abbrev pub no_match_rule : ResolvedRule
no_match_rule = record {
  name = no_match_name;
  effect = deny;
  rail = none;
  condition = none;
  limits = record { per_day_usd = none; per_day_count = none; per_purchase_usd = none };
  approval_expires_in = none;
}

unfoldable pub decision :
    RuleEffect → ResolvedRule → (ResolvedRule → Bool) → List ResolvedRule → Decision
decision effect winner p matches = record {
  effect = effect;
  matched_rule = winner.name;
  rule = winner;
  counterfactuals = map (λ (r : ResolvedRule). r.name) (without_first p matches);
}

unfoldable pub choose_denial : List ResolvedRule → Decision
unfolding decision
choose_denial matches = elim (find is_denial matches) [
  | some rule ↦ decision rule.effect rule is_denial matches
  | none ↦ record {
    effect = deny;
    matched_rule = no_match_name;
    rule = no_match_rule;
    counterfactuals = [];
  }
]

unfoldable pub choose_winner : List ResolvedRule → Decision
unfolding decision
choose_winner matches = elim (find is_grant matches) [
  | some rule ↦ decision rule.effect rule is_grant matches
  | none ↦ choose_denial matches
]

unfoldable pub choose : List ResolvedRule → Decision
unfolding decision
choose matches = elim (find is_hard_deny matches) [
  | some rule ↦ decision deny rule is_hard_deny matches
  | none ↦ choose_winner matches
]

unfoldable pub evaluate : ResolvedPolicy → NormalizedFacts → Decision
evaluate policy facts = choose (keep (λ rule. predicate_matches rule facts) policy.rules)
