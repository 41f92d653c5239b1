-- ===== src/Core/Examples.antt =====
-- The properties of the core package at concrete inputs (packages/core/src).
use steelyard_sdk.Base.{
  ℕ, arith, ◌≡◌, refl, String, true, false, not, some, none, List, [], ◌∷◌, str_eq, ok, ◌↔◌,
}
use steelyard_sdk.Base.Maps.{lookup, insert}
use steelyard_sdk.Vault.{SpendWindow, daily}
use steelyard_sdk.Vault.Operations.{caps}
use steelyard_sdk.Core.OrderState.{captured, map_acp_to_order_state, map_ucp_checkout_status}
use steelyard_sdk.Core.OrderState.Agreement.{map_ucp_checkout_status-map_acp_to_order_state}
use steelyard_sdk.Core.Der.{raw_to_der, der_to_raw}
use steelyard_sdk.Core.Der.RoundTrip.{raw_to_der-der_to_raw}
use steelyard_sdk.Core.PolicyYaml.{
  can, cannot, Where, AmountPredicate, Rule, Document, Intent, Spend, entries_of, merge_limits,
  merge_entries, normalize_intent, matches_rule, evaluate_policy, is_can, match_parts,
}
use steelyard_sdk.Core.PolicyYaml.Glob.{Matches, match_parts-Matches}
use steelyard_sdk.Core.PolicyYaml.Limits.{IsLowest, amounts_in, merge_limits-IsLowest}
use steelyard_sdk.Core.PolicyYaml.Decides.{KeepsLimits, Granted, some_rule, evaluate_policy-permits}

map_ucp_checkout_status-map_acp_to_order_state_example :
    map_acp_to_order_state "complete_in_progress" (some "completed") ≡ ok captured
unfolding map_ucp_checkout_status str_eq
map_ucp_checkout_status-map_acp_to_order_state_example =
    map_ucp_checkout_status-map_acp_to_order_state "complete_in_progress" captured refl

match_parts-Matches_example :
    (match_parts ("**" ∷ "example" ∷ "*" ∷ []) ("shop" ∷ "example" ∷ "com" ∷ []) ≡ true)
    ↔ Matches ("**" ∷ "example" ∷ "*" ∷ []) ("shop" ∷ "example" ∷ "com" ∷ [])
match_parts-Matches_example =
    match_parts-Matches ("**" ∷ "example" ∷ "*" ∷ []) ("shop" ∷ "example" ∷ "com" ∷ [])

-- currencies and domains in their normal form
abbrev same : String → String
same c = c

-- one label for each domain
abbrev one_label : String → List String
one_label d = d ∷ []

abbrev project : Document
project = record {
  allows = false;
  rules =
      record {
        name = "no games";
        effect = cannot;
        condition = some (record {
          merchant_domain = some ("games" ∷ []);
          currency = none;
          offer_category = none;
          amount = none;
        });
        requires_approval_above = none;
      }
      ∷ record {
        name = "small";
        effect = can;
        condition = some (record {
          merchant_domain = none;
          currency = some ("USD" ∷ []);
          offer_category = none;
          amount = some (record { lte = some 500; gte = none; between = none });
        });
        requires_approval_above = none;
      }
      ∷ [];
  limits = record { daily_caps = ("USD", 1000) ∷ []; weekly_caps = []; monthly_caps = [] };
}

abbrev global : Document
global = record {
  allows = true;
  rules = [];
  limits = record { daily_caps = ("USD", 700) ∷ []; weekly_caps = []; monthly_caps = [] };
}

abbrev documents : List Document
documents = project ∷ global ∷ []

merge_limits-IsLowest_example :
    IsLowest
      (amounts_in same "USD" (entries_of daily documents))
      (lookup "USD" (caps daily (merge_limits same documents)))
merge_limits-IsLowest_example = merge_limits-IsLowest same documents daily "USD"

abbrev intent : Intent
intent = record {
  purchase = record { intent_id = "i"; merchant_domain = "shop"; amount = 400; currency = "USD" };
  categories = [];
}

abbrev spent : SpendWindow → String → Spend
spent window currency = record { pending = 100; captured = 200 }

evaluate_policy-permits_example :
    (some_rule
        (λ e. not (is_can e))
        (λ r. matches_rule one_label same same r (normalize_intent one_label same same intent))
        documents
      ≡ false)
    × KeepsLimits
        (merge_limits same documents)
        (normalize_intent one_label same same intent)
        (some spent)
    × Granted one_label same same documents
        (normalize_intent one_label same same intent)
        (evaluate_policy one_label same same documents intent (some spent))
unfolding evaluate_policy steelyard_sdk.Core.PolicyYaml.check_limits
    steelyard_sdk.Core.PolicyYaml.has_limits merge_limits merge_entries insert str_eq lookup
    steelyard_sdk.Core.PolicyYaml.evaluate_limits normalize_intent
    steelyard_sdk.Core.PolicyYaml.evaluate_rules matches_rule
    steelyard_sdk.Core.PolicyYaml.where_matches steelyard_sdk.Core.PolicyYaml.domain_matches
    match_parts steelyard_sdk.Core.PolicyYaml.amount_fits
    steelyard_sdk.Core.PolicyYaml.allowed_decision steelyard_sdk.Core.PolicyYaml.default_decision
evaluate_policy-permits_example =
    evaluate_policy-permits one_label same same documents intent (some spent) refl

-- two numbers, of which the first has a leading zero and the second its first bit set
raw_to_der-der_to_raw_example :
    (der : List ℕ) × (raw_to_der (0 ∷ 5 ∷ 200 ∷ 1 ∷ []) ≡ ok der)
    × (der_to_raw der 4 ≡ ok (0 ∷ 5 ∷ 200 ∷ 1 ∷ []))
raw_to_der-der_to_raw_example =
    raw_to_der-der_to_raw (0 ∷ 5 ∷ 200 ∷ 1 ∷ []) (omega arith) (omega arith)
