-- ===== src/Core/PolicyYaml.antt =====
-- The evaluation of policy documents (packages/core/src/policy-yaml/evaluate.ts and glob.ts). Outside are
-- `normalize_domain` (`normalizeMerchantDomain`, which rests on the platform's URL parser),
-- `normalize_currency` and `split_dots`, the split of a text at its dots. A condition that is one text is
-- a list of it; an empty text is no condition. Amounts are whole and not negative, as the schema asks.
pub mod Glob
pub mod Limits
pub mod Decides
use steelyard_sdk.Base.{
  ℕ, ◌+◌, String, Bool, true, false, not, ◌&&◌, ◌||◌, Option, some, none, List, [], ◌∷◌, ◌++◌, map,
  any, keep, find, includes, str_eq, ltb, if◌then◌else◌,
}
use Prim.Native.Nat.{min}
use steelyard_sdk.Base.Maps.{Dict, lookup, insert}
use steelyard_sdk.Vault.{SpendWindow, daily, weekly, monthly, SpendLimits, PurchaseIntent}
use steelyard_sdk.Vault.Operations.{caps}

pub data Effect : Type 0 where
  can cannot : Effect

pub record AmountPredicate : Type 0 where
  pub lte : Option ℕ
  pub gte : Option ℕ
  pub between : Option (ℕ × ℕ)

pub record Where : Type 0 where
  pub merchant_domain : Option (List String)
  pub currency : Option (List String)
  pub offer_category : Option (List String)
  pub amount : Option AmountPredicate

pub record Threshold : Type 0 where
  pub amount : ℕ
  pub currency : String

pub record Rule : Type 0 where
  pub name : String
  pub effect : Effect
  pub condition : Option Where
  pub requires_approval_above : Option Threshold

-- `default: allow`, and the rest of a document
pub record Document : Type 0 where
  pub allows : Bool
  pub rules : List Rule
  pub limits : SpendLimits

pub record Intent : Type 0 where
  pub purchase : PurchaseIntent
  pub categories : List String

pub data DeniedReason : Type 0 where
  spend_limits_require_vault default_deny : DeniedReason
  limit_exceeded : SpendWindow → DeniedReason
  blocked_by : (rule : String) → DeniedReason

pub data Decision : Type 0 where
  denied : DeniedReason → Decision
  allowed_by : (rule : String) → Decision
  allowed_by_default : Decision
  approval_required : Threshold → (matched_rule : String) → Decision

-- what `spendInWindow` answers
pub record Spend : Type 0 where
  pub pending : ℕ
  pub captured : ℕ

abbrev pub is_nil {ℓ} : {A : Type ℓ} → List A → Bool
is_nil [] = true
is_nil (x ∷ xs) = false

-- whether a test holds of the list or of one that is left when labels are taken off its front, and which
-- is not empty
abbrev pub any_suffix : (List String → Bool) → List String → Bool
any_suffix test [] = false
any_suffix test (c ∷ cs) = test (c ∷ cs) || any_suffix test cs

abbrev pub one_label : Bool → (List String → Bool) → List String → Bool
one_label fits test [] = false
one_label fits test (c ∷ cs) = fits && test cs

abbrev pub head_fits : String → List String → Bool
head_fits head [] = false
head_fits head (c ∷ cs) = str_eq head "*" || str_eq head c

-- `matchParts`
unfoldable pub match_parts : (pattern candidate : List String) → Bool
match_parts [] candidate = is_nil candidate
match_parts (head ∷ tail) candidate =
    if str_eq head "**"
    then (if is_nil tail
        then not (is_nil candidate)
        else any_suffix (match_parts tail) candidate || match_parts tail candidate)
    else one_label (head_fits head candidate) (match_parts tail) candidate

abbrev pub is_can : Effect → Bool
is_can can = true
is_can cannot = false

abbrev pub holds_for {ℓ} : {A : Type ℓ} → Option A → (A → Bool) → Bool
holds_for none test = true
holds_for (some a) test = test a

-- the comparisons of `where.amount`
unfoldable pub amount_fits : AmountPredicate → ℕ → Bool
amount_fits p amount =
    holds_for p.lte (λ cap. not (ltb cap amount))
    && (holds_for p.gte (λ least. not (ltb amount least))
        && holds_for p.between (λ range. not (ltb amount range.0 || ltb range.1 amount)))

unfoldable pub default_decision : List Document → Decision
default_decision [] = denied default_deny
default_decision (d ∷ ds) = if d.allows then allowed_by_default else denied default_deny

abbrev pub with_effect : (Effect → Bool) → List Document → List Rule
with_effect test [] = []
with_effect test (d ∷ ds) = keep (λ (r : Rule). test r.effect) d.rules ++ with_effect test ds

-- `Math.min(merged[…] ?? Infinity, amount)`
abbrev pub min_or : Option ℕ → ℕ → ℕ
min_or none amount = amount
min_or (some cap) amount = min cap amount

abbrev pub entries_of : SpendWindow → List Document → Dict ℕ
entries_of window [] = []
entries_of window (d ∷ ds) = caps window d.limits ++ entries_of window ds

abbrev pub some_positive : Dict ℕ → Bool
some_positive [] = false
some_positive ((currency, amount) ∷ entries) = ltb 0 amount || some_positive entries

unfoldable pub has_limits : SpendLimits → Bool
has_limits limits =
    some_positive limits.daily_caps
    || (some_positive limits.weekly_caps || some_positive limits.monthly_caps)

abbrev pub over_cap : Spend → ℕ → Option ℕ → Bool
over_cap spend amount none = false
over_cap spend amount (some cap) = ltb cap (spend.pending + spend.captured + amount)

abbrev pub over_window : SpendLimits → Intent → (SpendWindow → String → Spend) → SpendWindow → Bool
over_window limits i spend_in window =
    over_cap (spend_in window i.purchase.currency) i.purchase.amount
      (lookup i.purchase.currency (caps window limits))

unfoldable pub evaluate_limits :
    SpendLimits → Intent → (SpendWindow → String → Spend) → Option Decision
evaluate_limits limits i spend_in =
    if over_window limits i spend_in daily
    then some (denied (limit_exceeded daily))
    else if over_window limits i spend_in weekly
    then some (denied (limit_exceeded weekly))
    else if over_window limits i spend_in monthly
    then some (denied (limit_exceeded monthly))
    else none

abbrev pub decision_or : Option Decision → Decision → Decision
decision_or none rest = rest
decision_or (some d) rest = d

-- the limits, where there are some; `vault` is none if the context has no vault
unfoldable pub check_limits :
    SpendLimits → Intent → Option (SpendWindow → String → Spend) → Option Decision
check_limits limits i vault =
    if has_limits limits
    then elim vault [
      | none ↦ some (denied spend_limits_require_vault)
      | some spend_in ↦ evaluate_limits limits i spend_in
    ]
    else none

module _ (normalize_currency : String → String) where
  unfoldable pub allowed_decision : Rule → Intent → Decision
  allowed_decision rule i = elim rule.requires_approval_above [
    | none ↦ allowed_by rule.name
    | some threshold ↦
        if str_eq (normalize_currency threshold.currency) i.purchase.currency
          && ltb threshold.amount i.purchase.amount
        then approval_required threshold rule.name
        else allowed_by rule.name
  ]

  unfoldable pub merge_entries : Dict ℕ → Dict ℕ → Dict ℕ
  merge_entries [] merged = merged
  merge_entries ((currency, amount) ∷ entries) merged = merge_entries entries (
      insert (normalize_currency currency)
        (min_or (lookup (normalize_currency currency) merged) amount) merged)

  unfoldable pub merge_limits : List Document → SpendLimits
  merge_limits documents = record {
    daily_caps = merge_entries (entries_of daily documents) [];
    weekly_caps = merge_entries (entries_of weekly documents) [];
    monthly_caps = merge_entries (entries_of monthly documents) [];
  }

module _ (split_dots : String → List String)
    (normalize_domain normalize_currency : String → String) where
  -- `normalizeIntent`
  unfoldable pub normalize_intent : Intent → Intent
  normalize_intent i = record i {
    purchase = record i.purchase {
      merchant_domain = normalize_domain i.purchase.merchant_domain;
      currency = normalize_currency i.purchase.currency;
    };
  }

  unfoldable pub domain_matches : (pattern candidate : String) → Bool
  domain_matches pattern candidate =
      match_parts (split_dots (normalize_domain pattern)) (split_dots (normalize_domain candidate))

  unfoldable pub where_matches : Where → Intent → Bool
  where_matches w i =
      holds_for w.merchant_domain
        (λ patterns. any (λ p. domain_matches p i.purchase.merchant_domain) patterns)
      && (holds_for w.currency
            (λ names. includes (map normalize_currency names) i.purchase.currency)
          && (holds_for w.offer_category (λ names. any (λ c. includes i.categories c) names)
              && holds_for w.amount (λ p. amount_fits p i.purchase.amount)))

  unfoldable pub matches_rule : Rule → Intent → Bool
  matches_rule rule i = holds_for rule.condition (λ w. where_matches w i)

  -- the rules, once the limits have not denied
  unfoldable pub evaluate_rules : List Document → Intent → Decision
  evaluate_rules documents i =
      elim (find (λ r. matches_rule r i) (with_effect (λ e. not (is_can e)) documents)) [
        | some rule ↦ denied (blocked_by rule.name)
        | none ↦ elim (find (λ r. matches_rule r i) (with_effect is_can documents)) [
          | some rule ↦ allowed_decision normalize_currency rule i
          | none ↦ default_decision documents
        ]
      ]

  unfoldable pub evaluate_policy :
      List Document → Intent → Option (SpendWindow → String → Spend) → Decision
  evaluate_policy documents intent vault =
      decision_or
        (check_limits (merge_limits normalize_currency documents) (normalize_intent intent) vault)
        (evaluate_rules documents (normalize_intent intent))
