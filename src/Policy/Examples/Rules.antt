-- ===== src/Policy/Examples/Rules.antt =====
-- The properties of the evaluator and of the snapshot store at concrete inputs (packages/policy/src).
use mathlib.Core.List.{Memᴰ, Perm}
use steelyard_sdk.Base.{
  ◌≡◌, refl, String, true, false, Option, some, none, [], ◌∷◌, map, keep, if◌then◌else◌, str_eq, ok,
  arith,
}
use steelyard_sdk.Base.Int.{pos}
use steelyard_sdk.Base.Maps.{lookup, insert}
use steelyard_sdk.Policy.Ledger.{RuleLimits}
use steelyard_sdk.Policy.Evaluator.{
  RuleEffect, allow, deny, one_time, virtual_card, ResolvedWhen, ResolvedRule, ResolvedPolicy,
  NormalizedFacts, when_matches, predicate_matches, evaluate,
}
use steelyard_sdk.Policy.Evaluator.Precedence.{
  Decides, denies_when, grants, denies, evaluate-Decides, evaluate-veto, evaluate-accounts,
}
use steelyard_sdk.Policy.Snapshots.{
  PolicySnapshot, SnapshotStore, empty_store, add, retain, release, gc,
}
use steelyard_sdk.Policy.Snapshots.Retention.{
  IsConsistent, empty-IsConsistent, is_garbage, gc-drops_garbage, gc-IsConsistent, add-IsConsistent,
  retain-gc-release,
}

abbrev no_limits : RuleLimits
no_limits = record { per_day_usd = none; per_day_count = none; per_purchase_usd = none }

abbrev no_tls : ResolvedWhen
no_tls = record {
  merchant_domain_in = none;
  amount_usd = none;
  types = none;
  cart_contains = none;
  merchant_supports_ucp_acp = false;
  merchant_signature_verified = false;
  tls_required = true;
}

abbrev rule : String → RuleEffect → Option ResolvedWhen → ResolvedRule
rule name effect condition = record {
  name = name;
  effect = effect;
  rail = some virtual_card;
  condition = condition;
  limits = no_limits;
  approval_expires_in = none;
}

abbrev grant : ResolvedRule
grant = rule "small" allow none

abbrev veto : ResolvedRule
veto = rule "secure" deny (some no_tls)

abbrev policy : ResolvedPolicy
policy = record { version = "1"; rules = grant ∷ veto ∷ [] }

abbrev facts : NormalizedFacts
facts = record {
  merchant_domain = "shop.example";
  amount_usd = pos 500;
  intent_type = one_time;
  cart_contains = [];
  merchant_supports_ucp_acp = true;
  tls_ok = true;
}

evaluate-Decides_example :
    Decides denies_when grants denies
      (λ r. predicate_matches r facts)
      (grant ∷ veto ∷ [])
      (evaluate policy facts)
evaluate-Decides_example = evaluate-Decides policy facts

evaluate-veto_example : (evaluate policy facts).effect ≡ deny
unfolding predicate_matches when_matches
evaluate-veto_example = evaluate-veto policy facts veto (Memᴰ.tail (Memᴰ.head refl)) refl refl

evaluate-accounts_example :
    Perm ((evaluate policy facts).matched_rule ∷ (evaluate policy facts).counterfactuals) (
      map
        (λ (s : ResolvedRule). s.name)
        (keep (λ r. predicate_matches r facts) (grant ∷ veto ∷ [])))
unfolding predicate_matches when_matches
evaluate-accounts_example = evaluate-accounts policy facts (λ e. ground arith)

abbrev hash_of : ResolvedPolicy → String
hash_of p = p.version

abbrev policy_2 : ResolvedPolicy
policy_2 = record { version = "2"; rules = [] }

abbrev snapshot : PolicySnapshot
snapshot = record { policy_hash = "1"; policy = policy; yaml_bytes = "y" }

-- one retained policy that is current no more, and one that is
abbrev store : SnapshotStore
store = record {
  snapshots =
      ("1", snapshot)
      ∷ ("2", record { policy_hash = "2"; policy = policy_2; yaml_bytes = "z" })
      ∷ [];
  refcounts = ("1", 0) ∷ ("2", 0) ∷ [];
  current_hash = some "2";
}

gc-drops_garbage_example :
    (lookup "1" (gc store).0.snapshots
      ≡ (if is_garbage store "1" then none else lookup "1" store.snapshots))
    × (lookup "1" (gc store).0.refcounts
        ≡ (if is_garbage store "1" then none else lookup "1" store.refcounts))
    × ((gc store).0.current_hash ≡ some "2")
unfolding lookup str_eq
gc-drops_garbage_example = gc-drops_garbage store "1" (refl, (refl, tt))

gc-IsConsistent_example : IsConsistent (gc (add hash_of policy "y" empty_store)).0
unfolding lookup add insert
gc-IsConsistent_example =
    gc-IsConsistent (add hash_of policy "y" empty_store) (refl, tt)
      (add-IsConsistent hash_of policy "y" empty_store empty-IsConsistent)

abbrev retained : SnapshotStore
retained = record store { refcounts = ("1", 1) ∷ ("2", 0) ∷ [] }

retain-gc-release_example :
    (lookup "1" (gc retained).0.snapshots ≡ lookup "1" store.snapshots)
    × ((s'' : SnapshotStore) × (release "1" retained ≡ ok s'')
        × ((j : String) → lookup j s''.refcounts ≡ lookup j store.refcounts))
unfolding retain lookup insert str_eq
retain-gc-release_example = retain-gc-release "1" store retained (refl, (refl, tt)) refl
