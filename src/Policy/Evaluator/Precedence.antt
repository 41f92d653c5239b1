-- ===== src/Policy/Evaluator/Precedence.antt =====
-- Which rule decides (packages/policy/src/evaluator.ts).
use steelyard_sdk.Base.{
  ◌≡◌, refl, ap, ◌≢◌, inl, inr, String, Bool, true, false, not, Option, is_some, ◌&&◌, some, none,
  List, [], ◌∷◌, ◌++◌, map, keep, find, All, arith, Bool-cases, Option-cases,
}
use mathlib.Core.Path.{subst, fun_ext}
use mathlib.Core.List.Perm
use mathlib.Core.List.{Memᴰ, Perm}
use steelyard_sdk.Policy.Evaluator.{
  RuleEffect, allow, deny, require_approval, ResolvedWhen, ResolvedRule, ResolvedPolicy,
  NormalizedFacts, Decision, is_deny, is_hard_deny, is_grant, is_denial, predicate_matches,
  without_first, decision, choose_denial, choose_winner, choose, evaluate, no_match_rule,
}

module _ (m : ResolvedRule → Bool) where
  -- The first matching rule that passes a test, found among all the rules.
  pub record IsFirst (p : ResolvedRule → Bool) (rules : List ResolvedRule) (r : ResolvedRule)
      : Type 0 where
    pub before : List ResolvedRule
    pub after : List ResolvedRule
    pub split : rules ≡ before ++ r ∷ after
    pub matching : m r ≡ true
    pub passes : p r ≡ true
    pub earlier : All (λ s. (m s && p s) ≡ false) before

  IsFirst-cons :
      (p : ResolvedRule → Bool) (s r : ResolvedRule) (rules : List ResolvedRule)
      → (m s && p s) ≡ false
      → IsFirst p rules r
      → IsFirst p (s ∷ rules) r
  IsFirst-cons p s r rules h f = record {
    before = s ∷ f.before;
    after = f.after;
    split = ap (λ (rs : List ResolvedRule). s ∷ rs) f.split;
    matching = f.matching;
    passes = f.passes;
    earlier = (h, f.earlier);
  }

  pub find-IsFirst :
      (p : ResolvedRule → Bool) (rules : List ResolvedRule) (r : ResolvedRule)
      → find p (keep m rules) ≡ some r
      → IsFirst p rules r
  find-IsFirst p [] r e = cc
  find-IsFirst p (s ∷ rules) r e = elim (Bool-cases (m s)) [
    | inr out ↦ IsFirst-cons p s r rules (rw out) (find-IsFirst p rules r (rw out at e))
    | inl kept ↦ elim (Bool-cases (p s)) [
      | inr fails ↦
          IsFirst-cons p s r rules (rw (kept, fails)) (find-IsFirst p rules r (ground arith))
      | inl passing ↦
          let same : s ≡ r = ground arith in
          record {
            before = [];
            after = rules;
            split = ap (λ (x : ResolvedRule). x ∷ rules) same;
            matching = rw (← same) kept;
            passes = rw (← same) passing;
            earlier = tt;
          }
    ]
  ]

  pub find-none :
      (p : ResolvedRule → Bool) (rules : List ResolvedRule)
      → find p (keep m rules) ≡ none
      → All (λ s. (m s && p s) ≡ false) rules
  find-none p [] e = tt
  find-none p (s ∷ rules) e = ground (arith, find-none p rules)

abbrev NoneOf : (m p : ResolvedRule → Bool) → List ResolvedRule → Type 0
NoneOf m p rules = All (λ s. (m s && p s) ≡ false) rules

-- How the rules decide: the first hard denial, or else the first grant, or else the first denial, of
-- those that match; or a denial by no rule.
pub data Decides (hard grant denial m : ResolvedRule → Bool) (rules : List ResolvedRule)
    (d : Decision) : Type 0 where
  vetoed :
      (r : ResolvedRule)
      → IsFirst m hard rules r
      → d.rule ≡ r
      → d.effect ≡ deny
      → Decides hard grant denial m rules d
  granted :
      (r : ResolvedRule)
      → NoneOf m hard rules
      → IsFirst m grant rules r
      → d.rule ≡ r
      → d.effect ≡ r.effect
      → Decides hard grant denial m rules d
  refused :
      (r : ResolvedRule)
      → NoneOf m hard rules
      → NoneOf m grant rules
      → IsFirst m denial rules r
      → d.rule ≡ r
      → d.effect ≡ deny
      → Decides hard grant denial m rules d
  unmatched :
      NoneOf m hard rules
      → NoneOf m grant rules
      → NoneOf m denial rules
      → d.rule ≡ no_match_rule
      → d.effect ≡ deny
      → Decides hard grant denial m rules d

deny_of_is_deny : (e : RuleEffect) → is_deny e ≡ true → e ≡ deny
deny_of_is_deny deny h = refl
deny_of_is_deny allow h = cc
deny_of_is_deny require_approval h = cc

module _ (m : ResolvedRule → Bool) (rules : List ResolvedRule) where
  choose_denial-Decides :
      NoneOf m is_hard_deny rules
      → NoneOf m is_grant rules
      → Decides is_hard_deny is_grant is_denial m rules (choose_denial (keep m rules))
  unfolding choose_denial
  choose_denial-Decides h g = elim (Option-cases (find is_denial (keep m rules))) [
    | inr (r, found) ↦
        let first = find-IsFirst m is_denial rules r found in
        rw (found, choose_denial) (refused r h g first refl (deny_of_is_deny r.effect first.passes))
    | inl missing ↦
        rw (missing, choose_denial) (unmatched h g (find-none m is_denial rules missing) refl refl)
  ]

  choose_winner-Decides :
      NoneOf m is_hard_deny rules
      → Decides is_hard_deny is_grant is_denial m rules (choose_winner (keep m rules))
  unfolding choose_winner
  choose_winner-Decides h = elim (Option-cases (find is_grant (keep m rules))) [
    | inr (r, found) ↦
        rw (found, choose_winner) (granted r h (find-IsFirst m is_grant rules r found) refl refl)
    | inl missing ↦
        rw (missing, choose_winner) (choose_denial-Decides h (find-none m is_grant rules missing))
  ]

  choose-Decides : Decides is_hard_deny is_grant is_denial m rules (choose (keep m rules))
  unfolding choose
  choose-Decides = elim (Option-cases (find is_hard_deny (keep m rules))) [
    | inr (r, found) ↦
        rw (found, choose) (vetoed r (find-IsFirst m is_hard_deny rules r found) refl refl)
    | inl missing ↦
        rw (missing, choose) (choose_winner-Decides (find-none m is_hard_deny rules missing))
  ]

decided :
    (policy : ResolvedPolicy) (facts : NormalizedFacts)
    → Decides is_hard_deny is_grant is_denial
        (λ rule. predicate_matches rule facts)
        policy.rules
        (evaluate policy facts)
unfolding evaluate
decided policy facts = choose-Decides (λ rule. predicate_matches rule facts) policy.rules

abbrev conditional_denial : RuleEffect → Option ResolvedWhen → Bool
conditional_denial deny (some _) = true
conditional_denial deny none = false
conditional_denial allow _ = false
conditional_denial require_approval _ = false

abbrev answer_of_grant : RuleEffect → Bool
answer_of_grant allow = true
answer_of_grant require_approval = true
answer_of_grant deny = false

-- denies with a `when`
abbrev pub denies_when : ResolvedRule → Bool
denies_when r = conditional_denial r.effect r.condition

-- allows or requires approval
abbrev pub grants : ResolvedRule → Bool
grants r = answer_of_grant r.effect

-- denies, with or without a `when`
abbrev pub denies : ResolvedRule → Bool
denies r = not (answer_of_grant r.effect)

same_hard :
    (e : RuleEffect) (c : Option ResolvedWhen) → (is_deny e && is_some c) ≡ conditional_denial e c
same_hard deny (some _) = refl
same_hard deny none = refl
same_hard allow _ = refl
same_hard require_approval _ = refl

same_grant : (e : RuleEffect) → not (is_deny e) ≡ answer_of_grant e
same_grant deny = refl
same_grant allow = refl
same_grant require_approval = refl

same_denial : (e : RuleEffect) → is_deny e ≡ not (answer_of_grant e)
same_denial deny = refl
same_denial allow = refl
same_denial require_approval = refl

-- Every evaluation names the rule that decides. If a matching rule denies with a `when`, the first such rule
-- does, and the effect is a denial. Otherwise, if a matching rule allows or requires approval, the first
-- such rule does, with its own effect, even where a rule that denies without a `when` stands before it.
-- Otherwise the first matching rule that denies does; with no match the effect is a denial by `no_match_rule`.
pub evaluate-Decides :
    (policy : ResolvedPolicy) (facts : NormalizedFacts)
    → Decides denies_when grants denies
        (λ rule. predicate_matches rule facts)
        policy.rules
        (evaluate policy facts)
evaluate-Decides policy facts =
    let m = λ (rule : ResolvedRule). predicate_matches rule facts in
    subst (λ p. Decides p grants denies m policy.rules (evaluate policy facts))
      (fun_ext (λ r. same_hard r.effect r.condition))
      (subst (λ p. Decides is_hard_deny p denies m policy.rules (evaluate policy facts))
        (fun_ext (λ r. same_grant r.effect))
        (subst (λ p. Decides is_hard_deny is_grant p m policy.rules (evaluate policy facts))
          (fun_ext (λ r. same_denial r.effect)) (decided policy facts)))

find_veto :
    (m : ResolvedRule → Bool) (r : ResolvedRule) (rules : List ResolvedRule)
    → Memᴰ r rules
    → m r ≡ true
    → is_hard_deny r ≡ true
    → ¬ NoneOf m is_hard_deny rules
find_veto m r [] i h k n = elim i [ ]
find_veto m r (s ∷ rules) (Memᴰ.head e) h k n =
    let passed : (m r && is_hard_deny r) ≡ false = rw e n.0 in ground arith
find_veto m r (s ∷ rules) (Memᴰ.tail t) h k n = find_veto m r rules t h k n.1

veto-Decides :
    (m : ResolvedRule → Bool) (rules : List ResolvedRule) (d : Decision)
    → ¬ NoneOf m is_hard_deny rules
    → Decides is_hard_deny is_grant is_denial m rules d
    → d.effect ≡ deny
veto-Decides m rules d v (vetoed r f e k) = k
veto-Decides m rules d v (granted r h f e k) = absurd (v h)
veto-Decides m rules d v (refused r h g f e k) = k
veto-Decides m rules d v (unmatched h g f e k) = k

-- Wherever it stands among the rules, a conditional denial that matches decides against the intent.
pub evaluate-veto :
    (policy : ResolvedPolicy) (facts : NormalizedFacts) (r : ResolvedRule)
    → Memᴰ r policy.rules
    → predicate_matches r facts ≡ true
    → is_hard_deny r ≡ true
    → (evaluate policy facts).effect ≡ deny
evaluate-veto policy facts r i h k =
    veto-Decides (λ rule. predicate_matches rule facts) policy.rules (evaluate policy facts)
      (find_veto (λ rule. predicate_matches rule facts) r policy.rules i h k) (decided policy facts)

without_first-perm :
    (p : ResolvedRule → Bool) (rules : List ResolvedRule) (r : ResolvedRule)
    → find p rules ≡ some r
    → Perm
        (r.name ∷ map (λ (s : ResolvedRule). s.name) (without_first p rules))
        (map (λ (s : ResolvedRule). s.name) rules)
unfolding without_first
without_first-perm p [] r e = cc
without_first-perm p (s ∷ rules) r e = elim (Bool-cases (p s)) [
  | inl passing ↦
      let same : s ≡ r = ground arith in
      rw (passing, ← same) (Perm.refl (map (λ (s : ResolvedRule). s.name) (s ∷ rules)))
  | inr fails ↦ rw fails (
      Perm.trans
        (Perm.swap s.name r.name (map (λ (s : ResolvedRule). s.name) (without_first p rules)))
        (Perm.cons s.name (without_first-perm p rules r (ground arith))))
]

abbrev names : List ResolvedRule → List String
names = map (λ (s : ResolvedRule). s.name)

abbrev Accounts : List ResolvedRule → Decision → Type 0
Accounts matches d = Perm (d.matched_rule ∷ d.counterfactuals) (names matches)

grant_or_denial :
    (matches : List ResolvedRule)
    → find is_grant matches ≡ none
    → find is_denial matches ≡ none
    → matches ≡ []
grant_or_denial [] g d = refl
grant_or_denial (r ∷ rs) g d = elim (Bool-cases (is_deny r.effect)) [
  | inl e ↦ ground arith
  | inr e ↦ ground arith
]

module _ (matches : List ResolvedRule) (some_match : matches ≢ []) where
  choose_denial-Accounts : find is_grant matches ≡ none → Accounts matches (choose_denial matches)
  unfolding choose_denial decision
  choose_denial-Accounts g = elim (Option-cases (find is_denial matches)) [
    | inl missing ↦ absurd (some_match (grant_or_denial matches g missing))
    | inr (r, found) ↦ rw (found, choose_denial) (without_first-perm is_denial matches r found)
  ]

  choose_winner-Accounts : Accounts matches (choose_winner matches)
  unfolding choose_winner decision
  choose_winner-Accounts = elim (Option-cases (find is_grant matches)) [
    | inl missing ↦ rw (missing, choose_winner) (choose_denial-Accounts missing)
    | inr (r, found) ↦ rw (found, choose_winner) (without_first-perm is_grant matches r found)
  ]

  choose-Accounts : Accounts matches (choose matches)
  unfolding choose decision
  choose-Accounts = elim (Option-cases (find is_hard_deny matches)) [
    | inl missing ↦ rw (missing, choose) choose_winner-Accounts
    | inr (r, found) ↦ rw (found, choose) (without_first-perm is_hard_deny matches r found)
  ]

-- When some rule matches, the deciding rule and the counterfactuals are together the names of the
-- matching rules, each as often as it matches: none is lost and none invented.
pub evaluate-accounts :
    (policy : ResolvedPolicy) (facts : NormalizedFacts)
    → keep (λ rule. predicate_matches rule facts) policy.rules ≢ []
    → let d = evaluate policy facts in
      Perm (d.matched_rule ∷ d.counterfactuals) (
        map
          (λ (s : ResolvedRule). s.name)
          (keep (λ rule. predicate_matches rule facts) policy.rules))
unfolding evaluate
evaluate-accounts policy facts =
    choose-Accounts (keep (λ rule. predicate_matches rule facts) policy.rules)
