-- ===== src/Core/PolicyYaml/Decides.antt =====
-- What a decision that is not a denial rests on (packages/core/src/policy-yaml/evaluate.ts).
use steelyard_sdk.Base.{
  ℕ, ◌+◌, ◌≤◌, ◌≡◌, refl, sym, ap, ◌∙◌, ◌⊎◌, inl, inr, String, Bool, true, false, not, ◌&&◌, ◌||◌,
  Option, some, none, List, [], ◌∷◌, ◌++◌, any, keep, find, arith, Bool-cases, Option-cases,
}
use steelyard_sdk.Base.Maps.{lookup}
use steelyard_sdk.Vault.{SpendWindow, daily, weekly, monthly, SpendLimits}
use steelyard_sdk.Vault.Operations.{caps}
use steelyard_sdk.Core.PolicyYaml.{
  Effect, Rule, Document, Intent, Decision, denied, allowed_by_default, Spend, is_can, with_effect,
  over_cap, over_window, has_limits, evaluate_limits, check_limits, evaluate_rules, evaluate_policy,
  merge_limits, normalize_intent, matches_rule, default_decision,
}

abbrev pub is_denied : Decision → Bool
is_denied (denied reason) = true
is_denied _ = false

abbrev pub AtMost : ℕ → Option ℕ → Type 0
AtMost n none = Unit
AtMost n (some cap) = n ≤ cap

-- What is pending and captured, and the amount of the intent, stay within the cap of each window.
abbrev pub Within : SpendLimits → Intent → (SpendWindow → String → Spend) → Type 0
Within limits i spend_in =
    (window : SpendWindow)
    → AtMost
        ((spend_in window i.purchase.currency).pending
          + (spend_in window i.purchase.currency).captured
          + i.purchase.amount)
        (lookup i.purchase.currency (caps window limits))

AtMost-over_cap :
    (s : Spend) (amount : ℕ) (cap : Option ℕ)
    → over_cap s amount cap ≡ false
    → AtMost (s.pending + s.captured + amount) cap
AtMost-over_cap s amount none e = tt
AtMost-over_cap s amount (some cap) e = ground (arith, e)

evaluate_limits-Within :
    (limits : SpendLimits) (i : Intent) (spend_in : SpendWindow → String → Spend)
    → evaluate_limits limits i spend_in ≡ none
    → Within limits i spend_in
unfolding evaluate_limits
evaluate_limits-Within limits i spend_in e window =
    AtMost-over_cap (spend_in window i.purchase.currency) i.purchase.amount
      (lookup i.purchase.currency (caps window limits)) (clear window)
  where
    clear : (w : SpendWindow) → over_window limits i spend_in w ≡ false
    clear daily = ground (arith, e)
    clear weekly = ground (arith, e)
    clear monthly = ground (arith, e)

-- Either the limits have no positive cap, or there is a vault and what it has keeps within them.
abbrev pub KeepsLimits : SpendLimits → Intent → Option (SpendWindow → String → Spend) → Type 0
KeepsLimits limits i vault =
    (has_limits limits ≡ false)
    ⊎ ((spend_in : SpendWindow → String → Spend) × (vault ≡ some spend_in)
        × Within limits i spend_in)

passes : Option Decision → Bool
passes none = true
passes (some d) = not (is_denied d)

check_limits-none :
    (limits : SpendLimits) (i : Intent) (vault : Option (SpendWindow → String → Spend))
    → check_limits limits i vault ≡ none
    → KeepsLimits limits i vault
unfolding check_limits
check_limits-none limits i none e = inl (ground (arith, e))
check_limits-none limits i (some spend_in) e = elim (Bool-cases (has_limits limits)) [
  | inl h ↦ inr (spend_in, refl, evaluate_limits-Within limits i spend_in (ground (arith, e, h)))
  | inr h ↦ inl h
]

-- the limits deny, or they say nothing
check_limits-denies :
    (limits : SpendLimits) (i : Intent) (vault : Option (SpendWindow → String → Spend))
    (d : Decision)
    → check_limits limits i vault ≡ some d
    → is_denied d ≡ true
unfolding check_limits evaluate_limits
check_limits-denies limits i none d e = ground (arith, e)
check_limits-denies limits i (some spend_in) d e = ground (arith, e)

module _ {ℓ} {A : Type ℓ} (test : A → Bool) where
  find-none : (xs : List A) → find test xs ≡ none → any test xs ≡ false
  find-none [] e = refl
  find-none (x ∷ xs) e = elim (Bool-cases (test x)) [
    | inl t ↦ absurd (ground (arith, e, t))
    | inr t ↦ rw t (find-none xs (ground (arith, e, t)))
  ]

  find-some : (xs : List A) (a : A) → find test xs ≡ some a → any test xs ≡ true
  find-some [] a e = absurd (cc e)
  find-some (x ∷ xs) a e = elim (Bool-cases (test x)) [
    | inl t ↦ rw t refl
    | inr t ↦ rw t (find-some xs a (ground (arith, e, t)))
  ]

  any-append : (xs ys : List A) → any test (xs ++ ys) ≡ (any test xs || any test ys)
  any-append [] ys = refl
  any-append (x ∷ xs) ys = ground (arith, any-append xs ys)

  any-keep : (p : A → Bool) (xs : List A) → any test (keep p xs) ≡ any (λ x. p x && test x) xs
  any-keep p [] = refl
  any-keep p (x ∷ xs) = elim (Bool-cases (p x)) [
    | inl t ↦ rw t (rw (any-keep p xs) refl)
    | inr t ↦ rw t (any-keep p xs)
  ]

-- Some document has a rule of this effect that holds.
abbrev pub some_rule : (Effect → Bool) → (Rule → Bool) → List Document → Bool
some_rule effect test documents =
    any (λ (d : Document). any (λ (r : Rule). effect r.effect && test r) d.rules) documents

any-with_effect :
    (effect : Effect → Bool) (test : Rule → Bool) (documents : List Document)
    → any test (with_effect effect documents) ≡ some_rule effect test documents
any-with_effect effect test [] = refl
any-with_effect effect test (d ∷ ds) =
    any-append test (keep (λ (r : Rule). effect r.effect) d.rules) (with_effect effect ds)
    ∙ rw (any-keep test (λ (r : Rule). effect r.effect) d.rules, any-with_effect effect test ds)
        refl

module _ (split_dots : String → List String)
    (normalize_domain normalize_currency : String → String) where
  -- A rule that allows holds, or the answer is the default of the project's document, which allows.
  abbrev pub Granted : List Document → Intent → Decision → Type 0
  Granted documents i d =
      (some_rule is_can (λ r. matches_rule split_dots normalize_domain normalize_currency r i)
          documents
        ≡ true)
      ⊎ ((d ≡ allowed_by_default) × (default_decision documents ≡ allowed_by_default))

  default_decision-allows :
      (documents : List Document)
      → is_denied (default_decision documents) ≡ false
      → default_decision documents ≡ allowed_by_default
  unfolding default_decision
  default_decision-allows [] e = absurd (cc e)
  default_decision-allows (d ∷ ds) e = ground (arith, e)

  evaluate_rules-permits :
      (documents : List Document) (i : Intent)
      → is_denied (evaluate_rules split_dots normalize_domain normalize_currency documents i)
        ≡ false
      → (some_rule
            (λ e. not (is_can e))
            (λ r. matches_rule split_dots normalize_domain normalize_currency r i)
            documents
          ≡ false)
        × Granted documents i
            (evaluate_rules split_dots normalize_domain normalize_currency documents i)
  unfolding evaluate_rules
  evaluate_rules-permits documents i e =
      let matches = λ (r : Rule). matches_rule split_dots normalize_domain normalize_currency r i in
      let blockers = with_effect (λ x. not (is_can x)) documents in
      let grants = with_effect is_can documents in
      elim (Option-cases (find matches blockers)) [
        | inr (r, found) ↦ absurd (ground (arith, e, found))
        | inl nobody ↦
            let unblocked : some_rule (λ x. not (is_can x)) matches documents ≡ false =
              sym (any-with_effect (λ x. not (is_can x)) matches documents)
              ∙ find-none matches blockers nobody in
            elim (Option-cases (find matches grants)) [
              | inr (r, found) ↦ (
                unblocked,
                inl (
                    sym (any-with_effect is_can matches documents)
                    ∙ find-some matches grants r found),
              )
              | inl none_grants ↦
                  let by_default : evaluate_rules split_dots normalize_domain normalize_currency
                        documents i
                      ≡ default_decision documents =
                    ground (arith, nobody, none_grants) in
                  let allows =
                    default_decision-allows documents (sym (ap is_denied by_default) ∙ e) in
                  (unblocked, inr (by_default ∙ allows, allows))
            ]
      ]

  -- If the documents do not deny an intent, then no `cannot` rule of any document matches the normalized
  -- intent; either the merged limits have no positive cap, or there is a vault and, in every window,
  -- what it has as pending and captured and the amount of the intent are together at most the merged cap
  -- for the currency, where there is one; and either some `can` rule matches, or the decision is the default
  -- of the first document, which allows.
  pub evaluate_policy-permits :
      (documents : List Document) (intent : Intent) (vault : Option (SpendWindow → String → Spend))
      → is_denied
          (evaluate_policy split_dots normalize_domain normalize_currency documents intent vault)
        ≡ false
      → (some_rule
            (λ e. not (is_can e))
            (λ r.
              matches_rule split_dots normalize_domain normalize_currency r
                (normalize_intent split_dots normalize_domain normalize_currency intent))
            documents
          ≡ false)
        × KeepsLimits
            (merge_limits normalize_currency documents)
            (normalize_intent split_dots normalize_domain normalize_currency intent)
            vault
        × Granted documents
            (normalize_intent split_dots normalize_domain normalize_currency intent)
            (evaluate_policy split_dots normalize_domain normalize_currency documents intent vault)
  unfolding evaluate_policy
  evaluate_policy-permits documents intent vault e =
      let limits = merge_limits normalize_currency documents in
      let i = normalize_intent split_dots normalize_domain normalize_currency intent in
      elim (Option-cases (check_limits limits i vault)) [
        | inr (d, found) ↦
            absurd (ground (arith, e, found, check_limits-denies limits i vault d found))
        | inl clear ↦
            let by_rules : evaluate_policy split_dots normalize_domain normalize_currency documents
                  intent vault
                ≡ evaluate_rules split_dots normalize_domain normalize_currency documents i =
              rw clear refl in
            let (unblocked, granted) =
              evaluate_rules-permits documents i (sym (ap is_denied by_rules) ∙ e) in
            (unblocked, check_limits-none limits i vault clear, rw by_rules granted)
      ]
