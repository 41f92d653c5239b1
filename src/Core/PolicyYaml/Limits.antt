-- ===== src/Core/PolicyYaml/Limits.antt =====
-- The limits of several documents in one (packages/core/src/policy-yaml/evaluate.ts).
use steelyard_sdk.Base.{
  ℕ, ◌≤◌, ◌≡◌, refl, ◌∙◌, ◌⊎◌, inl, inr, if◌then◌else◌, String, Option, some, none, List, [], ◌∷◌,
  All, str_eq, str_eq_iff, arith, Bool-cases, leb, leb→le,
}
use Prim.Native.Nat.{min}
use mathlib.Core.Path.{subst}
use steelyard_sdk.Base.Maps.{Dict, lookup, insert, lookup-insert}
use steelyard_sdk.Vault.{SpendWindow, daily, weekly, monthly}
use steelyard_sdk.Vault.Operations.{caps}
use steelyard_sdk.Core.PolicyYaml.{Document, min_or, merge_entries, entries_of, merge_limits}

abbrev pub Has : List ℕ → ℕ → Type 0
Has [] a = ⊥
Has (x ∷ xs) a = (x ≡ a) ⊎ Has xs a

-- The amount is the lowest of the list; there is none exactly when the list is empty.
abbrev pub IsLowest : List ℕ → Option ℕ → Type 0
IsLowest xs none = xs ≡ []
IsLowest xs (some least) = Has xs least × All (λ x. least ≤ x) xs

abbrev onto : Option ℕ → List ℕ → List ℕ
onto none xs = xs
onto (some a) xs = a ∷ xs

le_or_ge : (b a : ℕ) → (b ≤ a) ⊎ (a ≤ b)
le_or_ge b a = elim (Bool-cases (leb b a)) [
  | inl e ↦ inl (leb→le b a e)
  | inr e ↦ inr (ground (arith, e))
]

IsLowest-min :
    (b a : ℕ) (xs : List ℕ) (r : Option ℕ) → IsLowest (min b a ∷ xs) r → IsLowest (b ∷ a ∷ xs) r
IsLowest-min b a xs none e = absurd (cc e)
IsLowest-min b a xs (some least) (has, (under, rest)) =
    (one has, (omega (arith, under), (omega (arith, under), rest)))
  where
    one : (min b a ≡ least) ⊎ Has xs least → (b ≡ least) ⊎ ((a ≡ least) ⊎ Has xs least)
    one (inl same) = elim (le_or_ge b a) [
      | inl le ↦ inl (omega arith)
      | inr ge ↦ inr (inl (omega arith))
    ]
    one (inr later) = inr (inr later)

IsLowest-min_or :
    (o : Option ℕ) (a : ℕ) (xs : List ℕ) (r : Option ℕ)
    → IsLowest (min_or o a ∷ xs) r
    → IsLowest (onto o (a ∷ xs)) r
IsLowest-min_or none a xs r e = e
IsLowest-min_or (some b) a xs r e = IsLowest-min b a xs r e

module _ (normalize_currency : String → String) where
  -- the caps that the entries set for a currency
  abbrev pub amounts_in : String → Dict ℕ → List ℕ
  amounts_in currency [] = []
  amounts_in currency ((name, amount) ∷ entries) =
      if str_eq (normalize_currency name) currency
      then amount ∷ amounts_in currency entries
      else amounts_in currency entries

  merge_entries-IsLowest :
      (currency : String) (entries merged : Dict ℕ)
      → IsLowest
          (onto (lookup currency merged) (amounts_in currency entries))
          (lookup currency (merge_entries normalize_currency entries merged))
  unfolding merge_entries
  merge_entries-IsLowest currency [] merged = held (lookup currency merged)
    where
      held : (o : Option ℕ) → IsLowest (onto o []) o
      held none = refl
      held (some a) = (inl refl, (omega arith, tt))
  merge_entries-IsLowest currency ((name, amount) ∷ entries) merged =
      let key = normalize_currency name in
      let merged' = insert key (min_or (lookup key merged) amount) merged in
      let rest = merge_entries-IsLowest currency entries merged' in
      elim (Bool-cases (str_eq key currency)) [
        | inl e ↦
            let same : key ≡ currency = (str_eq_iff key currency).0 e in
            let found : lookup currency merged' ≡ some (min_or (lookup currency merged) amount) =
              lookup-insert key currency _ merged ∙ ground (arith, e, same) in
            rw e (
              IsLowest-min_or (lookup currency merged) amount (amounts_in currency entries) _ (
                subst
                  (λ o.
                    IsLowest (onto o (amounts_in currency entries))
                      (lookup currency (merge_entries normalize_currency entries merged')))
                  found rest))
        | inr e ↦
            let found : lookup currency merged' ≡ lookup currency merged =
              lookup-insert key currency _ merged ∙ rw e refl in
            rw e (
              subst
                (λ o.
                  IsLowest (onto o (amounts_in currency entries))
                    (lookup currency (merge_entries normalize_currency entries merged')))
                found rest)
      ]

  -- For each window and currency the merged limits have the lowest of the caps that the entries of all
  -- documents set for it, when their currency is normalized, and no cap exactly when no entry does.
  pub merge_limits-IsLowest :
      (documents : List Document) (window : SpendWindow) (currency : String)
      → IsLowest
          (amounts_in currency (entries_of window documents))
          (lookup currency (caps window (merge_limits normalize_currency documents)))
  unfolding merge_limits lookup
  merge_limits-IsLowest documents daily currency =
      merge_entries-IsLowest currency (entries_of daily documents) []
  merge_limits-IsLowest documents weekly currency =
      merge_entries-IsLowest currency (entries_of weekly documents) []
  merge_limits-IsLowest documents monthly currency =
      merge_entries-IsLowest currency (entries_of monthly documents) []
