-- ===== src/Core/PolicyYaml/Glob.antt =====
-- When a domain pattern matches (packages/core/src/policy-yaml/glob.ts).
use steelyard_sdk.Base.{
  ◌≡◌, ◌≢◌, refl, sym, ap, ◌∙◌, ◌⊎◌, inl, inr, ◌↔◌, String, Bool, true, false, ◌||◌, not, List, [],
  ◌∷◌, str_eq, str_eq_iff, arith, Bool-cases,
}
use steelyard_sdk.Core.PolicyYaml.{is_nil, any_suffix, match_parts, head_fits, one_label}

-- The labels that a pattern stands for: `**` at the end for one label or more, `**` before other labels
-- for any number of labels, `*` for one label, and any other label for itself.
pub data Matches : (pattern candidate : List String) → Type 0 where
  nothing : Matches [] []
  all_left : {h c : String} {cs : List String} → h ≡ "**" → Matches (h ∷ []) (c ∷ cs)
  no_more :
      {h p : String} {ps cs : List String}
      → h ≡ "**"
      → Matches (p ∷ ps) cs
      → Matches (h ∷ p ∷ ps) cs
  one_more :
      {h p c : String} {ps cs : List String}
      → h ≡ "**"
      → Matches (h ∷ p ∷ ps) cs
      → Matches (h ∷ p ∷ ps) (c ∷ cs)
  label :
      {h c : String} {ps cs : List String}
      → h ≢ "**"
      → (h ≡ "*") ⊎ (h ≡ c)
      → Matches ps cs
      → Matches (h ∷ ps) (c ∷ cs)

eq_true : (a b : String) → a ≡ b → str_eq a b ≡ true
eq_true a b e = (str_eq_iff a b).1 e

eq_false : (a b : String) → a ≢ b → str_eq a b ≡ false
eq_false a b e = elim (Bool-cases (str_eq a b)) [
  | inl same ↦ absurd (e ((str_eq_iff a b).0 same))
  | inr other ↦ other
]

match_parts-last :
    (h : String) (cs : List String)
    → str_eq h "**" ≡ true
    → match_parts (h ∷ []) cs ≡ not (is_nil cs)
unfolding match_parts
match_parts-last h cs e = rw e refl

match_parts-stars :
    (h p : String) (ps cs : List String)
    → str_eq h "**" ≡ true
    → match_parts (h ∷ p ∷ ps) cs
      ≡ (any_suffix (match_parts (p ∷ ps)) cs || match_parts (p ∷ ps) cs)
unfolding match_parts
match_parts-stars h p ps cs e = rw e refl

match_parts-label :
    (h : String) (ps cs : List String)
    → str_eq h "**" ≡ false
    → match_parts (h ∷ ps) cs ≡ one_label (head_fits h cs) (match_parts ps) cs
unfolding match_parts
match_parts-label h ps cs e = rw e refl

-- a pattern of some labels does not match the empty list
match_parts-nil : (ps : List String) (p : String) → match_parts (p ∷ ps) [] ≡ false
match_parts-nil [] p = elim (Bool-cases (str_eq p "**")) [
  | inl e ↦ match_parts-last p [] e
  | inr e ↦ match_parts-label p [] [] e
]
match_parts-nil (q ∷ ps) p = elim (Bool-cases (str_eq p "**")) [
  | inl e ↦ match_parts-stars p q ps [] e ∙ match_parts-nil ps q
  | inr e ↦ match_parts-label p (q ∷ ps) [] e
]

Matches-any_suffix :
    (h p : String) (ps : List String)
    → h ≡ "**"
    → ((ds : List String) → match_parts (p ∷ ps) ds ≡ true → Matches (p ∷ ps) ds)
    → (cs : List String) → any_suffix (match_parts (p ∷ ps)) cs ≡ true
    → Matches (h ∷ p ∷ ps) cs
Matches-any_suffix h p ps e sound [] t = absurd (cc t)
Matches-any_suffix h p ps e sound (c ∷ cs) t = elim (Bool-cases (match_parts (p ∷ ps) (c ∷ cs))) [
  | inl here ↦ no_more e (sound (c ∷ cs) here)
  | inr later ↦ one_more e (
      Matches-any_suffix h p ps e sound cs
        (sym (ap (λ b. b || any_suffix (match_parts (p ∷ ps)) cs) later) ∙ t))
]

any_suffix-more :
    (test : List String → Bool) (c : String) (cs : List String)
    → test [] ≡ false
    → any_suffix test cs || test cs ≡ true
    → any_suffix test (c ∷ cs) || test (c ∷ cs) ≡ true
any_suffix-more test c [] e h = absurd (ground (arith, h, e))
any_suffix-more test c (d ∷ ds) e h = ground (arith, h)

stars_or_not :
    (h : String) → ((str_eq h "**" ≡ true) × (h ≡ "**")) ⊎ ((str_eq h "**" ≡ false) × (h ≢ "**"))
stars_or_not h = elim (Bool-cases (str_eq h "**")) [
  | inl e ↦ inl (e, (str_eq_iff h "**").0 e)
  | inr e ↦ inr (e, λ same. absurd (ground (arith, e, eq_true h "**" same)))
]

Matches-label :
    (h : String) (ps cs : List String)
    → h ≢ "**"
    → ((ds : List String) → match_parts ps ds ≡ true → Matches ps ds)
    → one_label (head_fits h cs) (match_parts ps) cs ≡ true
    → Matches (h ∷ ps) cs
Matches-label h ps [] n sound t = absurd (cc t)
Matches-label h ps (c ∷ cs) n sound t = elim (Bool-cases (str_eq h "*")) [
  | inl e ↦ label n (inl ((str_eq_iff h "*").0 e)) (sound cs (ground (arith, t)))
  | inr e ↦ label n (inr ((str_eq_iff h c).0 (ground (arith, t, e)))) (sound cs (ground (arith, t)))
]

match_parts_sound :
    (pattern candidate : List String)
    → match_parts pattern candidate ≡ true
    → Matches pattern candidate
unfolding match_parts
match_parts_sound [] [] t = nothing
match_parts_sound [] (c ∷ cs) t = absurd (cc t)
match_parts_sound (h ∷ []) cs t = elim (stars_or_not h) [
  | inl (e, same) ↦ last cs (sym (match_parts-last h cs e) ∙ t) same
  | inr (e, n) ↦
      Matches-label h [] cs n (match_parts_sound []) (sym (match_parts-label h [] cs e) ∙ t)
]
  where
    last : (cs : List String) → not (is_nil cs) ≡ true → h ≡ "**" → Matches (h ∷ []) cs
    last [] t same = absurd (cc t)
    last (c ∷ cs) t same = all_left same
match_parts_sound (h ∷ p ∷ ps) cs t = elim (stars_or_not h) [
  | inl (e, same) ↦ elim (Bool-cases (any_suffix (match_parts (p ∷ ps)) cs)) [
    | inl some_suffix ↦ Matches-any_suffix h p ps same (match_parts_sound (p ∷ ps)) cs some_suffix
    | inr no_suffix ↦ no_more same (
        match_parts_sound (p ∷ ps) cs (
          sym (ap (λ b. b || match_parts (p ∷ ps) cs) no_suffix)
          ∙ sym (match_parts-stars h p ps cs e)
          ∙ t))
  ]
  | inr (e, n) ↦
      Matches-label h (p ∷ ps) cs n (match_parts_sound (p ∷ ps))
        (sym (match_parts-label h (p ∷ ps) cs e) ∙ t)
]

match_parts_complete :
    (pattern candidate : List String)
    → Matches pattern candidate
    → match_parts pattern candidate ≡ true
match_parts_complete [] [] nothing = unfold match_parts in refl
match_parts_complete [] (c ∷ cs) m = elim m [ ]
match_parts_complete (h ∷ []) (c ∷ cs) (all_left e) = match_parts-last h (c ∷ cs) (eq_true h "**" e)
match_parts_complete (h ∷ p ∷ ps) cs (no_more e m) =
    let later = match_parts_complete (p ∷ ps) cs m in
    match_parts-stars h p ps cs (eq_true h "**" e) ∙ ground (arith, later)
match_parts_complete (h ∷ p ∷ ps) (c ∷ cs) (one_more e m) =
    let same = eq_true h "**" e in
    match_parts-stars h p ps (c ∷ cs) same
    ∙ any_suffix-more (match_parts (p ∷ ps)) c cs (match_parts-nil ps p)
        (sym (match_parts-stars h p ps cs same) ∙ match_parts_complete (h ∷ p ∷ ps) cs m)
match_parts_complete (h ∷ ps) (c ∷ cs) (label n (inl e) m) =
    match_parts-label h ps (c ∷ cs) (eq_false h "**" n)
    ∙ ground (arith, eq_true h "*" e, match_parts_complete ps cs m)
match_parts_complete (h ∷ ps) (c ∷ cs) (label n (inr e) m) =
    match_parts-label h ps (c ∷ cs) (eq_false h "**" n)
    ∙ ground (arith, eq_true h c e, match_parts_complete ps cs m)

-- `match_parts` answers true exactly when the labels of the pattern stand for the labels of the
-- candidate by `Matches`.
pub match_parts-Matches :
    (pattern candidate : List String)
    → (match_parts pattern candidate ≡ true) ↔ Matches pattern candidate
match_parts-Matches pattern candidate =
    (match_parts_sound pattern candidate, match_parts_complete pattern candidate)
