-- ===== src/Policy/Examples/Audit.antt =====
-- The properties of the audit log at concrete entries (packages/policy/src/audit).
use steelyard_sdk.Base.{
  ℕ, ◌≡◌, ◌≢◌, refl, String, false, Option, some, none, [], ◌∷◌, str_eq, is_empty, ok, arith,
  if◌then◌else◌, Bool-cases, inl, inr,
}
use steelyard_sdk.Policy.Audit.{
  EntryBase, Line, entry, Dir, Sink, write, amended, amend, verify_chain, tail_hash, append_line,
  find_entry, find_in, verify_files, verify_lines,
}
use steelyard_sdk.Policy.Audit.Chain.{Step, Reach, Reach-verified, flat}
use steelyard_sdk.Policy.Audit.Tamper.{verify_chain-fixes}
use steelyard_sdk.Policy.Audit.Backdated.{start, amend-backdated_breaks}

-- a hash that is never empty
abbrev sum : EntryBase ℕ → Option String → String
sum b none = "none"
sum b (some p) = if str_eq p "" then "first" else "later"

sum_full : (b : EntryBase ℕ) (p : Option String) → is_empty (sum b p) ≡ false
sum_full b none = unfold str_eq in refl
sum_full b (some p) = elim (Bool-cases (str_eq p "")) [
  | inl e ↦ rw e (unfold str_eq in refl)
  | inr e ↦ rw e (unfold str_eq in refl)
]

abbrev first_entry : EntryBase ℕ
first_entry = record { ts = 5; fields = 1; amends = none }

-- an append, and the amendment of it a day later
abbrev log : Sink ℕ
log =
    write sum (amended sum (λ (n : ℕ). n) none 86400007 "first" first_entry)
      (write sum first_entry (record { dir = []; last_hash = "" }))

Reach-verified_example :
    (verify_chain sum log.dir ≡ []) × (tail_hash log.dir ≡ ok (some log.last_hash))
unfolding find_entry write append_line find_in str_eq amend amended
Reach-verified_example = Reach-verified sum 1 log sum_full (
    Reach.next (Reach.next Reach.here (Step.appended first_entry (omega arith))) (
      Step.was_amended "first" (λ (n : ℕ). n) none 86400007 first_entry log refl (omega arith)
        refl))

abbrev line : Line ℕ
line = entry first_entry (some "") (some "first")

abbrev left : Dir ℕ
left = (0, line ∷ []) ∷ []

abbrev right : Dir ℕ
right = (1, line ∷ []) ∷ []

verify_chain-fixes_example : flat left ≡ flat right
unfolding verify_chain verify_files verify_lines str_eq
verify_chain-fixes_example =
    verify_chain-fixes sum left right refl refl refl ((((λ e. (refl, refl)), tt), tt))

amend-backdated_breaks_example :
    (s : Sink ℕ) × (amend sum
        (sum (record first_entry { ts = 86400005 }) (some ""))
        (λ (n : ℕ). n)
        (some 5)
        86400010
        (write sum (record first_entry { ts = 86400005 }) (start sum))
      ≡ ok s)
    × (verify_chain sum s.dir ≢ [])
amend-backdated_breaks_example =
    amend-backdated_breaks sum (record first_entry { ts = 86400005 }) (λ (n : ℕ). n) 5 86400010
      sum_full (omega arith)
