-- ===== src/Policy/Budget.antt =====
-- The approval budget (packages/policy/src/approval/budget.ts): at most `max` prompts in a window.
use steelyard_sdk.Base.{
  ℕ, ◌+◌, ◌-◌, ◌≤◌, ◌≡◌, Bool, true, false, List, [], ◌∷◌, ◌++◌, keep, length, length-append, ltb,
  leb, ◌==◌, ◌&&◌, refl, if◌then◌else◌, arith, inl, inr, Bool-cases,
}

pub record BudgetOptions : Type 0 where
  pub max : ℕ
  pub window_ms : ℕ

-- `ts > cutoff`, the cutoff being `window_ms` before `now`
abbrev pub in_window : BudgetOptions → ℕ → ℕ → Bool
in_window opts now ts = ltb now (ts + opts.window_ms)

unfoldable pub prune : BudgetOptions → ℕ → List ℕ → List ℕ
prune opts now timestamps = keep (in_window opts now) timestamps

unfoldable pub try_consume : BudgetOptions → ℕ → List ℕ → Bool × List ℕ
try_consume opts now timestamps =
    if leb opts.max (length (prune opts now timestamps))
    then (false, prune opts now timestamps)
    else (true, prune opts now timestamps ++ now ∷ [])

unfoldable pub remaining : BudgetOptions → ℕ → List ℕ → ℕ
remaining opts now timestamps = opts.max - length (prune opts now timestamps)

length-keep-le : (p : ℕ → Bool) (xs : List ℕ) → length (keep p xs) ≤ length xs
length-keep-le p [] = omega arith
length-keep-le p (x ∷ xs) = elim (Bool-cases (p x)) [
  | inl kept ↦ rw kept (omega (arith, length-keep-le p xs))
  | inr gone ↦ rw gone (omega (arith, length-keep-le p xs))
]

-- how many of the times are less than a window ago
unfoldable pub prompts_in_window : BudgetOptions → ℕ → List ℕ → ℕ
prompts_in_window opts now [] = 0
prompts_in_window opts now (ts ∷ rest) =
    (if ltb now (ts + opts.window_ms) then 1 else 0) + prompts_in_window opts now rest

-- how many of the times are `t`
unfoldable pub times_of : ℕ → List ℕ → ℕ
times_of t [] = 0
times_of t (ts ∷ rest) = (if ts == t then 1 else 0) + times_of t rest

length-keep-prompts :
    (opts : BudgetOptions) (now : ℕ) (xs : List ℕ)
    → length (keep (in_window opts now) xs) ≡ prompts_in_window opts now xs
unfolding prompts_in_window
length-keep-prompts opts now [] = refl
length-keep-prompts opts now (x ∷ xs) = elim (Bool-cases (ltb now (x + opts.window_ms))) [
  | inl kept ↦ rw kept (ground (arith, length-keep-prompts opts now xs))
  | inr gone ↦ rw gone (ground (arith, length-keep-prompts opts now xs))
]

times_of-keep :
    (opts : BudgetOptions) (now t : ℕ) (xs : List ℕ)
    → times_of t (keep (in_window opts now) xs)
      ≡ (if ltb now (t + opts.window_ms) then times_of t xs else 0)
unfolding times_of
times_of-keep opts now t [] = ground arith
times_of-keep opts now t (x ∷ xs) = elim (Bool-cases (ltb now (x + opts.window_ms))) [
  | inl kept ↦ rw kept (ground (arith, times_of-keep opts now t xs))
  | inr gone ↦ rw gone (ground (arith, times_of-keep opts now t xs))
]

times_of-append : (t : ℕ) (xs ys : List ℕ) → times_of t (xs ++ ys) ≡ times_of t xs + times_of t ys
unfolding times_of
times_of-append t [] ys = omega arith
times_of-append t (x ∷ xs) ys = ground (arith, times_of-append t xs ys)

-- From at most `max` times, a call is granted exactly when fewer than `max` of them are less than a window
-- ago. Every time less than a window ago is kept as often as it was recorded, every older one is dropped,
-- and a granted call adds its own time once and nothing else; so there are again at most `max`
-- times. What remained before the call is the difference between `max` and the prompts in the window.
pub try_consume-bounded :
    (opts : BudgetOptions) (now t : ℕ) (timestamps : List ℕ)
    → length timestamps ≤ opts.max
    → let (granted, kept) = try_consume opts now timestamps in
      (granted ≡ ltb (prompts_in_window opts now timestamps) opts.max)
      × (times_of t kept
          ≡ (if ltb now (t + opts.window_ms) then times_of t timestamps else 0)
            + (if granted && (now == t) then 1 else 0))
      × (length kept ≡ prompts_in_window opts now timestamps + (if granted then 1 else 0))
      × (length kept ≤ opts.max)
      × (remaining opts now timestamps ≡ opts.max - prompts_in_window opts now timestamps)
unfolding try_consume remaining prune times_of
try_consume-bounded opts now t timestamps h = ground (
  arith,
  length-keep-le (in_window opts now) timestamps,
  length-append (keep (in_window opts now) timestamps) (now ∷ []),
  length-keep-prompts opts now timestamps,
  times_of-keep opts now t timestamps,
  times_of-append t (keep (in_window opts now) timestamps) (now ∷ []),
)
