-- ===== src/Policy/Money/RoundTrip.antt =====
-- Printing an amount and reading it back (packages/policy/src/money.ts).
use Prim.Native.Nat.{◌/◌, ◌%◌, ◌<◌}
use steelyard_sdk.Base.{
  ℕ, zero, suc, ◌+◌, ◌-◌, ◌*◌, ◌≤◌, ◌≡◌, refl, ap, ◌∙◌, String, Bool, true, false, List, [], ◌∷◌,
  ◌++◌, length, ltb, ◌==◌, if◌then◌else◌, all, take, drop, replicate, some, ok, arith,
  length-append, length-drop, length-take, length-replicate, take-append-drop, inl, inr, Bool-cases,
  Result-cases, ◌>>=◌,
}
use steelyard_sdk.Base.Int.{ℤ, pos, negsuc, magnitude}
use steelyard_sdk.Policy.Money.{
  exponent, is_digit, digits_value, take_digits, drop_digits, not_nil, frac_part, split_sign,
  signed, from_digits, from_major, decimal_from, decimal, is_negative, sign_text, pad_start,
  to_digits, to_major,
}

digits_value-append :
    (acc : ℕ) (xs ys : List ℕ) → digits_value acc (xs ++ ys) ≡ digits_value (digits_value acc xs) ys
unfolding digits_value
digits_value-append acc [] ys = refl
digits_value-append acc (x ∷ xs) ys = digits_value-append (10 * acc + (x - b'0')) xs ys

digits_value-replicate : (n : ℕ) → digits_value 0 (replicate n b'0') ≡ 0
unfolding digits_value
digits_value-replicate zero = refl
digits_value-replicate (suc n) = digits_value-replicate n

-- Reading the digits that were put before `acc` gives the number back.
decimal_from_value :
    (f n : ℕ) (acc : List ℕ) → n < f → digits_value 0 (decimal_from f n acc) ≡ digits_value n acc
unfolding decimal_from digits_value
decimal_from_value zero n acc h = elim h [ ]
decimal_from_value (suc f) n acc h = elim (Bool-cases (ltb n 10)) [
  | inl small ↦ rw small (ap (λ k. digits_value k acc) (ground arith))
  | inr big ↦ rw big (
      decimal_from_value f (n / 10) ((b'0' + n % 10) ∷ acc) (ground arith)
      ∙ ap (λ k. digits_value k acc) (omega arith))
]

all_digits-decimal_from :
    (f n : ℕ) (acc : List ℕ) → all is_digit acc ≡ true → all is_digit (decimal_from f n acc) ≡ true
unfolding decimal_from
all_digits-decimal_from zero n acc h = h
all_digits-decimal_from (suc f) n acc h = elim (Bool-cases (ltb n 10)) [
  | inl small ↦ rw small (ground arith)
  | inr big ↦ rw big (all_digits-decimal_from f (n / 10) ((b'0' + n % 10) ∷ acc) (ground arith))
]

all_digits-append :
    (xs ys : List ℕ)
    → all is_digit xs ≡ true
    → all is_digit ys ≡ true
    → all is_digit (xs ++ ys) ≡ true
all_digits-append [] ys hx hy = hy
all_digits-append (x ∷ xs) ys hx hy = ground (arith, all_digits-append xs ys)

all_digits-replicate : (n : ℕ) → all is_digit (replicate n b'0') ≡ true
all_digits-replicate zero = refl
all_digits-replicate (suc n) = all_digits-replicate n

all_digits-take : (n : ℕ) (xs : List ℕ) → all is_digit xs ≡ true → all is_digit (take n xs) ≡ true
all_digits-take zero xs h = refl
all_digits-take (suc n) [] h = refl
all_digits-take (suc n) (x ∷ xs) h = ground (arith, all_digits-take n xs)

all_digits-drop : (n : ℕ) (xs : List ℕ) → all is_digit xs ≡ true → all is_digit (drop n xs) ≡ true
all_digits-drop zero xs h = h
all_digits-drop (suc n) [] h = refl
all_digits-drop (suc n) (x ∷ xs) h = all_digits-drop n xs (ground arith)

take_digits-append :
    (xs ys : List ℕ) → all is_digit xs ≡ true → take_digits ys ≡ [] → take_digits (xs ++ ys) ≡ xs
unfolding take_digits
take_digits-append [] ys h e = e
take_digits-append (x ∷ xs) ys h e = ground (arith, take_digits-append xs ys)

drop_digits-append :
    (xs ys : List ℕ) → all is_digit xs ≡ true → drop_digits ys ≡ ys → drop_digits (xs ++ ys) ≡ ys
unfolding drop_digits
drop_digits-append [] ys h e = e
drop_digits-append (x ∷ xs) ys h e = ground (arith, drop_digits-append xs ys)

abbrev sign : Bool → List ℕ
sign minus = if minus then b'-' ∷ [] else []

split_sign-digits :
    (minus : Bool) (xs ys : List ℕ)
    → all is_digit xs ≡ true
    → not_nil xs ≡ true
    → split_sign (sign minus ++ (xs ++ ys)) ≡ (minus, xs ++ ys)
unfolding split_sign
split_sign-digits minus [] ys h n = cc
split_sign-digits true (x ∷ xs) ys h n = refl
split_sign-digits false (x ∷ xs) ys h n = ground arith

frac_part-dot :
    (ys : List ℕ) → all is_digit ys ≡ true → not_nil ys ≡ true → frac_part (b'.' ∷ ys) ≡ some ys
unfolding frac_part
frac_part-dot ys h n = rw (n, h)

append_nil_all : (xs : List ℕ) → xs ++ [] ≡ xs
append_nil_all [] = refl
append_nil_all (x ∷ xs) = ap (λ (s : List ℕ). x ∷ s) (append_nil_all xs)

from_digits-exact :
    (exp : ℕ) (minus : Bool) (xs ys : List ℕ)
    → length ys ≡ exp
    → from_digits exp minus xs ys ≡ ok (signed minus (digits_value 0 (xs ++ ys)))
unfolding from_digits
from_digits-exact exp minus xs ys e =
    let full : exp - length ys ≡ 0 = omega arith in
    let fits : ltb exp (length ys) ≡ false = ground arith in rw (fits, full, append_nil_all ys)

-- The parse of a sign, digits and a rest that starts with no digit.
from_major-parts :
    (currency : String) {exp : ℕ} (minus : Bool) (xs rest frac : List ℕ)
    → exponent currency ≡ ok exp
    → all is_digit xs ≡ true
    → not_nil xs ≡ true
    → take_digits rest ≡ []
    → drop_digits rest ≡ rest
    → frac_part rest ≡ some frac
    → length frac ≡ exp
    → from_major (sign minus ++ (xs ++ rest)) currency
      ≡ ok (signed minus (digits_value 0 (xs ++ frac)))
unfolding from_major
from_major-parts currency {exp} minus xs rest frac known h n t d f l = simp (
  known,
  split_sign-digits minus xs rest h n,
  take_digits-append xs rest h t,
  drop_digits-append xs rest h d,
  n,
  f,
  from_digits-exact exp minus xs frac l,
)

not_nil_of_length : (xs : List ℕ) → ¬ (length xs ≡ 0) → not_nil xs ≡ true
not_nil_of_length [] h = absurd (h refl)
not_nil_of_length (x ∷ xs) h = refl

signed-magnitude : (a : ℤ) → signed (is_negative a) (magnitude a) ≡ a
signed-magnitude (pos n) = refl
signed-magnitude (negsuc n) = refl

module _ (a : ℤ) where
  decimal_value : digits_value 0 (decimal (magnitude a)) ≡ magnitude a
  unfolding decimal digits_value
  decimal_value = decimal_from_value (suc (magnitude a)) (magnitude a) [] (omega arith)

  all_digits-decimal : all is_digit (decimal (magnitude a)) ≡ true
  unfolding decimal
  all_digits-decimal = all_digits-decimal_from (suc (magnitude a)) (magnitude a) [] refl

  padded_value : (n : ℕ) → digits_value 0 (pad_start n (decimal (magnitude a))) ≡ magnitude a
  unfolding pad_start
  padded_value n =
      digits_value-append 0 (replicate (n - length (decimal (magnitude a))) b'0')
        (decimal (magnitude a))
      ∙ rw (digits_value-replicate (n - length (decimal (magnitude a)))) decimal_value

  all_digits-padded : (n : ℕ) → all is_digit (pad_start n (decimal (magnitude a))) ≡ true
  unfolding pad_start
  all_digits-padded n =
      all_digits-append (replicate (n - length (decimal (magnitude a))) b'0')
        (decimal (magnitude a)) (all_digits-replicate (n - length (decimal (magnitude a))))
        all_digits-decimal

pad_start-length : (n : ℕ) (s : List ℕ) → n ≤ length (pad_start n s)
unfolding pad_start
pad_start-length n s = omega (
  arith,
  length-append (replicate (n - length s) b'0') s,
  length-replicate {A = ℕ} (n - length s) b'0',
)

decimal_from_nonempty : (f n : ℕ) (acc : List ℕ) → n < f → not_nil (decimal_from f n acc) ≡ true
unfolding decimal_from
decimal_from_nonempty zero n acc h = elim h [ ]
decimal_from_nonempty (suc f) n acc h = elim (Bool-cases (ltb n 10)) [
  | inl small ↦ rw small
  | inr big ↦ rw big (decimal_from_nonempty f (n / 10) ((b'0' + n % 10) ∷ acc) (ground arith))
]

to_digits_whole :
    (a : ℤ) (currency : String)
    → exponent currency ≡ ok 0
    → from_major (sign_text a ++ (decimal (magnitude a) ++ [])) currency ≡ ok a
unfolding decimal frac_part take_digits drop_digits
to_digits_whole a currency known =
    from_major-parts currency (is_negative a) (decimal (magnitude a)) [] [] known
      (all_digits-decimal a)
      (decimal_from_nonempty (suc (magnitude a)) (magnitude a) [] (omega arith)) refl refl refl refl
    ∙ ap (λ (n : ℕ). ok (signed (is_negative a) n))
        (ap (digits_value 0) (append_nil_all (decimal (magnitude a))) ∙ decimal_value a)
    ∙ ap ok (signed-magnitude a)

to_digits_split :
    (a : ℤ) (currency : String) (e : ℕ)
    → exponent currency ≡ ok (suc e)
    → let raw = pad_start (suc e + 1) (decimal (magnitude a)) in
      from_major
        (sign_text a ++ (take (length raw - suc e) raw ++ (b'.' ∷ drop (length raw - suc e) raw)))
        currency
      ≡ ok a
unfolding take_digits drop_digits
to_digits_split a currency e known =
    let raw : List ℕ = pad_start (suc e + 1) (decimal (magnitude a)) in
    let k : ℕ = length raw - suc e in
    let long : suc e + 1 ≤ length raw = pad_start-length (suc e + 1) (decimal (magnitude a)) in
    let front : not_nil (take k raw) ≡ true =
      not_nil_of_length (take k raw) (omega (arith, length-take k raw)) in
    let back : length (drop k raw) ≡ suc e = omega (arith, length-drop k raw) in
    let tail_ok : not_nil (drop k raw) ≡ true = not_nil_of_length (drop k raw) (omega arith) in
    let digits : all is_digit raw ≡ true = all_digits-padded a (suc e + 1) in
    from_major-parts currency (is_negative a) (take k raw) (b'.' ∷ drop k raw) (drop k raw) known
      (all_digits-take k raw digits) front refl refl
      (frac_part-dot (drop k raw) (all_digits-drop k raw digits) tail_ok) back
    ∙ ap (λ (n : ℕ). ok (signed (is_negative a) n))
        (ap (digits_value 0) (take-append-drop k raw) ∙ padded_value a (suc e + 1))
    ∙ ap ok (signed-magnitude a)

to_digits_parse :
    (a : ℤ) (currency : String) (exp : ℕ)
    → exponent currency ≡ ok exp
    → from_major (to_digits exp a) currency ≡ ok a
unfolding to_digits
to_digits_parse a currency zero known =
    rw (← append_nil_all (decimal (magnitude a))) (to_digits_whole a currency known)
to_digits_parse a currency (suc e) known =
    let ne : (suc e == 0) ≡ false = ground arith in rw ne (to_digits_split a currency e known)

-- Printing an amount in a known currency and reading the text back gives the same amount, for
-- positive, zero and negative amounts and for each of the exponents.
pub from_major-to_major :
    (a : ℤ) (currency : String) (text : List ℕ)
    → to_major a currency ≡ ok text
    → from_major text currency ≡ ok a
unfolding to_major
from_major-to_major a currency text h = elim (Result-cases (exponent currency)) [
  | inl (exp, known) ↦
      let same : to_digits exp a ≡ text = cc (h, ap (λ r. r >>= λ e. ok (to_digits e a)) known) in
      rw (← same) (to_digits_parse a currency exp known)
  | inr (e, unknown) ↦ cc (h, ap (λ r. r >>= λ e. ok (to_digits e a)) unknown)
]
