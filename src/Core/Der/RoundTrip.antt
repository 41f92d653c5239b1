-- ===== src/Core/Der/RoundTrip.antt =====
-- Reading what `rawToDer` has written (packages/core/src/rfc9421.ts).
use mathlib.Core.List.{append-nil}
use steelyard_sdk.Base.{
  lt→ltb, ℕ, suc, ◌+◌, ◌-◌, ◌/◌, ◌%◌, ◌≤◌, ◌<◌, ◌≡◌, refl, sym, ap, ◌∙◌, true, false, some, List,
  [], ◌∷◌, ◌++◌, length, take, drop, replicate, ltb, ◌==◌, length-append, length-take, length-drop,
  take-append-drop, ok, arith, inl, inr, Bool-cases,
}
use steelyard_sdk.Core.Der.{
  strip_leading_zeros, left_pad_unsigned, der_length, with_sign_byte, der_integer, raw_to_der,
  read_der_length, read_der_integer, der_to_raw,
}

strip_twice : (bs : List ℕ) → strip_leading_zeros (strip_leading_zeros bs) ≡ strip_leading_zeros bs
unfolding strip_leading_zeros
strip_twice [] = refl
strip_twice (b ∷ bs) = elim (Bool-cases (b == 0)) [
  | inl e ↦ rw e (strip_twice bs)
  | inr e ↦ rw e (rw e refl)
]

strip_sign : (v : List ℕ) → strip_leading_zeros (with_sign_byte v) ≡ strip_leading_zeros v
unfolding strip_leading_zeros
strip_sign [] = refl
strip_sign (b ∷ bs) = elim (Bool-cases (ltb b 128)) [ inl e ↦ rw e refl | inr e ↦ rw e refl ]

strip_pad :
    (bs : List ℕ)
    → (length (strip_leading_zeros bs) ≤ length bs)
      × (replicate (length bs - length (strip_leading_zeros bs)) 0 ++ strip_leading_zeros bs ≡ bs)
unfolding strip_leading_zeros
strip_pad [] = (omega arith, refl)
strip_pad (b ∷ bs) = elim (Bool-cases (b == 0)) [
  | inl e ↦
      let (short, padded) = strip_pad bs in
      let one : suc (length bs) - length (strip_leading_zeros bs)
          ≡ suc (length bs - length (strip_leading_zeros bs)) =
        omega (arith, short) in
      let is_zero : 0 ≡ b = ground (arith, e) in
      rw e (omega (arith, short), rw (one, padded) (ap (λ x. x ∷ bs) is_zero))
  | inr e ↦
      let none_left : suc (length bs) - suc (length bs) ≡ 0 = omega arith in
      rw e (omega arith, rw none_left refl)
]

length-with_sign_byte : (v : List ℕ) → length (with_sign_byte v) ≤ length v + 1
length-with_sign_byte [] = omega arith
length-with_sign_byte (b ∷ bs) = elim (Bool-cases (ltb b 128)) [
  | inl e ↦ rw e (omega arith)
  | inr e ↦ rw e (omega arith)
]

drop_past : (xs ys : List ℕ) → drop (length xs) (xs ++ ys) ≡ ys
drop_past [] ys = refl
drop_past (x ∷ xs) ys = drop_past xs ys

take_all : (xs ys : List ℕ) → take (length xs) (xs ++ ys) ≡ xs
take_all [] ys = refl
take_all (x ∷ xs) ys = rw (take_all xs ys) refl

drop-prefix : (pre ys : List ℕ) (k : ℕ) → drop (length pre + k) (pre ++ ys) ≡ drop k ys
drop-prefix [] ys k = let e : 0 + k ≡ k = omega arith in ap (λ n. drop n ys) e
drop-prefix (x ∷ pre) ys k =
    let e : suc (length pre) + k ≡ suc (length pre + k) = omega arith in
    ap (λ n. drop n (x ∷ (pre ++ ys))) e ∙ drop-prefix pre ys k

short_length : (n : ℕ) → n < 128 → der_length n ≡ n ∷ []
unfolding der_length
short_length n h = let e : ltb n 128 ≡ true = ground (arith, h) in rw e refl

fits_within : (n m : ℕ) → m ≤ n → ltb n m ≡ false
fits_within n m h = ground (arith, h)

-- reading an integer of fewer than 128 bytes that stands after `pre`
read_written :
    (pre v post : List ℕ)
    → length (with_sign_byte v) < 128
    → read_der_integer
        (pre ++ ((2 ∷ length (with_sign_byte v) ∷ with_sign_byte v) ++ post))
        (some (length pre))
      ≡ ok (strip_leading_zeros v, some (length pre + 2 + length (with_sign_byte v)))
unfolding read_der_integer read_der_length
read_written pre v post h =
    let body = with_sign_byte v in
    let rest = (2 ∷ length body ∷ body) ++ post in
    let at0 : drop (length pre) (pre ++ rest) ≡ rest = drop_past pre rest in
    let at1 : drop (length pre + 1) (pre ++ rest) ≡ length body ∷ (body ++ post) =
      drop-prefix pre rest 1 in
    let at2 : drop (length pre + 1 + 1) (pre ++ rest) ≡ body ++ post =
      (let e : length pre + 1 + 1 ≡ length pre + 2 = omega arith in
        ap (λ n. drop n (pre ++ rest)) e ∙ drop-prefix pre rest 2) in
    let small : ltb (length body) 128 ≡ true = ground (arith, h) in
    let fits : ltb (length (pre ++ rest)) (length pre + 1 + 1 + length body) ≡ false =
      fits_within (length (pre ++ rest)) _
        (omega (arith, length-append pre rest, length-append body post)) in
    let end : length pre + 1 + 1 + length body ≡ length pre + 2 + length body = omega arith in
    rw (at0, at1, small, fits, at2, take_all body post, strip_sign v)
      (ap (λ n. ok (strip_leading_zeros v, some n)) end)

pad_back :
    (x : List ℕ) → left_pad_unsigned (strip_leading_zeros (strip_leading_zeros x)) (length x) ≡ ok x
unfolding left_pad_unsigned
pad_back x =
    let (short, padded) = strip_pad x in
    let fits = fits_within (length x) (length (strip_leading_zeros x)) short in
    rw (strip_twice x, strip_twice x, fits, padded) refl

-- a number with the two bytes before it
abbrev written : List ℕ → List ℕ
written x =
    2 ∷ length (with_sign_byte (strip_leading_zeros x)) ∷ with_sign_byte (strip_leading_zeros x)

short_integer : (x : List ℕ) → length x ≤ 60 → length (with_sign_byte (strip_leading_zeros x)) ≤ 61
short_integer x h = omega (arith, h, (strip_pad x).0, length-with_sign_byte (strip_leading_zeros x))

der_integer-written : (x : List ℕ) → length x ≤ 60 → der_integer x ≡ written x
unfolding der_integer
der_integer-written x h =
    rw
      (short_length (length (with_sign_byte (strip_leading_zeros x)))
        (omega (arith, short_integer x h)))
      refl

module _ (x y : List ℕ) (small_x : length x ≤ 60) (small_y : length y ≤ 60) where
  abbrev payload : List ℕ
  payload = written x ++ written y

  abbrev whole_der : List ℕ
  whole_der = 48 ∷ length payload ∷ payload

  abbrev first_end : ℕ
  first_end = length (with_sign_byte (strip_leading_zeros x))

  first_read :
      read_der_integer whole_der (some 2)
      ≡ ok (strip_leading_zeros (strip_leading_zeros x), some (2 + 2 + first_end))
  first_read =
      read_written (48 ∷ length payload ∷ []) (strip_leading_zeros x) (written y)
        (omega (arith, short_integer x small_x))

  second_read :
      read_der_integer whole_der (some (2 + 2 + first_end))
      ≡ ok (strip_leading_zeros (strip_leading_zeros y), some (length whole_der))
  second_read =
      let before = 48 ∷ length payload ∷ written x in
      let read =
        read_written before (strip_leading_zeros y) [] (omega (arith, short_integer y small_y)) in
      let same : before ++ (written y ++ []) ≡ whole_der =
        ap (λ l. before ++ l) (append-nil (written y)) in
      let start : length before ≡ 2 + 2 + first_end = omega arith in
      let end : length before + 2 + length (with_sign_byte (strip_leading_zeros y))
          ≡ length whole_der =
        omega (arith, length-append (written x) (written y)) in
      rw (sym same, sym start)
        (read ∙ ap (λ n. ok (strip_leading_zeros (strip_leading_zeros y), some n)) end)

  decoded :
      (width : ℕ)
      → width / 2 ≡ length x
      → width / 2 ≡ length y
      → der_to_raw whole_der width ≡ ok (x ++ y)
  unfolding der_to_raw read_der_length
  decoded width half_x half_y =
      let n = length payload in
      let small : ltb n 128 ≡ true = lt→ltb n 128 (
        omega (
          arith,
          length-append (written x) (written y),
          short_integer x small_x,
          short_integer y small_y,
        )) in
      let same : (n == (suc (suc n) - 2)) ≡ true = ground arith in
      let ends : (length whole_der == length whole_der) ≡ true = ground arith in
      let left : left_pad_unsigned (strip_leading_zeros (strip_leading_zeros x)) (width / 2)
          ≡ ok x =
        rw half_x (pad_back x) in
      let right : left_pad_unsigned (strip_leading_zeros (strip_leading_zeros y)) (width / 2)
          ≡ ok y =
        rw half_y (pad_back y) in
      rw (small, same, first_read, second_read, ends, left, right) refl

-- `rawToDer` writes every raw signature of an even length of at most 120 bytes, and `derToRaw` with its
-- length as the width reads it back as it was.
pub raw_to_der-der_to_raw :
    (raw : List ℕ)
    → length raw % 2 ≡ 0
    → length raw ≤ 120
    → (der : List ℕ) × (raw_to_der raw ≡ ok der) × (der_to_raw der (length raw) ≡ ok raw)
unfolding raw_to_der
raw_to_der-der_to_raw raw even short =
    let half = length raw / 2 in
    let x = take half raw in
    let y = drop half raw in
    let long_x : length x ≡ half = length-take half raw ∙ omega arith in
    let long_y : length y ≡ half = length-drop half raw ∙ omega (arith, even) in
    let small_x : length x ≤ 60 = omega (arith, long_x, short) in
    let small_y : length y ≤ 60 = omega (arith, long_y, short) in
    let is_even : (length raw % 2 == 0) ≡ true = ground (arith, even) in
    let one_byte = short_length (length (payload x y small_x small_y)) (
      omega (
        arith,
        length-append (written x) (written y),
        short_integer x small_x,
        short_integer y small_y,
      )) in
    (
      whole_der x y small_x small_y,
      rw (is_even, der_integer-written x small_x, der_integer-written y small_y, one_byte) refl,
      decoded x y small_x small_y (length raw) (sym long_x) (sym long_y)
          ∙ ap (λ l. ok l) (take-append-drop half raw),
    )
