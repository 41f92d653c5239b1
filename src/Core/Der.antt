-- ===== src/Core/Der.antt =====
-- ECDSA signatures in DER and as two numbers of one width (packages/core/src/rfc9421.ts). A byte is a
-- number below 256. The shifts of `readDerLength` are of 32 bits with a sign, so that a length of four
-- bytes may come out negative; a reading position below zero is none.
pub mod RoundTrip
use steelyard_sdk.Base.{
  ℕ, zero, suc, ◌+◌, ◌-◌, ◌*◌, ◌/◌, ◌%◌, Bool, true, false, ◌||◌, Option, some, none, List, [], ◌∷◌,
  ◌++◌, length, take, drop, replicate, ltb, ◌==◌, if◌then◌else◌, Result, ok, err, require, ◌>>=◌,
  ◌>>◌,
}

pub data DerError : Type 0 where
  not_a_sequence invalid_sequence_length trailing_data expected_integer : DerError
  truncated_integer truncated_length unsupported_length too_wide odd_length : DerError

pub data DerLength : Type 0 where
  whole negative : ℕ → DerLength

unfoldable pub strip_leading_zeros : List ℕ → List ℕ
strip_leading_zeros [] = []
strip_leading_zeros (b ∷ bs) = let rest = strip_leading_zeros bs in if b == 0 then rest else b ∷ bs

unfoldable pub left_pad_unsigned : List ℕ → (width : ℕ) → Result DerError (List ℕ)
left_pad_unsigned value width =
    let stripped = strip_leading_zeros value in
    if ltb width (length stripped)
    then err too_wide
    else ok (replicate (width - length stripped) 0 ++ stripped)

-- the loop of `derLength`; each round divides by 256, so the value itself is fuel enough
unfoldable pub length_bytes : (fuel value : ℕ) → List ℕ → List ℕ
length_bytes zero value acc = acc
length_bytes (suc fuel) value acc =
    let more = length_bytes fuel (value / 256) ((value % 256) ∷ acc) in
    if value == 0 then acc else more

unfoldable pub der_length : ℕ → List ℕ
der_length n =
    if ltb n 128 then n ∷ [] else (128 + length (length_bytes n n [])) ∷ length_bytes n n []

-- the byte 0 before a number that is empty or whose first bit is set
abbrev pub with_sign_byte : List ℕ → List ℕ
with_sign_byte [] = 0 ∷ []
with_sign_byte (b ∷ bs) = if ltb b 128 then b ∷ bs else 0 ∷ b ∷ bs

unfoldable pub der_integer : List ℕ → List ℕ
der_integer value =
    let bytes = with_sign_byte (strip_leading_zeros value) in 2 ∷ der_length (length bytes) ++ bytes

unfoldable pub raw_to_der : List ℕ → Result DerError (List ℕ)
raw_to_der raw =
    if length raw % 2 == 0
    then (let half = length raw / 2 in
        let payload = der_integer (take half raw) ++ der_integer (drop half raw) in
        ok (48 ∷ der_length (length payload) ++ payload))
    else err odd_length

unfoldable pub read_bytes : (count length : ℕ) → List ℕ → Result DerError ℕ
read_bytes zero length bytes = ok length
read_bytes (suc count) length [] = err truncated_length
read_bytes (suc count) length (next ∷ bytes) =
    read_bytes count ((length * 256 + next) % 4294967296) bytes

abbrev pub signed : ℕ → DerLength
signed n = if ltb n 2147483648 then whole n else negative (4294967296 - n)

abbrev pub length_from : List ℕ → (offset : ℕ) → Result DerError (DerLength × ℕ)
length_from [] offset = err truncated_length
length_from (first ∷ rest) offset =
    if ltb first 128
    then ok (whole first, offset + 1)
    else if first == 128 || ltb 132 first
    then err unsupported_length
    else read_bytes (first - 128) 0 rest >>= λ n. ok (signed n, offset + 1 + (first - 128))

unfoldable pub read_der_length : List ℕ → (offset : ℕ) → Result DerError (DerLength × ℕ)
read_der_length bytes offset = length_from (drop offset bytes) offset

abbrev pub integer_at : List ℕ → DerLength × ℕ → Result DerError (List ℕ × Option ℕ)
integer_at bytes (whole n, start) =
    if ltb (length bytes) (start + n)
    then err truncated_integer
    else ok (strip_leading_zeros (take n (drop start bytes)), some (start + n))
integer_at bytes (negative n, start) = ok ([], if ltb start n then none else some (start - n))

abbrev pub has_tag : ℕ → List ℕ → Bool
has_tag tag [] = false
has_tag tag (b ∷ bs) = b == tag

unfoldable pub read_der_integer : List ℕ → Option ℕ → Result DerError (List ℕ × Option ℕ)
read_der_integer bytes none = err expected_integer
read_der_integer bytes (some offset) =
    require (has_tag 2 (drop offset bytes)) expected_integer
    >> (read_der_length bytes (offset + 1) >>= λ p. integer_at bytes p)

abbrev pub is_length : DerLength → ℕ → Bool
is_length (whole n) m = n == m
is_length (negative n) m = false

abbrev pub is_end : Option ℕ → ℕ → Bool
is_end none n = false
is_end (some m) n = m == n

unfoldable pub der_to_raw : List ℕ → (width : ℕ) → Result DerError (List ℕ)
der_to_raw der width =
    require (has_tag 48 der) not_a_sequence
    >> (read_der_length der 1 >>= λ l.
        require (is_length l.0 (length der - l.1)) invalid_sequence_length
        >> (read_der_integer der (some l.1) >>= λ r. read_der_integer der r.1 >>= λ s.
            require (is_end s.1 (length der)) trailing_data
            >> (left_pad_unsigned r.0 (width / 2) >>= λ a.
                left_pad_unsigned s.0 (width / 2) >>= λ b. ok (a ++ b))))
