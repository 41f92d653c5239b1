-- ===== src/Policy/Money.antt =====
-- packages/policy/src/money.ts: amounts in minor units. Text is a list of code points, and a
-- currency is its upper-case code (`toUpperCase` is applied before these functions).
pub mod RoundTrip
use Prim.Native.Nat.{◌/◌, ◌%◌}
use steelyard_sdk.Base.{
  ℕ, zero, suc, ◌+◌, ◌-◌, ◌*◌, String, Bool, true, false, not, ◌&&◌, List, [], ◌∷◌, ◌++◌, length,
  ltb, leb, ◌==◌, if◌then◌else◌, includes, all, take, drop, replicate, Option, some, none, Result,
  ok, err, ◌>>=◌, ◌>>◌, or_throw, require,
}
use steelyard_sdk.Base.Int.{ℤ, pos, negsuc, magnitude}

pub data MoneyError : Type 0 where
  unknown_currency invalid_amount precision : MoneyError

-- `EXPONENTS`, grouped by exponent
unfoldable pub exponent : String → Result MoneyError ℕ
exponent c =
    if includes ("BHD" ∷ "JOD" ∷ "KWD" ∷ "OMR" ∷ "TND" ∷ []) c
    then ok 3
    else if includes ("CLP" ∷ "HUF" ∷ "ISK" ∷ "JPY" ∷ "KRW" ∷ []) c
    then ok 0
    else if includes ("AUD" ∷ "CAD" ∷ "CHF" ∷ "DKK" ∷ "EUR" ∷ "GBP" ∷ "NOK" ∷ "SEK" ∷ "USD" ∷ []) c
    then ok 2
    else err unknown_currency

abbrev pub is_digit : ℕ → Bool
is_digit c = leb b'0' c && leb c b'9'

-- `BigInt(digits)`
unfoldable pub digits_value : ℕ → List ℕ → ℕ
digits_value acc [] = acc
digits_value acc (c ∷ s) = digits_value (10 * acc + (c - b'0')) s

-- `\d+` at the front of a text, and what follows it
unfoldable pub take_digits : List ℕ → List ℕ
take_digits [] = []
take_digits (c ∷ s) = if is_digit c then c ∷ take_digits s else []

unfoldable pub drop_digits : List ℕ → List ℕ
drop_digits [] = []
drop_digits (c ∷ s) = if is_digit c then drop_digits s else c ∷ s

abbrev pub not_nil : List ℕ → Bool
not_nil [] = false
not_nil (_ ∷ _) = true

-- `(?:\.(\d+))?$` after the integer part
unfoldable pub frac_part : List ℕ → Option (List ℕ)
frac_part [] = some []
frac_part (c ∷ s) = if c == b'.' && (not_nil s && all is_digit s) then some s else none

-- `(-?)`
unfoldable pub split_sign : List ℕ → Bool × List ℕ
split_sign [] = (false, [])
split_sign (c ∷ s) = if c == b'-' then (true, s) else (false, c ∷ s)

abbrev pub negate : ℕ → ℤ
negate zero = pos 0
negate (suc n) = negsuc n

abbrev pub signed : Bool → ℕ → ℤ
signed minus n = if minus then negate n else pos n

unfoldable pub from_digits : ℕ → Bool → List ℕ → List ℕ → Result MoneyError ℤ
from_digits exp minus int_part frac =
    if ltb exp (length frac)
    then err precision
    else ok
        (signed minus (digits_value 0 (int_part ++ (frac ++ replicate (exp - length frac) b'0'))))

unfoldable pub from_major : List ℕ → String → Result MoneyError ℤ
from_major value currency = do
  exp ← exponent currency
  let minus = (split_sign value).0
  let body = (split_sign value).1
  require (not_nil (take_digits body)) invalid_amount
  frac ← or_throw (frac_part (drop_digits body)) invalid_amount
  from_digits exp minus (take_digits body) frac

-- `BigInt.prototype.toString` of a number that is not negative; the fuel bounds the digits
unfoldable pub decimal_from : ℕ → ℕ → List ℕ → List ℕ
decimal_from zero n acc = acc
decimal_from (suc f) n acc =
    let more = decimal_from f (n / 10) ((b'0' + n % 10) ∷ acc) in
    if ltb n 10 then (b'0' + n) ∷ acc else more

unfoldable pub decimal : ℕ → List ℕ
decimal n = decimal_from (suc n) n []

abbrev pub is_negative : ℤ → Bool
is_negative (pos _) = false
is_negative (negsuc _) = true

abbrev pub sign_text : ℤ → List ℕ
sign_text a = if is_negative a then b'-' ∷ [] else []

unfoldable pub pad_start : ℕ → List ℕ → List ℕ
pad_start n s = replicate (n - length s) b'0' ++ s

-- the text for a known exponent; `slice(0, -exp)` and `slice(-exp)` cut at `length - exp`
unfoldable pub to_digits : ℕ → ℤ → List ℕ
to_digits exp a =
    let raw = pad_start (exp + 1) (decimal (magnitude a)) in
    if exp == 0
    then sign_text a ++ decimal (magnitude a)
    else sign_text a ++ (take (length raw - exp) raw ++ (b'.' ∷ drop (length raw - exp) raw))

unfoldable pub to_major : ℤ → String → Result MoneyError (List ℕ)
to_major a currency = do exp ← exponent currency; ok (to_digits exp a)

-- `limitUsdMinor` of engine.ts; the argument is the limit's decimal text, `String(value)`
unfoldable pub limit_usd_minor : List ℕ → Result MoneyError ℤ
limit_usd_minor value = from_major value "USD"
