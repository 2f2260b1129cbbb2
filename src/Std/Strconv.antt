-- ===== src/Std/Strconv.antt =====
-- strconv.Atoi on a 64-bit machine, and the decimal notation that `%d` prints.
pub mod Laws
pub mod Sound
use gopack.Prelude.{
  Error, message, ℕ, zero, suc, ◌+◌, ◌-◌, ◌*◌, ◌^◌, ◌/◌, ◌%◌, Bool, true, false, ◌&&◌, List, [],
  ◌∷◌, ltb, leb, eqb, if◌then◌else◌, ℤ, pos, negsuc, String,
}
use Prim.Native.String

pub data NumError : Type 0 where
  syntax range : NumError

-- the errors, by their texts
abbrev pub num_error : NumError → Error
num_error syntax = message "invalid syntax"
num_error range = message "value out of range"

pub data Parsed : Type 0 where
  number : ℤ → Parsed
  malformed : NumError → Parsed

abbrev pub is_digit : ℕ → Bool
is_digit c = leb b'0' c && leb c b'9'

abbrev pub max_uint64 : ℕ
max_uint64 = 18446744073709551615

abbrev pub max_int64 : ℕ
max_int64 = 9223372036854775807

abbrev pub negate : ℕ → ℤ
negate zero = pos 0
negate (suc k) = negsuc k

-- what the sign makes of the magnitude, or an error outside of int64
pub signed : Bool → ℕ → Parsed
signed true n = if leb n (max_int64 + 1) then number (negate n) else malformed range
signed false n = if leb n max_int64 then number (pos n) else malformed range

-- the digits of a number of either sign; `n` is the magnitude read so far
pub scan : Bool → ℕ → List ℕ → Parsed
scan negative n [] = signed negative n
scan negative n (c ∷ s) =
    let rest = scan negative (n * 10 + (c - b'0')) s in
    if is_digit c
    then (if leb (n * 10 + (c - b'0')) max_uint64 then rest else malformed range)
    else malformed syntax

-- at least one digit
pub magnitude : Bool → List ℕ → Parsed
magnitude negative [] = malformed syntax
magnitude negative (c ∷ s) = scan negative 0 (c ∷ s)

unfoldable pub atoi : List ℕ → Parsed
unfolding magnitude scan signed
atoi [] = malformed syntax
atoi (c ∷ s) =
    if eqb c b'-'
    then magnitude true s
    else if eqb c b'+'
    then magnitude false s
    else magnitude false (c ∷ s)

-- The fuel is above the number, which falls with every digit.
pub decimal_from : ℕ → ℕ → List ℕ → List ℕ
decimal_from zero n s = s
decimal_from (suc fuel) n s =
    let more = decimal_from fuel (n / 10) ((b'0' + n % 10) ∷ s) in
    if ltb n 10 then (b'0' + n) ∷ s else more

unfoldable pub decimal : ℕ → List ℕ
unfolding decimal_from
decimal n = decimal_from (suc n) n []

abbrev digit_text : ℕ → String
digit_text n =
    if eqb n 0
    then "0"
    else if eqb n 1
    then "1"
    else if eqb n 2
    then "2"
    else if eqb n 3
    then "3"
    else if eqb n 4
    then "4"
    else if eqb n 5
    then "5"
    else if eqb n 6
    then "6"
    else if eqb n 7
    then "7"
    else if eqb n 8
    then "8"
    else "9"

text_of_digits : List ℕ → String
text_of_digits [] = ""
text_of_digits (c ∷ s) = String.◌++◌ (digit_text (c - b'0')) (text_of_digits s)

-- `%d` of fmt, as a text
unfoldable pub int_text : ℤ → String
unfolding decimal text_of_digits
int_text (pos n) = text_of_digits (decimal n)
int_text (negsuc n) = String.◌++◌ "-" (text_of_digits (decimal (suc n)))

-- `%d` of fmt, as code points
unfoldable pub int_codes : ℤ → List ℕ
unfolding decimal
int_codes (pos n) = decimal n
int_codes (negsuc n) = b'-' ∷ decimal (suc n)
