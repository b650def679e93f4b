-- ===== src/Strings/Numbers.antt =====
-- `strconv.Atoi`, `strconv.Itoa` and the test of digits.
use Prim.Native.Char.{code}
use Prim.Native.String.{String}
use credimi_runner.Prelude.{
  ℕ, zero, suc, ◌+◌, ◌-◌, ◌*◌, ◌/◌, ◌%◌, ◌^◌, Bool, true, false, ◌&&◌, str_append, Option, none,
  some, if◌then◌else◌, leb, ltb, ◌==◌,
}
use credimi_runner.Config.{GoInt, pos, negsuc}

abbrev pub is_digit : ℕ → Bool
is_digit c = leb b'0' c && leb c b'9'

unfoldable pub all_digits : String → Bool
all_digits String.[] = true
all_digits (String.◌∷◌ c s) = is_digit (code c) && all_digits s

-- The value of a text of digits after what was read of it.
unfoldable pub digits_value : ℕ → String → ℕ
digits_value acc String.[] = acc
digits_value acc (String.◌∷◌ c s) = digits_value (acc * 10 + (code c - b'0')) s

-- A text of at least one digit.
unfoldable pub parse_digits : String → Option ℕ
unfolding all_digits digits_value
parse_digits String.[] = none
parse_digits (String.◌∷◌ c s) =
    if all_digits (String.◌∷◌ c s) then some (digits_value 0 (String.◌∷◌ c s)) else none

-- An `int` has 64 bits: beyond them `Atoi` returns an error.
abbrev pub as_int : Option ℕ → Option GoInt
as_int none = none
as_int (some n) = if ltb n (2 ^ 63) then some (pos n) else none

abbrev pub as_negative : Option ℕ → Option GoInt
as_negative none = none
as_negative (some zero) = some (pos 0)
as_negative (some (suc n)) = if ltb n (2 ^ 63) then some (negsuc n) else none

-- `strconv.Atoi`, `none` for its errors.
unfoldable pub atoi : String → Option GoInt
unfolding parse_digits
atoi String.[] = none
atoi (String.◌∷◌ c s) =
    if code c == b'+'
    then as_int (parse_digits s)
    else if code c == b'-'
    then as_negative (parse_digits s)
    else as_int (parse_digits (String.◌∷◌ c s))

abbrev digit_text : ℕ → String
digit_text d =
    if d == 0
    then "0"
    else if d == 1
    then "1"
    else if d == 2
    then "2"
    else if d == 3
    then "3"
    else if d == 4
    then "4"
    else if d == 5
    then "5"
    else if d == 6
    then "6"
    else if d == 7
    then "7"
    else if d == 8
    then "8"
    else "9"

-- As many rounds as the number itself are enough: each divides it by ten.
unfoldable pub itoa_on : ℕ → ℕ → String
itoa_on zero n = digit_text n
itoa_on (suc fuel) n =
    let rest = itoa_on fuel (n / 10) in
    if ltb n 10 then digit_text n else str_append rest (digit_text (n % 10))

-- `strconv.Itoa`
unfoldable pub itoa : GoInt → String
unfolding itoa_on
itoa (pos n) = itoa_on n n
itoa (negsuc n) = str_append "-" (itoa_on (suc n) (suc n))

-- Tests on integers.
abbrev pub is_positive : GoInt → Bool
is_positive (pos zero) = false
is_positive (pos (suc n)) = true
is_positive (negsuc n) = false

abbrev pub is_port : GoInt → Bool
is_port (pos n) = leb 1 n && leb n 65535
is_port (negsuc n) = false

abbrev pub is_zero : GoInt → Bool
is_zero (pos n) = n == 0
is_zero (negsuc n) = false

abbrev pub int_eq : GoInt → GoInt → Bool
int_eq (pos n) (pos m) = n == m
int_eq (negsuc n) (negsuc m) = n == m
int_eq (pos n) (negsuc m) = false
int_eq (negsuc n) (pos m) = false
