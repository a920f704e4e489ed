-- ===== src/Base/Decimal.antt =====
-- Decimal text: `%d` of a number, and `SetString(s, 10)` of math/big.
pub mod RoundTrip
use Prim.Native.Char.{code}
use Prim.Native.String.{[], ◌∷◌}
use blockchain_clustering.Base.{
  ℕ, zero, suc, ◌+◌, ◌-◌, ◌*◌, ◌/◌, ◌%◌, String, Option, none, some, ◌==◌, nat_eq, ltb, leb,
  if◌then◌else◌, ◌&&◌, ◌<>◌,
}
use blockchain_clustering.Base.Int.{ℤ, pos, neg}

unfoldable pub digit : ℕ → String
digit n =
    if n == 0
    then "0"
    else if n == 1
    then "1"
    else if n == 2
    then "2"
    else if n == 3
    then "3"
    else if n == 4
    then "4"
    else if n == 5
    then "5"
    else if n == 6
    then "6"
    else if n == 7
    then "7"
    else if n == 8
    then "8"
    else "9"

-- by the rounds left
decimal_within : ℕ → ℕ → String
unfolding digit
decimal_within zero n = digit (n % 10)
decimal_within (suc f) n =
    let more = decimal_within f (n / 10) in if ltb n 10 then digit n else (more <> digit (n % 10))

unfoldable pub print_decimal : ℕ → String
unfolding decimal_within
print_decimal n = decimal_within n n

-- Digits, read onto `n`.
unfoldable pub digits_onto : ℕ → String → Option ℕ
digits_onto n [] = some n
digits_onto n (c ∷ cs) =
    let rest = digits_onto (n * 10 + (code c - 48)) cs in
    if leb 48 (code c) && leb (code c) 57 then rest else none

-- One digit or more.
unfoldable pub digits : String → Option ℕ
unfolding digits_onto
digits [] = none
digits (c ∷ cs) = digits_onto 0 (c ∷ cs)

-- A sign, `+` or `-`, and digits.
unfoldable pub parse_int : String → Option ℤ
unfolding digits
parse_int [] = none
parse_int (c ∷ cs) =
    if code c == 45
    then (elim (digits cs) [ none ↦ none | some n ↦ some (neg (pos n)) ])
    else if code c == 43
    then (elim (digits cs) [ none ↦ none | some n ↦ some (pos n) ])
    else (elim (digits (c ∷ cs)) [ none ↦ none | some n ↦ some (pos n) ])
