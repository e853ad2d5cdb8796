-- ===== src/Setup/Text.antt =====
-- The conversions of texts that main.go uses: `strconv.ParseBool`, `strconv.ParseInt` with base 10 and
-- 64 bits, and `strings.Split` at commas. An int64 is its bit pattern, a number below 2 ^ 64.
pub mod Laws
use Prim.Native.Char.{Char, code}
use rabbitmq_operator.Prelude.{
  ℕ, ◌+◌, ◌-◌, ◌*◌, ◌%◌, ◌^◌, String, Bool, true, false, ◌&&◌, ◌||◌, Option, none, some, List, [],
  ◌∷◌, ltb, leb, eqb, ◌==◌, if◌then◌else◌,
}

unfoldable pub parse_bool : String → Option Bool
parse_bool s =
    if s == "1" || s == "t" || s == "T" || s == "true" || s == "TRUE" || s == "True"
    then some true
    else if s == "0" || s == "f" || s == "F" || s == "false" || s == "FALSE" || s == "False"
    then some false
    else none

abbrev pub is_digit : ℕ → Bool
is_digit c = leb 48 c && leb c 57

-- The digits behind those that have been read, whose number is `acc`.
unfoldable pub parse_digits : ℕ → String → Option ℕ
parse_digits acc String.[] = some acc
parse_digits acc (String.◌∷◌ c s) =
    let rest = parse_digits (acc * 10 + (code c - 48)) s in if is_digit (code c) then rest else none

-- The number behind the sign, which is not empty, in the range of an int64.
unfoldable pub parse_signed : Bool → String → Option ℕ
unfolding parse_digits
parse_signed negative String.[] = none
parse_signed negative (String.◌∷◌ c s) = elim (parse_digits 0 (String.◌∷◌ c s)) [
  | none ↦ none
  | some n ↦
      (if negative
        then (if leb n (2 ^ 63) then some ((2 ^ 64 - n) % 2 ^ 64) else none)
        else (if ltb n (2 ^ 63) then some n else none))
]

unfoldable pub parse_int : String → Option ℕ
unfolding parse_signed
parse_int String.[] = none
parse_int (String.◌∷◌ c s) =
    if eqb (code c) 43
    then parse_signed false s
    else if eqb (code c) 45
    then parse_signed true s
    else parse_signed false (String.◌∷◌ c s)

-- A character in front of the first part.
unfoldable pub prepend : Char → List String → List String
prepend c [] = String.◌∷◌ c "" ∷ []
prepend c (part ∷ parts) = String.◌∷◌ c part ∷ parts

unfoldable pub split_commas : String → List String
unfolding prepend
split_commas String.[] = "" ∷ []
split_commas (String.◌∷◌ c s) =
    let parts = split_commas s in if eqb (code c) 44 then "" ∷ parts else prepend c parts
