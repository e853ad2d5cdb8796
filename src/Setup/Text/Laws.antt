-- ===== src/Setup/Text/Laws.antt =====
-- Round trips of the texts that main.go reads.
use Prim.Native.Char.{Char, char, code}
use rabbitmq_operator.Prelude.{
  ℕ, zero, suc, ◌+◌, ◌-◌, ◌*◌, ◌/◌, ◌%◌, ◌^◌, ◌<◌, String, Bool, true, false, Option, none, some,
  List, [], ◌∷◌, ltb, eqb, ◌==◌, ◌<>◌, ◌≡◌, refl, ap, ◌∙◌, arith, digit, itoa_fuel, itoa, All,
  Bool-cases, ltb→lt, inl, inr,
}
use text.Mathlib.TextEquality.{Char-path, eq_iff}
use text.Mathlib.TextLemmas.{nil-append, cons-append, cons≢nil}
use rabbitmq_operator.Setup.Text.{
  is_digit, parse_digits, parse_signed, parse_int, prepend, split_commas,
}

abbrev then_parse : Option ℕ → String → Option ℕ
then_parse none s = none
then_parse (some acc) s = parse_digits acc s

parse_digits-append :
    (acc : ℕ) (s t : String) → parse_digits acc (s <> t) ≡ then_parse (parse_digits acc s) t
unfolding parse_digits
parse_digits-append acc String.[] t = rw (nil-append t) refl
parse_digits-append acc (String.◌∷◌ c s) t =
    rw (cons-append c s t) (elim (Bool-cases (is_digit (code c))) [
      | inl q ↦ rw q (parse_digits-append (acc * 10 + (code c - 48)) s t)
      | inr q ↦ rw q refl
    ])

-- A text that starts with a digit.
abbrev starts_digit : String → Bool
starts_digit String.[] = false
starts_digit (String.◌∷◌ c s) = is_digit (code c)

starts_digit-append : (s t : String) → starts_digit s ≡ true → starts_digit (s <> t) ≡ true
starts_digit-append String.[] t e = absurd (cc e)
starts_digit-append (String.◌∷◌ c s) t e = rw (cons-append c s t) e

digit_parses :
    (acc d : ℕ)
    → d < 10
    → (parse_digits acc (digit d) ≡ some (acc * 10 + d)) × (starts_digit (digit d) ≡ true)
unfolding parse_digits digit
digit_parses acc zero h = (refl, refl)
digit_parses acc (suc zero) h = (refl, refl)
digit_parses acc (suc (suc zero)) h = (refl, refl)
digit_parses acc (suc (suc (suc zero))) h = (refl, refl)
digit_parses acc (suc (suc (suc (suc zero)))) h = (refl, refl)
digit_parses acc (suc (suc (suc (suc (suc zero))))) h = (refl, refl)
digit_parses acc (suc (suc (suc (suc (suc (suc zero)))))) h = (refl, refl)
digit_parses acc (suc (suc (suc (suc (suc (suc (suc zero))))))) h = (refl, refl)
digit_parses acc (suc (suc (suc (suc (suc (suc (suc (suc zero)))))))) h = (refl, refl)
digit_parses acc (suc (suc (suc (suc (suc (suc (suc (suc (suc zero))))))))) h = (refl, refl)
digit_parses acc (suc (suc (suc (suc (suc (suc (suc (suc (suc (suc d)))))))))) h =
    absurd (omega arith)

itoa_fuel_parses :
    (fuel n : ℕ)
    → n < fuel
    → (parse_digits 0 (itoa_fuel fuel n) ≡ some n) × (starts_digit (itoa_fuel fuel n) ≡ true)
unfolding itoa_fuel
itoa_fuel_parses zero n h = absurd (omega arith)
itoa_fuel_parses (suc fuel) n h = elim (Bool-cases (ltb n 10)) [
  | inl q ↦
      let (one, head) = digit_parses 0 n (ltb→lt n 10 q) in
      let same : 0 * 10 + n ≡ n = omega arith in rw q (one ∙ ap some same, head)
  | inr q ↦
      let small : n / 10 < fuel = ground arith in
      let (front, head) = itoa_fuel_parses fuel (n / 10) small in
      let (last, _) = digit_parses (n / 10) (n % 10) (omega arith) in
      let whole : n / 10 * 10 + n % 10 ≡ n = omega arith in
      rw q (
        parse_digits-append 0 (itoa_fuel fuel (n / 10)) (digit (n % 10))
            ∙ ap (λ o. then_parse o (digit (n % 10))) front
            ∙ last
            ∙ ap some whole,
        starts_digit-append (itoa_fuel fuel (n / 10)) (digit (n % 10)) head,
      )
]

in_range :
    (c : Char) (s : String) (n : ℕ)
    → parse_digits 0 (String.◌∷◌ c s) ≡ some n
    → n < 2 ^ 63
    → parse_signed false (String.◌∷◌ c s) ≡ some n
unfolding parse_signed
in_range c s n e h =
    let range : ltb n (2 ^ 63) ≡ true = ground arith in rw (parse_signed, e, range) refl

unsigned :
    (s : String) (n : ℕ)
    → parse_digits 0 s ≡ some n
    → starts_digit s ≡ true
    → n < 2 ^ 63
    → parse_int s ≡ some n
unfolding parse_int
unsigned String.[] n e d h = absurd (cc d)
unsigned (String.◌∷◌ c s) n e d h =
    let plus : eqb (code c) 43 ≡ false = ground arith in
    let minus : eqb (code c) 45 ≡ false = ground arith in rw plus (rw minus (in_range c s n e h))

-- A number in the range of int64, written in decimal digits, is read back.
pub parse_int-itoa : (n : ℕ) → n < 2 ^ 63 → parse_int (itoa n) ≡ some n
unfolding itoa
parse_int-itoa n h =
    let (digits, head) = itoa_fuel_parses (suc n) n (omega arith) in
    unsigned (itoa_fuel (suc n) n) n digits head h

digit_is_not_empty : (s : String) → starts_digit s ≡ true → (s == "") ≡ false
digit_is_not_empty String.[] e = absurd (cc e)
digit_is_not_empty (String.◌∷◌ c s) e = elim (Bool-cases (String.◌∷◌ c s == "")) [
  | inl q ↦ absurd (cons≢nil ((eq_iff (String.◌∷◌ c s) "").0 q))
  | inr q ↦ q
]

pub itoa-ne-empty : (n : ℕ) → (itoa n == "") ≡ false
unfolding itoa
itoa-ne-empty n =
    digit_is_not_empty (itoa_fuel (suc n) n) (itoa_fuel_parses (suc n) n (omega arith)).1

-- The parts with commas between them.
abbrev pub join_commas : List String → String
join_commas [] = ""
join_commas (part ∷ []) = part
join_commas (part ∷ next ∷ parts) = part <> ("," <> join_commas (next ∷ parts))

-- No character of the text is a comma.
abbrev pub HasNoComma : String → Type 0
HasNoComma String.[] = Unit
HasNoComma (String.◌∷◌ c s) = (eqb (code c) 44 ≡ false) × HasNoComma s

join_commas-prepend :
    (c : Char) (parts : List String)
    → join_commas (prepend c parts) ≡ String.◌∷◌ c (join_commas parts)
unfolding prepend
join_commas-prepend c [] = refl
join_commas-prepend c (part ∷ []) = refl
join_commas-prepend c (part ∷ next ∷ parts) = cons-append c part ("," <> join_commas (next ∷ parts))

split_commas-has :
    (s : String) → (part : String) × (parts : List String) × (split_commas s ≡ part ∷ parts)
unfolding split_commas prepend
split_commas-has String.[] = ("", [], refl)
split_commas-has (String.◌∷◌ c s) = elim (Bool-cases (eqb (code c) 44)) [
  | inl q ↦ rw q ("", split_commas s, refl)
  | inr q ↦
      let (part, parts, e) = split_commas-has s in rw q (rw e (String.◌∷◌ c part, parts, refl))
]

join_commas-nil :
    (all parts : List String) (part : String)
    → all ≡ part ∷ parts
    → join_commas ("" ∷ all) ≡ "," <> join_commas all
join_commas-nil all parts part e = rw e (nil-append ("," <> join_commas (part ∷ parts)))

abbrev comma : Char
comma = char 44 tt

comma_cons : (c : Char) (s : String) → eqb (code c) 44 ≡ true → "," <> s ≡ String.◌∷◌ c s
comma_cons c s q =
    let is_comma : 44 ≡ code c = ground arith in
    cons-append comma "" s
    ∙ ap (λ t. String.◌∷◌ comma t) (nil-append s)
    ∙ ap (λ d. String.◌∷◌ d s) (Char-path comma c is_comma)

prepend-HasNoComma :
    (c : Char) (parts : List String)
    → eqb (code c) 44 ≡ false
    → All HasNoComma parts
    → All HasNoComma (prepend c parts)
unfolding prepend
prepend-HasNoComma c [] q h = ((q, tt), tt)
prepend-HasNoComma c (part ∷ parts) q h = ((q, h.0), h.1)

-- The parts of a text with commas between them are the text, and no part has a comma.
pub join_commas-split_commas :
    (s : String) → (join_commas (split_commas s) ≡ s) × All HasNoComma (split_commas s)
unfolding split_commas
join_commas-split_commas String.[] = (refl, (tt, tt))
join_commas-split_commas (String.◌∷◌ c s) =
    let (same, free) = join_commas-split_commas s in
    elim (Bool-cases (eqb (code c) 44)) [
      | inl q ↦
          let (part, parts, e) = split_commas-has s in
          rw q (
            join_commas-nil (split_commas s) parts part e
                ∙ comma_cons c _ q
                ∙ ap (λ t. String.◌∷◌ c t) same,
            (tt, free),
          )
      | inr q ↦ rw q (
        join_commas-prepend c (split_commas s) ∙ ap (λ t. String.◌∷◌ c t) same,
        prepend-HasNoComma c (split_commas s) q free,
      )
    ]
