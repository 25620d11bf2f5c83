-- ===== src/Jcs/Numbers.antt =====
-- jcsNumber and jcsFloat of jcs.go, with the parts of strconv and strings that they call.
use Prim.Native.Nat.{◌/◌, ◌%◌, ◌^◌}
use Prim.Native.Char.{code}
use Prim.Native.String.{String, [], ◌∷◌, ◌++◌, count}
use causalontology.Prelude.{
  ℕ, zero, suc, ◌+◌, ◌-◌, ◌*◌, ℤ, pos, negsuc, ltb_ℤ, leb_ℤ, pos_part, neg_part, ◌-ℤ◌, Option, none,
  some, eqb, ltb, leb, ◌&&◌, if◌then◌else◌, Result, ok, err, bad_number, not_finite,
}
use causalontology.Json.{Value, number, int, int64, float64, Float, Floats, is_integer_number}
use causalontology.Jcs.Quote.{hex_digit}

-- the decimal digits of a number, with fuel for one round per digit
unfoldable pub decimal : ℕ → ℕ → String
unfolding hex_digit
decimal zero n = ""
decimal (suc fuel) n =
    let front = decimal fuel (n / 10) in
    if ltb n 10 then hex_digit n else front ++ hex_digit (n % 10)

-- strconv.Itoa, strconv.FormatInt(n, 10)
unfoldable pub itoa : ℤ → String
unfolding decimal
itoa (pos n) = decimal (suc n) n
itoa (negsuc n) = "-" ++ decimal (suc (suc n)) (suc n)

-- the digits of strconv.Atoi
unfoldable pub digits_value : ℕ → String → Option ℕ
digits_value n [] = some n
digits_value n (c ∷ s) =
    let rest = digits_value (n * 10 + (code c - 48)) s in
    if leb 48 (code c) && leb (code c) 57 then rest else none

minus : Option ℕ → Option ℤ
minus none = none
minus (some n) = some (pos 0 -ℤ pos n)

plus : Option ℕ → Option ℤ
plus none = none
plus (some n) = some (pos n)

nonempty_digits : String → Option ℕ
unfolding digits_value
nonempty_digits [] = none
nonempty_digits (c ∷ s) = digits_value 0 (c ∷ s)

-- strconv.Atoi
unfoldable pub atoi : String → Option ℤ
unfolding nonempty_digits minus plus ◌-ℤ◌
atoi [] = none
atoi (c ∷ s) =
    if eqb (code c) b'-'
    then minus (nonempty_digits s)
    else if eqb (code c) b'+'
    then plus (nonempty_digits s)
    else plus (nonempty_digits (c ∷ s))

-- strings.Repeat("0", n)
unfoldable pub repeat_zero : ℕ → String
repeat_zero zero = ""
repeat_zero (suc n) = "0" ++ repeat_zero n

-- digits[:n] and digits[n:]
unfoldable pub take_chars : ℕ → String → String
take_chars zero s = ""
take_chars (suc n) [] = ""
take_chars (suc n) (c ∷ s) = c ∷ take_chars n s

unfoldable pub drop_chars : ℕ → String → String
drop_chars zero s = s
drop_chars (suc n) [] = ""
drop_chars (suc n) (c ∷ s) = drop_chars n s

-- the texts before and after the first 'e'
unfoldable pub cut_at_e : String → Option (String × String)
cut_at_e [] = none
cut_at_e (c ∷ s) =
    let rest = cut_at_e s in
    if eqb (code c) b'e'
    then some ("", s)
    else elim rest [ none ↦ none | some (before, after) ↦ some (c ∷ before, after) ]

-- strings.Replace(mantissa, ".", "", 1)
unfoldable pub remove_point : String → String
remove_point [] = ""
remove_point (c ∷ s) = let rest = remove_point s in if eqb (code c) b'.' then s else c ∷ rest

-- the switch of jcsFloat, for k significant digits with the point after the n-th
layout : String → String → ℕ → ℤ → String
unfolding take_chars drop_chars repeat_zero itoa ◌-ℤ◌
layout sign digits k n =
    if leb_ℤ (pos k) n && leb_ℤ n (pos 21)
    then sign ++ (digits ++ repeat_zero (pos_part n - k))
    else if ltb_ℤ (pos 0) n && leb_ℤ n (pos 21)
    then sign ++ (take_chars (pos_part n) digits ++ ("." ++ drop_chars (pos_part n) digits))
    else if leb_ℤ (negsuc 2) n && leb_ℤ n (pos 0)
    then sign ++ ("0." ++ (repeat_zero (neg_part n) ++ digits))
    else (let rendered =
          take_chars 1 digits ++ (if ltb 1 k then "." ++ drop_chars 1 digits else "") in
        let exponent = n -ℤ pos 1 in
        let negative = ltb_ℤ exponent (pos 0) in
        sign
        ++ (rendered
            ++ ("e"
                ++ ((if negative then "-" else "+")
                    ++ itoa (if negative then pos 0 -ℤ exponent else exponent)))))

-- jcsFloat after the exact cases: the shortest digits of |f|, taken apart and laid out. Where
-- FormatFloat writes no 'e', which it always does, the code panics.
shortest_form : Floats → String → Float → Result String
unfolding cut_at_e atoi remove_point layout
shortest_form fl sign f = elim (cut_at_e (fl.shortest f)) [
  | none ↦ err bad_number
  | some (mantissa, after) ↦ elim (atoi after) [
    | none ↦ err bad_number
    | some exponent ↦
        let digits = remove_point mantissa in
        ok (layout sign digits (count digits) (exponent -ℤ negsuc 0))
  ]
]

unfoldable pub jcs_float : Floats → Float → Result String
unfolding itoa shortest_form
jcs_float fl f =
    if fl.nan_or_inf f
    then err not_finite
    else if fl.eq f (fl.of_int (pos 0))
    then ok "0"
    else if fl.eq f (fl.trunc f) && fl.lt (fl.abs f) (fl.of_int (pos (10 ^ 21)))
    then ok (itoa (fl.exact f))
    else if fl.lt f (fl.of_int (pos 0))
    then shortest_form fl "-" (fl.negate f)
    else shortest_form fl "" f

-- jcsNumber
unfoldable pub jcs_number : Floats → Value → Result String
unfolding jcs_float itoa is_integer_number
jcs_number fl (number n) =
    if is_integer_number n
    then ok n
    else elim (fl.parse n) [ none ↦ err bad_number | some f ↦ jcs_float fl f ]
jcs_number fl (int n) = ok (itoa n)
jcs_number fl (int64 n) = ok (itoa n)
jcs_number fl (float64 f) = jcs_float fl f
jcs_number fl _ = err bad_number
