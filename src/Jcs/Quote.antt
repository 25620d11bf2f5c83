-- ===== src/Jcs/Quote.antt =====
-- jcsQuote of jcs.go.
use Prim.Native.Nat.{◌/◌, ◌%◌}
use Prim.Native.Char.{Char, code}
use Prim.Native.String.{String, [], ◌∷◌, ◌++◌}
use causalontology.Prelude.{ℕ, eqb, ltb, if◌then◌else◌}

-- the last digit of %x
unfoldable pub hex_digit : ℕ → String
hex_digit n =
    if eqb n 0
    then "0"
    else if eqb n 1
    then "1"
    else if eqb n 2
    then "2"
    else if eqb n 3
    then "3"
    else if eqb n 4
    then "4"
    else if eqb n 5
    then "5"
    else if eqb n 6
    then "6"
    else if eqb n 7
    then "7"
    else if eqb n 8
    then "8"
    else if eqb n 9
    then "9"
    else if eqb n 10
    then "a"
    else if eqb n 11
    then "b"
    else if eqb n 12
    then "c"
    else if eqb n 13
    then "d"
    else if eqb n 14
    then "e"
    else "f"

-- the switch on one rune; below 0x20 `\u%04x` has two zeros in front
unfoldable pub escape_rune : Char → String
unfolding hex_digit
escape_rune r =
    if eqb (code r) 0x22
    then "\\\""
    else if eqb (code r) 0x5c
    then "\\\\"
    else if eqb (code r) 0x08
    then "\\b"
    else if eqb (code r) 0x09
    then "\\t"
    else if eqb (code r) 0x0a
    then "\\n"
    else if eqb (code r) 0x0c
    then "\\f"
    else if eqb (code r) 0x0d
    then "\\r"
    else if ltb (code r) 0x20
    then "\\u00" ++ (hex_digit (code r / 16) ++ hex_digit (code r % 16))
    else r ∷ []

unfoldable pub escapes : String → String
unfolding escape_rune
escapes [] = ""
escapes (r ∷ text) = escape_rune r ++ escapes text

unfoldable pub jcs_quote : String → String
unfolding escapes
jcs_quote text = "\"" ++ (escapes text ++ "\"")
