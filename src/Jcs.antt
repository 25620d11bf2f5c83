-- ===== src/Jcs.antt =====
-- RFC 8785 serialization: bindings/go/v4/causalontology/jcs.go. The text that the strings.Builder
-- holds is the result; an error ends the serialization.
mod Numbers
mod Quote
mod Sort
pub mod SortLaws
pub mod Order
unfoldable pub use Numbers.{
  itoa, atoi, jcs_float, jcs_number, decimal, repeat_zero, take_chars, drop_chars, cut_at_e,
  remove_point, digits_value,
}
unfoldable pub use Quote.{jcs_quote, escapes, escape_rune, hex_digit}
unfoldable pub use Sort.{insert_text, sort_strings}
use Prim.Native.String.{◌++◌}
use causalontology.Prelude.{
  String, List, [], ◌∷◌, Bool, true, false, ◌==◌, if◌then◌else◌, Result, ok, err, ◌>>=◌,
}
use causalontology.Json.{
  Value, null, bool, str, number, int, int64, float64, arr, obj, Items, nil, cons, Fields, end,
  field, keys, Floats,
}

-- The loop over the sorted keys, with the canonical form of `v[key]` for each.
unfoldable pub join_members : (String → Result String) → Bool → List String → Result String
join_members text_of first [] = ok ""
join_members text_of first (key ∷ ks) =
    let rest = join_members text_of false ks in
    text_of key >>= λ v.
    rest >>= λ tail. ok ((if first then "" else ",") ++ (jcs_quote key ++ (":" ++ (v ++ tail))))

unfoldable mutual
  unfolding join_members sort_strings keys jcs_number jcs_quote

  pub append_jcs : Floats → Value → Result String
  append_jcs fl null = ok "null"
  append_jcs fl (bool b) = ok (if b then "true" else "false")
  append_jcs fl (str s) = ok (jcs_quote s)
  append_jcs fl (number n) = jcs_number fl (number n)
  append_jcs fl (int n) = jcs_number fl (int n)
  append_jcs fl (int64 n) = jcs_number fl (int64 n)
  append_jcs fl (float64 f) = jcs_number fl (float64 f)
  append_jcs fl (arr xs) = items_text fl true xs >>= λ t. ok ("[" ++ (t ++ "]"))
  append_jcs fl (obj m) =
      join_members (member_text fl m) true (sort_strings (keys m)) >>= λ t. ok ("{" ++ (t ++ "}"))

  pub items_text : Floats → Bool → Items → Result String
  items_text fl first nil = ok ""
  items_text fl first (cons v xs) = append_jcs fl v >>= λ t.
      items_text fl false xs >>= λ tail. ok ((if first then "" else ",") ++ (t ++ tail))

  -- the canonical form of `v[key]`
  pub member_text : Floats → Fields → String → Result String
  member_text fl end key = ok "null"
  member_text fl (field k v m) key =
      let here = append_jcs fl v in
      let rest = member_text fl m key in if k == key then here else rest

-- SerializeJCS
unfoldable pub serialize_jcs : Floats → Value → Result String
unfolding append_jcs
serialize_jcs fl v = append_jcs fl v

-- JSONEqual
unfoldable pub json_equal : Floats → Value → Value → Bool
unfolding serialize_jcs
json_equal fl a b = elim (serialize_jcs fl a) [
  | err e ↦ false
  | ok s ↦ elim (serialize_jcs fl b) [ err e ↦ false | ok t ↦ s == t ]
]
