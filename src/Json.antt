-- ===== src/Json.antt =====
-- The value model of bindings/go/v4/causalontology/json.go: what `any` holds in this binding. A
-- float64 stands as its bit pattern, and what the code asks of floats is a parameter, `Floats`. A
-- Go map is an association list of which the first entry for a key counts; a missing key reads nil.
pub mod Laws
use causalontology.Prelude.{
  ℕ, ℤ, pos, String, List, [], ◌∷◌, Bool, true, false, Option, none, some, ◌==◌, if◌then◌else◌, not,
  ◌||◌, eqb, Map, find,
}
use Prim.Native.Char.{code}
use causalontology.Sets.{StringSet, set_add}

-- The bit pattern of a float64.
abbrev pub Float : Type 0
Float = ℕ

mutual
  pub data Value : Type 0 where
    null : Value
    bool : Bool → Value
    str : String → Value
    -- json.Number: the source literal
    number : String → Value
    int : ℤ → Value
    int64 : ℤ → Value
    float64 : Float → Value
    obj : Fields → Value
    arr : Items → Value

  -- map[string]any
  pub data Fields : Type 0 where
    field : String → Value → Fields → Fields
    end : Fields

  -- []any
  pub data Items : Type 0 where
    cons : Value → Items → Items
    nil : Items

-- What the code uses of float64 and of strconv.
pub record Floats : Type 0 where
  -- json.Number.Float64, `none` for its error
  pub parse : String → Option Float
  -- the float that json.Number.Float64 returns beside an error: an infinity, or 0
  pub unparsed : String → Float
  -- float64(n)
  pub of_int : ℤ → Float
  -- int(f)
  pub to_int : Float → ℤ
  pub lt : Float → Float → Bool
  pub le : Float → Float → Bool
  pub eq : Float → Float → Bool
  pub mul : Float → Float → Float
  pub nan_or_inf : Float → Bool
  pub trunc : Float → Float
  pub abs : Float → Float
  pub negate : Float → Float
  -- big.NewFloat(f).Int: the exact integer of an integral value
  pub exact : Float → ℤ
  -- strconv.FormatFloat(f, 'e', -1, 64): the shortest digits that read back, d[.ddd]e±XX
  pub shortest : Float → String

-- `v, ok := m[key]`
unfoldable pub get : Fields → String → Option Value
get end key = none
get (field k v m) key = let rest = get m key in if k == key then some v else rest

-- `_, present := m[key]`
unfoldable pub has : Fields → String → Bool
unfolding get
has m key = elim (get m key) [ none ↦ false | some v ↦ true ]

-- `m[key]`
unfoldable pub at : Fields → String → Value
unfolding get
at m key = elim (get m key) [ none ↦ null | some v ↦ v ]

-- `m[key] = value`
unfoldable pub set : Fields → String → Value → Fields
set end key value = field key value end
set (field k v m) key value =
    let rest = set m key value in if k == key then field k value m else field k v rest

-- `delete(m, key)`
unfoldable pub delete : Fields → String → Fields
delete end key = end
delete (field k v m) key = let rest = delete m key in if k == key then rest else field k v rest

-- the keys, each once
unfoldable pub keys : Fields → StringSet
unfolding set_add
keys end = []
keys (field k v m) = set_add (keys m) k

-- Type assertions.
unfoldable pub as_text : Value → Option String
as_text (str s) = some s
as_text _ = none

unfoldable pub as_bool : Value → Option Bool
as_bool (bool b) = some b
as_bool _ = none

unfoldable pub as_object : Value → Option Fields
as_object (obj m) = some m
as_object _ = none

unfoldable pub as_list : Value → Option Items
as_list (arr xs) = some xs
as_list _ = none

-- `text, _ := m[key].(string)`
unfoldable pub text_at : Fields → String → String
unfolding at as_text
text_at m key = elim (as_text (at m key)) [ none ↦ "" | some s ↦ s ]

-- CopyMap
unfoldable pub copy_map : Fields → Fields
unfolding set
copy_map end = end
copy_map (field k v m) = set (copy_map m) k v

unfoldable pub strings_of : Items → List String
unfolding as_text
strings_of nil = []
strings_of (cons v xs) = elim (as_text v) [ none ↦ strings_of xs | some s ↦ s ∷ strings_of xs ]

-- stringList
unfoldable pub string_list : Value → List String
unfolding as_list strings_of
string_list v = elim (as_list v) [ none ↦ [] | some xs ↦ strings_of xs ]

-- strings.ContainsAny(n, ".eE")
unfoldable pub has_point_or_exponent : String → Bool
has_point_or_exponent String.[] = false
has_point_or_exponent (String.◌∷◌ c s) =
    eqb (code c) b'.' || eqb (code c) b'e' || eqb (code c) b'E' || has_point_or_exponent s

-- IsIntegerNumber
unfoldable pub is_integer_number : String → Bool
unfolding has_point_or_exponent
is_integer_number n = not (has_point_or_exponent n)

-- AsFloat
unfoldable pub as_float : Floats → Value → Option Float
as_float fl (number n) = fl.parse n
as_float fl (int n) = some (fl.of_int n)
as_float fl (int64 n) = some (fl.of_int n)
as_float fl (float64 f) = some f
as_float fl _ = none

-- `m[id]` of a map of objects: a missing key reads the nil map
unfoldable pub object_of : Map Fields → String → Fields
object_of m id = elim (find m id) [ none ↦ end | some rec ↦ rec ]

-- `f, _ := AsFloat(v)`
unfoldable pub float_value : Floats → Value → Float
float_value fl (number n) = elim (fl.parse n) [ none ↦ fl.unparsed n | some f ↦ f ]
float_value fl (int n) = fl.of_int n
float_value fl (int64 n) = fl.of_int n
float_value fl (float64 f) = f
float_value fl _ = fl.of_int (pos 0)
