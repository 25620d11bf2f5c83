-- ===== src/Semantics/Conflict.antt =====
-- Rule 6: the formal conflict test.
pub mod Symmetry
pub mod Meaning
use causalontology.Prelude.{
  String, List, [], ◌∷◌, Bool, true, false, ◌==◌, if◌then◌else◌, ◌&&◌, ◌||◌,
}
use causalontology.Sets.{to_string_set, subset_of, same_string_set}
use causalontology.Json.{Fields, Floats, at, string_list, text_at}
use causalontology.Semantics.Windows.{window_overlap}

unfoldable pub is_empty : List String → Bool
is_empty [] = true
is_empty (x ∷ xs) = false

unfoldable pub compatible_lists : List String → List String → Bool
unfolding is_empty to_string_set subset_of
compatible_lists a b =
    if is_empty a || is_empty b
    then true
    else subset_of (to_string_set a) (to_string_set b)
      || subset_of (to_string_set b) (to_string_set a)

-- contextsCompatible
unfoldable pub contexts_compatible : Fields → Fields → Bool
contexts_compatible a b =
    compatible_lists (string_list (at a "context")) (string_list (at b "context"))

-- positiveModalities[m]
unfoldable pub is_positive : String → Bool
is_positive m = m == "necessary" || m == "sufficient" || m == "contributory" || m == "enabling"

-- mechanismPresent
unfoldable pub mechanism_present : Fields → Bool
unfolding is_empty
mechanism_present m = if is_empty (string_list (at m "mechanism")) then false else true

-- the last test of Conflicts
unfoldable pub modalities_oppose : String → String → Bool
unfolding is_positive
modalities_oppose a b = (a == "preventive" && is_positive b) || (b == "preventive" && is_positive a)

-- Conflicts
unfoldable pub conflicts : Floats → Fields → Fields → Bool
conflicts fl a b =
    if same_string_set (string_list (at a "causes")) (string_list (at b "causes"))
    then (if same_string_set (string_list (at a "effects")) (string_list (at b "effects"))
        then (if contexts_compatible a b
            then (if window_overlap fl a b
                then modalities_oppose (text_at a "modality") (text_at b "modality")
                else false)
            else false)
        else false)
    else false
