-- ===== src/Sets.antt =====
-- Go's string slices and `map[string]bool` sets: containsString, toStringSet, subsetOf and
-- sameStringSet of bindings/go/v4/causalontology/semantics.go. A set is the list of its keys, each
-- once; a range over it visits them in the list's order.
pub mod Laws
pub mod Sizes
use causalontology.Prelude.{
  String, List, [], ◌∷◌, Bool, true, false, ◌==◌, if◌then◌else◌, length, all, eqb,
}

unfoldable pub contains_string : List String → String → Bool
contains_string [] wanted = false
contains_string (item ∷ items) wanted =
    let rest = contains_string items wanted in if item == wanted then true else rest

abbrev pub StringSet : Type 0
StringSet = List String

-- `out[item] = true`
unfoldable pub set_add : StringSet → String → StringSet
unfolding contains_string
set_add out item = if contains_string out item then out else item ∷ out

unfoldable pub add_all : StringSet → List String → StringSet
unfolding set_add
add_all out [] = out
add_all out (item ∷ items) = add_all (set_add out item) items

unfoldable pub to_string_set : List String → StringSet
unfolding add_all
to_string_set items = add_all [] items

unfoldable pub subset_of : StringSet → StringSet → Bool
unfolding contains_string
subset_of a b = all (λ item. contains_string b item) a

unfoldable pub same_string_set : List String → List String → Bool
unfolding to_string_set subset_of
same_string_set a b =
    let set_a = to_string_set a in
    let set_b = to_string_set b in
    if eqb (length set_a) (length set_b) then subset_of set_a set_b else false
