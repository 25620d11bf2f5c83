-- ===== src/Semantics/Conflict/Symmetry.antt =====
-- A conflict does not depend on the order of the two claims.
use causalontology.Prelude.{String, List, [], ◌∷◌, Bool, ◌==◌, ◌≡◌, refl, arith, ◌&&◌, ◌||◌}
use causalontology.Sets.{to_string_set, subset_of}
use causalontology.Sets.Laws.{same_string_set_comm}
use causalontology.Json.{Fields, Floats, at, string_list, text_at}
use causalontology.Semantics.Windows.Laws.{window_overlap_comm}
use causalontology.Semantics.Conflict.{
  compatible_lists, contexts_compatible, is_positive, modalities_oppose, conflicts,
}

compatible_lists_comm : (a b : List String) → compatible_lists a b ≡ compatible_lists b a
unfolding compatible_lists
compatible_lists_comm [] [] = refl
compatible_lists_comm [] (y ∷ b) = refl
compatible_lists_comm (x ∷ a) [] = refl
compatible_lists_comm (x ∷ a) (y ∷ b) =
    or_comm (subset_of (to_string_set (x ∷ a)) (to_string_set (y ∷ b)))
      (subset_of (to_string_set (y ∷ b)) (to_string_set (x ∷ a)))
  where
    or_comm : (p q : Bool) → (p || q) ≡ (q || p)
    or_comm p q = ground arith

contexts_compatible_comm : (a b : Fields) → contexts_compatible a b ≡ contexts_compatible b a
unfolding contexts_compatible
contexts_compatible_comm a b =
    compatible_lists_comm (string_list (at a "context")) (string_list (at b "context"))

modalities_oppose_comm : (a b : String) → modalities_oppose a b ≡ modalities_oppose b a
unfolding modalities_oppose
modalities_oppose_comm a b =
    or_swap (a == "preventive" && is_positive b) (b == "preventive" && is_positive a)
  where
    or_swap : (p q : Bool) → (p || q) ≡ (q || p)
    or_swap p q = ground arith

-- Conflicts(a, b) and Conflicts(b, a) are one answer.
pub conflicts_comm : (fl : Floats) (a b : Fields) → conflicts fl a b ≡ conflicts fl b a
unfolding conflicts
conflicts_comm fl a b = rw (
  same_string_set_comm (string_list (at a "causes")) (string_list (at b "causes")),
  same_string_set_comm (string_list (at a "effects")) (string_list (at b "effects")),
  contexts_compatible_comm a b,
  window_overlap_comm fl a b,
  modalities_oppose_comm (text_at a "modality") (text_at b "modality"),
)
