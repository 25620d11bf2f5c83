-- ===== src/Jcs/Sort.antt =====
-- sort.Strings: ascending order of texts.
use causalontology.Prelude.{String, List, [], ◌∷◌, text_lt, if◌then◌else◌}

unfoldable pub insert_text : String → List String → List String
unfolding text_lt
insert_text x [] = x ∷ []
insert_text x (y ∷ ys) = let rest = insert_text x ys in if text_lt y x then y ∷ rest else x ∷ y ∷ ys

unfoldable pub sort_strings : List String → List String
unfolding insert_text
sort_strings [] = []
sort_strings (x ∷ xs) = insert_text x (sort_strings xs)
