-- ===== src/Store/Reasons.antt =====
-- The texts of rejected writes.
use Prim.Native.String.{String, ◌++◌}
use causalontology.Prelude.{List, [], ◌∷◌}

-- strings.Join(reasons, "; ")
unfoldable pub join_reasons : List String → String
join_reasons [] = ""
join_reasons (x ∷ []) = x
join_reasons (x ∷ y ∷ xs) = x ++ ("; " ++ join_reasons (y ∷ xs))

unfoldable pub cycle_reason : String → String
cycle_reason name = "would create a cycle in the materialized " ++ (name ++ " graph")
