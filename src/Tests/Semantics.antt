-- ===== src/Tests/Semantics.antt =====
-- The rules on small claims and graphs.
use causalontology.Prelude.{String, List, [], ◌∷◌, Bool, true, false, some, ◌≡◌, refl, ◌↔◌}
use causalontology.Sets.{contains_string, StringSet, set_add}
use causalontology.Json.{str, arr, nil, cons, Fields, end, field}
use causalontology.Semantics.Paths.{Graph, path_exists, path_loop, successors, push_all, Reach}
use causalontology.Semantics.Paths.Decides.{path_exists_decides}
use causalontology.Semantics.Bridges.{bridge_closure, Resolves}
use causalontology.Semantics.Bridges.Closure.{bridge_closure_lem}
use causalontology.Semantics.Conflict.{conflicts}
use causalontology.Semantics.Conflict.Symmetry.{conflicts_comm}
use causalontology.Semantics.Conflict.Meaning.{Conflict, conflicts_iff}
use causalontology.Semantics.Refinement.{refinement_valid}
use causalontology.Semantics.Refinement.Meaning.{Refines, refinement_valid_iff}
use causalontology.Tests.Doubles.{floats}

abbrev graph : Graph
graph = ("a", "b" ∷ []) ∷ ("b", "a" ∷ "c" ∷ []) ∷ []

paths : (path_exists graph "a" "c" ≡ some true) × (path_exists graph "c" "a" ≡ some false)
unfolding path_exists path_loop successors push_all contains_string set_add
paths = (refl, refl)

path_exists_decides_example :
    (b : Bool) × (path_exists graph "a" "c" ≡ some b) × ((b ≡ true) ↔ ∥ Reach graph "a" "c" ∥₁)
path_exists_decides_example = path_exists_decides graph "a" "c"

abbrev bridges : List Fields
bridges = field "coarse" (str "o") (field "fine" (arr (cons (str "p") nil)) end) ∷ []

bridge_closure_lem_example :
    (r : StringSet) × (bridge_closure "o" bridges ≡ some r)
    × ((v : String) → (contains_string r v ≡ true) ↔ ∥ Resolves bridges "o" v ∥₁)
bridge_closure_lem_example = bridge_closure_lem "o" bridges

abbrev claim : String → Fields → Fields
claim modality rest =
    field "causes" (arr (cons (str "a") nil))
      (field "effects" (arr (cons (str "b") nil)) (field "modality" (str modality) rest))

abbrev parent : Fields
parent =
    field "id" (str "causal_relation_object:1")
      (field "causes" (arr (cons (str "a") nil)) (field "effects" (arr (cons (str "b") nil)) end))

conflicts_comm_example :
    conflicts floats (claim "preventive" end) (claim "enabling" end)
    ≡ conflicts floats (claim "enabling" end) (claim "preventive" end)
conflicts_comm_example = conflicts_comm floats (claim "preventive" end) (claim "enabling" end)

conflicts_iff_example :
    (conflicts floats (claim "preventive" end) (claim "enabling" end) ≡ true)
    ↔ Conflict floats (claim "preventive" end) (claim "enabling" end)
conflicts_iff_example = conflicts_iff floats (claim "preventive" end) (claim "enabling" end)

refinement_valid_iff_example :
    ((refinement_valid floats
        (claim "enabling" (field "refines" (str "causal_relation_object:1") end))
        parent).0
      ≡ true)
    ↔ Refines floats
        (claim "enabling" (field "refines" (str "causal_relation_object:1") end))
        parent
refinement_valid_iff_example =
    refinement_valid_iff floats
      (claim "enabling" (field "refines" (str "causal_relation_object:1") end)) parent
