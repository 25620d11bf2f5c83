-- ===== src/Semantics/Hierarchy.antt =====
-- HierarchyConsistent, algorithm B: the mechanism of a parent claim connects every cause to every
-- effect, across the strata.
pub mod Edges
pub mod Loops
pub mod Meaning
use causalontology.Prelude.{
  String, List, [], ◌∷◌, Bool, true, false, Option, none, some, Map, find, insert,
}
use causalontology.Sets.{StringSet, add_all}
use causalontology.Json.{Fields, at, string_list}
use causalontology.Semantics.Paths.{Graph, successors, path_exists}
use causalontology.Semantics.Bridges.{bridge_closure}

pub data Verdict : Type 0 where
  consistent inconsistent indeterminate : Verdict

-- the edges of one member, cause by cause; a cause without effects still becomes a key
unfoldable pub add_edges : Graph → List String → List String → Graph
add_edges g [] effects = g
add_edges g (cause ∷ causes) effects =
    add_edges (insert g cause (add_all (successors g cause) effects)) causes effects

-- the edges of the members; `none` where one is absent
unfoldable pub member_edges : Map Fields → Graph → List String → Option Graph
member_edges members g [] = some g
member_edges members g (id ∷ mechanism) = elim (find members id) [
  | none ↦ none
  | some member ↦
      member_edges members
        (add_edges g (string_list (at member "causes")) (string_list (at member "effects")))
        mechanism
]

-- A loop that stops at the first true answer of a search, and one that stops at the first false
-- one; here and below, `none` means that the fuel of a search ran out.
unfoldable pub any_of : (String → Option Bool) → List String → Option Bool
any_of search [] = some false
any_of search (x ∷ xs) = elim (search x) [
  | none ↦ none
  | some b ↦ elim b [ true ↦ some true | false ↦ any_of search xs ]
]

unfoldable pub all_of : (String → Option Bool) → List String → Option Bool
all_of search [] = some true
all_of search (x ∷ xs) = elim (search x) [
  | none ↦ none
  | some b ↦ elim b [ true ↦ all_of search xs | false ↦ some false ]
]

-- the loops over the closures of a cause and of an effect
unfoldable pub connected : Graph → StringSet → StringSet → Option Bool
connected g cps eps = any_of (λ cp. any_of (path_exists g cp) eps) cps

-- `bCause` and `bEffect`, read at a cause and an effect
unfoldable pub pair_connected : Graph → List Fields → String → String → Option Bool
pair_connected g bridges c e = elim (bridge_closure c bridges) [
  | none ↦ none
  | some cps ↦ elim (bridge_closure e bridges) [ none ↦ none | some eps ↦ connected g cps eps ]
]

-- the loops over the causes and the effects
unfoldable pub all_connected : Graph → List Fields → List String → List String → Option Bool
all_connected g bridges causes effects =
    all_of (λ c. all_of (pair_connected g bridges c) effects) causes

unfoldable pub verdict : Option Bool → Option Verdict
verdict none = none
verdict (some true) = some consistent
verdict (some false) = some inconsistent

-- the verdict on a mechanism whose edges are read
unfoldable pub judge : Fields → List Fields → Option Graph → Option Verdict
judge parent bridges none = some indeterminate
judge parent bridges (some g) =
    verdict (
      all_connected g bridges (string_list (at parent "causes"))
        (string_list (at parent "effects")))

unfoldable pub judge_mechanism : Fields → Map Fields → List Fields → List String → Option Verdict
judge_mechanism parent members bridges [] = some consistent
judge_mechanism parent members bridges (id ∷ mechanism) =
    judge parent bridges (member_edges members [] (id ∷ mechanism))

-- HierarchyConsistent
unfoldable pub hierarchy_consistent : Fields → Map Fields → List Fields → Option Verdict
hierarchy_consistent parent members bridges =
    judge_mechanism parent members bridges (string_list (at parent "mechanism"))
