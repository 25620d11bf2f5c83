-- ===== src/Tests/Strata.antt =====
-- The rules across strata on small claims.
use causalontology.Prelude.{String, [], ◌∷◌, true, some, ◌≡◌, refl, Map, find, insert, any}
use causalontology.Sets.{contains_string, set_add, add_all}
use causalontology.Json.{
  str, bool, arr, nil, cons, Value, Fields, end, field, at, as_list, string_list, strings_of, get,
  object_of,
}
use causalontology.Semantics.Paths.{Graph, successors}
use causalontology.Semantics.Strata.{intra_stratal}
use causalontology.Semantics.Strata.Gaps.{ShowsByRule16, skip_gaps_lem}
use causalontology.Semantics.Hierarchy.{member_edges, add_edges}
use causalontology.Semantics.Hierarchy.Edges.{draws, successors-member_edges}
use causalontology.Semantics.Hierarchy.Meaning.{Answers, hierarchy_consistent_lem}

abbrev skip : Fields
skip = field "skips" (bool true) end

skip_gaps_lem_example : ShowsByRule16 skip intra_stratal
skip_gaps_lem_example = skip_gaps_lem skip intra_stratal

abbrev texts : String → Value
texts s = arr (cons (str s) nil)

abbrev member : Fields
member = field "causes" (texts "a") (field "effects" (texts "b") end)

abbrev members : Map Fields
members = ("m", member) ∷ []

abbrev parent : Fields
parent =
    field "mechanism" (texts "m") (field "causes" (texts "a") (field "effects" (texts "b") end))

abbrev drawn : Graph
drawn = ("a", "b" ∷ []) ∷ []

member_edges-drawn : member_edges members [] ("m" ∷ []) ≡ some drawn
unfolding member_edges find add_edges insert add_all set_add contains_string string_list strings_of
    at get successors as_list
member_edges-drawn = refl

hierarchy_consistent_lem_example : Answers parent members []
hierarchy_consistent_lem_example = hierarchy_consistent_lem parent members []

successors-member_edges_example :
    contains_string (successors drawn "a") "b"
    ≡ any (λ id. draws (object_of members id) "a" "b") ("m" ∷ [])
successors-member_edges_example =
    successors-member_edges members ("m" ∷ []) drawn "a" "b" member_edges-drawn
