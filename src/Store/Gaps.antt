-- ===== src/Store/Gaps.antt =====
-- Gaps: what the store still lacks, as a list of maps with the identifier and the kind of a gap.
pub mod Kinds
pub mod Meaning
pub mod Closed
pub mod Finds
pub mod Pairs
use causalontology.Prelude.{
  String, List, [], ◌∷◌, ◌++◌, Bool, true, false, Option, none, some, ◌==◌, if◌then◌else◌, ◌&&◌,
  ◌||◌, not, Map, find, is_some,
}
use causalontology.Sets.{contains_string, StringSet, set_add}
use causalontology.Json.{
  Value, str, arr, Items, cons, nil, Fields, field, end, has, get, at, as_text, text_at,
  string_list, object_of, Floats,
}
use causalontology.Semantics.Refinement.{refinement_valid, is_partial}
use causalontology.Semantics.Conflict.{conflicts}
use causalontology.Store.State.{Store}
use causalontology.Store.Taxonomy.{active_taxonomy_edges}

unfoldable pub is_claim : Fields → Bool
is_claim m = text_at m "type" == "causal_relation_object"

-- one round of the loop that builds `refined`
unfoldable pub refine_one : Floats → Map Fields → StringSet → Fields → StringSet
refine_one fl objects out m =
    if not (is_claim m) || text_at m "refines" == ""
    then out
    else elim (find objects (text_at m "refines")) [
      | none ↦ out
      | some parent ↦
          let added : StringSet = elim (as_text (at parent "id")) [
            | none ↦ out
            | some id ↦ set_add out id
          ] in
          if (refinement_valid fl m parent).0 then added else out
    ]

unfoldable pub refine_all : Floats → Map Fields → StringSet → List String → StringSet
refine_all fl objects out [] = out
refine_all fl objects out (id ∷ ids) =
    refine_all fl objects (refine_one fl objects out (object_of objects id)) ids

-- the parents closed by a valid refinement in the store
unfoldable pub refined : Floats → Store → StringSet
refined fl s = refine_all fl s.objects [] s.object_order

-- a []any of texts
unfoldable pub items_of : List String → Items
items_of [] = nil
items_of (x ∷ xs) = cons (str x) (items_of xs)

abbrev pub missing_field : String → Fields → Fields
missing_field id m =
    field "id" (str id)
      (field "kind" (str "missing_field") (field "missing" (arr (items_of (is_partial m).1)) end))

abbrev pub empty_mechanism : String → Fields
empty_mechanism id = field "id" (str id) (field "kind" (str "empty_mechanism") end)

unfoldable pub is_empty_array : Value → Bool
is_empty_array (arr nil) = true
is_empty_array _ = false

-- `mechanismEmpty`
unfoldable pub mechanism_empty : Fields → Bool
mechanism_empty m = elim (get m "mechanism") [ none ↦ true | some v ↦ is_empty_array v ]

-- the first two kinds, for one claim
unfoldable pub claim_gaps : StringSet → String → Fields → List Fields
claim_gaps closed id m =
    (if (not (has m "temporal") || not (has m "modality")) && not (contains_string closed id)
      then missing_field id m ∷ []
      else [])
    ++ (if mechanism_empty m && not (contains_string closed id)
        then empty_mechanism id ∷ []
        else [])

-- the loop for the first two kinds
unfoldable pub open_claims : StringSet → Map Fields → List String → List Fields
open_claims closed objects [] = []
open_claims closed objects (id ∷ ids) =
    let rest = open_claims closed objects ids in
    if is_claim (object_of objects id)
    then claim_gaps closed id (object_of objects id) ++ rest
    else rest

abbrev pub inconsistent_hierarchy : Fields → Fields
inconsistent_hierarchy rec = field "id" (at rec "id") (
    field "kind" (str "inconsistent_hierarchy")
      (field "note" (str "excluded by the deterministic cycle-breaking view rule") end))

unfoldable pub excluded_gaps : List Fields → List Fields
excluded_gaps [] = []
excluded_gaps (rec ∷ recs) = inconsistent_hierarchy rec ∷ excluded_gaps recs

-- the references of an object
unfoldable pub references : Fields → List String
references m =
    if is_claim m
    then string_list (at m "causes")
      ++ string_list (at m "effects")
      ++ string_list (at m "context")
      ++ string_list (at m "mechanism")
      ++ (if text_at m "refines" == "" then [] else text_at m "refines" ∷ [])
    else if text_at m "type" == "realizable"
    then (if text_at m "bearer" == "" then [] else text_at m "bearer" ∷ [])
    else []

abbrev pub dangling_reference : String → String → Fields
dangling_reference id ref =
    field "id" (str id) (field "kind" (str "dangling_reference") (field "ref" (str ref) end))

unfoldable pub dangling_refs : Map Fields → String → List String → List Fields
dangling_refs objects id [] = []
dangling_refs objects id (ref ∷ refs) =
    let rest = dangling_refs objects id refs in
    if not (ref == "") && not (is_some (find objects ref))
    then dangling_reference id ref ∷ rest
    else rest

unfoldable pub dangling_gaps : Map Fields → List String → List Fields
dangling_gaps objects [] = []
dangling_gaps objects (id ∷ ids) =
    dangling_refs objects id (references (object_of objects id)) ++ dangling_gaps objects ids

-- `cros`
unfoldable pub claims_of : Map Fields → List String → List Fields
claims_of objects [] = []
claims_of objects (id ∷ ids) =
    let rest = claims_of objects ids in
    if is_claim (object_of objects id) then object_of objects id ∷ rest else rest

abbrev pub conflict : Fields → Fields → Fields
conflict a b = field "kind" (str "conflict") (field "a" (at a "id") (field "b" (at b "id") end))

-- the inner loop over the pairs of claims
unfoldable pub conflicts_with : Floats → Fields → List Fields → List Fields
conflicts_with fl a [] = []
conflicts_with fl a (b ∷ cros) =
    let rest = conflicts_with fl a cros in if conflicts fl a b then conflict a b ∷ rest else rest

unfoldable pub conflict_gaps : Floats → List Fields → List Fields
conflict_gaps fl [] = []
conflict_gaps fl (a ∷ cros) = conflicts_with fl a cros ++ conflict_gaps fl cros

unfoldable pub of_gap_kind : String → List Fields → List Fields
of_gap_kind kind [] = []
of_gap_kind kind (gap ∷ gaps) =
    let rest = of_gap_kind kind gaps in if text_at gap "kind" == kind then gap ∷ rest else rest

-- the gaps of all kinds, with the records that are excluded from the two taxonomies
unfoldable pub all_gaps : Floats → Store → List Fields → List Fields → List Fields
all_gaps fl s subsumes part_of =
    open_claims (refined fl s) s.objects s.object_order
    ++ excluded_gaps subsumes
    ++ excluded_gaps part_of
    ++ dangling_gaps s.objects s.object_order
    ++ conflict_gaps fl (claims_of s.objects s.object_order)

-- Gaps; `none` where the fuel of ActiveTaxonomyEdges ran out
unfoldable pub gaps : Floats → Store → String → Option (List Fields)
gaps fl s kind = elim (active_taxonomy_edges s "subsumes") [
  | none ↦ none
  | some (kept, subsumes) ↦ elim (active_taxonomy_edges s "part_of") [
    | none ↦ none
    | some (left, part_of) ↦
        let out = all_gaps fl s subsumes part_of in
        some (if kind == "" then out else of_gap_kind kind out)
  ]
]
