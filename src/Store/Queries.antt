-- ===== src/Store/Queries.antt =====
-- Reads of the provenance records: retractions, lineages, and the records about an identifier.
pub mod Lineage
pub mod Retracted
pub mod About
use causalontology.Prelude.{
  ℕ, zero, suc, String, List, [], ◌∷◌, ◌++◌, Bool, true, false, Option, none, some, ◌==◌,
  if◌then◌else◌, ◌&&◌, ◌||◌, not, Map, find, insert, size,
}
use causalontology.Sets.{contains_string, StringSet, set_add}
use causalontology.Json.{Value, bool, Fields, end, at, as_text, text_at, set, copy_map, object_of}
use causalontology.Store.State.{Store}

unfoldable pub of_kind : Map Fields → String → List String → List Fields
of_kind records kind [] = []
of_kind records kind (id ∷ ids) =
    let rest = of_kind records kind ids in
    let rec = object_of records id in if text_at rec "type" == kind then rec ∷ rest else rest

-- recordsOf
unfoldable pub records_of : Store → String → List Fields
records_of s kind = of_kind s.records kind s.record_order

unfoldable pub targets_of : StringSet → List Fields → StringSet
targets_of out [] = out
targets_of out (rec ∷ recs) =
    targets_of (elim (as_text (at rec "retracts")) [ none ↦ out | some t ↦ set_add out t ]) recs

-- retractedIds
unfoldable pub retracted_ids : Store → StringSet
retracted_ids s = targets_of [] (records_of s "retraction")

-- `m[from] = to` for the records in which both are texts
unfoldable pub link : String → String → Map String → Fields → Map String
link from to m rec = elim (as_text (at rec from)) [
  | none ↦ m
  | some a ↦ elim (as_text (at rec to)) [ none ↦ m | some b ↦ insert m a b ]
]

unfoldable pub links : String → String → Map String → List Fields → Map String
links from to m [] = m
links from to m (rec ∷ recs) = links from to (link from to m rec) recs

-- One of the two loops of Lineage, with fuel for one step each.
unfoldable pub walk : ℕ → Map String → StringSet → String → Option StringSet
walk zero next chain cursor = elim (find next cursor) [
  | none ↦ some chain
  | some n ↦ if contains_string chain n then some chain else none
]
walk (suc fuel) next chain cursor = elim (find next cursor) [
  | none ↦ some chain
  | some n ↦
      let onward = walk fuel next (set_add chain n) n in
      if contains_string chain n then some chain else onward
]

unfoldable pub predecessor_of : Store → Map String
predecessor_of s = links "successor" "predecessor" [] (records_of s "succession")

unfoldable pub successor_of : Store → Map String
successor_of s = links "predecessor" "successor" [] (records_of s "succession")

-- Lineage
unfoldable pub lineage : Store → String → Option StringSet
lineage s key = elim (walk (size (predecessor_of s)) (predecessor_of s) (key ∷ []) key) [
  | none ↦ none
  | some chain ↦ walk (size (successor_of s)) (successor_of s) chain key
]

-- retractionSourceOk
unfoldable pub retraction_source_ok : Store → Fields → Option Bool
retraction_source_ok s retraction = elim (find s.records (text_at retraction "retracts")) [
  | none ↦ some true
  | some target ↦ elim (lineage s (text_at target "source")) [
    | none ↦ none
    | some chain ↦ some (contains_string chain (text_at retraction "source"))
  ]
]

unfoldable pub assertions_in : StringSet → String → Bool → List Fields → List Fields
assertions_in retracted identifier include_retracted [] = []
assertions_in retracted identifier include_retracted (rec ∷ recs) =
    let rest = assertions_in retracted identifier include_retracted recs in
    if text_at rec "about" == identifier
    then (if contains_string retracted (text_at rec "id")
        then (if include_retracted then set (copy_map rec) "retracted" (bool true) ∷ rest else rest)
        else rec ∷ rest)
    else rest

-- AssertionsAbout
unfoldable pub assertions_about : Store → String → Bool → List Fields
assertions_about s identifier include_retracted =
    assertions_in (retracted_ids s) identifier include_retracted (records_of s "assertion")

unfoldable pub enrichments_in : StringSet → String → Bool → List Fields → List Fields
enrichments_in retracted identifier include_retracted [] = []
enrichments_in retracted identifier include_retracted (rec ∷ recs) =
    let rest = enrichments_in retracted identifier include_retracted recs in
    if text_at rec "about" == identifier
    then (if contains_string retracted (text_at rec "id") && not include_retracted
        then rest
        else rec ∷ rest)
    else rest

-- EnrichmentsAbout
unfoldable pub enrichments_about : Store → String → Bool → List Fields
enrichments_about s identifier include_retracted =
    enrichments_in (retracted_ids s) identifier include_retracted (records_of s "enrichment")
