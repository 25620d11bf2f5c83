-- ===== src/Store/Taxonomy.antt =====
-- Rule 13: the deterministic cycle-breaking of the subsumes and part_of graphs.
pub mod Keys
pub mod Breaking
use causalontology.Prelude.{
  ℕ, zero, suc, String, List, [], ◌∷◌, ◌++◌, Bool, true, false, Option, none, some, ◌==◌,
  if◌then◌else◌, length, text_lt,
}
use causalontology.Sets.{contains_string, StringSet}
use causalontology.Json.{Fields, text_at}
use causalontology.Store.State.{Store}
use causalontology.Store.Queries.{records_of, retracted_ids}
use causalontology.Store.Cycles.{find_cycle_records}

-- the unretracted enrichments of a field
unfoldable pub active_in : StringSet → String → List Fields → List Fields
active_in retracted wanted [] = []
active_in retracted wanted (rec ∷ recs) =
    let rest = active_in retracted wanted recs in
    if text_at rec "field" == wanted
    then (if contains_string retracted (text_at rec "id") then rest else rec ∷ rest)
    else rest

-- taxonomyKeyLess
unfoldable pub taxonomy_key_less : Fields → Fields → Bool
taxonomy_key_less a b =
    if text_at a "timestamp" == text_at b "timestamp"
    then text_lt (text_at a "id") (text_at b "id")
    else text_lt (text_at a "timestamp") (text_at b "timestamp")

-- the loop that keeps the greatest candidate
unfoldable pub greatest : Fields → List Fields → Fields
greatest loser [] = loser
greatest loser (candidate ∷ cycle) =
    greatest (if taxonomy_key_less loser candidate then candidate else loser) cycle

-- removal of the first record with the id, `none` where there is no such record
unfoldable pub remove_id : String → List Fields → Option (List Fields)
remove_id id [] = none
remove_id id (rec ∷ recs) =
    let rest = remove_id id recs in
    if text_at rec "id" == id
    then some recs
    else elim rest [ none ↦ none | some kept ↦ some (rec ∷ kept) ]

-- One round of the loop of ActiveTaxonomyEdges, with what follows it.
unfoldable pub break_one :
    (List Fields → List Fields → Option (List Fields × List Fields))
    → List Fields
    → List Fields
    → Option (List Fields × List Fields)
break_one again active excluded = elim (find_cycle_records active) [
  | none ↦ none
  | some [] ↦ some (active, excluded)
  | some (first ∷ cycle) ↦
      let loser = greatest first cycle in
      elim (remove_id (text_at loser "id") active) [
        | none ↦ some (active, excluded)
        | some kept ↦ again kept (excluded ++ loser ∷ [])
      ]
]

-- The loop, with fuel for one removal each.
unfoldable pub break_cycles : ℕ → List Fields → List Fields → Option (List Fields × List Fields)
break_cycles zero = break_one (λ active excluded. none)
break_cycles (suc fuel) = break_one (break_cycles fuel)

-- ActiveTaxonomyEdges
unfoldable pub active_taxonomy_edges : Store → String → Option (List Fields × List Fields)
active_taxonomy_edges s wanted =
    let active = active_in (retracted_ids s) wanted (records_of s "enrichment") in
    break_cycles (length active) active []

-- wouldCycle
unfoldable pub would_cycle : Store → Fields → Option Bool
would_cycle s rec =
    elim (find_cycle_records
      (active_in (retracted_ids s) (text_at rec "field") (records_of s "enrichment") ++ rec ∷ [])) [
        | none ↦ none
        | some [] ↦ some false
        | some (first ∷ cycle) ↦ some true
      ]
