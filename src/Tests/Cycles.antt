-- ===== src/Tests/Cycles.antt =====
-- Searches for cycles, and a store that keeps its taxonomy without them.
use Prim.Native.String.{◌++◌ as join}
use causalontology.Prelude.{
  String, List, [], ◌∷◌, Bool, true, false, some, ◌≡◌, refl, ◌↔◌, ◌⊎◌, inr, find, insert, text_lt,
  arith,
}
use causalontology.Json.{Fields, str, field, end, text_at, at, as_text, get, object_of}
use causalontology.Sets.{contains_string, set_add}
use causalontology.Canonical.{resolve_kind}
use causalontology.Semantics.Paths.{Graph, successors}
use causalontology.Semantics.Cycles.{has_cycle, visit_all, nodes_of, visit, node_count, visit_nexts}
use causalontology.Semantics.Cycles.Decides.{Cycle, has_cycle_decides}
use causalontology.Store.State.{Store, new_store}
use causalontology.Store.Queries.{records_of, retracted_ids, of_kind, targets_of}
use causalontology.Store.Cycles.{
  find_cycle_records, index_records, index_record, index_edge, search_nodes, dfs, visit_edges,
  edges_of,
}
use causalontology.Store.Cycles.Finds.{IsAcyclic, EndsInCycle, find_cycle_records_lem}
use causalontology.Store.Taxonomy.{
  active_in, active_taxonomy_edges, break_cycles, break_one, greatest, taxonomy_key_less, remove_id,
}
use causalontology.Store.Taxonomy.Breaking.{BreaksTaxonomy, active_taxonomy_edges_lem}
use causalontology.Store.Writes.{put_record}
use causalontology.Store.Invariant.Acyclic.{
  TypeAgrees, taxonomy, DecidesCycle, would_cycle-DecidesCycle,
}
use causalontology.Store.Invariant.Enforced.{Enforced, Enforced-IsAcyclic}
use causalontology.Tests.Doubles.{env, encode, copies}

abbrev ring : Graph
ring = ("a", "b" ∷ []) ∷ ("b", "a" ∷ []) ∷ []

has_cycle-ring : has_cycle ring ≡ some true
unfolding has_cycle successors find insert visit_all nodes_of visit node_count visit_nexts
has_cycle-ring = refl

has_cycle_decides_example : (b : Bool) × (has_cycle ring ≡ some b) × ((b ≡ true) ↔ Cycle ring)
has_cycle_decides_example = has_cycle_decides ring

-- an enrichment of the field subsumes
abbrev link : String → String → String → String → Fields
link id about entry timestamp = field "type" (str "enrichment") (
    field "id" (str id) (
      field "field" (str "subsumes") (
        field "about" (str about)
          (field "entry" (str entry) (field "timestamp" (str timestamp) end)))))

-- a record that leads into a cycle, and the two records of the cycle
abbrev lead_in : List Fields
lead_in = link "1" "a" "b" "9" ∷ link "2" "b" "c" "1" ∷ link "3" "c" "b" "2" ∷ []

-- The path that is returned begins with the record that leads into the cycle.
find_cycle_lead_in : find_cycle_records lead_in ≡ some lead_in
unfolding find_cycle_records index_records index_record index_edge search_nodes dfs visit_edges
    edges_of find insert at as_text get
find_cycle_lead_in = refl

find_cycle_records_lem_example :
    ((find_cycle_records lead_in ≡ some []) × IsAcyclic lead_in)
    ⊎ ((path : List Fields) × (find_cycle_records lead_in ≡ some path) × EndsInCycle lead_in path)
find_cycle_records_lem_example = find_cycle_records_lem lead_in

abbrev merged : Store
merged = record (new_store false) {
  records =
      ("1", link "1" "a" "b" "9") ∷ ("2", link "2" "b" "c" "1") ∷ ("3", link "3" "c" "b" "2") ∷ [];
  record_order = "1" ∷ "2" ∷ "3" ∷ [];
}

-- The record that leads into the cycle, and is on no cycle, is excluded as the latest of the path;
-- the later record of the cycle goes after it.
excluded_lead_in :
    active_taxonomy_edges merged "subsumes"
    ≡ some (link "2" "b" "c" "1" ∷ [], link "1" "a" "b" "9" ∷ link "3" "c" "b" "2" ∷ [])
unfolding active_taxonomy_edges break_cycles active_in records_of of_kind text_at object_of find
    contains_string retracted_ids targets_of break_one find_cycle_records search_nodes index_records
    index_record index_edge insert as_text at get text_lt set_add dfs edges_of visit_edges greatest
    remove_id taxonomy_key_less
excluded_lead_in = refl

active_taxonomy_edges_lem_example : BreaksTaxonomy merged "subsumes"
active_taxonomy_edges_lem_example = active_taxonomy_edges_lem merged "subsumes"

-- a record that closes another cycle
abbrev closing : Fields
closing = link "4" "c" "a" "3"

would_cycle-DecidesCycle_example : DecidesCycle merged (closing)
would_cycle-DecidesCycle_example = would_cycle-DecidesCycle merged (closing)

-- a signed enrichment
abbrev signed : Fields
signed =
    field "source" (str (join "ed25519:" (encode (copies 32))))
      (field "signature" (str (encode (copies 64))) (link "enrichment:1" "a" "b" "1"))

signed_agrees : TypeAgrees signed "enrichment"
unfolding resolve_kind text_at at get as_text
signed_agrees k e = inr (ground arith)

Enforced-IsAcyclic_example :
    IsAcyclic (taxonomy (put_record env (new_store true) signed "enrichment").1 "subsumes")
Enforced-IsAcyclic_example =
    Enforced-IsAcyclic env (put_record env (new_store true) signed "enrichment").1 "subsumes"
      (Enforced.recording signed "enrichment" signed_agrees Enforced.fresh) refl
