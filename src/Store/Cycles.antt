-- ===== src/Store/Cycles.antt =====
-- findCycleRecords: a depth-first search for a cycle in the about -> entry graph. The search itself
-- does not look into what an edge carries, so here it may be of any type.
pub mod Trails
pub mod Marks
pub mod Search
pub mod Records
pub mod Finds
use causalontology.Prelude.{
  ℕ, zero, suc, ◌+◌, String, List, [], ◌∷◌, ◌++◌, Option, none, some, Map, find, insert, length,
}
use causalontology.Json.{Fields, at, as_text}
use causalontology.Semantics.Cycles.{Mark, on_path, finished}

-- taxonomyEdge: target and carrying record
abbrev pub Edge : Type 0 → Type 0
Edge L = String × L

pub record Index : Type 0 where
  pub edges : Map (List (Edge Fields))
  pub node_order : List String

-- one round of the loop that builds `edges` and `nodeOrder`
unfoldable pub index_edge : Index → String → Edge Fields → Index
index_edge g about edge = elim (find g.edges about) [
  | none ↦ record {
    edges = insert g.edges about (edge ∷ []);
    node_order = g.node_order ++ about ∷ [];
  }
  | some out ↦ record g { edges = insert g.edges about (out ++ edge ∷ []) }
]

unfoldable pub index_record : Index → Fields → Index
index_record g rec = elim (as_text (at rec "about")) [
  | none ↦ g
  | some about ↦ elim (as_text (at rec "entry")) [
    | none ↦ g
    | some entry ↦ index_edge g about (entry, rec)
  ]
]

unfoldable pub index_records : Index → List Fields → Index
index_records g [] = g
index_records g (rec ∷ recs) = index_records (index_record g rec) recs

-- The marks so far, and the cycle if one was closed; `none` means that the fuel ran out.
abbrev pub Search : Type 0 → Type 0
Search L = Option (Map Mark × Option (List L))

module _ {L : Type 0} where
  -- `edges[node]`
  unfoldable pub edges_of : Map (List (Edge L)) → String → List (Edge L)
  edges_of edges node = elim (find edges node) [ none ↦ [] | some out ↦ out ]

  -- the loop of dfs over the edges of a node, with dfs for its targets
  unfoldable pub visit_edges :
      (String → List L → Map Mark → Search L)
      → String
      → List L
      → List (Edge L)
      → Map Mark
      → Search L
  visit_edges dfs node path [] state = some (insert state node finished, none)
  visit_edges dfs node path ((target, l) ∷ edges) state = elim (find state target) [
    | some on_path ↦ some (state, some (path ++ l ∷ []))
    | some finished ↦ visit_edges dfs node path edges state
    | none ↦ elim (dfs target (path ++ l ∷ []) state) [
      | none ↦ none
      | some (after, some cycle) ↦ some (after, some cycle)
      | some (after, none) ↦ visit_edges dfs node path edges after
    ]
  ]

  -- dfs, with fuel for one level of recursion each
  unfoldable pub dfs : ℕ → Map (List (Edge L)) → String → List L → Map Mark → Search L
  dfs zero edges node path state = none
  dfs (suc fuel) edges node path state =
      visit_edges (dfs fuel edges) node path (edges_of edges node) (insert state node on_path)

  -- the loop over nodeOrder
  unfoldable pub search_nodes : ℕ → Map (List (Edge L)) → List String → Map Mark → Option (List L)
  search_nodes fuel edges [] state = some []
  search_nodes fuel edges (start ∷ starts) state = elim (find state start) [
    | some mark ↦ search_nodes fuel edges starts state
    | none ↦ elim (dfs fuel edges start [] state) [
      | none ↦ none
      | some (after, some cycle) ↦ some cycle
      | some (after, none) ↦ search_nodes fuel edges starts after
    ]
  ]

-- findCycleRecords; an empty list is its nil. A level of the search marks a node that is an `about`
-- or an `entry` of a record.
unfoldable pub find_cycle_records : List Fields → Option (List Fields)
find_cycle_records recs =
    let g = index_records (record { edges = []; node_order = [] }) recs in
    search_nodes (suc (length recs + length recs)) g.edges g.node_order []
