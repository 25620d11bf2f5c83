-- ===== src/Store/Cycles/Finds.antt =====
-- findCycleRecords finds a cycle exactly when the records make one.
use causalontology.Prelude.{
  suc, ◌+◌, String, List, [], ◌∷◌, ◌++◌, true, some, ◌==◌, eq_iff, ◌≡◌, ◌⊎◌, inl, inr, arith,
  length, Option-cases, find,
}
use causalontology.Sets.{contains_string}
use causalontology.Sets.Laws.{contains-append}
use causalontology.Json.{Fields, text_at, at, as_text}
use causalontology.Store.Cycles.{
  Edge, Index, index_edge, index_record, index_records, find_cycle_records,
}
use causalontology.Store.Cycles.Trails.{In, Arc, Trail, stay, go}
use causalontology.Store.Cycles.Search.Ends.{search_nodes_lem}
use causalontology.Store.Cycles.Records.{Links, index_of, Arc-iff, Arc-source}

-- A walk along records: each one starts at the node that the one before it ends at.
pub data Walk (recs : List Fields) : String → List Fields → String → Type 0 where
  rest : {u : String} → Walk recs u [] u
  along :
      {u v w : String} {rec : Fields} {p : List Fields}
      → In rec recs
      → Links rec u v
      → Walk recs v p w
      → Walk recs u (rec ∷ p) w

-- No walk of at least one record comes back to its start.
abbrev pub IsAcyclic : List Fields → Type 0
IsAcyclic recs = (u : String) (rec : Fields) (p : List Fields) → ¬ Walk recs u (rec ∷ p) u

-- A walk whose end is a walk that comes back to its start.
abbrev pub EndsInCycle : List Fields → List Fields → Type 0
EndsInCycle recs path =
    (start : String) × (u : String) × (lead : List Fields) × (rec : Fields) × (p : List Fields)
    × (path ≡ lead ++ rec ∷ p)
    × Walk recs start lead u
    × Walk recs u (rec ∷ p) u

Trail-Walk :
    (recs : List Fields) {u w : String} {p : List Fields}
    → Trail (index_of recs).edges u p w
    → Walk recs u p w
Trail-Walk recs stay = rest
Trail-Walk recs (go {u} {v} {l = l} a t) =
    let (i, k) = (Arc-iff recs u v l).0 a in along i k (Trail-Walk recs t)

Walk-Trail :
    (recs : List Fields) {u w : String} {p : List Fields}
    → Walk recs u p w
    → Trail (index_of recs).edges u p w
Walk-Trail recs rest = stay
Walk-Trail recs (along {u} {v} {rec = l} i k t) =
    go ((Arc-iff recs u v l).1 (i, k)) (Walk-Trail recs t)

-- The texts at both ends of the records.
ends : List Fields → List String
ends [] = []
ends (rec ∷ recs) = text_at rec "about" ∷ text_at rec "entry" ∷ ends recs

length-ends : (recs : List Fields) → length (ends recs) ≡ length recs + length recs
unfolding ends
length-ends [] = omega arith
length-ends (rec ∷ recs) = omega (arith, length-ends recs)

contains-ends :
    (recs : List Fields) (rec : Fields) (u v : String)
    → In rec recs
    → Links rec u v
    → (contains_string (ends recs) u ≡ true) × (contains_string (ends recs) v ≡ true)
unfolding ends contains_string text_at
contains-ends [] rec u v i k = elim i [ ]
contains-ends (first ∷ recs) rec u v (inl e) (a, b) =
    rw e (ground (arith, a, b, eq_iff u u, eq_iff v v))
contains-ends (first ∷ recs) rec u v (inr i) k =
    let (m, n) = contains-ends recs rec u v i k in (ground arith, ground arith)

order-index_edge :
    (g : Index) (a : String) (e : Edge Fields) (u : String)
    → contains_string (index_edge g a e).node_order u ≡ true
    → (contains_string g.node_order u ≡ true) ⊎ ((a == u) ≡ true)
unfolding index_edge contains_string
order-index_edge g a e u = elim (Option-cases (find g.edges a)) [
  | inl h ↦ rw (h, index_edge) (λ m. ground (arith, contains-append g.node_order (a ∷ []) u))
  | inr (out, h) ↦ rw (h, index_edge) (λ m. inl m)
]

order-index_record :
    (g : Index) (rec : Fields) (u : String)
    → contains_string (index_record g rec).node_order u ≡ true
    → (contains_string g.node_order u ≡ true) ⊎ ((text_at rec "about" == u) ≡ true)
unfolding index_record text_at
order-index_record g rec u = elim (Option-cases (as_text (at rec "about"))) [
  | inl e ↦ rw (e, index_record) (λ m. inl m)
  | inr (a, ea) ↦ elim (Option-cases (as_text (at rec "entry"))) [
    | inl e ↦ rw (ea, index_record) (rw (e, index_record) (λ m. inl m))
    | inr (b, eb) ↦
        rw (ea, index_record, text_at) (rw (eb, index_record) (order-index_edge g a (b, rec) u))
  ]
]

-- The start nodes are ends of records.
order-index_records :
    (g : Index) (recs : List Fields) (u : String)
    → contains_string (index_records g recs).node_order u ≡ true
    → (contains_string g.node_order u ≡ true) ⊎ (contains_string (ends recs) u ≡ true)
unfolding index_records ends contains_string
order-index_records g [] u m = inl m
order-index_records g (rec ∷ recs) u m = elim (order-index_records (index_record g rec) recs u m) [
  | inr h ↦ inr (ground arith)
  | inl h ↦ elim (order-index_record g rec u h) [ inl k ↦ inl k | inr same ↦ inr (ground arith) ]
]

-- findCycleRecords always ends. It answers nil exactly where no walk along the records comes back
-- to its start; otherwise it returns a walk along the records whose end is such a walk.
pub find_cycle_records_lem :
    (recs : List Fields)
    → ((find_cycle_records recs ≡ some []) × IsAcyclic recs)
      ⊎ ((path : List Fields) × (find_cycle_records recs ≡ some path) × EndsInCycle recs path)
unfolding find_cycle_records
find_cycle_records_lem recs =
    elim (search_nodes_lem g.edges (ends recs) known (suc (length recs + length recs)) g.node_order
      (Arc-source recs) inside (omega (arith, length-ends recs))) [
        | inl (e, none_there) ↦ inl (e, λ u rec p w. none_there (u, rec, p, Walk-Trail recs w))
        | inr (path, e, (start, (u, lead, rec, p, i, s, t))) ↦
            inr (path, e, (start, u, lead, rec, p, i, Trail-Walk recs s, Trail-Walk recs t))
      ]
  where
    g : Index
    g = index_of recs

    known : (u v : String) (l : Fields) → Arc g.edges u l v → contains_string (ends recs) v ≡ true
    known u v l a = let (i, k) = (Arc-iff recs u v l).0 a in (contains-ends recs l u v i k).1

    inside :
        (u : String) → contains_string g.node_order u ≡ true → contains_string (ends recs) u ≡ true
    inside u m = elim (order-index_records (record { edges = []; node_order = [] }) recs u m) [
      | inl h ↦ unfold contains_string in absurd (cc)
      | inr h ↦ h
    ]
