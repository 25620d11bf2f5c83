-- ===== src/Semantics/Cycles/Meaning.antt =====
-- The search of HasCycle as that of findCycleRecords with nothing carried by the edges.
use causalontology.Prelude.{
  ℕ, zero, suc, String, List, [], ◌∷◌, ◌++◌, Bool, true, false, Option, none, some, ◌==◌, eq_iff,
  ◌≡◌, ◌↔◌, inl, inr, refl, ap, arith, Map, find, insert, map, Option-cases, Bool-cases,
}
use causalontology.Sets.{contains_string}
use causalontology.Semantics.Paths.{Graph, successors, Reach, here, step}
use causalontology.Semantics.Cycles.{Mark, on_path, finished, visit_nexts, visit, visit_all}
use causalontology.Store.Cycles.{Edge, Search, edges_of, visit_edges, dfs, search_nodes}
use causalontology.Store.Cycles.Trails.{In, Arc, Trail, stay, go}

abbrev pub bare : String → Edge (Unit {0})
bare v = (v, tt)

-- The graph with edges that carry nothing.
abbrev pub labelled : Graph → Map (List (Edge (Unit {0})))
labelled [] = []
labelled ((node, out) ∷ edges) = (node, map bare out) ∷ labelled edges

edges_of-labelled :
    (edges : Graph) (u : String) → edges_of (labelled edges) u ≡ map bare (successors edges u)
unfolding edges_of successors find
edges_of-labelled [] u = refl
edges_of-labelled ((node, out) ∷ edges) u = ground (arith, edges_of-labelled edges u)

-- The answer of the one search from that of the other.
abbrev Agrees : Option (Map Mark × Bool) → Search (Unit {0}) → Type 0
Agrees answer none = answer ≡ none
Agrees answer (some (after, none)) = answer ≡ some (after, false)
Agrees answer (some (after, some [])) = ⊥
Agrees answer (some (after, some (x ∷ cycle))) = answer ≡ some (after, true)

closing-Agrees :
    (state : Map Mark) (path : List (Unit {0}))
    → Agrees (some (state, true)) (some (state, some (path ++ tt ∷ [])))
closing-Agrees state [] = refl
closing-Agrees state (x ∷ path) = refl

module _ (visit' : String → Map Mark → Option (Map Mark × Bool))
    (dfs' : String → List (Unit {0}) → Map Mark → Search (Unit {0}))
    (same : (node : String) (path : List (Unit {0})) (state : Map Mark)
      → Agrees (visit' node state) (dfs' node path state)) where
  visit_nexts-Agrees :
      (nexts : List String) (node : String) (path : List (Unit {0})) (state : Map Mark)
      → Agrees
          (visit_nexts visit' node nexts state)
          (visit_edges dfs' node path (map bare nexts) state)
  unfolding visit_nexts visit_edges
  visit_nexts-Agrees [] node path state = refl
  visit_nexts-Agrees (next ∷ nexts) node path state = elim (Option-cases (find state next)) [
    | inr (on_path, e) ↦ rw (e, visit_nexts, visit_edges) (closing-Agrees state path)
    | inr (finished, e) ↦
        rw (e, visit_nexts, visit_edges) (visit_nexts-Agrees nexts node path state)
    | inl e ↦
        rw (e, visit_nexts, visit_edges)
          (onward (visit' next state) (dfs' next (path ++ tt ∷ []) state)
            (same next (path ++ tt ∷ []) state) (visit_nexts-Agrees nexts node path))
  ]
    where
      onward :
          (v : Option (Map Mark × Bool)) (d : Search (Unit {0}))
          → Agrees v d
          → ((after : Map Mark)
              → Agrees
                  (visit_nexts visit' node nexts after)
                  (visit_edges dfs' node path (map bare nexts) after))
          → Agrees
              (elim v [
                | none ↦ none
                | some (after, true) ↦ some (after, true)
                | some (after, false) ↦ visit_nexts visit' node nexts after
              ])
              (elim d [
                | none ↦ none
                | some (after, some cycle) ↦ some (after, some cycle)
                | some (after, none) ↦ visit_edges dfs' node path (map bare nexts) after
              ])
      onward v none a more = rw a
      onward v (some (after, none)) a more = rw a (more after)
      onward v (some (after, some [])) a more = absurd a
      onward v (some (after, some (x ∷ cycle))) a more = rw a

module _ (edges : Graph) where
  visit-Agrees :
      (fuel : ℕ) (node : String) (path : List (Unit {0})) (state : Map Mark)
      → Agrees (visit fuel edges node state) (dfs fuel (labelled edges) node path state)
  unfolding visit dfs
  visit-Agrees zero node path state = refl
  visit-Agrees (suc fuel) node path state = rw (edges_of-labelled edges node) (
      visit_nexts-Agrees (visit fuel edges) (dfs fuel (labelled edges)) (visit-Agrees fuel)
        (successors edges node) node path (insert state node on_path))

  -- The answers of the loops over the start nodes.
  abbrev pub AgreesOn : Option Bool → Option (List (Unit {0})) → Type 0
  AgreesOn answer none = answer ≡ none
  AgreesOn answer (some []) = answer ≡ some false
  AgreesOn answer (some (x ∷ cycle)) = answer ≡ some true

  pub visit_all-AgreesOn :
      (fuel : ℕ) (nodes : List String) (state : Map Mark)
      → AgreesOn (visit_all fuel edges nodes state) (search_nodes fuel (labelled edges) nodes state)
  unfolding visit_all search_nodes
  visit_all-AgreesOn fuel [] state = refl
  visit_all-AgreesOn fuel (node ∷ nodes) state = elim (Option-cases (find state node)) [
    | inr (mark, e) ↦ rw (e, visit_all, search_nodes) (visit_all-AgreesOn fuel nodes state)
    | inl e ↦
        rw (e, visit_all, search_nodes)
          (onward (visit fuel edges node state) (dfs fuel (labelled edges) node [] state)
            (visit-Agrees fuel node [] state) (visit_all-AgreesOn fuel nodes))
  ]
    where
      onward :
          (v : Option (Map Mark × Bool)) (d : Search (Unit {0}))
          → Agrees v d
          → ((after : Map Mark)
              → AgreesOn
                  (visit_all fuel edges nodes after)
                  (search_nodes fuel (labelled edges) nodes after))
          → AgreesOn
              (elim v [
                | none ↦ none
                | some (after, true) ↦ some true
                | some (after, false) ↦ visit_all fuel edges nodes after
              ])
              (elim d [
                | none ↦ none
                | some (after, some cycle) ↦ some cycle
                | some (after, none) ↦ search_nodes fuel (labelled edges) nodes after
              ])
      onward v none a more = rw a
      onward v (some (after, none)) a more = rw a (more after)
      onward v (some (after, some [])) a more = absurd a
      onward v (some (after, some (x ∷ cycle))) a more = rw a

  In-bare :
      (v : String) (out : List String) → In (bare v) (map bare out) ↔ (contains_string out v ≡ true)
  unfolding contains_string
  In-bare v [] = (λ i. elim i [ ], λ h. absurd (ground arith))
  In-bare v (x ∷ out) =
      let (fwd, bwd) = In-bare v out in
      (
        λ i. elim i [
          | inl e ↦
              let same = ap (λ (z : Edge (Unit {0})). z.0) e in ground (arith, same, eq_iff x v)
          | inr j ↦ let h = fwd j in ground (arith, h)
        ],
        λ h. elim (Bool-cases (x == v)) [
          | inl same ↦ inl (ap bare ((eq_iff x v).0 same))
          | inr other ↦ inr (bwd (ground arith))
        ],
      )

  -- An edge of the graph.
  pub Arc-iff :
      (u v : String) → Arc (labelled edges) u tt v ↔ (contains_string (successors edges u) v ≡ true)
  Arc-iff u v = rw (edges_of-labelled edges u) (In-bare v (successors edges u))

  pub Reach-before :
      {u v w : String}
      → contains_string (successors edges u) v ≡ true
      → Reach edges v w
      → Reach edges u w
  Reach-before i here = step here i
  Reach-before i (step r j) = step (Reach-before i r) j

  pub Trail-Reach :
      {u w : String} {p : List (Unit {0})} → Trail (labelled edges) u p w → Reach edges u w
  Trail-Reach stay = here
  Trail-Reach (go {u} {v} {l = l} a t) = Reach-before ((Arc-iff u v).0 a) (Trail-Reach t)
