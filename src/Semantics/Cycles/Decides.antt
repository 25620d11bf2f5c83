-- ===== src/Semantics/Cycles/Decides.antt =====
-- HasCycle answers whether a walk comes back to its start.
use causalontology.Prelude.{
  String, List, [], ◌∷◌, ◌++◌, Bool, true, false, Option, some, eq_iff, ◌≡◌, ◌↔◌, inl, inr, refl,
  arith, length, length-append, subst,
}
use causalontology.Sets.{contains_string}
use causalontology.Sets.Laws.{contains-append}
use causalontology.Semantics.Paths.{Graph, successors, Reach, here, step}
use causalontology.Semantics.Cycles.{visit_all, nodes_of, node_count, has_cycle}
use causalontology.Semantics.Cycles.Meaning.{
  labelled, AgreesOn, visit_all-AgreesOn, Arc-iff, Reach-before,
}
use causalontology.Store.Cycles.{search_nodes}
use causalontology.Store.Cycles.Trails.{Trail, stay, go, Trail-snoc, Loop}
use causalontology.Store.Cycles.Search.Ends.{search_nodes_lem}

-- A walk of at least one edge that comes back to its start.
abbrev pub Cycle : Graph → Type 0
Cycle edges =
    (u : String) × (v : String) × Reach edges u v × (contains_string (successors edges v) u ≡ true)

-- The keys and all successors.
all_nodes : Graph → List String
all_nodes [] = []
all_nodes ((node, out) ∷ edges) = node ∷ (out ++ all_nodes edges)

length-all_nodes : (edges : Graph) → length (all_nodes edges) ≡ node_count edges
unfolding all_nodes node_count
length-all_nodes [] = refl
length-all_nodes ((node, out) ∷ edges) =
    omega (arith, length-append out (all_nodes edges), length-all_nodes edges)

successor_known :
    (edges : Graph) (u v : String)
    → contains_string (successors edges u) v ≡ true
    → (contains_string (nodes_of edges) u ≡ true) × (contains_string (all_nodes edges) v ≡ true)
unfolding successors all_nodes nodes_of contains_string
successor_known [] u v h = absurd (ground arith)
successor_known ((node, out) ∷ edges) u v h =
    ground
      (arith, contains-append out (all_nodes edges) v, successor_known edges u v, eq_iff node u)

node_known :
    (edges : Graph) (u : String)
    → contains_string (nodes_of edges) u ≡ true
    → contains_string (all_nodes edges) u ≡ true
unfolding all_nodes nodes_of contains_string
node_known [] u h = h
node_known ((node, out) ∷ edges) u h =
    ground (arith, contains-append out (all_nodes edges) u, node_known edges u)

module _ (edges : Graph) where
  -- The last edge of a walk.
  last_edge :
      {u w : String} {q p : List (Unit {0})} {l : Unit {0}}
      → Trail (labelled edges) u q w
      → q ≡ l ∷ p
      → (x : String) × Reach edges u x × (contains_string (successors edges x) w ≡ true)
  last_edge stay e = cc
  last_edge (go {u} {v} {w} {p = []} a t) e = (
    u,
    here,
    subst (λ y. contains_string (successors edges u) y ≡ true) (ends t refl)
        ((Arc-iff edges u v).0 a),
  )
    where
      ends : {y z : String} {q : List (Unit {0})} → Trail (labelled edges) y q z → q ≡ [] → y ≡ z
      ends stay i = refl
      ends (go b s) i = cc
  last_edge (go {u} {v} {p = m ∷ p} a t) e =
      let (x, r, i) = last_edge {p = p} {l = m} t refl in
      (x, Reach-before edges ((Arc-iff edges u v).0 a) r, i)

  Reach-Trail :
      {u w : String} → Reach edges u w → (p : List (Unit {0})) × Trail (labelled edges) u p w
  Reach-Trail here = ([], stay)
  Reach-Trail (step {u} {v} r i) =
      let (p, t) = Reach-Trail r in
      (p ++ tt ∷ [], Trail-snoc (labelled edges) tt t ((Arc-iff edges u v).1 i))

  Loop-Cycle : Loop (labelled edges) ↔ Cycle edges
  Loop-Cycle = (
    λ (u, l, p, t). let (x, r, i) = last_edge {p = p} {l = l} t refl in (u, x, r, i),
    λ (u, v, r, i).
        let (p, t) = Reach-Trail r in
        closed u p (Trail-snoc (labelled edges) tt t ((Arc-iff edges v u).1 i)),
  )
    where
      closed :
          (u : String) (p : List (Unit {0}))
          → Trail (labelled edges) u (p ++ tt ∷ []) u
          → Loop (labelled edges)
      closed u [] t = (u, tt, [], t)
      closed u (l ∷ p) t = (u, l, p ++ tt ∷ [], t)

-- A cycle that was found answers true.
closes :
    (edges : Graph) (answer : Option Bool) (cycle lead p : List (Unit {0})) (l : Unit {0})
    → cycle ≡ lead ++ l ∷ p
    → AgreesOn edges answer (some cycle)
    → answer ≡ some true
closes edges answer [] [] p l i a = cc
closes edges answer [] (x ∷ lead) p l i a = cc
closes edges answer (x ∷ cycle) lead p l i a = a

-- HasCycle always answers, and answers true exactly when some walk of at least one edge comes back
-- to its start.
pub has_cycle_decides :
    (edges : Graph) → (b : Bool) × (has_cycle edges ≡ some b) × ((b ≡ true) ↔ Cycle edges)
unfolding has_cycle
has_cycle_decides edges =
    elim (search_nodes_lem (labelled edges) (all_nodes edges)
      (λ u v l a. (successor_known edges u v ((Arc-iff edges u v).0 a)).1) (node_count edges)
      (nodes_of edges) (λ u v l a. (successor_known edges u v ((Arc-iff edges u v).0 a)).0)
      (node_known edges) (omega (arith, length-all_nodes edges))) [
        | inl (e, no_loop) ↦ (
          false,
          subst (λ o. AgreesOn edges answer o) e agrees,
          (λ h. cc, λ c. absurd (no_loop ((Loop-Cycle edges).1 c))),
        )
        | inr (cycle, e, (start, (u, lead, l, p, i, s, t))) ↦ (
          true,
          closes edges answer cycle lead p l i (subst (λ o. AgreesOn edges answer o) e agrees),
          (λ h. (Loop-Cycle edges).0 (u, l, p, t), λ c. refl),
        )
      ]
  where
    answer : Option Bool
    answer = visit_all (node_count edges) edges (nodes_of edges) []

    agrees :
        AgreesOn edges answer (search_nodes (node_count edges) (labelled edges) (nodes_of edges) [])
    agrees = visit_all-AgreesOn edges (node_count edges) (nodes_of edges) []
