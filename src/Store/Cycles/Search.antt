-- ===== src/Store/Cycles/Search.antt =====
-- The depth-first search ends. If it closes no cycle, it leaves every node that it entered finished
-- and closed; the cycle that it returns is a walk from its start that ends in a loop.
pub mod Steps
pub mod Ends
use causalontology.Prelude.{
  ℕ, zero, suc, ◌≤◌, String, List, [], ◌∷◌, ◌++◌, true, false, Option, none, some, ◌==◌, eq_iff,
  eq_refl, ◌≡◌, refl, ap, ◌∙◌, sym, arith, Map, find, insert, find-insert, Option-cases, Bool-cases,
  inl, inr, subst, ◌⊎◌, if◌then◌else◌,
}
use mathlib.Core.List.{append-nil, append_assoc}
use causalontology.Sets.{contains_string}
use causalontology.Semantics.Cycles.{Mark, on_path, finished}
use causalontology.Store.Cycles.{Edge, Search, edges_of, visit_edges, dfs}
use causalontology.Store.Cycles.Trails.{In, Arc, Trail, stay, go, Trail-append, Trail-snoc, Closed}
use causalontology.Store.Cycles.Marks.{Grows, unmarked, unmarked-le, insert-Grows, unmarked-insert}

module _ {L : Type 0} (edges : Map (List (Edge L))) where
  -- The path from the start comes through the node.
  abbrev pub Visited : String → List L → String → String → Type 0
  Visited start path node u =
      (p : List L) × (q : List L) × (path ≡ p ++ q) × Trail edges start p u × Trail edges u q node

  abbrev pub OnTrail : String → List L → String → Map Mark → Type 0
  OnTrail start path node state =
      (u : String) → find state u ≡ some on_path → Visited start path node u

  -- The finished nodes are on the list.
  abbrev pub Black : Map Mark → List String → Type 0
  Black state done = (u : String) → find state u ≡ some finished → contains_string done u ≡ true

  -- A walk from the start that ends in a loop.
  abbrev pub Lasso : String → List L → Type 0
  Lasso start cycle =
      (u : String) × (lead : List L) × (l : L) × (p : List L) × (cycle ≡ lead ++ l ∷ p)
      × Trail edges start lead u
      × Trail edges u (l ∷ p) u

  pub record Finishes (node : String) (after : Map Mark) (done done' : List String) : Type 0 where
    pub closed : Closed edges done'
    pub entered : contains_string done' node ≡ true
    pub more : (u : String) → contains_string done u ≡ true → contains_string done' u ≡ true
    pub black : Black after done'

  -- What a search of a node leaves, where `grey` says which nodes stay on the path.
  abbrev pub Leaves :
      (Map Mark → Type 0) → String → String → List String → Map Mark → Option (List L) → Type 0
  Leaves grey start node done after none =
      (done' : List String) × Finishes node after done done' × grey after
  Leaves grey start node done after (some cycle) = Lasso start cycle

  abbrev pub GreyOf : Map Mark → Map Mark → Type 0
  GreyOf before after = (u : String) → find after u ≡ some on_path → find before u ≡ some on_path

  abbrev pub GreyBut : Map Mark → String → Map Mark → Type 0
  GreyBut before node after =
      (u : String)
      → find after u ≡ some on_path
      → (find before u ≡ some on_path) × ((node == u) ≡ false)

  abbrev pub Returns :
      Search L → (Map Mark → Type 0) → Map Mark → String → String → List String → Type 0
  Returns search grey before start node done =
      (after : Map Mark) × (c : Option (List L)) × (search ≡ some (after, c))
      × Grows before after
      × Leaves grey start node done after c

  module _ (nodes : List String) (start : String) where
    -- A search by `rec` from an unmarked node, with `fuel` for the unmarked nodes.
    abbrev pub Searches : (String → List L → Map Mark → Search L) → ℕ → Type 0
    Searches rec fuel =
        (node : String) (path : List L) (state : Map Mark) (done : List String)
        → contains_string nodes node ≡ true
        → find state node ≡ none
        → unmarked nodes state ≤ fuel
        → Trail edges start path node
        → OnTrail start path node state
        → Closed edges done
        → Black state done
        → Returns (rec node path state) (GreyOf state) state start node done

  pub Grows-trans : (a b c : Map Mark) → Grows a b → Grows b c → Grows a c
  Grows-trans a b c g h u e = g u (h u e)

  -- A longer path, and fewer nodes on it.
  pub OnTrail-snoc :
      (start : String) (path : List L) (node target : String) (l : L) (before after : Map Mark)
      → Arc edges node l target
      → OnTrail start path node before
      → GreyOf before after
      → OnTrail start (path ++ l ∷ []) target after
  OnTrail-snoc start path node target l before after a t g u e =
      let (p, q, i, s, r) = t u (g u e) in
      (
        p,
        q ++ l ∷ [],
        ap (λ z. z ++ l ∷ []) i ∙ append_assoc p q (l ∷ []),
        s,
        Trail-snoc edges l r a,
      )
