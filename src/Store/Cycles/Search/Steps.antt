-- ===== src/Store/Cycles/Search/Steps.antt =====
-- The loop of dfs over the edges of a node.
use causalontology.Prelude.{
  String, List, [], ◌∷◌, ◌++◌, true, Option, none, some, eq_iff, ◌≡◌, ap, ◌∙◌, arith, Map, insert,
  find-insert,
}
use mathlib.Core.List.{append_assoc}
use causalontology.Sets.{contains_string}
use causalontology.Semantics.Cycles.{Mark, finished}
use causalontology.Store.Cycles.{Edge}
use causalontology.Store.Cycles.Trails.{Arc, Trail, Trail-snoc, Closed}
use causalontology.Store.Cycles.Marks.{Grows}
use causalontology.Store.Cycles.Search.{
  Visited, Black, Lasso, Finishes, Leaves, GreyOf, GreyBut, Grows-trans,
}

module _ {L : Type 0} (edges : Map (List (Edge L))) (nodes : List String) (start : String) where
  -- What an edge back to the path closes.
  pub closing :
      (path : List L) (node target : String) (l : L)
      → Arc edges node l target
      → Visited edges start path node target
      → Lasso edges start (path ++ l ∷ [])
  closing path node target l a (p, q, i, s, r) =
      shape q (ap (λ z. z ++ l ∷ []) i ∙ append_assoc p q (l ∷ [])) (Trail-snoc edges l r a)
    where
      shape :
          (q : List L)
          → (path ++ l ∷ []) ≡ p ++ (q ++ l ∷ [])
          → Trail edges target (q ++ l ∷ []) target
          → Lasso edges start (path ++ l ∷ [])
      shape [] e t = (target, p, l, [], e, s, t)
      shape (m ∷ q) e t = (target, p, m, q ++ l ∷ [], e, s, t)

  -- The node is finished when no edge is left.
  pub finish :
      (node : String) (path : List L) (state : Map Mark) (done : List String)
      → ((l : L) (v : String) → Arc edges node l v → contains_string done v ≡ true)
      → Closed edges done
      → Black edges state done
      → Leaves edges (GreyBut edges state node) start node done (insert state node finished) none
  unfolding contains_string
  finish node path state done ready c b = (
    node ∷ done,
    record {
      closed = (ready, c);
      entered = ground (arith, eq_iff node node);
      more = λ u m. ground arith;
      black = λ u e. ground (arith, find-insert state node finished u, b u);
    },
    λ u e. ground (arith, find-insert state node finished u),
  )

  -- A later part of the loop, after a search that came back without a cycle.
  pub later :
      (node target : String) (before middle after : Map Mark) (done done' : List String)
      (c : Option (List L))
      → Grows before middle
      → Finishes edges target middle done done'
      → GreyOf edges before middle
      → Grows middle after
      → Leaves edges (GreyBut edges middle node) start node done' after c
      → Grows before after × Leaves edges (GreyBut edges before node) start node done after c
  later node target before middle after done done' none g f grey h (done'', k, grey') = (
    Grows-trans edges before middle after g h,
    (
      done'',
      record {
        closed = k.closed;
        entered = k.entered;
        more = λ u m. k.more u (f.more u m);
        black = k.black;
      },
      λ u e. (grey u (grey' u e).0, (grey' u e).1),
    ),
  )
  later node target before middle after done done' (some cycle) g f grey h lasso =
      (Grows-trans edges before middle after g h, lasso)
