-- ===== src/Store/Cycles/Search/Ends.antt =====
-- dfs and the loop over the start nodes: they end, and what they return.
use causalontology.Prelude.{
  ℕ, zero, suc, ◌≤◌, String, List, [], ◌∷◌, ◌++◌, true, Option, none, some, ◌==◌, eq_iff, ◌≡◌, refl,
  ap, ◌∙◌, sym, arith, Map, find, insert, find-insert, Option-cases, Bool-cases, inl, inr, subst,
  ◌⊎◌, ◌≢◌, length,
}
use mathlib.Core.List.{append-nil}
use causalontology.Sets.{contains_string}
use causalontology.Semantics.Cycles.{Mark, on_path, finished}
use causalontology.Store.Cycles.{Edge, Search, edges_of, visit_edges, dfs, search_nodes}
use causalontology.Store.Cycles.Trails.{
  In, Arc, Trail, stay, Trail-snoc, Closed, Loop, Closed-no-loop, split-Trail,
}
use causalontology.Store.Cycles.Marks.{
  Grows, unmarked, unmarked-le, insert-Grows, unmarked-insert, unmarked-length,
}
use causalontology.Store.Cycles.Search.{
  Visited, OnTrail, Black, Lasso, Finishes, Leaves, GreyOf, GreyBut, Returns, Searches, Grows-trans,
  OnTrail-snoc,
}
use causalontology.Store.Cycles.Search.Steps.{closing, finish, later}

module _ {L : Type 0} (edges : Map (List (Edge L))) (nodes : List String) (start : String)
    (known : (u v : String) (l : L) → Arc edges u l v → contains_string nodes v ≡ true) where
  -- The loop over the edges, from what holds of the search of their targets.
  visit_edges_lem :
      (rec : String → List L → Map Mark → Search L) (fuel : ℕ)
      → Searches edges nodes start rec fuel
      → (es : List (Edge L)) (node : String) (path : List L) (state : Map Mark) (done : List String)
      → ((x : Edge L) → In x es → In x (edges_of edges node))
      → ((l : L) (v : String) → Arc edges node l v → In (v, l) es ⊎ (contains_string done v ≡ true))
      → unmarked nodes state ≤ fuel
      → Trail edges start path node
      → OnTrail edges start path node state
      → Closed edges done
      → Black edges state done
      → Returns edges
          (visit_edges rec node path es state)
          (GreyBut edges state node)
          state
          start
          node
          done
  unfolding visit_edges
  visit_edges_lem rec fuel seek [] node path state done sub ready le t on c b = (
    insert state node finished,
    none,
    refl,
    insert-Grows state node finished,
    finish edges nodes start node path state done
        (λ l v a. elim (ready l v a) [ inl i ↦ elim i [ ] | inr m ↦ m ]) c b,
  )
  visit_edges_lem rec fuel seek ((target, l) ∷ es) node path state done sub ready le t on c b =
      elim (Option-cases (find state target)) [
        | inl e ↦
            entered e
              (seek target (path ++ l ∷ []) state done (known node target l arc) e le
                (Trail-snoc edges l t arc)
                (OnTrail-snoc edges start path node target l state state arc on (λ u h. h)) c b)
              (λ after done' g f grey.
                visit_edges_lem rec fuel seek es node path after done' (λ x i. sub x (inr i))
                  (past after done' g f) (omega (arith, unmarked-le nodes state after g)) t
                  (λ u h. on u (grey u h)) f.closed f.black)
        | inr (on_path, e) ↦ (
          state,
          some (path ++ l ∷ []),
          rw (e, visit_edges) refl,
          λ u h. h,
          closing edges nodes start path node target l arc (on target e),
        )
        | inr (finished, e) ↦
            rw (e, visit_edges)
              (visit_edges_lem rec fuel seek es node path state done (λ x i. sub x (inr i))
                (λ k v a. elim (ready k v a) [
                  | inl (inl same) ↦
                      inr (subst (λ z. contains_string done z.0 ≡ true) same (b target e))
                  | inl (inr i) ↦ inl i
                  | inr m ↦ inr m
                ])
                le t on c b)
      ]
    where
      arc : Arc edges node l target
      arc = sub (target, l) (inl refl)

      past :
          (after : Map Mark) (done' : List String)
          → Grows state after
          → Finishes edges target after done done'
          → (k : L) (v : String) → Arc edges node k v
          → In (v, k) es ⊎ (contains_string done' v ≡ true)
      past after done' g f k v a = elim (ready k v a) [
        | inl (inl same) ↦
            inr (subst (λ (z : Edge L). contains_string done' z.0 ≡ true) same f.entered)
        | inl (inr i) ↦ inl i
        | inr m ↦ inr (f.more v m)
      ]

      entered :
          find state target ≡ none
          → Returns edges
              (rec target (path ++ l ∷ []) state)
              (GreyOf edges state)
              state
              start
              target
              done
          → ((after : Map Mark) (done' : List String)
              → Grows state after
              → Finishes edges target after done done'
              → GreyOf edges state after
              → Returns edges
                  (visit_edges rec node path es after)
                  (GreyBut edges after node)
                  after
                  start
                  node
                  done')
          → Returns edges
              (visit_edges rec node path ((target, l) ∷ es) state)
              (GreyBut edges state node)
              state
              start
              node
              done
      entered e (after, some cycle, r, g, lasso) more =
          (after, some cycle, rw (e, visit_edges) (rw r), g, lasso)
      entered e (after, none, r, g, (done', f, grey)) more =
          let (last, d, s, h, k) = more after done' g f grey in
          let (gs, leaves) =
            later edges nodes start node target state after last done done' d g f grey h k in
          (last, d, rw (e, visit_edges) (rw r s), gs, leaves)

  dfs_entered :
      (node : String) (state after : Map Mark) (done : List String) (c : Option (List L))
      → Leaves edges (GreyBut edges (insert state node on_path) node) start node done after c
      → Leaves edges (GreyOf edges state) start node done after c
  dfs_entered node state after done none (done', f, grey) = (
    done',
    f,
    λ u e. let (h, other) = grey u e in ground (arith, find-insert state node on_path u),
  )
  dfs_entered node state after done (some cycle) lasso = lasso

  -- dfs from an unmarked node returns, with fuel for the unmarked nodes.
  dfs_lem : (fuel : ℕ) → Searches edges nodes start (dfs fuel edges) fuel
  unfolding dfs
  dfs_lem zero node path state done i e le t on c b =
      absurd (omega (arith, unmarked-insert nodes state node on_path i e))
  dfs_lem (suc fuel) node path state done i e le t on c b =
      let (after, cycle, r, g, leaves) =
        visit_edges_lem (dfs fuel edges) fuel (dfs_lem fuel) (edges_of edges node) node path
          (insert state node on_path) done (λ x j. j) (λ l v a. inl a)
          (omega (arith, unmarked-insert nodes state node on_path i e)) t on' c
          (λ u h. ground (arith, find-insert state node on_path u, b u)) in
      (
        after,
        cycle,
        r,
        Grows-trans edges state (insert state node on_path) after (insert-Grows state node on_path)
            g,
        dfs_entered node state after done cycle leaves,
      )
    where
      on' : OnTrail edges start path node (insert state node on_path)
      on' u h = elim (Bool-cases (node == u)) [
        | inl same ↦
            subst (Visited edges start path node) ((eq_iff node u).0 same)
              (path, [], sym (append-nil path), t, stay)
        | inr other ↦ on u (ground (arith, find-insert state node on_path u))
      ]

module _ {L : Type 0} (edges : Map (List (Edge L))) (nodes : List String)
    (known : (u v : String) (l : L) → Arc edges u l v → contains_string nodes v ≡ true) where
  -- What the loop over the start nodes finds: all of them closed, or a cycle.
  abbrev Found : List String → List String → List L → Type 0
  Found starts done cycle =
      ((cycle ≡ [])
        × ((done' : List String) × Closed edges done'
            × ((u : String) → contains_string done u ≡ true → contains_string done' u ≡ true)
            × ((u : String) → contains_string starts u ≡ true → contains_string done' u ≡ true)))
      ⊎ ((start : String) × Lasso edges start cycle)

  search_nodes-Found :
      (fuel : ℕ) (starts : List String) (state : Map Mark) (done : List String)
      → ((u : String) → contains_string starts u ≡ true → contains_string nodes u ≡ true)
      → unmarked nodes state ≤ fuel
      → ((u : String) → find state u ≢ some on_path)
      → Closed edges done
      → Black edges state done
      → (cycle : List L) × (search_nodes fuel edges starts state ≡ some cycle)
        × Found starts done cycle
  unfolding search_nodes contains_string
  search_nodes-Found fuel [] state done i le white c b =
      ([], refl, inl (refl, (done, c, (λ u m. m), (λ u m. absurd (ground arith)))))
  search_nodes-Found fuel (start ∷ starts) state done i le white c b =
      elim (Option-cases (find state start)) [
        | inl e ↦
            entered e
              (dfs_lem edges nodes start known fuel start [] state done
                (i start (ground (arith, eq_iff start start))) e le stay (λ u h. absurd (white u h))
                c b)
              (λ after done' g f grey.
                search_nodes-Found fuel starts after done' inside
                  (omega (arith, unmarked-le nodes state after g)) (λ u h. white u (grey u h))
                  f.closed f.black)
        | inr (on_path, e) ↦ absurd (white start e)
        | inr (finished, e) ↦
            let (cycle, r, found) = search_nodes-Found fuel starts state done inside le white c b in
            (cycle, rw (e, search_nodes) r, wider cycle done (λ u m. m) (b start e) found)
      ]
    where
      inside : (u : String) → contains_string starts u ≡ true → contains_string nodes u ≡ true
      inside u m = i u (ground arith)

      wider :
          (cycle : List L) (before : List String)
          → ((u : String) → contains_string done u ≡ true → contains_string before u ≡ true)
          → contains_string before start ≡ true
          → Found starts before cycle
          → Found (start ∷ starts) done cycle
      wider cycle before more s (inr lasso) = inr lasso
      wider cycle before more s (inl (none_left, (done', k, more', all))) = inl (
        none_left,
        (
          done',
          k,
          (λ u m. more' u (more u m)),
          λ u m. elim (Bool-cases (start == u)) [
            | inl same ↦
                subst (λ v. contains_string done' v ≡ true) ((eq_iff start u).0 same)
                  (more' start s)
            | inr other ↦ all u (ground arith)
          ],
        ),
      )

      entered :
          find state start ≡ none
          → Returns edges
              (dfs fuel edges start [] state)
              (GreyOf edges state)
              state
              start
              start
              done
          → ((after : Map Mark) (done' : List String)
              → Grows state after
              → Finishes edges start after done done'
              → GreyOf edges state after
              → (cycle : List L) × (search_nodes fuel edges starts after ≡ some cycle)
                × Found starts done' cycle)
          → (cycle : List L) × (search_nodes fuel edges (start ∷ starts) state ≡ some cycle)
            × Found (start ∷ starts) done cycle
      entered e (after, some cycle, r, g, lasso) more =
          (cycle, rw (e, search_nodes) (rw r), inr (start, lasso))
      entered e (after, none, r, g, (done', f, grey)) more =
          let (cycle, s, found) = more after done' g f grey in
          (cycle, rw (e, search_nodes) (rw r s), wider cycle done' f.more f.entered found)

  -- From the start nodes, among which are all nodes with an edge, the search ends; it returns no
  -- cycle where there is no loop, and otherwise a walk that ends in one.
  pub search_nodes_lem :
      (fuel : ℕ) (starts : List String)
      → ((u v : String) (l : L) → Arc edges u l v → contains_string starts u ≡ true)
      → ((u : String) → contains_string starts u ≡ true → contains_string nodes u ≡ true)
      → length nodes ≤ fuel
      → ((search_nodes fuel edges starts [] ≡ some []) × ¬ Loop edges)
        ⊎ ((cycle : List L) × (search_nodes fuel edges starts [] ≡ some cycle)
            × ((start : String) × Lasso edges start cycle))
  search_nodes_lem fuel starts sources i le = split (
      search_nodes-Found fuel starts [] [] i (omega (arith, unmarked-length nodes []))
        (unfold find in λ u h. cc) tt (unfold find in λ u h. absurd (cc)))
    where
      split :
          (cycle : List L) × (search_nodes fuel edges starts [] ≡ some cycle)
            × Found starts [] cycle
          → ((search_nodes fuel edges starts [] ≡ some []) × ¬ Loop edges)
            ⊎ ((cycle : List L) × (search_nodes fuel edges starts [] ≡ some cycle)
                × ((start : String) × Lasso edges start cycle))
      split (cycle, e, inr lasso) = inr (cycle, e, lasso)
      split (cycle, e, inl (empty, (done, c, _, all))) = inl (
        e ∙ ap some empty,
        λ (u, l, p, t).
            let (v, k, r, a, s) = split-Trail edges t refl in
            Closed-no-loop edges done u l p c (all u (sources u v k a)) t,
      )
