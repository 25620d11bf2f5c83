-- ===== src/Store/Cycles/Trails.antt =====
-- Walks along the edges of a graph, with what the edges carry, and lists of nodes that hold all their
-- successors: no walk from such a node comes back to it.
use causalontology.Prelude.{
  String, List, [], ◌∷◌, ◌++◌, true, ◌==◌, eq_iff, ◌≡◌, ◌⊎◌, inl, inr, arith, Map, Bool-cases,
  subst, refl, sym,
}
use causalontology.Sets.{contains_string}
use causalontology.Store.Cycles.{Edge, edges_of}

abbrev pub In : {A : Type 0} → A → List A → Type 0
In x [] = ⊥
In x (y ∷ ys) = (y ≡ x) ⊎ In x ys

module _ {L : Type 0} (edges : Map (List (Edge L))) where
  -- An edge from `u` to `v` that carries `l`.
  abbrev pub Arc : String → L → String → Type 0
  Arc u l v = In (v, l) (edges_of edges u)

  -- A walk, with what its edges carry.
  pub data Trail : String → List L → String → Type 0 where
    stay : {u : String} → Trail u [] u
    go : {u v w : String} {l : L} {p : List L} → Arc u l v → Trail v p w → Trail u (l ∷ p) w

  -- A walk of at least one edge that ends where it began.
  abbrev pub Loop : Type 0
  Loop = (u : String) × (l : L) × (p : List L) × Trail u (l ∷ p) u

  -- The successors of each node of the list stand behind it.
  abbrev pub Closed : List String → Type 0
  Closed [] = Unit
  Closed (u ∷ done) =
      ((l : L) (v : String) → Arc u l v → contains_string done v ≡ true) × Closed done

  pub Trail-append :
      {u v w : String} {p q : List L} → Trail u p v → Trail v q w → Trail u (p ++ q) w
  Trail-append stay s = s
  Trail-append (go a t) s = go a (Trail-append t s)

  pub Trail-snoc :
      {u v w : String} {p : List L} (l : L) → Trail u p v → Arc v l w → Trail u (p ++ l ∷ []) w
  Trail-snoc l t a = Trail-append t (go a stay)

  Closed-Arc :
      (done : List String) (u v : String) (l : L)
      → Closed done
      → contains_string done u ≡ true
      → Arc u l v
      → contains_string done v ≡ true
  unfolding contains_string
  Closed-Arc [] u v l c m a = absurd (ground arith)
  Closed-Arc (x ∷ done) u v l (first, rest) m a = elim (Bool-cases (x == u)) [
    | inl same ↦
        let i = first l v (subst (λ y. Arc y l v) (sym ((eq_iff x u).0 same)) a) in
        ground (arith, i)
    | inr other ↦ let i = Closed-Arc done u v l rest (ground arith) a in ground (arith, i)
  ]

  Closed-Trail :
      (done : List String) {u w : String} {p : List L}
      → Closed done
      → contains_string done u ≡ true
      → Trail u p w
      → contains_string done w ≡ true
  Closed-Trail done c m stay = m
  Closed-Trail done c m (go {u} {v} {l = l} a t) =
      Closed-Trail done c (Closed-Arc done u v l c m a) t

  pub split-Trail :
      {u w : String} {l : L} {p q : List L}
      → Trail u q w
      → q ≡ l ∷ p
      → (v : String) × (m : L) × (r : List L) × Arc u m v × Trail v r w
  split-Trail stay e = cc
  split-Trail (go {v = v} {l = m} {p = r} a t) e = (v, m, r, a, t)

  pub Closed-no-loop :
      (done : List String) (u : String) (l : L) (p : List L)
      → Closed done
      → contains_string done u ≡ true
      → Trail u (l ∷ p) u
      → ⊥
  unfolding contains_string
  Closed-no-loop [] u l p c m t = ground arith
  Closed-no-loop (x ∷ done) u l p (first, rest) m t = elim (Bool-cases (x == u)) [
    | inl same ↦
        let (v, k, r, a, s) = split-Trail t refl in
        let i = first k v (subst (λ y. Arc y k v) (sym ((eq_iff x u).0 same)) a) in
        Closed-no-loop done u l p rest (Closed-Trail done rest i s) t
    | inr other ↦ Closed-no-loop done u l p rest (ground arith) t
  ]
