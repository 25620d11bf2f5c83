-- ===== src/Store/Cycles/Records.antt =====
-- The edges that findCycleRecords reads from the records, and walks along records.
use causalontology.Prelude.{
  String, List, [], ◌∷◌, ◌++◌, true, some, ◌==◌, eq_iff, ◌≡◌, ◌↔◌, ◌⊎◌, inl, inr, ap, ◌∙◌, refl,
  arith, find, find-insert, is_some, if◌then◌else◌, Option-cases, Bool-cases, subst, sym,
}
use mathlib.Core.Option.{some-injective}
use causalontology.Sets.{contains_string}
use causalontology.Sets.Laws.{contains-append}
use causalontology.Json.{Fields, at, as_text}
use causalontology.Store.Cycles.{Edge, Index, edges_of, index_edge, index_record, index_records}
use causalontology.Store.Cycles.Trails.{In, Arc}

pub In-append : {A : Type 0} (x : A) (xs ys : List A) → In x (xs ++ ys) ↔ (In x xs ⊎ In x ys)
In-append x [] ys = (λ i. inr i, λ s. elim s [ inl i ↦ elim i [ ] | inr i ↦ i ])
In-append x (z ∷ xs) ys =
    let (split, join) = In-append x xs ys in
    (
      λ i. elim i [
        | inl e ↦ inl (inl e)
        | inr j ↦ elim (split j) [ inl k ↦ inl (inr k) | inr k ↦ inr k ]
      ],
      λ s. elim s [
        | inl (inl e) ↦ inl e
        | inl (inr j) ↦ inr (join (inl j))
        | inr j ↦ inr (join (inr j))
      ],
    )

-- The record is an edge from `u` to `v`.
abbrev pub Links : Fields → String → String → Type 0
Links rec u v = (as_text (at rec "about") ≡ some u) × (as_text (at rec "entry") ≡ some v)

edges_of-index_edge :
    (g : Index) (a : String) (e : Edge Fields) (u : String)
    → edges_of (index_edge g a e).edges u
      ≡ (if a == u then edges_of g.edges u ++ e ∷ [] else edges_of g.edges u)
unfolding edges_of index_edge
edges_of-index_edge g a e u = elim (Option-cases (find g.edges a)) [
  | inl h ↦ rw (h, index_edge) (ground (arith, h, eq_iff a u, find-insert g.edges a (e ∷ []) u))
  | inr (out, h) ↦
      rw (h, index_edge) (ground (arith, h, eq_iff a u, find-insert g.edges a (out ++ e ∷ []) u))
]

Arc-index_edge :
    (g : Index) (a : String) (e : Edge Fields) (u v : String) (l : Fields)
    → Arc (index_edge g a e).edges u l v ↔ (Arc g.edges u l v ⊎ ((a ≡ u) × (e ≡ (v, l))))
Arc-index_edge g a e u v l =
    let split = In-append (v, l) (edges_of g.edges u) (e ∷ []) in
    elim (Bool-cases (a == u)) [
      | inl same ↦
          rw (edges_of-index_edge g a e u, same)
            (
              λ i. elim (split.0 i) [
                | inl j ↦ inl j
                | inr (inl k) ↦ inr ((eq_iff a u).0 same, k)
                | inr (inr k) ↦ elim k [ ]
              ],
              λ s. elim s [ inl j ↦ split.1 (inl j) | inr (_, k) ↦ split.1 (inr (inl k)) ],
            )
      | inr other ↦
          rw (edges_of-index_edge g a e u, other)
            (
              λ i. inl i,
              λ s. elim s [ inl j ↦ j | inr (same, _) ↦ absurd (ground (arith, eq_iff a u)) ],
            )
    ]

edge_parts :
    {u v a b : String} {l rec : Fields}
    → (a ≡ u) × (◌≡◌ {A = Edge Fields} (b, rec) (v, l))
    → (a ≡ u) × (b ≡ v) × (rec ≡ l)
edge_parts (i, e) = (i, ap (λ (z : Edge Fields). z.0) e, ap (λ (z : Edge Fields). z.1) e)

Arc-index_record :
    (g : Index) (rec : Fields) (u v : String) (l : Fields)
    → Arc (index_record g rec).edges u l v ↔ (Arc g.edges u l v ⊎ ((rec ≡ l) × Links rec u v))
unfolding index_record
Arc-index_record g rec u v l = elim (Option-cases (as_text (at rec "about"))) [
  | inl e ↦
      rw (e, index_record)
        (λ i. inl i, λ s. elim s [ inl i ↦ i | inr (_, k) ↦ absurd (ground (arith, e)) ])
  | inr (a, ea) ↦ elim (Option-cases (as_text (at rec "entry"))) [
    | inl e ↦
        rw (ea, index_record)
          (rw (e, index_record)
            (λ i. inl i, λ s. elim s [ inl i ↦ i | inr (_, k) ↦ absurd (ground (arith, e)) ]))
    | inr (b, eb) ↦
        let step = Arc-index_edge g a (b, rec) u v l in
        rw (ea, index_record)
          (rw (eb, index_record)
            (
              λ i. elim (step.0 i) [
                | inl j ↦ inl j
                | inr k ↦ let (ka, kb, kr) = edge_parts k in inr (kr, (ap some ka, ap some kb))
              ],
              λ s. elim s [
                | inl j ↦ step.1 (inl j)
                | inr (kr, (la, lb)) ↦
                    step.1 (inr (some-injective _ _ la, λ i. (some-injective _ _ lb i, kr i)))
              ],
            ))
  ]
]

Arc-index_records :
    (g : Index) (recs : List Fields) (u v : String) (l : Fields)
    → Arc (index_records g recs).edges u l v ↔ (Arc g.edges u l v ⊎ (In l recs × Links l u v))
unfolding index_records
Arc-index_records g [] u v l = (λ i. inl i, λ s. elim s [ inl i ↦ i | inr (k, _) ↦ elim k [ ] ])
Arc-index_records g (rec ∷ recs) u v l =
    let one = Arc-index_record g rec u v l in
    let all = Arc-index_records (index_record g rec) recs u v l in
    (
      λ i. elim (all.0 i) [
        | inl j ↦ elim (one.0 j) [
          | inl k ↦ inl k
          | inr (e, h) ↦ inr (inl e, subst (λ r. Links r u v) e h)
        ]
        | inr (j, h) ↦ inr (inr j, h)
      ],
      λ s. elim s [
        | inl k ↦ all.1 (inl (one.1 (inl k)))
        | inr (inl e, h) ↦ all.1 (inl (one.1 (inr (e, subst (λ r. Links r u v) (sym e) h))))
        | inr (inr j, h) ↦ all.1 (inr (j, h))
      ],
    )

-- The index of a list of records.
abbrev pub index_of : List Fields → Index
index_of recs = index_records (record { edges = []; node_order = [] }) recs

-- Its edges are the records that link two nodes.
pub Arc-iff :
    (recs : List Fields) (u v : String) (l : Fields)
    → Arc (index_of recs).edges u l v ↔ (In l recs × Links l u v)
Arc-iff recs u v l =
    let all = Arc-index_records (record { edges = []; node_order = [] }) recs u v l in
    (
      λ i. elim (all.0 i) [ inl j ↦ unfold edges_of find in elim j [ ] | inr k ↦ k ],
      λ k. all.1 (inr k),
    )

-- The keys of the edges are listed.
abbrev IsKeyed : Index → Type 0
IsKeyed g = (u : String) → contains_string g.node_order u ≡ is_some (find g.edges u)

index_edge-IsKeyed :
    (g : Index) (a : String) (e : Edge Fields) → IsKeyed g → IsKeyed (index_edge g a e)
unfolding index_edge is_some contains_string
index_edge-IsKeyed g a e k u = elim (Option-cases (find g.edges a)) [
  | inl h ↦
      rw (h, index_edge)
        (ground (
          arith,
          k u,
          contains-append g.node_order (a ∷ []) u,
          find-insert g.edges a (e ∷ []) u,
          eq_iff a u,
        ))
  | inr (out, h) ↦
      rw (h, index_edge)
        (ground (arith, k u, h, find-insert g.edges a (out ++ e ∷ []) u, eq_iff a u))
]

index_record-IsKeyed : (g : Index) (rec : Fields) → IsKeyed g → IsKeyed (index_record g rec)
unfolding index_record
index_record-IsKeyed g rec k = elim (Option-cases (as_text (at rec "about"))) [
  | inl e ↦ rw (e, index_record) k
  | inr (a, ea) ↦ elim (Option-cases (as_text (at rec "entry"))) [
    | inl e ↦ rw (ea, index_record) (rw (e, index_record) k)
    | inr (b, eb) ↦
        rw (ea, index_record) (rw (eb, index_record) (index_edge-IsKeyed g a (b, rec) k))
  ]
]

index_records-IsKeyed :
    (g : Index) (recs : List Fields) → IsKeyed g → IsKeyed (index_records g recs)
unfolding index_records
index_records-IsKeyed g [] k = k
index_records-IsKeyed g (rec ∷ recs) k =
    index_records-IsKeyed (index_record g rec) recs (index_record-IsKeyed g rec k)

keyed :
    (g : Index) (u v : String) (l : Fields)
    → IsKeyed g
    → Arc g.edges u l v
    → contains_string g.node_order u ≡ true
unfolding edges_of is_some
keyed g u v l k i = elim (Option-cases (find g.edges u)) [
  | inl e ↦ elim (rw (e, edges_of) at i) [ ]
  | inr (out, e) ↦ k u ∙ rw e
]

-- Every node with an edge is a start.
pub Arc-source :
    (recs : List Fields) (u v : String) (l : Fields)
    → Arc (index_of recs).edges u l v
    → contains_string (index_of recs).node_order u ≡ true
Arc-source recs u v l = keyed (index_of recs) u v l (
    index_records-IsKeyed (record { edges = []; node_order = [] }) recs
      (unfold is_some find contains_string in λ w. refl))
