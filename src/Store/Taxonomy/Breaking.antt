-- ===== src/Store/Taxonomy/Breaking.antt =====
-- Rule 13: ActiveTaxonomyEdges ends, and breaks all cycles.
use causalontology.Prelude.{
  ℕ, zero, suc, ◌≤◌, String, List, [], ◌∷◌, ◌++◌, Option, none, some, ◌==◌, eq_iff, ◌≡◌, ◌≢◌, ◌↔◌,
  inl, inr, refl, sym, ap, ◌∙◌, subst, arith, length, Bool-cases,
}
use mathlib.Core.List.{append-nil, append_assoc}
use causalontology.Json.{Fields, text_at}
use causalontology.Store.State.{Store}
use causalontology.Store.Queries.{records_of, retracted_ids}
use causalontology.Store.Queries.Retracted.{
  IsStored, IsRetracted, records_of-IsStored, retracted_ids-false,
}
use causalontology.Store.Invariant.Growth.{In-active_in}
use causalontology.Store.Cycles.{find_cycle_records}
use causalontology.Store.Cycles.Trails.{In}
use causalontology.Store.Cycles.Records.{In-append}
use causalontology.Store.Cycles.Finds.{
  Walk, rest, along, IsAcyclic, EndsInCycle, find_cycle_records_lem,
}
use causalontology.Store.Taxonomy.{
  active_in, greatest, remove_id, break_one, break_cycles, active_taxonomy_edges,
}
use causalontology.Store.Taxonomy.Keys.{IsGreatest, greatest-IsGreatest}

-- The second list is the first one less its first record with the identifier.
abbrev pub Removes : String → List Fields → List Fields → Type 0
Removes id active kept =
    (front : List Fields) × (gone : Fields) × (back : List Fields) × (active ≡ front ++ gone ∷ back)
    × (kept ≡ front ++ back)
    × (text_at gone "id" ≡ id)
    × ((rec : Fields) → In rec front → text_at rec "id" ≢ id)

-- Rule 13: while there is a cycle, the record of the found path that is greatest by (timestamp, id)
-- is excluded.
pub data Breaks : List Fields → List Fields → List Fields → Type 0 where
  settled : {active : List Fields} → IsAcyclic active → Breaks active active []
  excluding :
      {active kept last excluded : List Fields} {loser : Fields} (path : List Fields)
      → find_cycle_records active ≡ some path
      → EndsInCycle active path
      → IsGreatest loser path
      → Removes (text_at loser "id") active kept
      → Breaks kept last excluded
      → Breaks active last (loser ∷ excluded)

pub Breaks-IsAcyclic :
    {active last excluded : List Fields} → Breaks active last excluded → IsAcyclic last
Breaks-IsAcyclic (settled a) = a
Breaks-IsAcyclic (excluding path f e g r b) = Breaks-IsAcyclic b

pub Walk-In :
    (recs : List Fields) {u w : String} {p : List Fields} (rec : Fields)
    → Walk recs u p w
    → In rec p
    → In rec recs
Walk-In recs rec rest i = elim i [ ]
Walk-In recs rec (along j k t) (inl e) = subst (λ r. In r recs) e j
Walk-In recs rec (along j k t) (inr i) = Walk-In recs rec t i

EndsInCycle-In :
    (recs path : List Fields) (rec : Fields) → EndsInCycle recs path → In rec path → In rec recs
EndsInCycle-In recs path rec (start, u, lead, l, p, e, s, t) i =
    elim ((In-append rec lead (l ∷ p)).0 (subst (λ z. In rec z) e i)) [
      | inl j ↦ Walk-In recs rec s j
      | inr j ↦ Walk-In recs rec t j
    ]

-- A record of the list is found by its identifier.
remove_id_lem :
    (loser : Fields) (active : List Fields)
    → In loser active
    → (kept : List Fields) × (remove_id (text_at loser "id") active ≡ some kept)
      × Removes (text_at loser "id") active kept
      × (suc (length kept) ≡ length active)
unfolding remove_id
remove_id_lem loser [] i = elim i [ ]
remove_id_lem loser (rec ∷ active) i = elim (Bool-cases (text_at rec "id" == text_at loser "id")) [
  | inl same ↦ (
    active,
    rw same,
    (
      [],
      rec,
      active,
      refl,
      refl,
      (eq_iff (text_at rec "id") (text_at loser "id")).0 same,
      λ r j. elim j [ ],
    ),
    refl,
  )
  | inr other ↦ elim i [
    | inl e ↦
        absurd (
          ground
            (arith, ap (λ r. text_at r "id") e, eq_iff (text_at rec "id") (text_at loser "id")))
    | inr j ↦
        let (kept, r, (front, gone, back, a, k, n, f), size) = remove_id_lem loser active j in
        (
          rec ∷ kept,
          rw (other, r),
          (
            rec ∷ front,
            gone,
            back,
            ap (λ z. rec ∷ z) a,
            ap (λ z. rec ∷ z) k,
            n,
            λ q h. elim h [
              | inr l ↦ f q l
              | inl e ↦
                  subst (λ z. text_at z "id" ≢ text_at loser "id") e
                    (λ bad. ground (arith, eq_iff (text_at rec "id") (text_at loser "id")))
            ],
          ),
          omega arith,
        )
  ]
]

-- What the loop returns.
abbrev Broken : Option (List Fields × List Fields) → List Fields → List Fields → Type 0
Broken result active excluded =
    (last : List Fields) × (more : List Fields) × (result ≡ some (last, excluded ++ more))
    × Breaks active last more

break_one-Broken :
    (again : List Fields → List Fields → Option (List Fields × List Fields))
    (active excluded : List Fields)
    → ((kept before : List Fields)
        → suc (length kept) ≡ length active
        → Broken (again kept before) kept before)
    → Broken (break_one again active excluded) active excluded
unfolding break_one
break_one-Broken again active excluded loop = elim (find_cycle_records_lem active) [
  | inl (e, a) ↦ (
    active,
    [],
    rw (e, break_one) (ap (λ z. some (active, z)) (sym (append-nil excluded))),
    settled a,
  )
  | inr (path, e, c) ↦ found path e c
]
  where
    found :
        (path : List Fields)
        → find_cycle_records active ≡ some path
        → EndsInCycle active path
        → Broken (break_one again active excluded) active excluded
    found [] e (start, u, [], l, p, i, s, t) = absurd (cc)
    found [] e (start, u, m ∷ lead, l, p, i, s, t) = absurd (cc)
    found (first ∷ cycle) e c =
        let (i, top) = greatest-IsGreatest first cycle in
        let loser = greatest first cycle in
        let (kept, r, removes, size) =
          remove_id_lem loser active (EndsInCycle-In active (first ∷ cycle) loser c i) in
        let (last, more, a, b) = loop kept (excluded ++ loser ∷ []) size in
        (
          last,
          loser ∷ more,
          rw (e, break_one)
              (rw r (a ∙ ap (λ z. some (last, z)) (append_assoc excluded (loser ∷ []) more))),
          excluding (first ∷ cycle) e c (i, top) removes b,
        )

break_cycles-Broken :
    (fuel : ℕ) (active excluded : List Fields)
    → length active ≤ fuel
    → Broken (break_cycles fuel active excluded) active excluded
unfolding break_cycles
break_cycles-Broken zero active excluded le =
    break_one-Broken (λ a x. none) active excluded (λ kept before size. absurd (omega arith))
break_cycles-Broken (suc fuel) active excluded le =
    break_one-Broken (break_cycles fuel) active excluded
      (λ kept before size. break_cycles-Broken fuel kept before (omega arith))

-- The answer of ActiveTaxonomyEdges, and how it comes about from the list of the enrichments of the
-- field in the store whose ids no stored retraction names.
abbrev pub BreaksTaxonomy : Store → String → Type 0
BreaksTaxonomy s wanted =
    (all : List Fields) × (active : List Fields) × (excluded : List Fields) × ((rec : Fields)
      → In rec all ↔ (
          IsStored s.records s.record_order "enrichment" rec
          × (text_at rec "field" ≡ wanted)
          × ¬ IsRetracted s (text_at rec "id")))
    × (active_taxonomy_edges s wanted ≡ some (active, excluded))
    × IsAcyclic active
    × Breaks all active excluded

pub broken_edges :
    (s : Store) (wanted : String)
    → (active : List Fields) × (excluded : List Fields) × (active_taxonomy_edges s wanted
        ≡ some (active, excluded))
      × IsAcyclic active
      × Breaks (active_in (retracted_ids s) wanted (records_of s "enrichment")) active excluded
unfolding active_taxonomy_edges
broken_edges s wanted =
    let all = active_in (retracted_ids s) wanted (records_of s "enrichment") in
    let (active, excluded, e, b) = break_cycles-Broken (length all) all [] (omega arith) in
    (active, excluded, e, Breaks-IsAcyclic b, b)

-- ActiveTaxonomyEdges always ends. What it keeps has no cycle. It starts from the stored enrichments
-- of the field whose ids no stored retraction names, and excludes one after the other: each time
-- findCycleRecords returned a path that ends in a cycle, and the excluded one is a record of that
-- path which comes before no record of it, by the timestamp and then by the id; the first remaining
-- record with its id goes.
pub active_taxonomy_edges_lem : (s : Store) (wanted : String) → BreaksTaxonomy s wanted
active_taxonomy_edges_lem s wanted =
    let (active, excluded, e, a, b) = broken_edges s wanted in
    (
      active_in (retracted_ids s) wanted (records_of s "enrichment"),
      active,
      excluded,
      λ rec.
          let (fwd, bwd) = In-active_in (retracted_ids s) wanted (records_of s "enrichment") rec in
          let (stored, stored') = records_of-IsStored s "enrichment" rec in
          let (kept, kept') = retracted_ids-false s (text_at rec "id") in
          (
            λ i. let (j, f, n) = fwd i in (stored j, f, kept n),
            λ (j, f, n). bwd (stored' j, f, kept' n),
          ),
      e,
      a,
      b,
    )
