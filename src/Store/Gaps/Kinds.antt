-- ===== src/Store/Gaps/Kinds.antt =====
-- The gaps of each kind: which ones the loops of Gaps show.
use causalontology.Prelude.{
  String, List, [], ◌∷◌, Bool, true, false, none, ◌==◌, eq_iff, ◌≡◌, ◌≢◌, ◌↔◌, ◌⊎◌, inl, inr, refl,
  sym, ap, ◌∙◌, subst, arith, if◌then◌else◌, ◌&&◌, ◌||◌, not, Map, find, is_some, Bool-cases,
  Option-cases,
}
use causalontology.Sets.{contains_string, StringSet}
use causalontology.Json.{Fields, has, object_of}
use causalontology.Store.Cycles.Trails.{In}
use causalontology.Store.Cycles.Records.{In-append}
use causalontology.Store.Gaps.{
  is_claim, missing_field, empty_mechanism, mechanism_empty, claim_gaps, open_claims,
  inconsistent_hierarchy, excluded_gaps, references, dangling_reference, dangling_refs,
  dangling_gaps,
}

-- A list of at most one member, by a test.
In-if : (b : Bool) (x g : Fields) → In g (if b then x ∷ [] else []) ↔ ((b ≡ true) × (x ≡ g))
In-if true x g = (λ i. elim i [ inl e ↦ (refl, e) | inr n ↦ absurd n ], λ (_, e). inl e)
In-if false x g = (λ i. absurd i, λ (n, _). absurd (cc))

-- A claim that no valid refinement closes, and the gap that it leaves: it lacks the temporal window
-- or the modality, or it has no mechanism.
abbrev pub Open : StringSet → Map Fields → List String → Fields → Type 0
Open closed objects ids gap =
    (id : String) × In id ids
    × (is_claim (object_of objects id) ≡ true)
    × (contains_string closed id ≡ false)
    × ((((has (object_of objects id) "temporal" ≡ false)
            ⊎ (has (object_of objects id) "modality" ≡ false))
          × (missing_field id (object_of objects id) ≡ gap))
        ⊎ ((mechanism_empty (object_of objects id) ≡ true) × (empty_mechanism id ≡ gap)))

-- What claim_gaps shows of one claim.
abbrev Leaves : StringSet → String → Fields → Fields → Type 0
Leaves closed id m gap =
    (contains_string closed id ≡ false)
    × ((((has m "temporal" ≡ false) ⊎ (has m "modality" ≡ false)) × (missing_field id m ≡ gap))
        ⊎ ((mechanism_empty m ≡ true) × (empty_mechanism id ≡ gap)))

lacks_test :
    (t m c : Bool)
    → (((not t || not m) && not c) ≡ true) ↔ ((c ≡ false) × ((t ≡ false) ⊎ (m ≡ false)))
lacks_test t m c = ground arith

bare_test : (e c : Bool) → ((e && not c) ≡ true) ↔ ((c ≡ false) × (e ≡ true))
bare_test e c = ground arith

claim_gaps-Leaves :
    (closed : StringSet) (id : String) (m gap : Fields)
    → In gap (claim_gaps closed id m) ↔ Leaves closed id m gap
unfolding claim_gaps
claim_gaps-Leaves closed id m gap =
    let lacks =
      (not (has m "temporal") || not (has m "modality")) && not (contains_string closed id) in
    let bare = mechanism_empty m && not (contains_string closed id) in
    let (split, join) =
      In-append gap (if lacks then missing_field id m ∷ [] else [])
        (if bare then empty_mechanism id ∷ [] else []) in
    let (a, a') = In-if lacks (missing_field id m) gap in
    let (b, b') = In-if bare (empty_mechanism id) gap in
    let (l, l') = lacks_test (has m "temporal") (has m "modality") (contains_string closed id) in
    let (t, t') = bare_test (mechanism_empty m) (contains_string closed id) in
    (
      λ i. elim (split i) [
        | inl j ↦ let (h, e) = a j in let (c, o) = l h in (c, inl (o, e))
        | inr j ↦ let (h, e) = b j in let (c, o) = t h in (c, inr (o, e))
      ],
      λ (c, s). elim s [
        | inl (o, e) ↦ join (inl (a' (l' (c, o), e)))
        | inr (o, e) ↦ join (inr (b' (t' (c, o), e)))
      ],
    )

pub open_claims-Open :
    (closed : StringSet) (objects : Map Fields) (ids : List String) (gap : Fields)
    → In gap (open_claims closed objects ids) ↔ Open closed objects ids gap
unfolding open_claims
open_claims-Open closed objects [] gap = (λ i. absurd i, λ (id, i, k, c, s). absurd i)
open_claims-Open closed objects (x ∷ ids) gap =
    let (fwd, bwd) = open_claims-Open closed objects ids gap in
    let m = object_of objects x in
    elim (Bool-cases (is_claim m)) [
      | inl claim ↦
          let (split, join) =
            In-append gap (claim_gaps closed x m) (open_claims closed objects ids) in
          let (here, here') = claim_gaps-Leaves closed x m gap in
          rw claim (
            λ i. elim (split i) [
              | inl j ↦ let (c, s) = here j in (x, inl refl, claim, c, s)
              | inr j ↦ let (id, l, k, c, s) = fwd j in (id, inr l, k, c, s)
            ],
            λ (id, i, k, c, s). elim i [
              | inl e ↦ join (
                  inl
                    (here' (subst (λ z. Leaves closed z (object_of objects z) gap) (sym e) (c, s))))
              | inr j ↦ join (inr (bwd (id, j, k, c, s)))
            ],
          )
      | inr other ↦ rw other (
        λ i. let (id, l, k, c, s) = fwd i in (id, inr l, k, c, s),
        λ (id, i, k, c, s). elim i [
          | inl e ↦
              absurd (let t = subst (λ z. is_claim (object_of objects z) ≡ true) (sym e) k in cc)
          | inr j ↦ bwd (id, j, k, c, s)
        ],
      )
    ]

-- An excluded record, and its gap.
abbrev pub Excluded : List Fields → Fields → Type 0
Excluded recs gap = (rec : Fields) × In rec recs × (inconsistent_hierarchy rec ≡ gap)

pub excluded_gaps-Excluded :
    (recs : List Fields) (gap : Fields) → In gap (excluded_gaps recs) ↔ Excluded recs gap
unfolding excluded_gaps
excluded_gaps-Excluded [] gap = (λ i. absurd i, λ (rec, i, e). absurd i)
excluded_gaps-Excluded (r ∷ recs) gap =
    let (fwd, bwd) = excluded_gaps-Excluded recs gap in
    (
      λ i. elim i [ inl e ↦ (r, inl refl, e) | inr j ↦ let (rec, k, e) = fwd j in (rec, inr k, e) ],
      λ (rec, i, e). elim i [
        | inl same ↦ inl (ap inconsistent_hierarchy same ∙ e)
        | inr k ↦ inr (bwd (rec, k, e))
      ],
    )

-- A reference that leads to no object, and its gap.
abbrev pub Dangles : Map Fields → String → List String → Fields → Type 0
Dangles objects id refs gap =
    (ref : String) × In ref refs
    × (ref ≢ "")
    × (find objects ref ≡ none)
    × (dangling_reference id ref ≡ gap)

absent_test :
    (objects : Map Fields) (ref : String)
    → ((not (ref == "") && not (is_some (find objects ref))) ≡ true)
      ↔ ((ref ≢ "") × (find objects ref ≡ none))
unfolding is_some
absent_test objects ref = elim (Option-cases (find objects ref)) [
  | inl e ↦ rw e (
    λ h. (λ bad. ground (arith, (eq_iff ref "").1 bad), refl),
    λ (n, _). ground (arith, eq_iff ref ""),
  )
  | inr (m, e) ↦ rw e (λ h. absurd (ground arith), λ (n, bad). absurd (cc))
]

dangling_refs-Dangles :
    (objects : Map Fields) (id : String) (refs : List String) (gap : Fields)
    → In gap (dangling_refs objects id refs) ↔ Dangles objects id refs gap
unfolding dangling_refs
dangling_refs-Dangles objects id [] gap = (λ i. absurd i, λ (ref, i, n, a, e). absurd i)
dangling_refs-Dangles objects id (r ∷ refs) gap =
    let (fwd, bwd) = dangling_refs-Dangles objects id refs gap in
    let (absent, absent') = absent_test objects r in
    elim (Bool-cases (not (r == "") && not (is_some (find objects r)))) [
      | inl here ↦ rw here (
        λ i. elim i [
          | inl e ↦ let (n, a) = absent here in (r, inl refl, n, a, e)
          | inr j ↦ let (ref, k, n, a, e) = fwd j in (ref, inr k, n, a, e)
        ],
        λ (ref, i, n, a, e). elim i [
          | inl same ↦ inl (ap (dangling_reference id) same ∙ e)
          | inr k ↦ inr (bwd (ref, k, n, a, e))
        ],
      )
      | inr there ↦ rw there (
        λ i. let (ref, k, n, a, e) = fwd i in (ref, inr k, n, a, e),
        λ (ref, i, n, a, e). elim i [
          | inl same ↦ absurd (
              let t = absent' (subst (λ z. (z ≢ "") × (find objects z ≡ none)) (sym same) (n, a)) in
              cc)
          | inr k ↦ bwd (ref, k, n, a, e)
        ],
      )
    ]

-- An object of the store with a reference that leads to no object.
abbrev pub Dangling : Map Fields → List String → Fields → Type 0
Dangling objects ids gap =
    (id : String) × In id ids × Dangles objects id (references (object_of objects id)) gap

pub dangling_gaps-Dangling :
    (objects : Map Fields) (ids : List String) (gap : Fields)
    → In gap (dangling_gaps objects ids) ↔ Dangling objects ids gap
unfolding dangling_gaps
dangling_gaps-Dangling objects [] gap = (λ i. absurd i, λ (id, i, d). absurd i)
dangling_gaps-Dangling objects (x ∷ ids) gap =
    let (fwd, bwd) = dangling_gaps-Dangling objects ids gap in
    let refs = references (object_of objects x) in
    let (split, join) = In-append gap (dangling_refs objects x refs) (dangling_gaps objects ids) in
    let (here, here') = dangling_refs-Dangles objects x refs gap in
    (
      λ i. elim (split i) [
        | inl j ↦ (x, inl refl, here j)
        | inr j ↦ let (id, k, d) = fwd j in (id, inr k, d)
      ],
      λ (id, i, d). elim i [
        | inl e ↦ join (
            inl (
              here'
                (subst (λ z. Dangles objects z (references (object_of objects z)) gap) (sym e) d)))
        | inr k ↦ join (inr (bwd (id, k, d)))
      ],
    )
