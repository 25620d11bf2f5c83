-- ===== src/Store/Gaps/Pairs.antt =====
-- The pairs of claims that Gaps compares.
use causalontology.Prelude.{
  String, List, [], ◌∷◌, true, ◌≡◌, ◌↔◌, ◌⊎◌, inl, inr, refl, sym, ap, ◌∙◌, subst, Map, Bool-cases,
}
use causalontology.Json.{str, Fields, field, end, at, object_of, Floats}
use causalontology.Semantics.Conflict.{conflicts}
use causalontology.Semantics.Conflict.Meaning.{Conflict, conflicts_iff}
use causalontology.Store.Cycles.Trails.{In}
use causalontology.Store.Cycles.Records.{In-append}
use causalontology.Store.Gaps.{is_claim, claims_of, conflict, conflicts_with, conflict_gaps}
use causalontology.Store.Gaps.Meaning.{IsClaim, is_claim-IsClaim}

-- The one claim stands before the other.
abbrev Precedes : Fields → Fields → List Fields → Type 0
Precedes a b [] = ⊥
Precedes a b (x ∷ cros) = ((x ≡ a) × In b cros) ⊎ Precedes a b cros

-- Two claims in conflict, in the order of the store, and their gap.
abbrev Contradicts : Floats → List Fields → Fields → Type 0
Contradicts fl cros gap =
    (a : Fields) × (b : Fields) × Precedes a b cros
    × (conflicts fl a b ≡ true)
    × (conflict a b ≡ gap)

conflicts_with_iff :
    (fl : Floats) (a : Fields) (cros : List Fields) (gap : Fields)
    → In gap (conflicts_with fl a cros)
      ↔ ((b : Fields) × In b cros × (conflicts fl a b ≡ true) × (conflict a b ≡ gap))
unfolding conflicts_with
conflicts_with_iff fl a [] gap = (λ i. absurd i, λ (b, i, c, e). absurd i)
conflicts_with_iff fl a (x ∷ cros) gap =
    let (fwd, bwd) = conflicts_with_iff fl a cros gap in
    elim (Bool-cases (conflicts fl a x)) [
      | inl here ↦ rw here (
        λ i. elim i [
          | inl e ↦ (x, inl refl, here, e)
          | inr j ↦ let (b, k, c, e) = fwd j in (b, inr k, c, e)
        ],
        λ (b, i, c, e). elim i [
          | inl same ↦ inl (ap (conflict a) same ∙ e)
          | inr k ↦ inr (bwd (b, k, c, e))
        ],
      )
      | inr there ↦ rw there (
        λ i. let (b, k, c, e) = fwd i in (b, inr k, c, e),
        λ (b, i, c, e). elim i [
          | inl same ↦ absurd (let t = subst (λ z. conflicts fl a z ≡ true) (sym same) c in cc)
          | inr k ↦ bwd (b, k, c, e)
        ],
      )
    ]

conflict_gaps-Contradicts :
    (fl : Floats) (cros : List Fields) (gap : Fields)
    → In gap (conflict_gaps fl cros) ↔ Contradicts fl cros gap
unfolding conflict_gaps
conflict_gaps-Contradicts fl [] gap = (λ i. absurd i, λ (a, b, p, c, e). absurd p)
conflict_gaps-Contradicts fl (x ∷ cros) gap =
    let (fwd, bwd) = conflict_gaps-Contradicts fl cros gap in
    let (split, join) = In-append gap (conflicts_with fl x cros) (conflict_gaps fl cros) in
    let (here, here') = conflicts_with_iff fl x cros gap in
    (
      λ i. elim (split i) [
        | inl j ↦ let (b, k, c, e) = here j in (x, b, inl (refl, k), c, e)
        | inr j ↦ let (a, b, p, c, e) = fwd j in (a, b, inr p, c, e)
      ],
      λ (a, b, p, c, e). elim p [
        | inl (same, k) ↦ join (
            inl (
              here' (
                subst
                  (λ z. (b : Fields) × In b cros × (conflicts fl z b ≡ true) × (conflict z b ≡ gap))
                  (sym same) (b, k, c, e))))
        | inr q ↦ join (inr (bwd (a, b, q, c, e)))
      ],
    )

-- The one identifier stands before the other.
abbrev pub Comes : String → String → List String → Type 0
Comes x y [] = ⊥
Comes x y (id ∷ ids) = ((id ≡ x) × In y ids) ⊎ Comes x y ids

-- The map is a claim that stands in the store.
abbrev Claimed : Map Fields → List String → Fields → Type 0
Claimed objects ids m =
    (id : String) × In id ids × IsClaim (object_of objects id) × (object_of objects id ≡ m)

claims_of-Claimed :
    (objects : Map Fields) (ids : List String) (m : Fields)
    → In m (claims_of objects ids) ↔ Claimed objects ids m
unfolding claims_of
claims_of-Claimed objects [] m = (λ i. absurd i, λ (id, i, c, e). absurd i)
claims_of-Claimed objects (x ∷ ids) m =
    let (fwd, bwd) = claims_of-Claimed objects ids m in
    let (claim, claim') = is_claim-IsClaim (object_of objects x) in
    elim (Bool-cases (is_claim (object_of objects x))) [
      | inl here ↦ rw here (
        λ i. elim i [
          | inl e ↦ (x, inl refl, claim here, e)
          | inr j ↦ let (id, k, c, e) = fwd j in (id, inr k, c, e)
        ],
        λ (id, i, c, e). elim i [
          | inl same ↦ inl (ap (object_of objects) same ∙ e)
          | inr k ↦ inr (bwd (id, k, c, e))
        ],
      )
      | inr other ↦ rw other (
        λ i. let (id, k, c, e) = fwd i in (id, inr k, c, e),
        λ (id, i, c, e). elim i [
          | inl same ↦
              absurd
                (let t = claim' (subst (λ z. IsClaim (object_of objects z)) (sym same) c) in cc)
          | inr k ↦ bwd (id, k, c, e)
        ],
      )
    ]

-- The two maps are claims, of which the one stands before the other in the store.
abbrev Ordered : Map Fields → List String → Fields → Fields → Type 0
Ordered objects ids a b =
    (x : String) × (y : String) × Comes x y ids
    × IsClaim (object_of objects x)
    × IsClaim (object_of objects y)
    × (object_of objects x ≡ a)
    × (object_of objects y ≡ b)

claims_of-Ordered :
    (objects : Map Fields) (ids : List String) (a b : Fields)
    → Precedes a b (claims_of objects ids) ↔ Ordered objects ids a b
unfolding claims_of
claims_of-Ordered objects [] a b = (λ p. absurd p, λ (x, y, p, c, d, e, f). absurd p)
claims_of-Ordered objects (id ∷ ids) a b =
    let (fwd, bwd) = claims_of-Ordered objects ids a b in
    let (later, later') = claims_of-Claimed objects ids b in
    let (claim, claim') = is_claim-IsClaim (object_of objects id) in
    elim (Bool-cases (is_claim (object_of objects id))) [
      | inl here ↦ rw here (
        λ p. elim p [
          | inl (e, i) ↦ let (y, j, c, f) = later i in (id, y, inl (refl, j), claim here, c, e, f)
          | inr q ↦ let (x, y, r, c, d, e, f) = fwd q in (x, y, inr r, c, d, e, f)
        ],
        λ (x, y, p, c, d, e, f). elim p [
          | inl (same, i) ↦ inl (ap (object_of objects) same ∙ e, later' (y, i, d, f))
          | inr q ↦ inr (bwd (x, y, q, c, d, e, f))
        ],
      )
      | inr other ↦ rw other (
        λ p. let (x, y, r, c, d, e, f) = fwd p in (x, y, inr r, c, d, e, f),
        λ (x, y, p, c, d, e, f). elim p [
          | inl (same, i) ↦
              absurd
                (let t = claim' (subst (λ z. IsClaim (object_of objects z)) (sym same) c) in cc)
          | inr q ↦ bwd (x, y, q, c, d, e, f)
        ],
      )
    ]

-- Two claims of the store in conflict, in its order, and their gap.
abbrev pub Clashes : Floats → Map Fields → List String → Fields → Type 0
Clashes fl objects ids gap =
    (x : String) × (y : String) × Comes x y ids
    × IsClaim (object_of objects x)
    × IsClaim (object_of objects y)
    × Conflict fl (object_of objects x) (object_of objects y)
    × (field "kind" (str "conflict") (
          field "a" (at (object_of objects x) "id") (field "b" (at (object_of objects y) "id") end))
        ≡ gap)

Contradicts-Clashes :
    (fl : Floats) (objects : Map Fields) (ids : List String) (gap : Fields)
    → Contradicts fl (claims_of objects ids) gap ↔ Clashes fl objects ids gap
Contradicts-Clashes fl objects ids gap = (
  λ (a, b, p, c, g).
      let (x, y, q, i, j, e, f) = (claims_of-Ordered objects ids a b).0 p in
      (
        x,
        y,
        q,
        i,
        j,
        (conflicts_iff fl (object_of objects x) (object_of objects y)).0 (
            subst (λ z. conflicts fl z (object_of objects y) ≡ true) (sym e)
              (subst (λ z. conflicts fl a z ≡ true) (sym f) c)),
        ap
              (λ z.
                field "kind" (str "conflict")
                  (field "a" (at z "id") (field "b" (at (object_of objects y) "id") end)))
              e
            ∙ ap
                (λ z.
                  field "kind" (str "conflict") (field "a" (at a "id") (field "b" (at z "id") end)))
                f
            ∙ g,
      ),
  λ (x, y, q, i, j, c, g).
      let a = object_of objects x in
      let b = object_of objects y in
      (
        a,
        b,
        (claims_of-Ordered objects ids a b).1 (x, y, q, i, j, refl, refl),
        (conflicts_iff fl a b).1 c,
        g,
      ),
)

pub conflict_gaps-Clashes :
    (fl : Floats) (objects : Map Fields) (ids : List String) (gap : Fields)
    → In gap (conflict_gaps fl (claims_of objects ids)) ↔ Clashes fl objects ids gap
conflict_gaps-Clashes fl objects ids gap =
    let (a, a') = conflict_gaps-Contradicts fl (claims_of objects ids) gap in
    let (b, b') = Contradicts-Clashes fl objects ids gap in (λ i. b (a i), λ c. a' (b' c))
