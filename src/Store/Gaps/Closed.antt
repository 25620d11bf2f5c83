-- ===== src/Store/Gaps/Closed.antt =====
-- The claims that a valid refinement in the store closes.
use causalontology.Prelude.{
  String, List, [], ◌∷◌, true, some, ◌==◌, eq_iff, ◌≡◌, ◌≢◌, ◌↔◌, ◌⊎◌, inl, inr, refl, sym, ◌∙◌,
  subst, arith, ◌||◌, not, Map, find, Bool-cases, Option-cases,
}
use mathlib.Core.Option.{some-injective}
use causalontology.Sets.{contains_string, StringSet}
use causalontology.Sets.Laws.{contains-set_add}
use causalontology.Json.{Fields, at, as_text, text_at, object_of, Floats}
use causalontology.Semantics.Refinement.{refinement_valid}
use causalontology.Semantics.Refinement.Meaning.{Refines, refinement_valid_iff}
use causalontology.Store.Cycles.Trails.{In}
use causalontology.Store.State.{Store}
use causalontology.Store.Gaps.{is_claim, refine_one, refine_all, refined}

module _ (fl : Floats) (objects : Map Fields) where
  -- The same by the tests of the code.
  abbrev Closes : Fields → String → Type 0
  Closes m x =
      (parent : Fields) × (is_claim m ≡ true)
      × (text_at m "refines" ≢ "")
      × (find objects (text_at m "refines") ≡ some parent)
      × ((refinement_valid fl m parent).0 ≡ true)
      × (as_text (at parent "id") ≡ some x)

  refine_one-Closes :
      (out : StringSet) (m : Fields) (x : String)
      → (contains_string (refine_one fl objects out m) x ≡ true)
        ↔ ((contains_string out x ≡ true) ⊎ Closes m x)
  unfolding refine_one
  refine_one-Closes out m x = elim (Bool-cases (not (is_claim m) || text_at m "refines" == "")) [
    | inl skip ↦ rw skip (
      λ h. inl h,
      λ s. elim s [
        | inl h ↦ h
        | inr (parent, c, n, f, v, e) ↦
            absurd (n ((eq_iff (text_at m "refines") "").0 (ground (arith, c, skip))))
      ],
    )
    | inr go ↦
        let claim : is_claim m ≡ true = ground (arith, go) in
        let refines : text_at m "refines" ≢ "" =
          λ e. let t = (eq_iff (text_at m "refines") "").1 e in ground (arith, t, go) in
        elim (Option-cases (find objects (text_at m "refines"))) [
          | inl absent ↦
              rw (go, absent, refine_one)
                (λ h. inl h, λ s. elim s [ inl h ↦ h | inr (p, c, n, f, v, e) ↦ absurd (cc) ])
          | inr (parent, here) ↦
              let same = λ (p : Fields) (f : some parent ≡ some p). some-injective _ _ f in
              elim (Bool-cases ((refinement_valid fl m parent).0)) [
                | inr invalid ↦
                    rw (go, here, invalid, refine_one)
                      (
                        λ h. inl h,
                        λ s. elim s [
                          | inl h ↦ h
                          | inr (p, c, n, f, v, e) ↦ absurd (
                              let t =
                                subst (λ z. (refinement_valid fl m z).0 ≡ true) (sym (same p f))
                                  v in
                              cc)
                        ],
                      )
                | inl valid ↦ elim (Option-cases (as_text (at parent "id"))) [
                  | inl no_id ↦
                      rw (go, here, valid, no_id, refine_one)
                        (
                          λ h. inl h,
                          λ s. elim s [
                            | inl h ↦ h
                            | inr (p, c, n, f, v, e) ↦ absurd (
                                let t =
                                  subst (λ z. as_text (at z "id") ≡ some x) (sym (same p f)) e in
                                cc)
                          ],
                        )
                  | inr (id, has_id) ↦
                      let added = contains-set_add out id x in
                      rw (go, here, valid, has_id, refine_one)
                        (
                          λ h. elim (Bool-cases (id == x)) [
                            | inl this ↦ inr (
                              parent,
                              claim,
                              refines,
                              refl,
                              valid,
                              subst (λ z. as_text (at parent "id") ≡ some z) ((eq_iff id x).0 this)
                                  has_id,
                            )
                            | inr other ↦ inl (ground (arith, h, added, other))
                          ],
                          λ s. elim s [
                            | inl h ↦ ground (arith, h, added)
                            | inr (p, c, n, f, v, e) ↦
                                let t =
                                  subst (λ z. as_text (at z "id") ≡ some x) (sym (same p f)) e in
                                let k : id ≡ x = some-injective _ _ (sym has_id ∙ t) in
                                let q = (eq_iff id x).1 k in ground (arith, added, q)
                          ],
                        )
                ]
              ]
        ]
  ]

  abbrev IsClosedBy : List String → String → Type 0
  IsClosedBy ids x = (id : String) × In id ids × Closes (object_of objects id) x

  refine_all-IsClosedBy :
      (out : StringSet) (ids : List String) (x : String)
      → (contains_string (refine_all fl objects out ids) x ≡ true)
        ↔ ((contains_string out x ≡ true) ⊎ IsClosedBy ids x)
  unfolding refine_all
  refine_all-IsClosedBy out [] x =
      (λ h. inl h, λ s. elim s [ inl h ↦ h | inr (id, i, c) ↦ absurd i ])
  refine_all-IsClosedBy out (y ∷ ids) x =
      let m = object_of objects y in
      let (fwd, bwd) = refine_all-IsClosedBy (refine_one fl objects out m) ids x in
      let (one, one') = refine_one-Closes out m x in
      (
        λ h. elim (fwd h) [
          | inl k ↦ elim (one k) [ inl o ↦ inl o | inr c ↦ inr (y, inl refl, c) ]
          | inr (id, i, c) ↦ inr (id, inr i, c)
        ],
        λ s. elim s [
          | inl o ↦ bwd (inl (one' (inl o)))
          | inr (id, i, c) ↦ elim i [
            | inl e ↦ bwd (inl (one' (inr (subst (λ z. Closes (object_of objects z) x) (sym e) c))))
            | inr j ↦ bwd (inr (id, j, c))
          ]
        ],
      )

-- Some claim of the store refines, in the sense of RefinementValid, an object that it names and whose
-- id is the identifier.
abbrev pub IsClosed : Floats → Store → String → Type 0
IsClosed fl s x =
    (id : String) × (parent : Fields) × In id s.object_order
    × (text_at (object_of s.objects id) "type" ≡ "causal_relation_object")
    × (text_at (object_of s.objects id) "refines" ≢ "")
    × (find s.objects (text_at (object_of s.objects id) "refines") ≡ some parent)
    × Refines fl (object_of s.objects id) parent
    × (as_text (at parent "id") ≡ some x)

is_claim_iff : (m : Fields) → (is_claim m ≡ true) ↔ (text_at m "type" ≡ "causal_relation_object")
unfolding is_claim
is_claim_iff m = eq_iff (text_at m "type") "causal_relation_object"

-- The identifiers that Gaps takes for closed are the ids of the objects that some claim of the store
-- names in its refines and refines: with the same causes and effects, equal in each of the fields
-- mechanism, temporal, modality and context that the object has, and with one more of these four.
pub refined_iff :
    (fl : Floats) (s : Store) (x : String)
    → (contains_string (refined fl s) x ≡ true) ↔ IsClosed fl s x
unfolding refined contains_string
refined_iff fl s x =
    let (fwd, bwd) = refine_all-IsClosedBy fl s.objects [] s.object_order x in
    (
      λ h. elim (fwd h) [
        | inl n ↦ absurd (cc)
        | inr (id, i, (parent, c, n, f, v, e)) ↦ (
          id,
          parent,
          i,
          (is_claim_iff (object_of s.objects id)).0 c,
          n,
          f,
          (refinement_valid_iff fl (object_of s.objects id) parent).0 v,
          e,
        )
      ],
      λ (id, parent, i, c, n, f, v, e). bwd (
          inr (
            id,
            i,
            (
              parent,
              (is_claim_iff (object_of s.objects id)).1 c,
              n,
              f,
              (refinement_valid_iff fl (object_of s.objects id) parent).1 v,
              e,
            ),
          )),
    )
