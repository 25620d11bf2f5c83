-- ===== src/Semantics/Strata/Classes.antt =====
-- ClassifyCRO, in terms of the distances between the ordinals of causes and effects.
use causalontology.Prelude.{
  ℕ, ◌≤◌, ◌<◌, ℤ, pos, pos_part, neg_part, List, ◌∷◌, Bool, true, false, some, ◌≡◌, ◌⊎◌, inl, inr,
  refl, sym, ap, ◌∙◌, arith, ltb_ℤ, eqb_ℤ, ◌&&◌, Bool-cases,
}
use native.Mathlib.Decide.{dec_lt}
use causalontology.Store.Cycles.Trails.{In}
use causalontology.Semantics.Strata.{
  Classification, intra_stratal, adjacent_stratal, skipping, mixed, max_from, min_from, verdict_of,
  classify_ordinals,
}
use causalontology.Semantics.Strata.Distances.{IsSmall, gap_of, gap_of-zero, eqb_ℤ-iff}
use causalontology.Semantics.Strata.Measures.{EachPair, SomePair, measure_lem}
use causalontology.Semantics.Strata.Extremes.{max_from-same, min_from-same, AtMost, between}

-- The test for one stratum of all causes and effects.
abbrev level : ℤ → List ℤ → ℤ → List ℤ → Bool
level c cs e es =
    eqb_ℤ (max_from c cs) (min_from c cs)
    && eqb_ℤ (min_from c cs) (max_from e es)
    && eqb_ℤ (max_from e es) (min_from e es)

level-EachPair :
    (c e : ℤ) (cs es : List ℤ) → level c cs e es ≡ true → EachPair (λ d. d ≡ 0) (c ∷ cs) (e ∷ es)
level-EachPair c e cs es h i j a b =
    let (p, q) = between c cs i a in
    let (r, s) = between e es j b in
    let x = (eqb_ℤ-iff (max_from c cs) (min_from c cs)).0 (ground arith) in
    let y = (eqb_ℤ-iff (min_from c cs) (max_from e es)).0 (ground arith) in
    let z = (eqb_ℤ-iff (max_from e es) (min_from e es)).0 (ground arith) in
    squeeze (max_from c cs) (min_from c cs) (max_from e es) (min_from e es) x y z p q r s
  where
    squeeze :
        (u v w t : ℤ)
        → u ≡ v
        → v ≡ w
        → w ≡ t
        → AtMost i u
        → AtMost v i
        → AtMost j w
        → AtMost t j
        → gap_of i j ≡ 0
    squeeze u v w t x y z p q r s = omega (
      arith,
      ap pos_part x,
      ap neg_part x,
      ap pos_part y,
      ap neg_part y,
      ap pos_part z,
      ap neg_part z,
    )

EachPair-level :
    (c e : ℤ) (cs es : List ℤ) → EachPair (λ d. d ≡ 0) (c ∷ cs) (e ∷ es) → level c cs e es ≡ true
EachPair-level c e cs es h =
    let same = gap_of-zero c e (h c e (inl refl) (inl refl)) in
    let causes = λ (x : ℤ) (i : In x cs). gap_of-zero x e (h x e (inr i) (inl refl)) ∙ sym same in
    let effects =
      λ (y : ℤ) (i : In y es). sym (gap_of-zero c y (h c y (inl refl) (inr i))) ∙ same in
    rw
      (
        max_from-same c cs causes,
        min_from-same c cs causes,
        max_from-same e es effects,
        min_from-same e es effects,
        same,
      )
      (even e)
  where
    even : (n : ℤ) → (eqb_ℤ n n && eqb_ℤ n n && eqb_ℤ n n) ≡ true
    even n = ground (arith, (eqb_ℤ-iff n n).1 refl)

-- The classes of rule 15, by the distances between causes and effects: none at all; at most one, and
-- one; more than one for all; and more than one for some, but not for all.
abbrev pub Classified : List ℤ → List ℤ → Classification → Type 0
Classified cs es k =
    ((k ≡ intra_stratal) × EachPair (λ d. d ≡ 0) cs es)
    ⊎ ((k ≡ adjacent_stratal) × EachPair (λ d. d ≤ 1) cs es × SomePair (λ d. d ≡ 1) cs es)
    ⊎ ((k ≡ skipping) × EachPair (λ d. 2 ≤ d) cs es)
    ⊎ ((k ≡ mixed) × SomePair (λ d. d ≤ 1) cs es × SomePair (λ d. 2 ≤ d) cs es)

SomePair-map :
    (P Q : ℕ → Type 0) (cs es : List ℤ)
    → ((d : ℕ) → P d → Q d)
    → SomePair P cs es
    → SomePair Q cs es
SomePair-map P Q cs es f (i, j, a, b, p) = (i, j, a, b, f (gap_of i j) p)

verdict-adjacent :
    (g s : ℕ) → eqb_ℤ (pos s) (pos 1) ≡ true → verdict_of (pos g, pos s) ≡ adjacent_stratal
unfolding verdict_of
verdict-adjacent g s h = ground arith

verdict-skipping :
    (g s : ℕ)
    → eqb_ℤ (pos s) (pos 1) ≡ false
    → ltb_ℤ (pos 1) (pos g) ≡ true
    → verdict_of (pos g, pos s) ≡ skipping
unfolding verdict_of
verdict-skipping g s h k = ground arith

verdict-mixed :
    (g s : ℕ)
    → eqb_ℤ (pos s) (pos 1) ≡ false
    → ltb_ℤ (pos 1) (pos g) ≡ false
    → verdict_of (pos g, pos s) ≡ mixed
unfolding verdict_of
verdict-mixed g s h k = ground arith

-- The end of ClassifyCRO on small ordinals classifies by the distances.
pub classify_ordinals-Classified :
    (c e : ℤ) (cs es : List ℤ)
    → ((i : ℤ) → In i (c ∷ cs) → IsSmall i)
    → ((j : ℤ) → In j (e ∷ es) → IsSmall j)
    → (k : Classification) × (classify_ordinals (c ∷ cs) (e ∷ es) ≡ some k)
      × Classified (c ∷ cs) (e ∷ es) k
unfolding classify_ordinals
classify_ordinals-Classified c e cs es sc se = elim (Bool-cases (level c cs e es)) [
  | inl one ↦ (intra_stratal, rw one, inl (refl, level-EachPair c e cs es one))
  | inr more ↦
      let (g, s, q, some_g, each_g, some_s, each_s) = measure_lem c e cs es sc se in
      (
        verdict_of (pos g, pos s),
        rw more (ap (λ m. some (verdict_of m)) q),
        judged more g s some_g each_g some_s each_s,
      )
]
  where
    judged :
        level c cs e es ≡ false
        → (g s : ℕ) → SomePair (λ d. d ≡ g) (c ∷ cs) (e ∷ es)
        → EachPair (λ d. g ≤ d) (c ∷ cs) (e ∷ es)
        → SomePair (λ d. d ≡ s) (c ∷ cs) (e ∷ es)
        → EachPair (λ d. d ≤ s) (c ∷ cs) (e ∷ es)
        → Classified (c ∷ cs) (e ∷ es) (verdict_of (pos g, pos s))
    judged more g s some_g each_g some_s each_s = elim (Bool-cases (eqb_ℤ (pos s) (pos 1))) [
      | inl one ↦ inr (
          inl (
            verdict-adjacent g s one,
            λ i j a b. let d = each_s i j a b in ground (arith, d, one),
            SomePair-map (λ d. d ≡ s) (λ d. d ≡ 1) (c ∷ cs) (e ∷ es) (λ d h. ground (arith, h, one))
                some_s,
          ))
      | inr other ↦ elim (Bool-cases (ltb_ℤ (pos 1) (pos g))) [
        | inl far ↦ inr (
            inr (
              inl (
                verdict-skipping g s other far,
                λ i j a b. let d = each_g i j a b in ground (arith, d, far),
              )))
        | inr near ↦ inr (
            inr (
              inr (
                verdict-mixed g s other near,
                SomePair-map (λ d. d ≡ g) (λ d. d ≤ 1) (c ∷ cs) (e ∷ es)
                    (λ d h. ground (arith, h, near)) some_g,
                SomePair-map (λ d. d ≡ s) (λ d. 2 ≤ d) (c ∷ cs) (e ∷ es)
                    (λ d h. ground (arith, h, other, positive)) some_s,
              )))
      ]
    ]
      where
        clash : {b : Bool} → b ≡ false → b ≡ true → ⊥
        clash x y = cc

        positive : 0 < s
        positive = elim (dec_lt 0 s) [
          | yes p ↦ p
          | no p ↦ absurd (
              clash more (
                EachPair-level c e cs es
                  (λ i j a b. let d = each_s i j a b in omega (arith, d, p))))
        ]
