-- ===== src/Semantics/Strata/Classifies.antt =====
-- ClassifyCRO as a whole, in terms of the strata of causes and effects.
use causalontology.Prelude.{
  String, List, [], ◌∷◌, ◌++◌, true, false, none, some, eq_iff, ◌≡◌, ◌≢◌, ◌⊎◌, inl, inr, refl, sym,
  ◌∙◌, subst, arith, Map, Option-cases, Bool-cases, if◌then◌else◌, ltb, length, map, ℤ,
}
use mathlib.Core.Option.{some-injective}
use causalontology.Sets.{contains_string, StringSet, to_string_set}
use causalontology.Sets.Laws.{contains-to_string_set}
use causalontology.Sets.Sizes.{two_members, one_member}
use causalontology.Json.{Fields, Floats, at, string_list}
use causalontology.Store.Cycles.Trails.{In}
use causalontology.Semantics.Strata.{
  Classification, unclassifiable, scheme_mismatch, stratum_of, strata_of, schemes_of, ordinal_of,
  classify_ordinals, classify_cro,
}
use causalontology.Semantics.Strata.Distances.{IsSmall}
use causalontology.Semantics.Strata.Classes.{Classified, classify_ordinals-Classified}
use causalontology.Semantics.Strata.Members.{
  strata_of-parts, strata_of-full, strata_of-unknown, scheme_of, schemes_of-has, schemes_of-origin,
  schemes_of-IsUnique,
}

abbrev pub causes_of : Fields → List String
causes_of cro = string_list (at cro "causes")

abbrev pub effects_of : Fields → List String
effects_of cro = string_list (at cro "effects")

-- An occurrent of the list has no stratum.
abbrev pub Unstratified : Map Fields → List String → Type 0
Unstratified occ_map ids =
    (id : String) × (contains_string ids id ≡ true) × (stratum_of occ_map id ≡ none)

-- Two strata of the list differ in scheme.
abbrev pub Mismatched : Map Fields → List String → Type 0
Mismatched stratum_map ss =
    (s : String) × (t : String) × (contains_string ss s ≡ true)
    × (contains_string ss t ≡ true)
    × (scheme_of stratum_map s ≢ scheme_of stratum_map t)

-- All strata of the list have the same scheme.
abbrev pub OneScheme : Map Fields → List String → Type 0
OneScheme stratum_map ss =
    (s t : String)
    → contains_string ss s ≡ true
    → contains_string ss t ≡ true
    → scheme_of stratum_map s ≡ scheme_of stratum_map t

abbrev pub ordinals_of : Floats → Map Fields → List String → List ℤ
ordinals_of fl stratum_map ss = map (ordinal_of fl stratum_map) ss

-- The class that the rules 14 and 15 give a claim.
abbrev pub ClassifiedCro : Floats → Fields → Map Fields → Map Fields → Classification → Type 0
ClassifiedCro fl cro occ_map stratum_map k =
    ((k ≡ unclassifiable)
      × (Unstratified occ_map (causes_of cro) ⊎ Unstratified occ_map (effects_of cro)))
    ⊎ ((cs : List String) × (es : List String) × (strata_of occ_map (causes_of cro) ≡ some cs)
        × (strata_of occ_map (effects_of cro) ≡ some es)
        × (((k ≡ scheme_mismatch) × Mismatched stratum_map (cs ++ es))
            ⊎ (OneScheme stratum_map (cs ++ es)
                × Classified (ordinals_of fl stratum_map cs) (ordinals_of fl stratum_map es) k)))

module _ (stratum_map : Map Fields) (ss : List String) where
  abbrev all_schemes : StringSet
  all_schemes = schemes_of stratum_map [] (to_string_set ss)

  scheme-contains :
      (s : String)
      → contains_string ss s ≡ true
      → contains_string all_schemes (scheme_of stratum_map s) ≡ true
  scheme-contains s m =
      schemes_of-has stratum_map [] (to_string_set ss) s (contains-to_string_set ss s ∙ m)

  scheme-origin :
      (x : String)
      → contains_string all_schemes x ≡ true
      → (s : String) × (contains_string ss s ≡ true) × (scheme_of stratum_map s ≡ x)
  scheme-origin x m = elim (schemes_of-origin stratum_map [] (to_string_set ss) x m) [
    | inl n ↦ absurd (unfold contains_string in cc)
    | inr (s, i, e) ↦ (s, sym (contains-to_string_set ss s) ∙ i, e)
  ]

  many_schemes-Mismatched : ltb 1 (length all_schemes) ≡ true → Mismatched stratum_map ss
  many_schemes-Mismatched h =
      let unique = schemes_of-IsUnique stratum_map [] (to_string_set ss) tt in
      let (x, y, i, j, n) = two_members all_schemes unique h in
      let (s, a, e) = scheme-origin x i in
      let (t, b, f) = scheme-origin y j in (s, t, a, b, λ same. n (sym e ∙ same ∙ f))

  few_schemes-OneScheme : ltb 1 (length all_schemes) ≡ false → OneScheme stratum_map ss
  few_schemes-OneScheme h s t i j =
      one_member all_schemes (scheme_of stratum_map s) (scheme_of stratum_map t) h
        (scheme-contains s i) (scheme-contains t j)

module _ (fl : Floats) (occ_map stratum_map : Map Fields) where
  -- The strata of the occurrents have small ordinals.
  abbrev pub SmallOrdinals : List String → Type 0
  SmallOrdinals ids =
      (id s : String)
      → contains_string ids id ≡ true
      → stratum_of occ_map id ≡ some s
      → IsSmall (ordinal_of fl stratum_map s)

  pub small_ordinals :
      (ids ss : List String)
      → strata_of occ_map ids ≡ some ss
      → SmallOrdinals ids
      → (i : ℤ) → In i (ordinals_of fl stratum_map ss)
      → IsSmall i
  unfolding strata_of contains_string
  small_ordinals [] ss h small i m =
      absurd (subst (λ z. In i (ordinals_of fl stratum_map z)) (some-injective _ _ (sym h)) m)
  small_ordinals (x ∷ ids) ss h small i m =
      let (s, rest, e, r, p) = strata_of-parts occ_map x ids ss h in
      elim (subst (λ z. In i (ordinals_of fl stratum_map z)) p m) [
        | inl here ↦ subst IsSmall here (small x s (ground (arith, eq_iff x x)) e)
        | inr later ↦
            small_ordinals ids rest r (λ id t a b. small id t (ground (arith, a)) b) i later
      ]

  ordinals-Classified :
      (cs es : List String)
      → ((s : String) × (rest : List String) × (cs ≡ s ∷ rest))
      → ((s : String) × (rest : List String) × (es ≡ s ∷ rest))
      → ((i : ℤ) → In i (ordinals_of fl stratum_map cs) → IsSmall i)
      → ((j : ℤ) → In j (ordinals_of fl stratum_map es) → IsSmall j)
      → (k : Classification) × (classify_ordinals
            (ordinals_of fl stratum_map cs)
            (ordinals_of fl stratum_map es)
          ≡ some k)
        × Classified (ordinals_of fl stratum_map cs) (ordinals_of fl stratum_map es) k
  ordinals-Classified [] es (s, rest, e) full a b = absurd (cc)
  ordinals-Classified (c ∷ cs) [] full (s, rest, e) a b = absurd (cc)
  ordinals-Classified (c ∷ cs) (e ∷ es) p q a b =
      classify_ordinals-Classified (ordinal_of fl stratum_map c) (ordinal_of fl stratum_map e)
        (ordinals_of fl stratum_map cs) (ordinals_of fl stratum_map es) a b

  classify_cro-known :
      (cro : Fields) (cs es : List String)
      → strata_of occ_map (causes_of cro) ≡ some cs
      → strata_of occ_map (effects_of cro) ≡ some es
      → classify_cro fl cro occ_map stratum_map ≡ (
          if ltb 1 (length (all_schemes stratum_map (cs ++ es)))
          then some scheme_mismatch
          else classify_ordinals (ordinals_of fl stratum_map cs) (ordinals_of fl stratum_map es))
  unfolding classify_cro
  classify_cro-known cro cs es p q = rw (p, q, classify_cro) refl

  classify_cro-unknown :
      (cro : Fields)
      → (strata_of occ_map (causes_of cro) ≡ none) ⊎ (strata_of occ_map (effects_of cro) ≡ none)
      → classify_cro fl cro occ_map stratum_map ≡ some unclassifiable
  unfolding classify_cro
  classify_cro-unknown cro (inl p) = rw (p, classify_cro) refl
  classify_cro-unknown cro (inr q) = elim (Option-cases (strata_of occ_map (causes_of cro))) [
    | inl p ↦ rw (p, classify_cro) refl
    | inr (cs, p) ↦ rw (p, q, classify_cro) refl
  ]

  -- ClassifyCRO returns a class for a claim with causes and effects whose strata have small
  -- ordinals: unclassifiable where an endpoint has no stratum; scheme_mismatch where two strata
  -- differ in scheme; else the class of the distances between the ordinals of causes and effects.
  pub classify_cro_lem :
      (cro : Fields)
      → causes_of cro ≢ []
      → effects_of cro ≢ []
      → SmallOrdinals (causes_of cro)
      → SmallOrdinals (effects_of cro)
      → (k : Classification) × (classify_cro fl cro occ_map stratum_map ≡ some k)
        × ClassifiedCro fl cro occ_map stratum_map k
  classify_cro_lem cro c e sc se = elim (Option-cases (strata_of occ_map (causes_of cro))) [
    | inl p ↦ (
      unclassifiable,
      classify_cro-unknown cro (inl p),
      inl (refl, inl (strata_of-unknown occ_map (causes_of cro) p)),
    )
    | inr (cs, p) ↦ elim (Option-cases (strata_of occ_map (effects_of cro))) [
      | inl q ↦ (
        unclassifiable,
        classify_cro-unknown cro (inr q),
        inl (refl, inr (strata_of-unknown occ_map (effects_of cro) q)),
      )
      | inr (es, q) ↦
          let run = classify_cro-known cro cs es p q in
          elim (Bool-cases (ltb 1 (length (all_schemes stratum_map (cs ++ es))))) [
            | inl many ↦ (
              scheme_mismatch,
              run ∙ rw many refl,
              inr (cs, es, p, q, inl (refl, many_schemes-Mismatched stratum_map (cs ++ es) many)),
            )
            | inr few ↦
                let (k, r, j) =
                  ordinals-Classified cs es (strata_of-full occ_map (causes_of cro) cs p c)
                    (strata_of-full occ_map (effects_of cro) es q e)
                    (small_ordinals (causes_of cro) cs p sc)
                    (small_ordinals (effects_of cro) es q se) in
                (
                  k,
                  run ∙ rw few r,
                  inr (cs, es, p, q, inr (few_schemes-OneScheme stratum_map (cs ++ es) few, j)),
                )
          ]
    ]
  ]
