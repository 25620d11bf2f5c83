-- ===== src/Semantics/Strata/Members.antt =====
-- The strata of a list of occurrents, and the schemes of a list of strata.
use causalontology.Prelude.{
  String, List, [], ◌∷◌, true, none, some, ◌==◌, eq_iff, ◌≡◌, ◌≢◌, ◌⊎◌, inl, inr, refl, subst,
  arith, Map, Option-cases, Bool-cases,
}
use causalontology.Sets.{contains_string, StringSet, set_add}
use causalontology.Sets.Laws.{IsUnique, contains-set_add, set_add-IsUnique}
use causalontology.Json.{Fields, text_at, object_of}
use causalontology.Semantics.Strata.{stratum_of, strata_of, schemes_of}

module _ (occ_map : Map Fields) where
  pub strata_of-cons :
      (id : String) (ids : List String) (s : String) (rest : List String)
      → stratum_of occ_map id ≡ some s
      → strata_of occ_map ids ≡ some rest
      → strata_of occ_map (id ∷ ids) ≡ some (s ∷ rest)
  unfolding strata_of
  strata_of-cons id ids s rest e r = rw (e, strata_of) (rw r)

  -- A list whose strata are known: its head has a stratum, and so has its tail.
  pub strata_of-parts :
      (id : String) (ids ss : List String)
      → strata_of occ_map (id ∷ ids) ≡ some ss
      → (s : String) × (rest : List String) × (stratum_of occ_map id ≡ some s)
        × (strata_of occ_map ids ≡ some rest)
        × (ss ≡ s ∷ rest)
  unfolding strata_of
  strata_of-parts id ids ss h = elim (Option-cases (stratum_of occ_map id)) [
    | inl e ↦ absurd (ground (arith, e))
    | inr (s, e) ↦ elim (Option-cases (strata_of occ_map ids)) [
      | inl r ↦ absurd (ground (arith, e, r))
      | inr (rest, r) ↦ (s, rest, e, r, ground (arith, e, r))
    ]
  ]

  pub strata_of-full :
      (ids ss : List String)
      → strata_of occ_map ids ≡ some ss
      → ids ≢ []
      → (s : String) × (rest : List String) × (ss ≡ s ∷ rest)
  strata_of-full [] ss h n = absurd (n refl)
  strata_of-full (x ∷ ids) ss h n =
      let (s, rest, e, r, p) = strata_of-parts x ids ss h in (s, rest, p)

  pub strata_of-known :
      (ids ss : List String) (id : String)
      → strata_of occ_map ids ≡ some ss
      → contains_string ids id ≡ true
      → (s : String) × (stratum_of occ_map id ≡ some s) × (contains_string ss s ≡ true)
  unfolding contains_string
  strata_of-known [] ss id h i = absurd (ground arith)
  strata_of-known (x ∷ ids) ss id h i =
      let (s, rest, e, r, p) = strata_of-parts x ids ss h in
      elim (Bool-cases (x == id)) [
        | inl same ↦ (
          s,
          subst (λ z. stratum_of occ_map z ≡ some s) ((eq_iff x id).0 same) e,
          rw p (ground (arith, eq_iff s s)),
        )
        | inr other ↦
            let (t, f, m) = strata_of-known ids rest id r (ground arith) in
            (t, f, rw p (ground (arith, m)))
      ]

  pub strata_of-origin :
      (ids ss : List String) (s : String)
      → strata_of occ_map ids ≡ some ss
      → contains_string ss s ≡ true
      → (id : String) × (contains_string ids id ≡ true) × (stratum_of occ_map id ≡ some s)
  unfolding contains_string strata_of
  strata_of-origin [] ss s h i = absurd (ground arith)
  strata_of-origin (x ∷ ids) ss s h i =
      let (t, rest, e, r, p) = strata_of-parts x ids ss h in
      elim (Bool-cases (t == s)) [
        | inl same ↦ (
          x,
          ground (arith, eq_iff x x),
          subst (λ z. stratum_of occ_map x ≡ some z) ((eq_iff t s).0 same) e,
        )
        | inr other ↦
            let (id, m, f) = strata_of-origin ids rest s r (ground (arith, p)) in
            (id, ground (arith, m), f)
      ]

  pub strata_of-unknown :
      (ids : List String)
      → strata_of occ_map ids ≡ none
      → (id : String) × (contains_string ids id ≡ true) × (stratum_of occ_map id ≡ none)
  unfolding contains_string strata_of
  strata_of-unknown [] h = absurd (cc)
  strata_of-unknown (x ∷ ids) h = elim (Option-cases (stratum_of occ_map x)) [
    | inl e ↦ (x, ground (arith, eq_iff x x), e)
    | inr (s, e) ↦
        let (id, m, f) = strata_of-unknown ids (ground (arith, e)) in (id, ground (arith, m), f)
  ]

module _ (stratum_map : Map Fields) where
  abbrev pub scheme_of : String → String
  scheme_of s = text_at (object_of stratum_map s) "scheme"

  pub schemes_of-more :
      (out : StringSet) (ss : List String) (x : String)
      → contains_string out x ≡ true
      → contains_string (schemes_of stratum_map out ss) x ≡ true
  unfolding schemes_of
  schemes_of-more out [] x h = h
  schemes_of-more out (s ∷ ss) x h =
      schemes_of-more (set_add out (scheme_of s)) ss x
        (ground (arith, contains-set_add out (scheme_of s) x))

  pub schemes_of-has :
      (out : StringSet) (ss : List String) (s : String)
      → contains_string ss s ≡ true
      → contains_string (schemes_of stratum_map out ss) (scheme_of s) ≡ true
  unfolding schemes_of contains_string
  schemes_of-has out [] s h = absurd (ground arith)
  schemes_of-has out (t ∷ ss) s h = elim (Bool-cases (t == s)) [
    | inl same ↦ schemes_of-more (set_add out (scheme_of t)) ss (scheme_of s) (
        subst (λ z. contains_string (set_add out (scheme_of t)) (scheme_of z) ≡ true)
          ((eq_iff t s).0 same)
          (ground (
            arith,
            contains-set_add out (scheme_of t) (scheme_of t),
            eq_iff (scheme_of t) (scheme_of t),
          )))
    | inr other ↦ schemes_of-has (set_add out (scheme_of t)) ss s (ground arith)
  ]

  pub schemes_of-origin :
      (out : StringSet) (ss : List String) (x : String)
      → contains_string (schemes_of stratum_map out ss) x ≡ true
      → (contains_string out x ≡ true)
        ⊎ ((s : String) × (contains_string ss s ≡ true) × (scheme_of s ≡ x))
  unfolding schemes_of contains_string
  schemes_of-origin out [] x h = inl h
  schemes_of-origin out (t ∷ ss) x h = elim (schemes_of-origin (set_add out (scheme_of t)) ss x h) [
    | inr (s, m, e) ↦ inr (s, ground (arith, m), e)
    | inl m ↦ elim (Bool-cases (scheme_of t == x)) [
      | inl same ↦ inr (t, ground (arith, eq_iff t t), (eq_iff (scheme_of t) x).0 same)
      | inr other ↦ inl (ground (arith, contains-set_add out (scheme_of t) x))
    ]
  ]

  pub schemes_of-IsUnique :
      (out : StringSet) (ss : List String) → IsUnique out → IsUnique (schemes_of stratum_map out ss)
  unfolding schemes_of
  schemes_of-IsUnique out [] u = u
  schemes_of-IsUnique out (s ∷ ss) u =
      schemes_of-IsUnique (set_add out (scheme_of s)) ss (set_add-IsUnique out (scheme_of s) u)
