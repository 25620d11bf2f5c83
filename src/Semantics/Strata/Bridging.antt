-- ===== src/Semantics/Strata/Bridging.antt =====
-- Rule 14: what BridgeWellformed accepts.
use causalontology.Prelude.{
  String, List, [], ◌∷◌, true, none, some, ◌==◌, eq_iff, ◌≡◌, ◌≢◌, ◌↔◌, inl, inr, refl, sym, ◌∙◌,
  arith, Map, Option-cases, Bool-cases, subst, ap, eqb, length,
}
use mathlib.Core.Option.{some-injective}
use causalontology.Sets.{contains_string, StringSet, to_string_set, add_all}
use causalontology.Sets.Laws.{contains-to_string_set, IsUnique, to_string_set-IsUnique}
use causalontology.Sets.Sizes.{two_members, one_member}
use causalontology.Json.{Fields, Floats, at, string_list, text_at, object_of}
use causalontology.Semantics.Windows.{float_at}
use causalontology.Semantics.Strata.{stratum_of, strata_of}
use causalontology.Semantics.Strata.Members.{
  strata_of-cons, strata_of-full, strata_of-parts, strata_of-known, scheme_of,
}
use causalontology.Semantics.Strata.Seams.{first_of, bridge_fault, bridge_wellformed}

-- All occurrents of the list are in the stratum.
abbrev pub AllIn : Map Fields → List String → String → Type 0
AllIn occ_map ids s = (id : String) → contains_string ids id ≡ true → stratum_of occ_map id ≡ some s

-- Rule 14: a coarse occurrent at a stratum, and fine ones at one other stratum of the same scheme,
-- of a lesser ordinal.
abbrev pub IsBridge : Floats → Fields → Map Fields → Map Fields → Type 0
IsBridge fl bridge occ_map stratum_map =
    (cs : String) × (fs : String) × (stratum_of occ_map (text_at bridge "coarse") ≡ some cs)
    × (string_list (at bridge "fine") ≢ [])
    × AllIn occ_map (string_list (at bridge "fine")) fs
    × (scheme_of stratum_map cs ≡ scheme_of stratum_map fs)
    × (fl.lt (float_at fl (object_of stratum_map fs) "ordinal")
          (float_at fl (object_of stratum_map cs) "ordinal")
        ≡ true)

-- A list whose members are all the same one, as a set.
one_of_set :
    (xs : List String)
    → eqb (length (to_string_set xs)) 1 ≡ true
    → (x y : String) → contains_string xs x ≡ true
    → contains_string xs y ≡ true
    → x ≡ y
one_of_set xs h x y i j =
    one_member (to_string_set xs) x y (ground arith) (contains-to_string_set xs x ∙ i)
      (contains-to_string_set xs y ∙ j)

same-one :
    (x : String) (xs : List String)
    → ((y : String) → contains_string (x ∷ xs) y ≡ true → y ≡ x)
    → eqb (length (to_string_set (x ∷ xs))) 1 ≡ true
same-one x xs h =
    one (to_string_set (x ∷ xs)) (to_string_set-IsUnique (x ∷ xs))
      (λ y i. h y (sym (contains-to_string_set (x ∷ xs) y) ∙ i))
      (contains-to_string_set (x ∷ xs) x ∙ unfold contains_string in ground (arith, eq_iff x x))
  where
    one :
        (ys : StringSet)
        → IsUnique ys
        → ((y : String) → contains_string ys y ≡ true → y ≡ x)
        → contains_string ys x ≡ true
        → eqb (length ys) 1 ≡ true
    one [] u s m = absurd (unfold contains_string in cc)
    one (y ∷ []) u s m = ground arith
    one (y ∷ z ∷ ys) u s m =
        let (a, b, i, j, n) = two_members (y ∷ z ∷ ys) u (ground arith) in
        absurd (n (s a i ∙ sym (s b j)))

none_one : eqb (length (to_string_set [])) 1 ≡ true → ⊥
unfolding to_string_set add_all
none_one k = cc

module _ (occ_map : Map Fields) where
  AllIn-strata_of :
      (ids : List String) (s : String)
      → AllIn occ_map ids s
      → (ss : List String) × (strata_of occ_map ids ≡ some ss)
        × ((y : String) → contains_string ss y ≡ true → y ≡ s)
  unfolding strata_of contains_string
  AllIn-strata_of [] s h = ([], refl, λ y i. absurd (cc))
  AllIn-strata_of (x ∷ ids) s h =
      let (ss, e, one) = AllIn-strata_of ids s (λ id i. h id (ground (arith, i))) in
      (
        s ∷ ss,
        strata_of-cons occ_map x ids s ss (h x (ground (arith, eq_iff x x))) e,
        λ y i. elim (Bool-cases (s == y)) [
          | inl same ↦ sym ((eq_iff s y).0 same)
          | inr other ↦ one y (ground (arith, i, other))
        ],
      )

  -- A list that is in one stratum, by the test of the code.
  strata_of-AllIn :
      (ids ss : List String)
      → strata_of occ_map ids ≡ some ss
      → eqb (length (to_string_set ss)) 1 ≡ true
      → (ids ≢ []) × AllIn occ_map ids (first_of ss)
  unfolding strata_of first_of
  strata_of-AllIn [] ss e h = absurd (
      none_one
        (subst (λ z. eqb (length (to_string_set z)) 1 ≡ true) (some-injective _ _ (sym e)) h))
  strata_of-AllIn (x ∷ ids) ss e h =
      let (s, rest, a, r, p) = strata_of-parts occ_map x ids ss e in
      (
        λ n. cc,
        λ id i.
            let (t, b, m) = strata_of-known occ_map (x ∷ ids) ss id e i in
            b
            ∙ ap some (
                one_of_set ss h t (first_of ss) m
                  (rw p (unfold contains_string in ground (arith, eq_iff s s)))),
      )

  AllIn-one :
      (ids : List String) (s : String)
      → ids ≢ []
      → AllIn occ_map ids s
      → (ss : List String) × (strata_of occ_map ids ≡ some ss)
        × (eqb (length (to_string_set ss)) 1 ≡ true)
        × (first_of ss ≡ s)
  unfolding first_of
  AllIn-one ids s n h =
      let (ss, e, one) = AllIn-strata_of ids s h in
      full ss one (strata_of-full occ_map ids ss e n) e
    where
      full :
          (ss : List String)
          → ((y : String) → contains_string ss y ≡ true → y ≡ s)
          → ((t : String) × (rest : List String) × (ss ≡ t ∷ rest))
          → strata_of occ_map ids ≡ some ss
          → (ss : List String) × (strata_of occ_map ids ≡ some ss)
            × (eqb (length (to_string_set ss)) 1 ≡ true)
            × (first_of ss ≡ s)
      full [] one (t, rest, p) e = absurd (cc)
      full (t ∷ rest) one p e =
          let head = one t (unfold contains_string in ground (arith, eq_iff t t)) in
          (t ∷ rest, e, same-one t rest (λ y i. one y i ∙ sym head), head)

module _ (fl : Floats) (bridge : Fields) (occ_map stratum_map : Map Fields) where
  bridge_fault_sound :
      bridge_fault fl bridge occ_map stratum_map ≡ none → IsBridge fl bridge occ_map stratum_map
  unfolding bridge_fault
  bridge_fault_sound h = elim (Option-cases (stratum_of occ_map (text_at bridge "coarse"))) [
    | inl a ↦ absurd (ground (arith, a))
    | inr (cs, a) ↦ elim (Option-cases (strata_of occ_map (string_list (at bridge "fine")))) [
      | inl b ↦ absurd (ground (arith, a, b))
      | inr (ss, b) ↦
          let (n, all_in) =
            strata_of-AllIn occ_map (string_list (at bridge "fine")) ss b (ground (arith, a, b)) in
          (
            cs,
            first_of ss,
            a,
            n,
            all_in,
            (eq_iff (scheme_of stratum_map cs) (scheme_of stratum_map (first_of ss))).0
                (ground (arith, a, b)),
            ground (arith, a, b),
          )
    ]
  ]

  bridge_fault_complete :
      IsBridge fl bridge occ_map stratum_map → bridge_fault fl bridge occ_map stratum_map ≡ none
  unfolding bridge_fault
  bridge_fault_complete (cs, fs, a, n, all_in, same, less) =
      let (ss, b, one, first) = AllIn-one occ_map (string_list (at bridge "fine")) fs n all_in in
      rw (a, b, bridge_fault)
        (rw first (
          let e = (eq_iff (scheme_of stratum_map cs) (scheme_of stratum_map fs)).1 same in
          ground (arith, one, e, less)))

-- BridgeWellformed answers true exactly when the coarse occurrent has a stratum, there are fine
-- occurrents, all in one stratum, both strata have the same scheme, and the ordinal of the fine one
-- is the lesser.
pub bridge_wellformed_iff :
    (fl : Floats) (bridge : Fields) (occ_map stratum_map : Map Fields)
    → ((bridge_wellformed fl bridge occ_map stratum_map).0 ≡ true)
      ↔ IsBridge fl bridge occ_map stratum_map
unfolding bridge_wellformed
bridge_wellformed_iff fl bridge occ_map stratum_map =
    elim (Option-cases (bridge_fault fl bridge occ_map stratum_map)) [
      | inl e ↦
          rw (e, bridge_wellformed)
            (λ _. bridge_fault_sound fl bridge occ_map stratum_map e, λ _. refl)
      | inr (fault, e) ↦
          rw (e, bridge_wellformed)
            (
              λ h. absurd (cc),
              λ w. let n = bridge_fault_complete fl bridge occ_map stratum_map w in absurd (cc),
            )
    ]
