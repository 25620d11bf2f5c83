-- ===== src/Tests/Seams.antt =====
-- The classification of a claim, and the rules of bridges and seams, on small objects: occurrents at
-- the ordinals 0, 3 and 5 of one scheme.
use causalontology.Prelude.{
  ℕ, sub64, pos, String, [], ◌∷◌, true, some, ◌==◌, ◌≤◌, ◌⊎◌, ◌≡◌, ◌≢◌, ◌↔◌, inl, inr, refl, sym,
  arith, Map, find, subst, Bool-cases,
}
use causalontology.Json.{
  Value, str, int, arr, nil, cons, Fields, end, field, at, get, as_text, as_list, string_list,
  strings_of, text_at, object_of, float_value,
}
use causalontology.Semantics.Windows.{float_at}
use causalontology.Semantics.Strata.{Classification, classify_cro, stratum_of, ordinal_of, distance}
use causalontology.Semantics.Strata.Distances.{IsSmall}
use causalontology.Semantics.Strata.Classifies.{
  causes_of, effects_of, ClassifiedCro, classify_cro_lem,
}
use causalontology.Semantics.Strata.Bridging.{IsBridge, bridge_wellformed_iff}
use causalontology.Semantics.Strata.Seaming.{IsSeam, seam_wellformed_iff}
use causalontology.Semantics.Strata.Seams.{
  bridge_wellformed, seam_wellformed, seam_fault, drawn_fault, chain_ordinals, chain_fault,
  all_between,
}
use causalontology.Semantics.Rules.{is_null}
use causalontology.Semantics.Strata.{endpoints_mixed, strata_of}
use causalontology.Semantics.Strata.Seams.{seam_home}
use causalontology.Semantics.Strata.Mixes.{
  Differs, endpoints_mixed_iff, ComparesFinite, IsHome, seam_home-IsHome,
}
use causalontology.Prelude.{leb}
use causalontology.Tests.Doubles.{floats}

abbrev texts : String → Value
texts s = arr (cons (str s) nil)

abbrev occurrent : String → Fields
occurrent s = field "stratum" (str s) end

abbrev occurrents : Map Fields
occurrents = ("a", occurrent "s0") ∷ ("b", occurrent "s3") ∷ ("c", occurrent "s5") ∷ []

abbrev stratum : ℕ → Fields
stratum n = field "scheme" (str "scale") (field "ordinal" (int (pos n)) end)

abbrev strata : Map Fields
strata = ("s0", stratum 0) ∷ ("s3", stratum 3) ∷ ("s5", stratum 5) ∷ []

strata-cases :
    (s : String)
    → (object_of strata s ≡ end) ⊎ ((n : ℕ) × (object_of strata s ≡ stratum n) × (n ≤ 5))
unfolding object_of find
strata-cases s = elim (Bool-cases ("s0" == s)) [
  | inl a ↦ inr (0, ground (arith, a), omega arith)
  | inr a ↦ elim (Bool-cases ("s3" == s)) [
    | inl b ↦ inr (3, ground (arith, a, b), omega arith)
    | inr b ↦ elim (Bool-cases ("s5" == s)) [
      | inl c ↦ inr (5, ground (arith, a, b, c), omega arith)
      | inr c ↦ inl (ground (arith, a, b, c))
    ]
  ]
]

abbrev SmallOrdinal : Fields → Type 0
SmallOrdinal m = IsSmall (pos (float_at floats m "ordinal"))

end-SmallOrdinal : SmallOrdinal end
unfolding float_at float_value at get
end-SmallOrdinal = (omega arith, omega arith)

stratum-SmallOrdinal : (n : ℕ) → n ≤ 5 → SmallOrdinal (stratum n)
unfolding float_at float_value at get
stratum-SmallOrdinal n h = (omega arith, omega arith)

ordinal_of-IsSmall : (s : String) → IsSmall (ordinal_of floats strata s)
unfolding ordinal_of
ordinal_of-IsSmall s = elim (strata-cases s) [
  | inl e ↦ subst SmallOrdinal (sym e) end-SmallOrdinal
  | inr (n, e, h) ↦ subst SmallOrdinal (sym e) (stratum-SmallOrdinal n h)
]

abbrev claim : Fields
claim = field "causes" (texts "a") (field "effects" (texts "c") end)

full_causes : causes_of claim ≢ []
unfolding string_list strings_of at get as_list
full_causes h = cc

full_effects : effects_of claim ≢ []
unfolding string_list strings_of at get as_list
full_effects h = cc

classify_cro_lem_example :
    (k : Classification) × (classify_cro floats claim occurrents strata ≡ some k)
    × ClassifiedCro floats claim occurrents strata k
classify_cro_lem_example =
    classify_cro_lem floats occurrents strata claim full_causes full_effects
      (λ id s i e. ordinal_of-IsSmall s) (λ id s i e. ordinal_of-IsSmall s)

abbrev bridge : Fields
bridge = field "coarse" (str "c") (field "fine" (texts "b") end)

bridge_wellformed_iff_example :
    ((bridge_wellformed floats bridge occurrents strata).0 ≡ true)
    ↔ IsBridge floats bridge occurrents strata
bridge_wellformed_iff_example = bridge_wellformed_iff floats bridge occurrents strata

abbrev seam : Fields
seam = field "source" (str "a") (
    field "target" (str "c")
      (field "chain" (texts "b") (field "mechanism_status" (str "unmodeled") end)))

declared : text_at seam "mechanism_status" ≡ "unmodeled"
unfolding text_at at get as_text
declared = refl

seam_wellformed_iff_example :
    ((seam_wellformed floats seam occurrents strata).0 ≡ true)
    ↔ IsSeam floats seam occurrents strata
seam_wellformed_iff_example =
    seam_wellformed_iff floats seam occurrents strata (inl declared)
      (λ id s i e. ordinal_of-IsSmall s)

-- The chain of this seam goes from the ordinal 0 over 3 to 5: it is accepted, though it passes over
-- strata.
drawn_with_gaps :
    seam_wellformed floats seam occurrents strata ≡ (true, "well-formed cross_stratal_seam")
unfolding seam_wellformed seam_fault drawn_fault chain_ordinals chain_fault all_between stratum_of
    ordinal_of find float_at float_value at get text_at as_text string_list strings_of as_list
    object_of distance is_null sub64
drawn_with_gaps = refl

claim_causes : strata_of occurrents (causes_of claim) ≡ some ("s0" ∷ [])
unfolding strata_of stratum_of find at get as_text string_list strings_of as_list
claim_causes = refl

claim_effects : strata_of occurrents (effects_of claim) ≡ some ("s5" ∷ [])
unfolding strata_of stratum_of find at get as_text string_list strings_of as_list
claim_effects = refl

endpoints_mixed_iff_example :
    (endpoints_mixed claim occurrents ≡ true) ↔ (Differs ("s0" ∷ []) ⊎ Differs ("s5" ∷ []))
endpoints_mixed_iff_example =
    endpoints_mixed_iff claim occurrents ("s0" ∷ []) ("s5" ∷ []) claim_causes claim_effects

source_stratum : stratum_of occurrents (text_at seam "source") ≡ some "s0"
unfolding stratum_of find text_at at get as_text
source_stratum = refl

target_stratum : stratum_of occurrents (text_at seam "target") ≡ some "s5"
unfolding stratum_of find text_at at get as_text
target_stratum = refl

floats-ComparesFinite : ComparesFinite floats
floats-ComparesFinite a b fa fb = elim (Bool-cases (leb a b)) [
  | inl h ↦ inl h
  | inr h ↦ inr (ground arith)
]

seam_home-IsHome_example : IsHome floats strata "s0" "s5" (seam_home floats seam occurrents strata)
seam_home-IsHome_example =
    seam_home-IsHome floats seam occurrents strata "s0" "s5" floats-ComparesFinite refl refl
      source_stratum target_stratum
