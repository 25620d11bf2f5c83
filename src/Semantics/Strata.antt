-- ===== src/Semantics/Strata.antt =====
-- Strata: the classification of a claim, the gaps of a skip, and the rules of bridges and seams
-- (rules 14, 15, 16 and 22). Occurrents and strata come as maps from identifiers to objects.
pub mod Seams
pub mod Gaps
pub mod Distances
pub mod Measures
pub mod Extremes
pub mod Classes
pub mod Members
pub mod Classifies
pub mod Bridging
pub mod Chains
pub mod Mixes
pub mod Seaming
use causalontology.Prelude.{
  ℕ, suc, ℤ, pos, negsuc, sub64, ltb_ℤ, eqb_ℤ, String, List, [], ◌∷◌, ◌++◌, Bool, true, false,
  Option, none, some, ◌==◌, if◌then◌else◌, ◌&&◌, ◌||◌, not, ltb, length, map, Map, find,
}
use causalontology.Sets.{StringSet, set_add, add_all, to_string_set}
use causalontology.Json.{
  Fields, Floats, at, as_text, as_bool, as_float, string_list, text_at, object_of,
}
use causalontology.Semantics.Windows.{float_at}
use causalontology.Semantics.Conflict.{mechanism_present}
use causalontology.Semantics.Rules.{is_true}

-- stratumOf; `none` where the code answers false
unfoldable pub stratum_of : Map Fields → String → Option String
stratum_of occ_map id = elim (find occ_map id) [
  | none ↦ none
  | some occ ↦ as_text (at occ "stratum")
]

-- the strata of a list of occurrents, `none` where one has none
unfoldable pub strata_of : Map Fields → List String → Option (List String)
strata_of occ_map [] = some []
strata_of occ_map (id ∷ ids) = elim (stratum_of occ_map id) [
  | none ↦ none
  | some s ↦ elim (strata_of occ_map ids) [ none ↦ none | some rest ↦ some (s ∷ rest) ]
]

-- the schemes of a set of strata
unfoldable pub schemes_of : Map Fields → StringSet → StringSet → StringSet
schemes_of stratum_map out [] = out
schemes_of stratum_map out (s ∷ strata) =
    schemes_of stratum_map (set_add out (text_at (object_of stratum_map s) "scheme")) strata

-- ordinalOf
unfoldable pub ordinal_of : Floats → Map Fields → String → ℤ
ordinal_of fl stratum_map s = fl.to_int (float_at fl (object_of stratum_map s) "ordinal")

-- maxInt, on the first number and the others
unfoldable pub max_from : ℤ → List ℤ → ℤ
max_from m [] = m
max_from m (x ∷ xs) = max_from (if ltb_ℤ m x then x else m) xs

-- minInt
unfoldable pub min_from : ℤ → List ℤ → ℤ
min_from m [] = m
min_from m (x ∷ xs) = min_from (if ltb_ℤ x m then x else m) xs

pub data Classification : Type 0 where
  intra_stratal adjacent_stratal skipping mixed unclassifiable scheme_mismatch : Classification

-- `d := i - j; if d < 0 { d = -d }`
unfoldable pub distance : ℤ → ℤ → ℤ
distance i j = let d = sub64 i j in if ltb_ℤ d (pos 0) then sub64 (pos 0) d else d

-- the inner loop over the ordinals of the effects, on (gap, span)
unfoldable pub measure_one : ℤ → ℤ × ℤ → List ℤ → ℤ × ℤ
measure_one i (gap, span) [] = (gap, span)
measure_one i (gap, span) (j ∷ es) =
    let d = distance i j in
    measure_one i
      (if ltb_ℤ gap (pos 0) || ltb_ℤ d gap then d else gap, if ltb_ℤ span d then d else span) es

unfoldable pub measure : List ℤ → List ℤ → ℤ × ℤ → ℤ × ℤ
measure [] es m = m
measure (i ∷ cs) es m = measure cs es (measure_one i m es)

-- the verdict on a gap and a span
unfoldable pub verdict_of : ℤ × ℤ → Classification
verdict_of (gap, span) =
    if eqb_ℤ span (pos 1) then adjacent_stratal else if ltb_ℤ (pos 1) gap then skipping else mixed

-- the end of ClassifyCRO, on the ordinals
unfoldable pub classify_ordinals : List ℤ → List ℤ → Option Classification
classify_ordinals [] es = none
classify_ordinals (c ∷ cs) [] = none
classify_ordinals (c ∷ cs) (e ∷ es) =
    let c_max = max_from c cs in
    let c_min = min_from c cs in
    let e_max = max_from e es in
    let e_min = min_from e es in
    if eqb_ℤ c_max c_min && eqb_ℤ c_min e_max && eqb_ℤ e_max e_min
    then some intra_stratal
    else some (verdict_of (measure (c ∷ cs) (e ∷ es) (negsuc 0, negsuc 0)))

-- ClassifyCRO; `none` is the panic on a claim without causes or effects
unfoldable pub classify_cro : Floats → Fields → Map Fields → Map Fields → Option Classification
classify_cro fl cro occ_map stratum_map = elim (strata_of occ_map (string_list (at cro "causes"))) [
  | none ↦ some unclassifiable
  | some cause_strata ↦ elim (strata_of occ_map (string_list (at cro "effects"))) [
    | none ↦ some unclassifiable
    | some effect_strata ↦
        let all_strata = to_string_set (cause_strata ++ effect_strata) in
        if ltb 1 (length (schemes_of stratum_map [] all_strata))
        then some scheme_mismatch
        else classify_ordinals (map (ordinal_of fl stratum_map) cause_strata)
            (map (ordinal_of fl stratum_map) effect_strata)
  ]
]

-- EndpointsMixed
unfoldable pub endpoints_mixed : Fields → Map Fields → Bool
endpoints_mixed cro occ_map = elim (strata_of occ_map (string_list (at cro "causes"))) [
  | none ↦ false
  | some cause_strata ↦ elim (strata_of occ_map (string_list (at cro "effects"))) [
    | none ↦ false
    | some effect_strata ↦
        ltb 1 (length (to_string_set cause_strata)) || ltb 1 (length (to_string_set effect_strata))
  ]
]

unfoldable pub is_skipping : Classification → Bool
is_skipping skipping = true
is_skipping _ = false

unfoldable pub is_unclassifiable : Classification → Bool
is_unclassifiable unclassifiable = true
is_unclassifiable _ = false

pub data SkipGap : Type 0 where
  contradictory_skip vacuous_skip incomplete_mechanism : SkipGap

-- SkipGaps
unfoldable pub skip_gaps : Fields → Classification → List SkipGap
skip_gaps cro classification =
    let skips_true = is_true (as_bool (at cro "skips")) in
    let has_mech = mechanism_present cro in
    if skips_true && has_mech
    then contradictory_skip ∷ []
    else (if skips_true
          && not (is_skipping classification)
          && not (is_unclassifiable classification)
        then vacuous_skip ∷ []
        else [])
      ++ (if is_skipping classification && not has_mech && not skips_true
          then incomplete_mechanism ∷ []
          else [])
