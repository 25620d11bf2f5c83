-- ===== src/Semantics/Strata/Mixes.antt =====
-- EndpointsMixed and SeamHome.
use causalontology.Prelude.{
  String, List, true, false, some, ◌≡◌, ◌≢◌, ◌↔◌, ◌⊎◌, inl, inr, refl, sym, ◌∙◌, arith, Map,
  Bool-cases, ltb, length,
}
use causalontology.Sets.{contains_string, to_string_set}
use causalontology.Sets.Laws.{contains-to_string_set, to_string_set-IsUnique}
use causalontology.Sets.Sizes.{two_members, one_member}
use causalontology.Json.{Fields, Float, Floats, text_at, object_of}
use causalontology.Semantics.Windows.{float_at}
use causalontology.Semantics.Strata.{stratum_of, strata_of, endpoints_mixed}
use causalontology.Semantics.Strata.Classifies.{causes_of, effects_of}
use causalontology.Semantics.Strata.Seams.{seam_home}

-- Two members of the list differ.
abbrev pub Differs : List String → Type 0
Differs ss =
    (s : String) × (t : String) × (contains_string ss s ≡ true)
    × (contains_string ss t ≡ true)
    × (s ≢ t)

many_iff : (ss : List String) → (ltb 1 (length (to_string_set ss)) ≡ true) ↔ Differs ss
many_iff ss = (
  λ h.
      let (s, t, i, j, n) = two_members (to_string_set ss) (to_string_set-IsUnique ss) h in
      (s, t, sym (contains-to_string_set ss s) ∙ i, sym (contains-to_string_set ss t) ∙ j, n),
  λ (s, t, i, j, n). elim (Bool-cases (ltb 1 (length (to_string_set ss)))) [
    | inl many ↦ many
    | inr few ↦ absurd (
        n (
          one_member (to_string_set ss) s t few (contains-to_string_set ss s ∙ i)
            (contains-to_string_set ss t ∙ j)))
  ],
)

-- EndpointsMixed answers true, for a claim whose causes and effects all have strata, exactly when two
-- causes are in different strata, or two effects are.
pub endpoints_mixed_iff :
    (cro : Fields) (occ_map : Map Fields) (cs es : List String)
    → strata_of occ_map (causes_of cro) ≡ some cs
    → strata_of occ_map (effects_of cro) ≡ some es
    → (endpoints_mixed cro occ_map ≡ true) ↔ (Differs cs ⊎ Differs es)
unfolding endpoints_mixed
endpoints_mixed_iff cro occ_map cs es p q =
    let (mc, mc') = many_iff cs in
    let (me, me') = many_iff es in
    rw (p, q, endpoints_mixed)
      (
        λ h. elim (Bool-cases (ltb 1 (length (to_string_set cs)))) [
          | inl m ↦ inl (mc m)
          | inr f ↦ inr (me (ground (arith, h, f)))
        ],
        λ d. elim d [
          | inl c ↦ let m = mc' c in ground (arith, m)
          | inr e ↦ let m = me' e in ground (arith, m)
        ],
      )

-- Two floats that are neither infinite nor not a number are comparable.
abbrev pub ComparesFinite : Floats → Type 0
ComparesFinite fl =
    (a b : Float)
    → fl.nan_or_inf a ≡ false
    → fl.nan_or_inf b ≡ false
    → (fl.le a b ≡ true) ⊎ (fl.le b a ≡ true)

abbrev pub ordinal_float : Floats → Map Fields → String → Float
ordinal_float fl stratum_map s = float_at fl (object_of stratum_map s) "ordinal"

-- The stratum is that of an endpoint, and no endpoint has a greater ordinal.
abbrev pub IsHome : Floats → Map Fields → String → String → String → Type 0
IsHome fl stratum_map src tgt home =
    ((home ≡ src) ⊎ (home ≡ tgt))
    × (fl.le (float_at fl (object_of stratum_map src) "ordinal")
          (float_at fl (object_of stratum_map home) "ordinal")
        ≡ true)
    × (fl.le (float_at fl (object_of stratum_map tgt) "ordinal")
          (float_at fl (object_of stratum_map home) "ordinal")
        ≡ true)

-- SeamHome returns, for endpoints in strata with finite ordinals, one of the two strata, such that
-- neither of them has a greater ordinal, given that finite floats are comparable.
pub seam_home-IsHome :
    (fl : Floats) (seam : Fields) (occ_map stratum_map : Map Fields) (src tgt : String)
    → ComparesFinite fl
    → fl.nan_or_inf (ordinal_float fl stratum_map src) ≡ false
    → fl.nan_or_inf (ordinal_float fl stratum_map tgt) ≡ false
    → stratum_of occ_map (text_at seam "source") ≡ some src
    → stratum_of occ_map (text_at seam "target") ≡ some tgt
    → IsHome fl stratum_map src tgt (seam_home fl seam occ_map stratum_map)
unfolding seam_home
seam_home-IsHome fl seam occ_map stratum_map src tgt total fs ft a b =
    let s = float_at fl (object_of stratum_map src) "ordinal" in
    let t = float_at fl (object_of stratum_map tgt) "ordinal" in
    elim (Bool-cases (fl.le t s)) [
      | inl up ↦
          rw (a, b, up, seam_home) (inl refl, elim (total s s fs fs) [ inl h ↦ h | inr h ↦ h ], up)
      | inr down ↦
          rw (a, b, down, seam_home)
            (
              inr refl,
              elim (total s t fs ft) [ inl h ↦ h | inr h ↦ absurd (cc) ],
              elim (total t t ft ft) [ inl h ↦ h | inr h ↦ h ],
            )
    ]
