-- ===== src/Semantics/Strata/Seams.antt =====
-- BridgeWellformed, SeamWellformed and SeamHome.
use causalontology.Prelude.{
  ℤ, pos, sub64, ltb_ℤ, leb_ℤ, String, List, [], ◌∷◌, Bool, true, false, Option, none, some, ◌==◌,
  if◌then◌else◌, ◌&&◌, not, eqb, ltb, length, Map,
}
use causalontology.Sets.{to_string_set}
use causalontology.Json.{Fields, Floats, at, string_list, text_at, object_of}
use causalontology.Semantics.Windows.{float_at}
use causalontology.Semantics.Rules.{is_null}
use causalontology.Semantics.Strata.{stratum_of, strata_of, ordinal_of, distance}

pub data BridgeFault : Type 0 where
  coarse_unstratified fine_unstratified fine_spans_strata bridge_schemes_differ not_coarser :
      BridgeFault

-- the head of a list of texts, for `fineStrata[0]`
unfoldable pub first_of : List String → String
first_of [] = ""
first_of (s ∷ strata) = s

-- the clauses of BridgeWellformed: its answer as the clause that fails, `none` where it answers true
unfoldable pub bridge_fault : Floats → Fields → Map Fields → Map Fields → Option BridgeFault
bridge_fault fl bridge occ_map stratum_map = elim (stratum_of occ_map (text_at bridge "coarse")) [
  | none ↦ some coarse_unstratified
  | some cs ↦ elim (strata_of occ_map (string_list (at bridge "fine"))) [
    | none ↦ some fine_unstratified
    | some fine_strata ↦
        let coarse = object_of stratum_map cs in
        let fine = object_of stratum_map (first_of fine_strata) in
        if not (eqb (length (to_string_set fine_strata)) 1)
        then some fine_spans_strata
        else if not (text_at coarse "scheme" == text_at fine "scheme")
        then some bridge_schemes_differ
        else if not (fl.lt (float_at fl fine "ordinal") (float_at fl coarse "ordinal"))
        then some not_coarser
        else none
  ]
]

pub data SeamFault : Type 0 where
  endpoint_unstratified seam_schemes_differ adjacent_endpoints absent_but_drawn member_unstratified
        member_scheme_differs not_intervening not_monotone :
      SeamFault

pub data DrawnChain : Type 0 where
  faulty : SeamFault → DrawnChain
  ordinals : List ℤ → DrawnChain

-- the ordinals of a drawn chain, or the first fault of its members
unfoldable pub chain_ordinals : Floats → Map Fields → Map Fields → String → List String → DrawnChain
chain_ordinals fl occ_map stratum_map scheme [] = ordinals []
chain_ordinals fl occ_map stratum_map scheme (oid ∷ chain) = elim (stratum_of occ_map oid) [
  | none ↦ faulty member_unstratified
  | some st ↦
      let rest : DrawnChain = elim (chain_ordinals fl occ_map stratum_map scheme chain) [
        | faulty fault ↦ faulty fault
        | ordinals ords ↦ ordinals (ordinal_of fl stratum_map st ∷ ords)
      ] in
      if text_at (object_of stratum_map st) "scheme" == scheme
      then rest
      else faulty member_scheme_differs
]

unfoldable pub all_between : ℤ → ℤ → List ℤ → Bool
all_between lo hi [] = true
all_between lo hi (o ∷ ords) = ltb_ℤ lo o && ltb_ℤ o hi && all_between lo hi ords

-- allRising, on the wrapped differences
unfoldable pub all_rising : List ℤ → Bool
all_rising [] = true
all_rising (a ∷ []) = true
all_rising (a ∷ b ∷ ords) = ltb_ℤ (pos 0) (sub64 b a) && all_rising (b ∷ ords)

unfoldable pub all_falling : List ℤ → Bool
all_falling [] = true
all_falling (a ∷ []) = true
all_falling (a ∷ b ∷ ords) = ltb_ℤ (sub64 b a) (pos 0) && all_falling (b ∷ ords)

-- the clauses on the ordinals of a chain
unfoldable pub chain_fault : ℤ → ℤ → DrawnChain → Option SeamFault
chain_fault lo hi (faulty fault) = some fault
chain_fault lo hi (ordinals ords) =
    if not (all_between lo hi ords)
    then some not_intervening
    else if ltb 1 (length ords) && not (all_rising ords) && not (all_falling ords)
    then some not_monotone
    else none

-- the clauses on a drawn chain
unfoldable pub drawn_fault :
    Floats → Fields → Map Fields → Map Fields → String → ℤ → ℤ → Option SeamFault
drawn_fault fl seam occ_map stratum_map scheme so to =
    if is_null (at seam "chain")
    then none
    else if text_at seam "mechanism_status" == "absent"
    then some absent_but_drawn
    else chain_fault (if ltb_ℤ to so then to else so) (if ltb_ℤ to so then so else to)
        (chain_ordinals fl occ_map stratum_map scheme (string_list (at seam "chain")))

-- the clauses of SeamWellformed: its answer as the clause that fails, `none` where it answers true
unfoldable pub seam_fault : Floats → Fields → Map Fields → Map Fields → Option SeamFault
seam_fault fl seam occ_map stratum_map = elim (stratum_of occ_map (text_at seam "source")) [
  | none ↦ some endpoint_unstratified
  | some src ↦ elim (stratum_of occ_map (text_at seam "target")) [
    | none ↦ some endpoint_unstratified
    | some tgt ↦
        let scheme = text_at (object_of stratum_map src) "scheme" in
        let so = ordinal_of fl stratum_map src in
        let to = ordinal_of fl stratum_map tgt in
        if not (scheme == text_at (object_of stratum_map tgt) "scheme")
        then some seam_schemes_differ
        else if leb_ℤ (distance so to) (pos 1)
        then some adjacent_endpoints
        else drawn_fault fl seam occ_map stratum_map scheme so to
  ]
]

-- SeamHome
unfoldable pub seam_home : Floats → Fields → Map Fields → Map Fields → String
seam_home fl seam occ_map stratum_map = elim (stratum_of occ_map (text_at seam "source")) [
  | none ↦ ""
  | some src ↦ elim (stratum_of occ_map (text_at seam "target")) [
    | none ↦ ""
    | some tgt ↦
        if fl.le (float_at fl (object_of stratum_map tgt) "ordinal")
          (float_at fl (object_of stratum_map src) "ordinal")
        then src
        else tgt
  ]
]

-- the texts that BridgeWellformed returns
unfoldable pub bridge_reason : BridgeFault → String
bridge_reason coarse_unstratified = "malformed_bridge: coarse has no stratum (a)"
bridge_reason fine_unstratified = "malformed_bridge: a fine member has no stratum (b)"
bridge_reason fine_spans_strata = "malformed_bridge: fine members span >1 stratum (c)"
bridge_reason bridge_schemes_differ = "malformed_bridge: coarse and fine differ in scheme (d)"
bridge_reason not_coarser = "malformed_bridge: coarse ordinal not > fine ordinal (e)"

-- BridgeWellformed
unfoldable pub bridge_wellformed : Floats → Fields → Map Fields → Map Fields → Bool × String
bridge_wellformed fl bridge occ_map stratum_map =
    elim (bridge_fault fl bridge occ_map stratum_map) [
      | none ↦ (true, "well-formed bridge")
      | some fault ↦ (false, bridge_reason fault)
    ]

-- the texts that SeamWellformed returns
unfoldable pub seam_reason : SeamFault → String
seam_reason endpoint_unstratified = "malformed_seam: an endpoint has no stratum (a)"
seam_reason seam_schemes_differ = "malformed_seam: endpoints differ in scheme (b)"
seam_reason adjacent_endpoints =
    "malformed_seam: endpoints are adjacent or co-stratal; a seam is for NON-adjacent strata (c)"
seam_reason absent_but_drawn =
    "malformed_seam: a drawn chain contradicts mechanism_status 'absent' (d)"
seam_reason member_unstratified = "malformed_seam: a chain member has no stratum (e)"
seam_reason member_scheme_differs = "malformed_seam: a chain member differs in scheme (e)"
seam_reason not_intervening =
    "malformed_seam: a chain member is not at an INTERVENING stratum, strictly between the endpoints (f)"
seam_reason not_monotone =
    "malformed_seam: chain is not strictly monotone from one endpoint toward the other (g)"

-- SeamWellformed
unfoldable pub seam_wellformed : Floats → Fields → Map Fields → Map Fields → Bool × String
seam_wellformed fl seam occ_map stratum_map = elim (seam_fault fl seam occ_map stratum_map) [
  | none ↦ (true, "well-formed cross_stratal_seam")
  | some fault ↦ (false, seam_reason fault)
]
