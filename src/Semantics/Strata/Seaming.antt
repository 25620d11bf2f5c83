-- ===== src/Semantics/Strata/Seaming.antt =====
-- Rule 22: what SeamWellformed accepts, and the home of a seam.
use causalontology.Prelude.{
  ℕ, ℤ, pos, ltb_ℤ, leb_ℤ, String, List, ◌∷◌, true, false, none, some, ◌==◌, eq_iff, ◌≡◌, ◌↔◌, ◌⊎◌,
  inl, inr, refl, subst, arith, Map, Option-cases, Bool-cases, if◌then◌else◌, ◌≤◌,
}
use causalontology.Sets.{contains_string}
use causalontology.Json.{Fields, Floats, at, string_list, text_at}
use causalontology.Semantics.Rules.{is_null}
use causalontology.Semantics.Strata.{stratum_of, strata_of, ordinal_of, distance}
use causalontology.Semantics.Strata.Distances.{gap_of, distance-gap_of}
use causalontology.Semantics.Strata.Members.{scheme_of}
use causalontology.Semantics.Strata.Classifies.{SmallOrdinals, ordinals_of, small_ordinals}
use causalontology.Semantics.Strata.Chains.{
  Rising, Falling, Between, chain_fault_iff, InScheme, chain_ordinals_sound,
  chain_ordinals_complete,
}
use causalontology.Semantics.Strata.Seams.{
  DrawnChain, faulty, ordinals, chain_ordinals, chain_fault, drawn_fault, seam_fault,
  seam_wellformed,
}

-- Strictly between the two numbers, whichever is the lesser.
abbrev pub Intervening : ℤ → ℤ → List ℤ → Type 0
Intervening so to ords = Between so to ords ⊎ Between to so ords

abbrev least : ℤ → ℤ → ℤ
least so to = if ltb_ℤ to so then to else so

abbrev greatest : ℤ → ℤ → ℤ
greatest so to = if ltb_ℤ to so then so else to

Between-Intervening :
    (so to : ℤ) (ords : List ℤ)
    → Between (least so to) (greatest so to) ords ↔ Intervening so to ords
Between-Intervening so to ords = elim (Bool-cases (ltb_ℤ to so)) [
  | inl down ↦ rw down (
    λ b. inr b,
    λ s. elim s [
      | inl b ↦ λ i m. let (p, q) = b i m in absurd (ground (arith, p, q, down))
      | inr b ↦ b
    ],
  )
  | inr up ↦ rw up (
    λ b. inl b,
    λ s. elim s [
      | inl b ↦ b
      | inr b ↦ λ i m. let (p, q) = b i m in absurd (ground (arith, p, q, up))
    ],
  )
]

module _ (fl : Floats) (seam : Fields) (occ_map stratum_map : Map Fields) where
  abbrev pub chain_of : List String
  chain_of = string_list (at seam "chain")

  -- The seam declares its mechanism, in one of the two words that the schema has for it.
  abbrev pub DeclaresMechanism : Type 0
  DeclaresMechanism =
      (text_at seam "mechanism_status" ≡ "unmodeled") ⊎ (text_at seam "mechanism_status" ≡ "absent")

  -- The clauses (d) to (g): a chain is drawn only where the mechanism is declared unmodeled; its
  -- members have strata of the scheme, strictly between the endpoints, and strictly monotone.
  abbrev pub Draws : String → ℤ → ℤ → Type 0
  Draws scheme so to =
      (text_at seam "mechanism_status" ≡ "unmodeled")
      × ((ss : List String) × (strata_of occ_map chain_of ≡ some ss)
          × InScheme fl occ_map stratum_map scheme ss
          × Intervening so to (ordinals_of fl stratum_map ss)
          × (Rising (ordinals_of fl stratum_map ss) ⊎ Falling (ordinals_of fl stratum_map ss)))

  module _ (scheme : String) (so to : ℤ) (declared : DeclaresMechanism)
      (small : SmallOrdinals fl occ_map stratum_map chain_of) where
    drawn_chain_sound :
        (d : DrawnChain)
        → chain_ordinals fl occ_map stratum_map scheme chain_of ≡ d
        → chain_fault (least so to) (greatest so to) d ≡ none
        → (ss : List String) × (strata_of occ_map chain_of ≡ some ss)
          × InScheme fl occ_map stratum_map scheme ss
          × Intervening so to (ordinals_of fl stratum_map ss)
          × (Rising (ordinals_of fl stratum_map ss) ⊎ Falling (ordinals_of fl stratum_map ss))
    unfolding chain_fault
    drawn_chain_sound (faulty fault) e h = absurd (cc)
    drawn_chain_sound (ordinals ords) e h =
        let (ss, r, within, p) =
          chain_ordinals_sound fl occ_map stratum_map scheme chain_of ords e in
        let all_small = small_ordinals fl occ_map stratum_map chain_of ss r small in
        let (between, way) =
          (chain_fault_iff (least so to) (greatest so to) (ordinals_of fl stratum_map ss)
              all_small).0
            (subst (λ z. chain_fault (least so to) (greatest so to) (ordinals z) ≡ none) p h) in
        (ss, r, within, (Between-Intervening so to (ordinals_of fl stratum_map ss)).0 between, way)

    absent_text :
        (text_at seam "mechanism_status" == "absent") ≡ true
        → text_at seam "mechanism_status" ≡ "absent"
    absent_text h = (eq_iff (text_at seam "mechanism_status") "absent").0 h

    unmodeled :
        (text_at seam "mechanism_status" == "absent") ≡ false
        → text_at seam "mechanism_status" ≡ "unmodeled"
    unmodeled h = elim declared [
      | inl e ↦ e
      | inr e ↦ absurd (let t = (eq_iff (text_at seam "mechanism_status") "absent").1 e in cc)
    ]

    drawn_fault_iff : (drawn_fault fl seam occ_map stratum_map scheme so to ≡ none) ↔ (
        (is_null (at seam "chain") ≡ true)
        ⊎ ((is_null (at seam "chain") ≡ false) × Draws scheme so to))
    unfolding drawn_fault
    drawn_fault_iff = elim (Bool-cases (is_null (at seam "chain"))) [
      | inl bare ↦ (λ _. inl bare, λ _. ground (arith, bare))
      | inr drawn ↦ elim (Bool-cases (text_at seam "mechanism_status" == "absent")) [
        | inl absent ↦ (
          λ h. absurd (ground (arith, drawn, absent)),
          λ s. elim s [
            | inl b ↦ absurd (cc)
            | inr (_, (n, _)) ↦ absurd (let a = absent_text absent in cc)
          ],
        )
        | inr present ↦ (
          λ h. inr (
            drawn,
            (
              unmodeled present,
              drawn_chain_sound (chain_ordinals fl occ_map stratum_map scheme chain_of) refl
                  (ground (arith, h, drawn, present)),
            ),
          ),
          λ s. elim s [
            | inl b ↦ absurd (cc)
            | inr (_, (_, (ss, r, within, inside, way))) ↦
                let all_small = small_ordinals fl occ_map stratum_map chain_of ss r small in
                let c =
                  chain_ordinals_complete fl occ_map stratum_map scheme chain_of ss r within in
                let f =
                  (chain_fault_iff (least so to) (greatest so to) (ordinals_of fl stratum_map ss)
                      all_small).1
                    ((Between-Intervening so to (ordinals_of fl stratum_map ss)).1 inside, way) in
                rw (drawn, present, c) f
          ],
        )
      ]
    ]

  -- The seam and its endpoints: strata of one scheme, whose ordinals differ by two or more.
  abbrev pub IsSeam : Type 0
  IsSeam =
      (src : String) × (tgt : String) × (stratum_of occ_map (text_at seam "source") ≡ some src)
      × (stratum_of occ_map (text_at seam "target") ≡ some tgt)
      × (scheme_of stratum_map src ≡ scheme_of stratum_map tgt)
      × (2 ≤ gap_of (ordinal_of fl stratum_map src) (ordinal_of fl stratum_map tgt))
      × ((is_null (at seam "chain") ≡ true)
          ⊎ ((is_null (at seam "chain") ≡ false)
              × Draws (scheme_of stratum_map src) (ordinal_of fl stratum_map src)
                  (ordinal_of fl stratum_map tgt)))

  abbrev pub endpoints_and_chain : List String
  endpoints_and_chain = text_at seam "source" ∷ text_at seam "target" ∷ chain_of

  module _ (declared : DeclaresMechanism)
      (small : SmallOrdinals fl occ_map stratum_map endpoints_and_chain) where
    small_chain : SmallOrdinals fl occ_map stratum_map chain_of
    unfolding contains_string
    small_chain id s i e = small id s (ground (arith, i)) e

    far_apart_iff :
        (src tgt : String)
        → stratum_of occ_map (text_at seam "source") ≡ some src
        → stratum_of occ_map (text_at seam "target") ≡ some tgt
        → (leb_ℤ (distance (ordinal_of fl stratum_map src) (ordinal_of fl stratum_map tgt)) (pos 1)
            ≡ false)
          ↔ (2 ≤ gap_of (ordinal_of fl stratum_map src) (ordinal_of fl stratum_map tgt))
    unfolding contains_string
    far_apart_iff src tgt a b =
        let source = text_at seam "source" in
        let target = text_at seam "target" in
        let s = small source src (ground (arith, eq_iff source source)) a in
        let t = small target tgt (ground (arith, eq_iff target target)) b in
        let d =
          distance-gap_of (ordinal_of fl stratum_map src) (ordinal_of fl stratum_map tgt) s t in
        rw d (far (gap_of (ordinal_of fl stratum_map src) (ordinal_of fl stratum_map tgt)))
      where
        far : (n : ℕ) → (leb_ℤ (pos n) (pos 1) ≡ false) ↔ (2 ≤ n)
        far n = ground arith

    seam_fault_sound : seam_fault fl seam occ_map stratum_map ≡ none → IsSeam
    unfolding seam_fault
    seam_fault_sound h = elim (Option-cases (stratum_of occ_map (text_at seam "source"))) [
      | inl a ↦ absurd (ground (arith, a))
      | inr (src, a) ↦ elim (Option-cases (stratum_of occ_map (text_at seam "target"))) [
        | inl b ↦ absurd (ground (arith, a, b))
        | inr (tgt, b) ↦
            let scheme = scheme_of stratum_map src in
            let so = ordinal_of fl stratum_map src in
            let to = ordinal_of fl stratum_map tgt in
            (
              src,
              tgt,
              a,
              b,
              (eq_iff scheme (scheme_of stratum_map tgt)).0 (ground (arith, a, b)),
              (far_apart_iff src tgt a b).0 (ground (arith, a, b)),
              (drawn_fault_iff scheme so to declared small_chain).0 (ground (arith, a, b)),
            )
      ]
    ]

    seam_fault_complete : IsSeam → seam_fault fl seam occ_map stratum_map ≡ none
    unfolding seam_fault
    seam_fault_complete (src, tgt, a, b, same, apart, drawn) =
        let scheme = scheme_of stratum_map src in
        let so = ordinal_of fl stratum_map src in
        let to = ordinal_of fl stratum_map tgt in
        let e = (eq_iff scheme (scheme_of stratum_map tgt)).1 same in
        let f = (far_apart_iff src tgt a b).1 apart in
        let d = (drawn_fault_iff scheme so to declared small_chain).1 drawn in
        ground (arith, a, b, e, f, d)

    -- SeamWellformed, on strata with small ordinals and a seam whose mechanism_status is unmodeled or
    -- absent, answers true exactly when both endpoints have strata, of one scheme, whose ordinals
    -- differ by two or more, and, if a chain is drawn, the mechanism is declared unmodeled, all
    -- members of the chain have strata of that scheme, and their ordinals are strictly between those
    -- of the endpoints and strictly rising or strictly falling.
    pub seam_wellformed_iff : ((seam_wellformed fl seam occ_map stratum_map).0 ≡ true) ↔ IsSeam
    unfolding seam_wellformed
    seam_wellformed_iff = elim (Option-cases (seam_fault fl seam occ_map stratum_map)) [
      | inl e ↦ rw (e, seam_wellformed) (λ _. seam_fault_sound e, λ _. refl)
      | inr (fault, e) ↦
          rw (e, seam_wellformed)
            (λ h. absurd (cc), λ w. let n = seam_fault_complete w in absurd (cc))
    ]
