-- ===== src/Semantics/Strata/Chains.antt =====
-- The drawn chain of a seam: its strata, their schemes, and the order of their ordinals.
use causalontology.Prelude.{
  ℤ, String, List, [], ◌∷◌, true, false, none, some, ◌==◌, eq_iff, ◌≡◌, ◌↔◌, ◌⊎◌, inl, inr, refl,
  sym, ap, subst, arith, Map, Option-cases, Bool-cases, ltb, length,
}
use mathlib.Core.Option.{some-injective}
use causalontology.Sets.{contains_string}
use causalontology.Json.{Fields, Floats}
use causalontology.Store.Cycles.Trails.{In}
use causalontology.Semantics.Strata.{stratum_of, strata_of}
use causalontology.Semantics.Strata.Distances.{IsSmall, Less, ltb_ℤ-iff, rising-Less, falling-Less}
use causalontology.Semantics.Strata.Members.{strata_of-cons, strata_of-parts, scheme_of}
use causalontology.Semantics.Strata.Classifies.{ordinals_of}
use causalontology.Semantics.Strata.Seams.{
  DrawnChain, faulty, ordinals, chain_ordinals, all_between, all_rising, all_falling, chain_fault,
}

-- Each number is less than the next one, or each is greater.
abbrev pub Rising : List ℤ → Type 0
Rising [] = Unit
Rising (a ∷ []) = Unit
Rising (a ∷ b ∷ ords) = Less a b × Rising (b ∷ ords)

abbrev pub Falling : List ℤ → Type 0
Falling [] = Unit
Falling (a ∷ []) = Unit
Falling (a ∷ b ∷ ords) = Less b a × Falling (b ∷ ords)

abbrev pub AllSmall : List ℤ → Type 0
AllSmall ords = (i : ℤ) → In i ords → IsSmall i

all_rising_iff : (ords : List ℤ) → AllSmall ords → (all_rising ords ≡ true) ↔ Rising ords
unfolding all_rising
all_rising_iff [] small = (λ _. tt, λ _. refl)
all_rising_iff (a ∷ []) small = (λ _. tt, λ _. refl)
all_rising_iff (a ∷ b ∷ ords) small =
    let (fwd, bwd) = all_rising_iff (b ∷ ords) (λ i m. small i (inr m)) in
    let step = rising-Less a b (small a (inl refl)) (small b (inr (inl refl))) in
    let (up, down) = ltb_ℤ-iff a b in
    rw step (
      λ h. (up (ground arith), fwd (ground arith)),
      λ (l, r). let x = down l in let y = bwd r in ground (arith, x, y),
    )

all_falling_iff : (ords : List ℤ) → AllSmall ords → (all_falling ords ≡ true) ↔ Falling ords
unfolding all_falling
all_falling_iff [] small = (λ _. tt, λ _. refl)
all_falling_iff (a ∷ []) small = (λ _. tt, λ _. refl)
all_falling_iff (a ∷ b ∷ ords) small =
    let (fwd, bwd) = all_falling_iff (b ∷ ords) (λ i m. small i (inr m)) in
    let step = falling-Less a b (small a (inl refl)) (small b (inr (inl refl))) in
    let (up, down) = ltb_ℤ-iff b a in
    rw step (
      λ h. (up (ground arith), fwd (ground arith)),
      λ (l, r). let x = down l in let y = bwd r in ground (arith, x, y),
    )

-- All numbers are strictly between the two.
abbrev pub Between : ℤ → ℤ → List ℤ → Type 0
Between lo hi ords = (i : ℤ) → In i ords → Less lo i × Less i hi

all_between_iff : (lo hi : ℤ) (ords : List ℤ) → (all_between lo hi ords ≡ true) ↔ Between lo hi ords
unfolding all_between
all_between_iff lo hi [] = (λ h i m. absurd m, λ _. refl)
all_between_iff lo hi (o ∷ ords) =
    let (fwd, bwd) = all_between_iff lo hi ords in
    let (a, a') = ltb_ℤ-iff lo o in
    let (b, b') = ltb_ℤ-iff o hi in
    (
      λ h i m. elim m [
        | inl e ↦ subst (λ z. Less lo z × Less z hi) e (a (ground arith), b (ground arith))
        | inr n ↦ fwd (ground arith) i n
      ],
      λ w.
          let (p, q) = w o (inl refl) in
          let x = a' p in
          let y = b' q in let z = bwd (λ i m. w i (inr m)) in ground (arith, x, y, z),
    )

short-Rising : (ords : List ℤ) → ltb 1 (length ords) ≡ false → Rising ords
short-Rising [] h = tt
short-Rising (a ∷ []) h = tt
short-Rising (a ∷ b ∷ ords) h = absurd (ground arith)

-- The clauses (f) and (g).
pub chain_fault_iff :
    (lo hi : ℤ) (ords : List ℤ)
    → AllSmall ords
    → (chain_fault lo hi (ordinals ords) ≡ none)
      ↔ (Between lo hi ords × (Rising ords ⊎ Falling ords))
unfolding chain_fault
chain_fault_iff lo hi ords small =
    let (fwd, bwd) = all_between_iff lo hi ords in
    let (up, up') = all_rising_iff ords small in
    let (down, down') = all_falling_iff ords small in
    (
      λ h. (
        fwd (ground arith),
        elim (Bool-cases (ltb 1 (length ords))) [
          | inr short ↦ inl (short-Rising ords short)
          | inl long ↦ elim (Bool-cases (all_rising ords)) [
            | inl rising ↦ inl (up rising)
            | inr other ↦ inr (down (ground arith))
          ]
        ],
      ),
      λ (between, way).
          let b = bwd between in
          elim way [
            | inl r ↦ let x = up' r in ground (arith, b, x)
            | inr f ↦ let x = down' f in ground (arith, b, x)
          ],
    )

module _ (fl : Floats) (occ_map stratum_map : Map Fields) (scheme : String) where
  -- All strata of the list are of the scheme.
  abbrev pub InScheme : List String → Type 0
  InScheme ss = (s : String) → contains_string ss s ≡ true → scheme_of stratum_map s ≡ scheme

  pub chain_ordinals_sound :
      (ids : List String) (ords : List ℤ)
      → chain_ordinals fl occ_map stratum_map scheme ids ≡ ordinals ords
      → (ss : List String) × (strata_of occ_map ids ≡ some ss)
        × InScheme ss
        × (ords ≡ ordinals_of fl stratum_map ss)
  unfolding chain_ordinals strata_of contains_string
  chain_ordinals_sound [] ords h = ([], refl, λ s i. absurd (cc), ground (arith, h))
  chain_ordinals_sound (x ∷ ids) ords h = elim (Option-cases (stratum_of occ_map x)) [
    | inl e ↦ absurd (ground (arith, e))
    | inr (s, e) ↦
        later (chain_ordinals_sound ids) s e (chain_ordinals fl occ_map stratum_map scheme ids) refl
  ]
    where
      later :
          ((rest : List ℤ)
            → chain_ordinals fl occ_map stratum_map scheme ids ≡ ordinals rest
            → (ss : List String) × (strata_of occ_map ids ≡ some ss)
              × InScheme ss
              × (rest ≡ ordinals_of fl stratum_map ss))
          → (s : String) → stratum_of occ_map x ≡ some s
          → (d : DrawnChain) → chain_ordinals fl occ_map stratum_map scheme ids ≡ d
          → (ss : List String) × (strata_of occ_map (x ∷ ids) ≡ some ss)
            × InScheme ss
            × (ords ≡ ordinals_of fl stratum_map ss)
      later again s e (faulty fault) d = absurd (ground (arith, e, d))
      later again s e (ordinals rest) d =
          let (ss, r, within, p) = again rest d in
          let here : scheme_of stratum_map s ≡ scheme =
            (eq_iff (scheme_of stratum_map s) scheme).0 (ground (arith, e, d)) in
          (
            s ∷ ss,
            strata_of-cons occ_map x ids s ss e r,
            λ t i. elim (Bool-cases (s == t)) [
              | inl same ↦ subst (λ z. scheme_of stratum_map z ≡ scheme) ((eq_iff s t).0 same) here
              | inr other ↦ within t (ground (arith, i, other))
            ],
            rw (sym p) (ground (arith, e, d)),
          )

  pub chain_ordinals_complete :
      (ids ss : List String)
      → strata_of occ_map ids ≡ some ss
      → InScheme ss
      → chain_ordinals fl occ_map stratum_map scheme ids ≡ ordinals (ordinals_of fl stratum_map ss)
  unfolding chain_ordinals strata_of contains_string
  chain_ordinals_complete [] ss h within =
      ap (λ z. ordinals (ordinals_of fl stratum_map z)) (some-injective _ _ h)
  chain_ordinals_complete (x ∷ ids) ss h within =
      let (s, rest, e, r, p) = strata_of-parts occ_map x ids ss h in
      let in_scheme = λ (t : String) (i : contains_string (s ∷ rest) t ≡ true). within t (rw p i) in
      let again = chain_ordinals_complete ids rest r (λ t i. in_scheme t (ground (arith, i))) in
      let here =
        (eq_iff (scheme_of stratum_map s) scheme).1 (in_scheme s (ground (arith, eq_iff s s))) in
      rw (p) (ground (arith, e, again, here))
