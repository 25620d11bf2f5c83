-- ===== src/Semantics/Strata/Gaps.antt =====
-- SkipGaps: at most one gap, decided by the three conditions of rule 16.
use causalontology.Prelude.{
  String, List, Bool, ◌≢◌, ◌⊎◌, inl, inr, refl, [], ◌∷◌, true, false, ◌≡◌, ◌↔◌, arith,
  if◌then◌else◌,
}
use causalontology.Json.{
  Value, null, bool, str, number, int, int64, float64, obj, arr, Fields, at, as_bool, string_list,
}
use causalontology.Semantics.Conflict.{mechanism_present, is_empty}
use causalontology.Semantics.Rules.{is_true}
use causalontology.Semantics.Strata.{
  SkipGap, Classification, intra_stratal, adjacent_stratal, skipping, mixed, unclassifiable,
  scheme_mismatch, is_skipping, is_unclassifiable, contradictory_skip, vacuous_skip,
  incomplete_mechanism, skip_gaps,
}

-- `skips` is the value true.
abbrev pub Declared : Fields → Type 0
Declared cro = at cro "skips" ≡ bool true

-- `mechanism` lists no text; one that is missing, or no array, lists none.
abbrev pub Unmechanized : Fields → Type 0
Unmechanized cro = string_list (at cro "mechanism") ≡ []

is_true-Declared : (v : Value) → (is_true (as_bool v) ≡ true) ↔ (v ≡ bool true)
unfolding is_true as_bool
is_true-Declared null = (λ h. absurd (cc), λ h. absurd (cc))
is_true-Declared (bool true) = (λ h. refl, λ h. refl)
is_true-Declared (bool false) = (λ h. absurd (cc), λ h. absurd (cc))
is_true-Declared (str s) = (λ h. absurd (cc), λ h. absurd (cc))
is_true-Declared (number s) = (λ h. absurd (cc), λ h. absurd (cc))
is_true-Declared (int n) = (λ h. absurd (cc), λ h. absurd (cc))
is_true-Declared (int64 n) = (λ h. absurd (cc), λ h. absurd (cc))
is_true-Declared (float64 f) = (λ h. absurd (cc), λ h. absurd (cc))
is_true-Declared (obj m) = (λ h. absurd (cc), λ h. absurd (cc))
is_true-Declared (arr xs) = (λ h. absurd (cc), λ h. absurd (cc))

is_empty_iff : (xs : List String) → ((if is_empty xs then false else true) ≡ false) ↔ (xs ≡ [])
unfolding is_empty
is_empty_iff [] = (λ h. refl, λ h. refl)
is_empty_iff (x ∷ xs) = (λ h. absurd (cc), λ h. absurd (cc))

mechanism_present-Unmechanized : (cro : Fields) → (mechanism_present cro ≡ false) ↔ Unmechanized cro
unfolding mechanism_present
mechanism_present-Unmechanized cro = is_empty_iff (string_list (at cro "mechanism"))

-- Rule 16: which gaps SkipGaps shows, and when.
abbrev pub ShowsByRule16 : Fields → Classification → Type 0
ShowsByRule16 cro k =
    ((skip_gaps cro k ≡ contradictory_skip ∷ []) ↔ (Declared cro × ¬ Unmechanized cro))
    × ((skip_gaps cro k ≡ vacuous_skip ∷ [])
        ↔ (Declared cro × Unmechanized cro × (k ≢ skipping) × (k ≢ unclassifiable)))
    × ((skip_gaps cro k ≡ incomplete_mechanism ∷ [])
        ↔ ((¬ Declared cro) × Unmechanized cro × (k ≡ skipping)))
    × ((skip_gaps cro k ≡ []) ↔ (
        (Declared cro × Unmechanized cro × ((k ≡ skipping) ⊎ (k ≡ unclassifiable)))
        ⊎ ((¬ Declared cro) × ((¬ Unmechanized cro) ⊎ (k ≢ skipping)))))

-- The same with the tests of the code, of which every case is closed.
abbrev ByTests : Bool → Bool → List SkipGap → Classification → Type 0
ByTests d m gaps k =
    ((gaps ≡ contradictory_skip ∷ []) ↔ ((d ≡ true) × (m ≡ true)))
    × ((gaps ≡ vacuous_skip ∷ [])
        ↔ ((d ≡ true) × (m ≡ false) × (k ≢ skipping) × (k ≢ unclassifiable)))
    × ((gaps ≡ incomplete_mechanism ∷ []) ↔ ((d ≡ false) × (m ≡ false) × (k ≡ skipping)))
    × ((gaps ≡ []) ↔ (
        ((d ≡ true) × (m ≡ false) × ((k ≡ skipping) ⊎ (k ≡ unclassifiable)))
        ⊎ ((d ≡ false) × ((m ≡ true) ⊎ (k ≢ skipping)))))

skip_gaps-ByTests :
    (cro : Fields) (k : Classification)
    → ByTests (is_true (as_bool (at cro "skips"))) (mechanism_present cro) (skip_gaps cro k) k
unfolding skip_gaps is_skipping is_unclassifiable
skip_gaps-ByTests cro intra_stratal = ground arith
skip_gaps-ByTests cro adjacent_stratal = ground arith
skip_gaps-ByTests cro skipping = ground arith
skip_gaps-ByTests cro mixed = ground arith
skip_gaps-ByTests cro unclassifiable = ground arith
skip_gaps-ByTests cro scheme_mismatch = ground arith

negated : {P : Type 0} (b : Bool) → ((b ≡ true) ↔ P) → (b ≡ false) ↔ ¬ P
negated true (fwd, bwd) = (λ h. absurd (cc), λ n. absurd (n (fwd refl)))
negated false (fwd, bwd) = (λ h p. (let t = bwd p in cc), λ n. refl)

negated' : {P : Type 0} (b : Bool) → ((b ≡ false) ↔ P) → (b ≡ true) ↔ ¬ P
negated' false (fwd, bwd) = (λ h. absurd (cc), λ n. absurd (n (fwd refl)))
negated' true (fwd, bwd) = (λ h p. (let t = bwd p in cc), λ n. refl)

-- Rule 16, its asymmetry included. SkipGaps shows at most one gap: contradictory_skip exactly where
-- skips is true and the mechanism lists a member; vacuous_skip exactly where skips is true and it
-- lists none, on a claim that is neither classified as skipping nor unclassifiable;
-- incomplete_mechanism exactly where skips is not true and it lists none, on a claim classified as
-- skipping; and nothing exactly in the other cases.
pub skip_gaps_lem : (cro : Fields) (k : Classification) → ShowsByRule16 cro k
skip_gaps_lem cro k =
    let (a, b, c, e) = skip_gaps-ByTests cro k in
    let (d, d') = is_true-Declared (at cro "skips") in
    let (n, n') = negated (is_true (as_bool (at cro "skips"))) (d, d') in
    let (u, u') = mechanism_present-Unmechanized cro in
    let (m, m') = negated' (mechanism_present cro) (u, u') in
    (
      (λ h. let (x, y) = a.0 h in (d x, m y), λ (x, y). a.1 (d' x, m' y)),
      (λ h. let (x, y, z, w) = b.0 h in (d x, u y, z, w), λ (x, y, z, w). b.1 (d' x, u' y, z, w)),
      (λ h. let (x, y, z) = c.0 h in (n x, u y, z), λ (x, y, z). c.1 (n' x, u' y, z)),
      (
        λ h. elim (e.0 h) [
          | inl (x, y, z) ↦ inl (d x, u y, z)
          | inr (x, y) ↦ inr (n x, elim y [ inl p ↦ inl (m p) | inr q ↦ inr q ])
        ],
        λ s. elim s [
          | inl (x, y, z) ↦ e.1 (inl (d' x, u' y, z))
          | inr (x, y) ↦ e.1 (inr (n' x, elim y [ inl p ↦ inl (m' p) | inr q ↦ inr q ]))
        ],
      ),
    )
