-- ===== src/Semantics/Hierarchy/Loops.antt =====
-- Answers of searches, and of loops that stop at the first true or false answer.
use mathlib.Core.Logic.{∥∥₁_elim, ∥∥₁_map}
use mathlib.Core.HLevel.{⊥_prop}
use mathlib.Core.Bool.{So-prop}
use causalontology.Prelude.{
  String, List, [], ◌∷◌, Bool, true, false, Option, some, ◌==◌, eq_iff, ◌≡◌, refl, arith, ◌↔◌,
  Bool-cases, inl, inr, subst, sym,
}
use causalontology.Sets.{contains_string}
use causalontology.Sets.Laws.{contains-cons}
use causalontology.Semantics.Hierarchy.{any_of, all_of}

-- A search answers, and answers true exactly when the proposition holds.
abbrev pub Decides : Option Bool → Type 0 → Type 0
Decides search P = (b : Bool) × (search ≡ some b) × ((b ≡ true) ↔ P)

-- An element of a list with the property.
abbrev pub Some : (String → Type 0) → List String → Type 0
Some P xs = ∥ ((x : String) × (contains_string xs x ≡ true) × P x) ∥₁

abbrev pub Every : (String → Type 0) → List String → Type 0
Every P xs = (x : String) → contains_string xs x ≡ true → P x

head_in : (y : String) (xs : List String) → contains_string (y ∷ xs) y ≡ true
head_in y xs = ground (arith, contains-cons y y xs, eq_iff y y)

tail_in :
    (x y : String) (xs : List String)
    → contains_string xs x ≡ true
    → contains_string (y ∷ xs) x ≡ true
tail_in x y xs i = ground (arith, contains-cons y x xs)

-- An element of a list is its head, or else it is in the tail.
among :
    (P : String → Type 0) (x y : String) (xs : List String)
    → contains_string (y ∷ xs) x ≡ true
    → (contains_string xs x ≡ true → P x)
    → P y
    → P x
among P x y xs i later p = elim (Bool-cases (y == x)) [
  | inl same ↦ subst P ((eq_iff y x).0 same) p
  | inr other ↦ later (ground (arith, contains-cons y x xs))
]

module _ (search : String → Option Bool) (P : String → Type 0) where
  any_of_case :
      (y : String) (xs : List String) (b : Bool)
      → search y ≡ some b
      → ((b ≡ true) ↔ P y)
      → Decides (any_of search xs) (Some P xs)
      → Decides (any_of search (y ∷ xs)) (Some P (y ∷ xs))
  unfolding any_of
  any_of_case y xs true e m rest =
      (true, rw (any_of, e), (λ _. ∣ (y, head_in y xs, m.0 refl) ∣₁, λ _. refl))
  any_of_case y xs false e m (b, e', m') = (
    b,
    rw (any_of, e, e'),
    (
      λ h. ∥∥₁_map (m'.0 h) (λ (x, i, p). (x, tail_in x y xs i, p)),
      λ w. ∥∥₁_elim w (So-prop b) (λ (x, i, p). elim (Bool-cases (y == x)) [
        | inl same ↦ absurd (ground (arith, m.1 (subst P (sym ((eq_iff y x).0 same)) p)))
        | inr other ↦ m'.1 ∣ (x, ground (arith, contains-cons y x xs), p) ∣₁
      ]),
    ),
  )

  pub any_of_decides :
      ((x : String) → Decides (search x) (P x))
      → (xs : List String) → Decides (any_of search xs) (Some P xs)
  unfolding any_of contains_string
  any_of_decides d [] = (
    false,
    refl,
    (λ h. absurd (ground arith), λ w. absurd (∥∥₁_elim w ⊥_prop (λ (x, i, p). ground arith))),
  )
  any_of_decides d (y ∷ xs) = let (b, e, m) = d y in any_of_case y xs b e m (any_of_decides d xs)

  all_of_case :
      (y : String) (xs : List String) (b : Bool)
      → search y ≡ some b
      → ((b ≡ true) ↔ P y)
      → Decides (all_of search xs) (Every P xs)
      → Decides (all_of search (y ∷ xs)) (Every P (y ∷ xs))
  unfolding all_of
  all_of_case y xs true e m (b, e', m') = (
    b,
    rw (all_of, e, e'),
    (λ h x i. among P x y xs i (m'.0 h x) (m.0 refl), λ w. m'.1 (λ x i. w x (tail_in x y xs i))),
  )
  all_of_case y xs false e m rest = (
    false,
    rw (all_of, e),
    (λ h. absurd (ground arith), λ w. absurd (ground (arith, m.1 (w y (head_in y xs))))),
  )

  pub all_of_decides :
      ((x : String) → Decides (search x) (P x))
      → (xs : List String) → Decides (all_of search xs) (Every P xs)
  unfolding all_of contains_string
  all_of_decides d [] = (true, refl, (λ _ x i. absurd (ground arith), λ _. refl))
  all_of_decides d (y ∷ xs) = let (b, e, m) = d y in all_of_case y xs b e m (all_of_decides d xs)
