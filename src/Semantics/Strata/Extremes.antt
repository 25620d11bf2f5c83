-- ===== src/Semantics/Strata/Extremes.antt =====
-- The greatest and the least of a list of numbers, as ClassifyCRO finds them.
use causalontology.Prelude.{
  ◌+◌, ◌≤◌, ℤ, pos_part, neg_part, List, [], ◌∷◌, Bool, true, false, ◌≡◌, inl, inr, refl, ap, ◌∙◌,
  arith, ltb_ℤ, if◌then◌else◌, subst, Bool-cases,
}
use causalontology.Store.Cycles.Trails.{In}
use causalontology.Semantics.Strata.{max_from, min_from}

-- The greatest of equal numbers, and the least.
pub max_from-same : (m : ℤ) (xs : List ℤ) → ((x : ℤ) → In x xs → x ≡ m) → max_from m xs ≡ m
unfolding max_from
max_from-same m [] h = refl
max_from-same m (x ∷ xs) h =
    rw (h x (inl refl))
      (ap (λ k. max_from k xs) (if_same (ltb_ℤ m m)) ∙ max_from-same m xs (λ y i. h y (inr i)))
  where
    if_same : (b : Bool) → (if b then m else m) ≡ m
    if_same true = refl
    if_same false = refl

pub min_from-same : (m : ℤ) (xs : List ℤ) → ((x : ℤ) → In x xs → x ≡ m) → min_from m xs ≡ m
unfolding min_from
min_from-same m [] h = refl
min_from-same m (x ∷ xs) h =
    rw (h x (inl refl))
      (ap (λ k. min_from k xs) (if_same (ltb_ℤ m m)) ∙ min_from-same m xs (λ y i. h y (inr i)))
  where
    if_same : (b : Bool) → (if b then m else m) ≡ m
    if_same true = refl
    if_same false = refl

abbrev pub AtMost : ℤ → ℤ → Type 0
AtMost i j = pos_part i + neg_part j ≤ pos_part j + neg_part i

max_from-above :
    (m : ℤ) (xs : List ℤ)
    → AtMost m (max_from m xs) × ((x : ℤ) → In x xs → AtMost x (max_from m xs))
unfolding max_from
max_from-above m [] = (omega arith, λ x i. elim i [ ])
max_from-above m (x ∷ xs) = elim (Bool-cases (ltb_ℤ m x)) [
  | inl up ↦
      let (a, b) = max_from-above x xs in
      rw up (
        ground (arith, a, up),
        λ y i. elim i [ inl e ↦ subst (λ z. AtMost z (max_from x xs)) e a | inr j ↦ b y j ],
      )
  | inr down ↦
      let (a, b) = max_from-above m xs in
      rw down (
        a,
        λ y i. elim i [
          | inl e ↦ subst (λ z. AtMost z (max_from m xs)) e (ground (arith, a, down))
          | inr j ↦ b y j
        ],
      )
]

min_from-below :
    (m : ℤ) (xs : List ℤ)
    → AtMost (min_from m xs) m × ((x : ℤ) → In x xs → AtMost (min_from m xs) x)
unfolding min_from
min_from-below m [] = (omega arith, λ x i. elim i [ ])
min_from-below m (x ∷ xs) = elim (Bool-cases (ltb_ℤ x m)) [
  | inl down ↦
      let (a, b) = min_from-below x xs in
      rw down (
        ground (arith, a, down),
        λ y i. elim i [ inl e ↦ subst (λ z. AtMost (min_from x xs) z) e a | inr j ↦ b y j ],
      )
  | inr up ↦
      let (a, b) = min_from-below m xs in
      rw up (
        a,
        λ y i. elim i [
          | inl e ↦ subst (λ z. AtMost (min_from m xs) z) e (ground (arith, a, up))
          | inr j ↦ b y j
        ],
      )
]

pub between :
    (c : ℤ) (cs : List ℤ) (i : ℤ)
    → In i (c ∷ cs)
    → AtMost i (max_from c cs) × AtMost (min_from c cs) i
between c cs i (inl e) = (
  subst (λ x. AtMost x (max_from c cs)) e (max_from-above c cs).0,
  subst (λ x. AtMost (min_from c cs) x) e (min_from-below c cs).0,
)
between c cs i (inr j) = ((max_from-above c cs).1 i j, (min_from-below c cs).1 i j)
