-- ===== src/Semantics/Tokens/Shapes.antt =====
-- The datatype of a value, which StateGaps (19) compares.
use causalontology.Prelude.{String, true, false, ◌≡◌, ◌↔◌, ◌⊎◌, inl, inr, refl, Bool-cases, sym}
use causalontology.Json.{has, Fields}
use causalontology.Semantics.Tokens.{shape_of}

-- The datatype that a value is of, by its first field of "quantity", "categorical" and "boolean"; the
-- empty text for a value with none of them.
abbrev pub IsOfType : Fields → String → Type 0
IsOfType value d =
    ((has value "quantity" ≡ true) × (d ≡ "quantity"))
    ⊎ ((has value "quantity" ≡ false) × (has value "categorical" ≡ true) × (d ≡ "categorical"))
    ⊎ ((has value "quantity" ≡ false)
        × (has value "categorical" ≡ false)
        × (has value "boolean" ≡ true)
        × (d ≡ "boolean"))
    ⊎ ((has value "quantity" ≡ false)
        × (has value "categorical" ≡ false)
        × (has value "boolean" ≡ false)
        × (d ≡ ""))

pub shape_of-IsOfType : (value : Fields) (d : String) → (shape_of value ≡ d) ↔ IsOfType value d
unfolding shape_of
shape_of-IsOfType value d = elim (Bool-cases (has value "quantity")) [
  | inl q ↦ rw q (
    λ h. inl (refl, sym h),
    λ s. elim s [
      | inl (_, e) ↦ sym e
      | inr (inl (n, _, _)) ↦ absurd (cc)
      | inr (inr (inl (n, _, _, _))) ↦ absurd (cc)
      | inr (inr (inr (n, _, _, _))) ↦ absurd (cc)
    ],
  )
  | inr q ↦ elim (Bool-cases (has value "categorical")) [
    | inl c ↦
        rw (q, c)
          (
            λ h. inr (inl (refl, refl, sym h)),
            λ s. elim s [
              | inl (n, _) ↦ absurd (cc)
              | inr (inl (_, _, e)) ↦ sym e
              | inr (inr (inl (_, n, _, _))) ↦ absurd (cc)
              | inr (inr (inr (_, n, _, _))) ↦ absurd (cc)
            ],
          )
    | inr c ↦ elim (Bool-cases (has value "boolean")) [
      | inl b ↦
          rw (q, c, b)
            (
              λ h. inr (inr (inl (refl, refl, refl, sym h))),
              λ s. elim s [
                | inl (n, _) ↦ absurd (cc)
                | inr (inl (_, n, _)) ↦ absurd (cc)
                | inr (inr (inl (_, _, _, e))) ↦ sym e
                | inr (inr (inr (_, _, n, _))) ↦ absurd (cc)
              ],
            )
      | inr b ↦
          rw (q, c, b)
            (
              λ h. inr (inr (inr (refl, refl, refl, sym h))),
              λ s. elim s [
                | inl (n, _) ↦ absurd (cc)
                | inr (inl (_, n, _)) ↦ absurd (cc)
                | inr (inr (inl (_, _, n, _))) ↦ absurd (cc)
                | inr (inr (inr (_, _, _, e))) ↦ sym e
              ],
            )
    ]
  ]
]
