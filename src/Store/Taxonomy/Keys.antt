-- ===== src/Store/Taxonomy/Keys.antt =====
-- The order of the records by (timestamp, id), and the record that the cycle-breaking picks.
use causalontology.Prelude.{
  String, List, [], ◌∷◌, true, false, eq_iff, ◌≡◌, ◌⊎◌, inl, inr, refl, arith, text_lt,
  text_lt_irrefl, text_lt_trans, text_lt_total, Bool-cases, subst,
}
use causalontology.Json.{Fields, text_at}
use causalontology.Store.Cycles.Trails.{In}
use causalontology.Store.Taxonomy.{taxonomy_key_less, greatest}

text_lt_neg_trans :
    (s t u : String) → text_lt s t ≡ false → text_lt t u ≡ false → text_lt s u ≡ false
text_lt_neg_trans s t u h k = elim (Bool-cases (text_lt s u)) [
  | inr e ↦ e
  | inl e ↦ elim (Bool-cases (text_lt t s)) [
    | inl back ↦ absurd (ground (arith, text_lt_trans t s u))
    | inr even ↦ let same = text_lt_total s t h even in absurd (ground (arith, same))
  ]
]

pub key_less_neg_trans :
    (a b c : Fields)
    → taxonomy_key_less a b ≡ false
    → taxonomy_key_less b c ≡ false
    → taxonomy_key_less a c ≡ false
unfolding taxonomy_key_less
key_less_neg_trans a b c h k = ground (
  arith,
  eq_iff (text_at a "timestamp") (text_at b "timestamp"),
  eq_iff (text_at b "timestamp") (text_at c "timestamp"),
  eq_iff (text_at a "timestamp") (text_at c "timestamp"),
  text_lt_neg_trans (text_at a "timestamp") (text_at b "timestamp") (text_at c "timestamp"),
  text_lt_neg_trans (text_at a "id") (text_at b "id") (text_at c "id"),
  text_lt_total (text_at a "timestamp") (text_at b "timestamp"),
  text_lt_total (text_at b "timestamp") (text_at c "timestamp"),
  text_lt_irrefl (text_at a "timestamp"),
  text_lt_trans (text_at b "timestamp") (text_at a "timestamp") (text_at b "timestamp"),
)

pub key_less_asym : (a b : Fields) → taxonomy_key_less a b ≡ true → taxonomy_key_less b a ≡ false
unfolding taxonomy_key_less
key_less_asym a b h = ground (
  arith,
  eq_iff (text_at a "timestamp") (text_at b "timestamp"),
  eq_iff (text_at b "timestamp") (text_at a "timestamp"),
  text_lt_trans (text_at a "timestamp") (text_at b "timestamp") (text_at a "timestamp"),
  text_lt_trans (text_at a "id") (text_at b "id") (text_at a "id"),
  text_lt_irrefl (text_at a "timestamp"),
  text_lt_irrefl (text_at a "id"),
)

greatest-up :
    (first next : Fields) (cycle : List Fields)
    → taxonomy_key_less first next ≡ true
    → greatest next cycle ≡ greatest first (next ∷ cycle)
unfolding greatest
greatest-up first next cycle h = rw h

greatest-down :
    (first next : Fields) (cycle : List Fields)
    → taxonomy_key_less first next ≡ false
    → greatest first cycle ≡ greatest first (next ∷ cycle)
unfolding greatest
greatest-down first next cycle h = rw h

-- The one record comes before the other: its timestamp is the lesser text, or the timestamps are
-- equal and its id is.
abbrev pub Before : Fields → Fields → Type 0
Before a b =
    (text_lt (text_at a "timestamp") (text_at b "timestamp") ≡ true)
    ⊎ ((text_at a "timestamp" ≡ text_at b "timestamp")
        × (text_lt (text_at a "id") (text_at b "id") ≡ true))

key_less-Before : (a b : Fields) → Before a b → taxonomy_key_less a b ≡ true
unfolding taxonomy_key_less
key_less-Before a b h = ground (
  arith,
  h,
  eq_iff (text_at a "timestamp") (text_at b "timestamp"),
  text_lt_irrefl (text_at a "timestamp"),
)

-- One of the records, and before none of them.
abbrev pub IsGreatest : Fields → List Fields → Type 0
IsGreatest g recs = In g recs × ((rec : Fields) → In rec recs → Before g rec → ⊥)

-- The same, by the test of the code.
abbrev IsTop : Fields → List Fields → Type 0
IsTop g recs = In g recs × ((rec : Fields) → In rec recs → taxonomy_key_less g rec ≡ false)

greatest-IsTop :
    (first : Fields) (cycle : List Fields) → IsTop (greatest first cycle) (first ∷ cycle)
greatest-IsTop first [] =
    unfold greatest in (inl refl, λ rec i. elim i [ inl e ↦ irrefl e | inr j ↦ elim j [ ] ])
  where
    irrefl : {rec : Fields} → first ≡ rec → taxonomy_key_less first rec ≡ false
    irrefl e = elim (Bool-cases (taxonomy_key_less first first)) [
      | inl bad ↦ subst (λ r. taxonomy_key_less first r ≡ false) e (key_less_asym first first bad)
      | inr good ↦ subst (λ r. taxonomy_key_less first r ≡ false) e good
    ]
greatest-IsTop first (next ∷ cycle) = elim (Bool-cases (taxonomy_key_less first next)) [
  | inl up ↦
      let (i, top) = greatest-IsTop next cycle in
      subst (λ g. IsTop g (first ∷ next ∷ cycle)) (greatest-up first next cycle up)
        (
          inr i,
          λ rec j. elim j [
            | inr k ↦ top rec k
            | inl e ↦
                subst (λ r. taxonomy_key_less (greatest next cycle) r ≡ false) e
                  (key_less_neg_trans (greatest next cycle) next first (top next (inl refl))
                    (key_less_asym first next up))
          ],
        )
  | inr down ↦
      let (i, top) = greatest-IsTop first cycle in
      subst (λ g. IsTop g (first ∷ next ∷ cycle)) (greatest-down first next cycle down)
        (
          elim i [ inl e ↦ inl e | inr k ↦ inr (inr k) ],
          λ rec j. elim j [
            | inl e ↦ top rec (inl e)
            | inr (inl e) ↦
                subst (λ r. taxonomy_key_less (greatest first cycle) r ≡ false) e
                  (key_less_neg_trans (greatest first cycle) first next (top first (inl refl)) down)
            | inr (inr k) ↦ top rec (inr k)
          ],
        )
]

-- The record that is picked.
pub greatest-IsGreatest :
    (first : Fields) (cycle : List Fields) → IsGreatest (greatest first cycle) (first ∷ cycle)
greatest-IsGreatest first cycle =
    let (i, top) = greatest-IsTop first cycle in
    (
      i,
      λ rec j b.
          let t = key_less-Before (greatest first cycle) rec b in let f = top rec j in absurd (cc),
    )
