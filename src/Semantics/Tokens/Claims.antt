-- ===== src/Semantics/Tokens/Claims.antt =====
-- What the rules on tokens accept: StateGaps (19), CoveringLawMismatch (20), Retrocausal (21).
use causalontology.Prelude.{
  String, List, [], ◌∷◌, Bool, true, false, ◌==◌, eq_iff, ◌≡◌, ◌≢◌, ◌↔◌, ◌⊎◌, inl, inr, refl, arith,
  Map, Bool-cases, any, text_lt, subst, sym,
}
use causalontology.Sets.{contains_string}
use causalontology.Sets.Laws.{contains-to_string_set}
use causalontology.Json.{Fields, end, field, at, string_list, text_at, object_of}
use causalontology.Semantics.Rules.{object_at}
use causalontology.Semantics.Tokens.{
  value_type_mismatch, unit_mismatch, shape_of, state_gaps, some_outside, covering_law_mismatch,
  start_of, retrocausal,
}
use causalontology.Semantics.Tokens.Starts.{Starts, start_of-Starts, start_once}
use causalontology.Semantics.Tokens.Shapes.{IsOfType, shape_of-IsOfType}

-- A member of the list with the property.
abbrev pub Exists : (String → Type 0) → List String → Type 0
Exists P xs = (x : String) × (contains_string xs x ≡ true) × P x

Exists-later :
    (P : String → Type 0) (y : String) (xs : List String) → Exists P xs → Exists P (y ∷ xs)
unfolding contains_string
Exists-later P y xs (x, i, p) = (x, ground arith, p)

Exists-first : (P : String → Type 0) (y : String) (xs : List String) → P y → Exists P (y ∷ xs)
unfolding contains_string
Exists-first P y xs p = (y, ground (arith, eq_iff y y), p)

Exists-tail :
    (P : String → Type 0) (y : String) (xs : List String) → Exists P (y ∷ xs) → P y ⊎ Exists P xs
unfolding contains_string
Exists-tail P y xs (x, i, p) = elim (Bool-cases (y == x)) [
  | inl same ↦ inl (subst P (sym ((eq_iff y x).0 same)) p)
  | inr other ↦ inr (x, ground arith, p)
]

any_iff :
    (test : String → Bool) (P : String → Type 0)
    → ((x : String) → (test x ≡ true) ↔ P x)
    → (xs : List String) → (any test xs ≡ true) ↔ Exists P xs
any_iff test P m [] = (λ h. absurd (cc), λ (x, i, p). absurd (unfold contains_string in cc))
any_iff test P m (y ∷ xs) =
    let (fwd, bwd) = any_iff test P m xs in
    elim (Bool-cases (test y)) [
      | inl here ↦ rw here (λ _. Exists-first P y xs ((m y).0 here), λ _. refl)
      | inr there ↦ rw there (
        λ h. Exists-later P y xs (fwd h),
        λ e. elim (Exists-tail P y xs e) [
          | inl p ↦ let t = (m y).1 p in absurd (cc)
          | inr r ↦ bwd r
        ],
      )
    ]

-- The effect starts before the cause, as texts are ordered.
abbrev pub Precedes : Map Fields → String → String → Type 0
Precedes token_map e c =
    (a : String) × (b : String) × Starts token_map e a × Starts token_map c b × (text_lt a b ≡ true)

retrocausal-Precedes :
    (token_map : Map Fields) (e c : String)
    → (text_lt (start_of token_map e) (start_of token_map c) ≡ true) ↔ Precedes token_map e c
retrocausal-Precedes token_map e c = (
  λ h. (
    start_of token_map e,
    start_of token_map c,
    start_of-Starts token_map e,
    start_of-Starts token_map c,
    h,
  ),
  λ (a, b, p, q, h). rw (start_once token_map e a p, start_once token_map c b q) h,
)

-- Retrocausal answers true exactly when some cause token and some effect token are such that the text
-- at which the effect starts is less than the text at which the cause starts. A token starts at the
-- text `start` of its `interval`, and at the empty text where there is no such token, object or text.
pub retrocausal_iff :
    (tcc : Fields) (token_map : Map Fields)
    → (retrocausal tcc token_map ≡ true)
      ↔ Exists
          (λ c. Exists (λ e. Precedes token_map e c) (string_list (at tcc "effects")))
          (string_list (at tcc "causes"))
unfolding retrocausal
retrocausal_iff tcc token_map =
    any_iff _ (λ c. Exists (λ e. Precedes token_map e c) (string_list (at tcc "effects")))
      (λ c.
        any_iff _ (λ e. Precedes token_map e c) (λ e. retrocausal-Precedes token_map e c)
          (string_list (at tcc "effects")))
      (string_list (at tcc "causes"))

-- What the token instantiates is not among the types.
abbrev pub Outside : Map Fields → List String → String → Type 0
Outside token_map types id =
    contains_string types (text_at (object_of token_map id) "instantiates") ≡ false

some_outside_iff :
    (token_map : Map Fields) (types ids : List String)
    → (some_outside token_map types ids ≡ true) ↔ Exists (Outside token_map types) ids
unfolding some_outside
some_outside_iff token_map types [] =
    (λ h. absurd (cc), λ (x, i, p). absurd (unfold contains_string in cc))
some_outside_iff token_map types (y ∷ ids) =
    let (fwd, bwd) = some_outside_iff token_map types ids in
    let same = contains-to_string_set types (text_at (object_of token_map y) "instantiates") in
    elim (Bool-cases (contains_string types (text_at (object_of token_map y) "instantiates"))) [
      | inr out ↦ rw (same, out) (λ _. Exists-first (Outside token_map types) y ids out, λ _. refl)
      | inl in_there ↦
          rw (same, in_there)
            (
              λ h. Exists-later (Outside token_map types) y ids (fwd h),
              λ e. elim (Exists-tail (Outside token_map types) y ids e) [
                | inl p ↦ absurd (cc)
                | inr r ↦ bwd r
              ],
            )
    ]

-- CoveringLawMismatch answers true exactly when the law is not empty and some cause token
-- instantiates none of its causes, or some effect token none of its effects.
pub covering_law_mismatch_iff :
    (tcc : Fields) (token_map : Map Fields) (law : Fields)
    → (covering_law_mismatch tcc token_map law ≡ true) ↔ (
        (law ≢ end)
        × (Exists
              (Outside token_map (string_list (at law "causes")))
              (string_list (at tcc "causes"))
            ⊎ Exists
                (Outside token_map (string_list (at law "effects")))
                (string_list (at tcc "effects"))))
unfolding covering_law_mismatch
covering_law_mismatch_iff tcc token_map end = (λ h. absurd (cc), λ (n, _). absurd (n refl))
covering_law_mismatch_iff tcc token_map (field k v law) =
    let full = field k v law in
    let causes =
      some_outside_iff token_map (string_list (at full "causes")) (string_list (at tcc "causes")) in
    let effects =
      some_outside_iff token_map (string_list (at full "effects"))
        (string_list (at tcc "effects")) in
    elim (Bool-cases
      (some_outside token_map (string_list (at full "causes")) (string_list (at tcc "causes")))) [
        | inl a ↦ rw a (λ _. (λ e. cc, inl (causes.0 a)), λ _. refl)
        | inr b ↦ rw b (
          λ h. (λ e. cc, inr (effects.0 h)),
          λ (_, s). elim s [ inl c ↦ let t = causes.1 c in absurd (cc) | inr e ↦ effects.1 e ],
        )
      ]

-- Rule 19: which gaps StateGaps shows, and when.
abbrev pub ShowsByRule19 : Fields → Fields → Type 0
ShowsByRule19 state quality =
    ((state_gaps state quality ≡ value_type_mismatch ∷ [])
      ↔ ¬ IsOfType (object_at state "value") (text_at quality "datatype"))
    × ((state_gaps state quality ≡ unit_mismatch ∷ []) ↔ (
        IsOfType (object_at state "value") (text_at quality "datatype")
        × (text_at quality "datatype" ≡ "quantity")
        × (text_at (object_at state "value") "unit" ≢ text_at quality "unit")))
    × ((state_gaps state quality ≡ []) ↔ (
        IsOfType (object_at state "value") (text_at quality "datatype")
        × ((text_at quality "datatype" ≢ "quantity")
            ⊎ (text_at (object_at state "value") "unit" ≡ text_at quality "unit"))))

abbrev ByShape : Fields → Fields → Type 0
ByShape state quality =
    ((state_gaps state quality ≡ value_type_mismatch ∷ [])
      ↔ (shape_of (object_at state "value") ≢ text_at quality "datatype"))
    × ((state_gaps state quality ≡ unit_mismatch ∷ []) ↔ (
        (shape_of (object_at state "value") ≡ text_at quality "datatype")
        × (text_at quality "datatype" ≡ "quantity")
        × (text_at (object_at state "value") "unit" ≢ text_at quality "unit")))
    × ((state_gaps state quality ≡ []) ↔ (
        (shape_of (object_at state "value") ≡ text_at quality "datatype")
        × ((text_at quality "datatype" ≢ "quantity")
            ⊎ (text_at (object_at state "value") "unit" ≡ text_at quality "unit"))))

state_gaps-ByShape : (state quality : Fields) → ByShape state quality
unfolding state_gaps
state_gaps-ByShape state quality = ground (
  arith,
  eq_iff (shape_of (object_at state "value")) (text_at quality "datatype"),
  eq_iff (text_at quality "datatype") "quantity",
  eq_iff (text_at (object_at state "value") "unit") (text_at quality "unit"),
)

-- StateGaps shows a value_type_mismatch exactly for a value that is not of the datatype of the
-- quality, by the first of the fields quantity, categorical and boolean that it has; a unit_mismatch
-- exactly for a quantity, of that datatype, in another unit than the quality's; and no gap exactly in
-- the other cases.
pub state_gaps_lem : (state quality : Fields) → ShowsByRule19 state quality
state_gaps_lem state quality =
    let (a, b, c) = state_gaps-ByShape state quality in
    let (is, is') = shape_of-IsOfType (object_at state "value") (text_at quality "datatype") in
    (
      (λ h t. a.0 h (is' t), λ n. a.1 (λ e. n (is e))),
      (λ h. let (x, y, z) = b.0 h in (is x, y, z), λ (x, y, z). b.1 (is' x, y, z)),
      (λ h. let (x, y) = c.0 h in (is x, y), λ (x, y). c.1 (is' x, y)),
    )
