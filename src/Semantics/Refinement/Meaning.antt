-- ===== src/Semantics/Refinement/Meaning.antt =====
-- What a valid refinement is.
use causalontology.Prelude.{
  ℕ, suc, ◌+◌, ◌<◌, String, List, [], ◌∷◌, true, false, some, ◌≡◌, inl, inr, ◌↔◌, arith,
  if◌then◌else◌, eqb, Option-cases,
}
use causalontology.Sets.{same_string_set}
use causalontology.Sets.Laws.{SameMembers, same_string_set_iff}
use causalontology.Json.{Fields, Floats, has, at, string_list}
use causalontology.Jcs.{json_equal}
use causalontology.Semantics.Refinement.{
  cro_optional_fields, added_fields, refinement_verdict, valid, refinement_valid,
}

-- The fields that the child has and the parent lacks.
abbrev pub count_added : Fields → Fields → List String → ℕ
count_added child parent [] = 0
count_added child parent (f ∷ fs) =
    (if has parent f then 0 else if has child f then 1 else 0) + count_added child parent fs

-- Every listed field of the parent has an equal value in the child.
abbrev pub Keeps : Floats → Fields → Fields → List String → Type 0
Keeps fl child parent [] = Unit
Keeps fl child parent (f ∷ fs) =
    (has parent f ≡ true → json_equal fl (at child f) (at parent f) ≡ true)
    × Keeps fl child parent fs

module _ (fl : Floats) (child parent : Fields) where
  added_fields_sound :
      (added : ℕ) (fs : List String) (n : ℕ)
      → added_fields fl child parent added fs ≡ some n
      → Keeps fl child parent fs × (n ≡ added + count_added child parent fs)
  unfolding added_fields
  added_fields_sound added [] n h = (tt, ground arith)
  added_fields_sound added (f ∷ fs) n h = ground (
    arith,
    added_fields_sound added fs n,
    added_fields_sound (if has child f then suc added else added) fs n,
  )

  added_fields_complete :
      (added : ℕ) (fs : List String)
      → Keeps fl child parent fs
      → added_fields fl child parent added fs ≡ some (added + count_added child parent fs)
  unfolding added_fields
  added_fields_complete added [] k = ground arith
  added_fields_complete added (f ∷ fs) k = ground (
    arith,
    added_fields_complete added fs,
    added_fields_complete (if has child f then suc added else added) fs,
  )

-- The fields that rule 3 is checked on.
abbrev pub optional_fields : List String
optional_fields = "mechanism" ∷ "temporal" ∷ "modality" ∷ "context" ∷ []

-- Rule 3, on the four optional fields.
pub record Refines (fl : Floats) (child parent : Fields) : Type 0 where
  pub names : json_equal fl (at child "refines") (at parent "id") ≡ true
  pub causes : SameMembers (string_list (at child "causes")) (string_list (at parent "causes"))
  pub effects : SameMembers (string_list (at child "effects")) (string_list (at parent "effects"))
  pub keeps : Keeps fl child parent optional_fields
  pub adds : 0 < count_added child parent optional_fields

verdict-valid :
    (fl : Floats) (child parent : Fields)
    → ((refinement_valid fl child parent).0 ≡ true) ↔ (refinement_verdict fl child parent ≡ valid)
unfolding refinement_valid
verdict-valid fl child parent = ground arith

-- The tests of RefinementValid, in order.
record Passes (fl : Floats) (child parent : Fields) (added : ℕ) : Type 0 where
  named : json_equal fl (at child "refines") (at parent "id") ≡ true
  causes :
      same_string_set (string_list (at child "causes")) (string_list (at parent "causes")) ≡ true
  effects :
      same_string_set (string_list (at child "effects")) (string_list (at parent "effects")) ≡ true
  kept : added_fields fl child parent 0 cro_optional_fields ≡ some added
  more : 0 < added

passes :
    (fl : Floats) (child parent : Fields)
    → refinement_verdict fl child parent ≡ valid
    → (added : ℕ) × Passes fl child parent added
unfolding refinement_verdict
passes fl child parent h =
    elim (Option-cases (added_fields fl child parent 0 cro_optional_fields)) [
      | inl e ↦ absurd (ground arith)
      | inr (n, e) ↦ (n, ground arith)
    ]

valid-Passes :
    (fl : Floats) (child parent : Fields) (added : ℕ)
    → Passes fl child parent added
    → refinement_verdict fl child parent ≡ valid
unfolding refinement_verdict
valid-Passes fl child parent added p =
    let counted : eqb added 0 ≡ false = ground (arith, p.more) in
    rw (p.named, p.causes, p.effects, p.kept, counted)

-- RefinementValid answers true exactly where the child names the parent in refines, both have the same
-- causes and the same effects, each of the fields mechanism, temporal, modality and context that the
-- parent has is equal in the child, and the child has one of these four that the parent lacks.
pub refinement_valid_iff :
    (fl : Floats) (child parent : Fields)
    → ((refinement_valid fl child parent).0 ≡ true) ↔ Refines fl child parent
refinement_valid_iff fl child parent =
    let causes =
      same_string_set_iff (string_list (at child "causes")) (string_list (at parent "causes")) in
    let effects =
      same_string_set_iff (string_list (at child "effects")) (string_list (at parent "effects")) in
    (
      λ h.
          let (added, p) = passes fl child parent ((verdict-valid fl child parent).0 h) in
          let (keeps, count) =
            added_fields_sound fl child parent 0 cro_optional_fields added p.kept in
          record {
            names = p.named;
            causes = causes.0 p.causes;
            effects = effects.0 p.effects;
            keeps = keeps;
            adds = omega (arith, p.more);
          },
      λ r. (verdict-valid fl child parent).1 (
          valid-Passes fl child parent (0 + count_added child parent cro_optional_fields) (record {
            named = r.names;
            causes = causes.1 r.causes;
            effects = effects.1 r.effects;
            kept = added_fields_complete fl child parent 0 cro_optional_fields r.keeps;
            more = omega (arith, r.adds);
          })),
    )
