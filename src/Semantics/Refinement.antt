-- ===== src/Semantics/Refinement.antt =====
-- Rule 3: partial claims and refinements.
pub mod Meaning
use causalontology.Prelude.{
  ℕ, suc, String, List, [], ◌∷◌, Bool, true, false, Option, none, some, if◌then◌else◌, ◌||◌, not,
  eqb, length,
}
use causalontology.Sets.{same_string_set}
use causalontology.Json.{Value, Fields, Floats, get, has, at, string_list}
use causalontology.Jcs.{json_equal}

-- CROOptionalFields
abbrev pub cro_optional_fields : List String
cro_optional_fields = "mechanism" ∷ "temporal" ∷ "modality" ∷ "context" ∷ []

unfoldable pub missing_of : Fields → List String → List String
unfolding has
missing_of cro [] = []
missing_of cro (f ∷ fs) = let rest = missing_of cro fs in if has cro f then rest else f ∷ rest

-- IsPartial
unfoldable pub is_partial : Fields → Bool × List String
unfolding missing_of
is_partial cro =
    let missing = missing_of cro cro_optional_fields in (not (eqb (length missing) 0), missing)

-- the loop of RefinementValid: the number of added fields, `none` where a field changed
unfoldable pub added_fields : Floats → Fields → Fields → ℕ → List String → Option ℕ
unfolding get at has
added_fields fl child parent added [] = some added
added_fields fl child parent added (f ∷ fs) = elim (get parent f) [
  | some v ↦
      let rest = added_fields fl child parent added fs in
      if json_equal fl (at child f) v then rest else none
  | none ↦ added_fields fl child parent (if has child f then suc added else added) fs
]

pub data Verdict : Type 0 where
  not_named changed_ends changed_field added_nothing valid : Verdict

-- the verdict of RefinementValid; the text that goes with each is `reason`
unfoldable pub refinement_verdict : Floats → Fields → Fields → Verdict
refinement_verdict fl child parent =
    if json_equal fl (at child "refines") (at parent "id")
    then (if not
            (same_string_set (string_list (at child "causes")) (string_list (at parent "causes")))
          || not (
              same_string_set (string_list (at child "effects"))
                (string_list (at parent "effects")))
        then changed_ends
        else elim (added_fields fl child parent 0 cro_optional_fields) [
          | none ↦ changed_field
          | some added ↦ if eqb added 0 then added_nothing else valid
        ])
    else not_named

unfoldable pub reason : Verdict → Bool × String
reason not_named = (false, "child does not name the parent in refines")
reason changed_ends = (false, "a refinement must keep the parent's causes and effects")
reason changed_field =
    (false, "a refinement may not change a field the parent specified; this is a rival claim")
reason added_nothing = (false, "a refinement must add at least one unspecified field")
reason valid = (true, "valid refinement")

-- RefinementValid
unfoldable pub refinement_valid : Floats → Fields → Fields → Bool × String
unfolding reason
refinement_valid fl child parent = reason (refinement_verdict fl child parent)
