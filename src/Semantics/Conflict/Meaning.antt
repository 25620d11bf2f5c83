-- ===== src/Semantics/Conflict/Meaning.antt =====
-- What a conflict says about the two claims.
use causalontology.Prelude.{String, true, eq_iff, ◌≡◌, ◌⊎◌, arith, ◌↔◌}
use causalontology.Sets.Laws.{SameMembers, same_string_set_iff}
use causalontology.Json.{Fields, Floats, at, string_list, text_at}
use causalontology.Semantics.Windows.{window_overlap}
use causalontology.Semantics.Conflict.{
  contexts_compatible, is_positive, modalities_oppose, conflicts,
}

-- One claim preventive, the other of a positive modality.
abbrev pub Opposed : String → String → Type 0
Opposed a b =
    ((a ≡ "preventive") × (is_positive b ≡ true)) ⊎ ((b ≡ "preventive") × (is_positive a ≡ true))

-- The formal test of rule 6.
pub record Conflict (fl : Floats) (a b : Fields) : Type 0 where
  pub causes : SameMembers (string_list (at a "causes")) (string_list (at b "causes"))
  pub effects : SameMembers (string_list (at a "effects")) (string_list (at b "effects"))
  pub contexts : contexts_compatible a b ≡ true
  pub windows : window_overlap fl a b ≡ true
  pub modalities : Opposed (text_at a "modality") (text_at b "modality")

oppose_iff : (a b : String) → (modalities_oppose a b ≡ true) ↔ Opposed a b
unfolding modalities_oppose
oppose_iff a b = (
  λ h. ground (arith, eq_iff a "preventive", eq_iff b "preventive"),
  λ o. ground (arith, eq_iff a "preventive", eq_iff b "preventive"),
)

-- Conflicts answers true exactly when the five conditions of rule 6 hold.
pub conflicts_iff : (fl : Floats) (a b : Fields) → (conflicts fl a b ≡ true) ↔ Conflict fl a b
unfolding conflicts
conflicts_iff fl a b =
    let causes = same_string_set_iff (string_list (at a "causes")) (string_list (at b "causes")) in
    let effects =
      same_string_set_iff (string_list (at a "effects")) (string_list (at b "effects")) in
    let oppose = oppose_iff (text_at a "modality") (text_at b "modality") in
    (
      λ h. record {
        causes = causes.0 (ground arith);
        effects = effects.0 (ground arith);
        contexts = ground arith;
        windows = ground arith;
        modalities = oppose.0 (ground arith);
      },
      λ c.
          rw (causes.1 c.causes, effects.1 c.effects, c.contexts, c.windows)
            (oppose.1 c.modalities),
    )
