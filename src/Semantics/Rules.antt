-- ===== src/Semantics/Rules.antt =====
-- ValidateSemantics: the rules that one object shows by itself.
mod Texts
unfoldable pub use Texts.{illegal_field, wrong_entry, scheme_prefix}
use causalontology.Prelude.{
  String, List, [], ◌∷◌, ◌++◌, Bool, true, false, Option, none, some, ◌==◌, if◌then◌else◌, ◌&&◌,
  ◌||◌, not, Result, ok, ◌>>=◌, has_prefix,
}
use causalontology.Sets.{contains_string}
use causalontology.Json.{
  Value, null, Fields, end, Floats, has, at, as_text, as_bool, as_object, as_float, string_list,
  text_at,
}
use causalontology.Canonical.{before_colon, kind_of_prefix, resolve_kind}
use causalontology.Semantics.Conflict.{is_empty, mechanism_present}

-- `if test { reasons = append(reasons, text) }`
unfoldable pub reason_if : Bool → String → List String
reason_if true text = text ∷ []
reason_if false text = []

-- kindOfID
unfoldable pub kind_of_id : String → String
kind_of_id identifier =
    let scheme : String = elim (before_colon identifier) [
      | none ↦ identifier
      | some front ↦ front
    ] in
    elim (kind_of_prefix scheme) [ none ↦ "" | some kind ↦ kind ]

-- a temporal window whose bounds are both numbers and out of order
unfoldable pub delays_reversed : Floats → Option Fields → Bool
delays_reversed fl none = false
delays_reversed fl (some temporal) = elim (as_float fl (at temporal "minimum_delay")) [
  | none ↦ false
  | some minimum ↦ elim (as_float fl (at temporal "maximum_delay")) [
    | none ↦ false
    | some maximum ↦ fl.lt maximum minimum
  ]
]

unfoldable pub is_true : Option Bool → Bool
is_true none = false
is_true (some b) = b

-- the clauses on a causal_relation_object
unfoldable pub cro_reasons : Floats → Fields → List String
cro_reasons fl m =
    let id = text_at m "id" in
    reason_if (delays_reversed fl (as_object (at m "temporal")))
      "minimum_delay must be <= maximum_delay"
    ++ (reason_if (not (id == "") && contains_string (string_list (at m "mechanism")) id)
          "mechanism must be acyclic (a Causal Relation Object may not contain itself)"
        ++ (reason_if (not (id == "") && text_at m "refines" == id) "refines must be acyclic"
            ++ reason_if (is_true (as_bool (at m "skips")) && mechanism_present m)
                "contradictory_skip: skips is true but a mechanism is present"))

-- enrichmentFieldRules, EnrichmentFieldSpec
unfoldable pub enrichment_field_spec : String → Option (List String × String)
enrichment_field_spec field =
    if field == "aliases"
    then some ("occurrent" ∷ "continuant" ∷ [], "alias")
    else if field == "participants"
    then some ("occurrent" ∷ [], "continuant")
    else if field == "subsumes"
    then some ("continuant" ∷ [], "continuant")
    else if field == "part_of"
    then some ("continuant" ∷ [], "continuant")
    else if field == "realized_in"
    then some ("realizable" ∷ [], "occurrent")
    else if field == "occurrent_subsumes"
    then some ("occurrent" ∷ [], "occurrent")
    else if field == "occurrent_part_of"
    then some ("occurrent" ∷ [], "occurrent")
    else none

-- a language-tagged text object
unfoldable pub is_alias_entry : Option Fields → Bool
is_alias_entry none = false
is_alias_entry (some entry) = has entry "lang" && has entry "text"

unfoldable pub is_identifier_of : String → Option String → Bool
is_identifier_of shape none = false
is_identifier_of shape (some text) = has_prefix text (scheme_prefix shape)

-- the clause on the entry of an enrichment
unfoldable pub entry_reasons : String → String → Value → List String
entry_reasons field shape entry =
    if shape == "alias"
    then reason_if (not (is_alias_entry (as_object entry)))
        "an aliases entry must be a language-tagged text object"
    else reason_if (not (is_identifier_of shape (as_text entry))) (wrong_entry field shape)

-- rule 12
unfoldable pub enrichment_reasons : Fields → List String
enrichment_reasons m =
    let field = text_at m "field" in
    elim (enrichment_field_spec field) [
      | none ↦ []
      | some (legal_kinds, shape) ↦
          let about_kind = kind_of_id (text_at m "about") in
          reason_if (not (about_kind == "") && not (contains_string legal_kinds about_kind))
            (illegal_field field about_kind)
          ++ entry_reasons field shape (at m "entry")
    ]

unfoldable pub is_null : Value → Bool
is_null null = true
is_null _ = false

-- rule 22, local clause: a missing chain reads nil
unfoldable pub seam_reasons : Fields → List String
seam_reasons m =
    reason_if (not (is_null (at m "chain")) && text_at m "mechanism_status" == "absent")
      "contradictory_seam: a drawn chain cannot carry mechanism_status 'absent' (a drawn mechanism is not absent)"

-- `interval, _ := obj["interval"].(map[string]any)`
unfoldable pub object_at : Fields → String → Fields
object_at m key = elim (as_object (at m key)) [ none ↦ end | some n ↦ n ]

-- rule 24, local clause
unfoldable pub prediction_reasons : Fields → List String
prediction_reasons m =
    let interval = object_at m "interval" in
    let wall = has interval "start" in
    let tick = has interval "start_tick" in
    reason_if (wall && tick)
      "dimension_conflict: a predicted interval must carry exactly one temporal dimension, not a wall-clock start AND an ordinal start_tick"
    ++ reason_if (not wall && not tick)
        "missing_dimension: a predicted interval must carry a wall-clock start or an ordinal start_tick"

-- the reasons for one kind
unfoldable pub reasons_for : Floats → Fields → String → List String
reasons_for fl m kind =
    (if kind == "causal_relation_object" then cro_reasons fl m else [])
    ++ ((if kind == "enrichment" then enrichment_reasons m else [])
        ++ ((if kind == "cross_stratal_seam" then seam_reasons m else [])
            ++ (if kind == "predicted_occurrence" then prediction_reasons m else [])))

-- ValidateSemantics
unfoldable pub validate_semantics : Floats → Fields → String → Result (Bool × List String)
validate_semantics fl m kind = resolve_kind m kind >>= λ k.
    (let reasons = reasons_for fl m k in ok (is_empty reasons, reasons))
