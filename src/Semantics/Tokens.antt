-- ===== src/Semantics/Tokens.antt =====
-- Rules on tokens and wiring: ConduitWellformed (17), StateGaps (19), CoveringLawMismatch (20),
-- PredictionPairingMismatch (24) and Retrocausal (21).
pub mod Conduits
pub mod Starts
pub mod Shapes
pub mod Claims
use causalontology.Prelude.{
  String, List, [], ◌∷◌, Bool, true, false, Option, none, some, ◌==◌, if◌then◌else◌, ◌&&◌, ◌||◌,
  not, Map, find, all, any, text_lt,
}
use causalontology.Sets.{contains_string, to_string_set}
use causalontology.Json.{Fields, end, field, at, has, string_list, text_at, object_of}
use causalontology.Semantics.Rules.{object_at, is_null}

pub data ConduitFault : Type 0 where
  dangling_port from_not_out to_not_in carries_not_accepted_by_from carries_not_accepted_by_to
        effects_not_accepted_by_to :
      ConduitFault

-- `for _, o := range ids { if !accepted[o] ...`
unfoldable pub accepts_all : List String → List String → Bool
accepts_all accepted ids = all (contains_string (to_string_set accepted)) ids

-- clause (d), with its relaxation for a conduit that names a transform
unfoldable pub transform_fault : Fields → Fields → Map Fields → Option ConduitFault
transform_fault conduit to cro_map =
    let transform = text_at conduit "transform" in
    let accepted = string_list (at to "accepts") in
    if transform == ""
    then (if accepts_all accepted (string_list (at conduit "carries"))
        then none
        else some carries_not_accepted_by_to)
    else elim (find cro_map transform) [
      | none ↦ none
      | some law ↦
          if accepts_all accepted (string_list (at law "effects"))
          then none
          else some effects_not_accepted_by_to
    ]

-- the clauses of ConduitWellformed: its answer as the clause that fails, `none` where it answers true
unfoldable pub conduit_fault : Fields → Map Fields → Map Fields → Option ConduitFault
conduit_fault conduit port_map cro_map = elim (find port_map (text_at conduit "from")) [
  | none ↦ some dangling_port
  | some frm ↦ elim (find port_map (text_at conduit "to")) [
    | none ↦ some dangling_port
    | some to ↦
        let from_dir = text_at frm "direction" in
        let to_dir = text_at to "direction" in
        if not (from_dir == "out") && not (from_dir == "bidirectional")
        then some from_not_out
        else if not (to_dir == "in") && not (to_dir == "bidirectional")
        then some to_not_in
        else if accepts_all (string_list (at frm "accepts")) (string_list (at conduit "carries"))
        then transform_fault conduit to cro_map
        else some carries_not_accepted_by_from
  ]
]

pub data StateGap : Type 0 where
  value_type_mismatch unit_mismatch : StateGap

-- the shape of a value; a value that is no object reads as the nil map
unfoldable pub shape_of : Fields → String
shape_of value =
    if has value "quantity"
    then "quantity"
    else if has value "categorical"
    then "categorical"
    else if has value "boolean"
    then "boolean"
    else ""

-- StateGaps
unfoldable pub state_gaps : Fields → Fields → List StateGap
state_gaps state quality =
    let value = object_at state "value" in
    let datatype = text_at quality "datatype" in
    if not (shape_of value == datatype)
    then value_type_mismatch ∷ []
    else if datatype == "quantity" && not (text_at value "unit" == text_at quality "unit")
    then unit_mismatch ∷ []
    else []

-- a token of the list that instantiates none of the types
unfoldable pub some_outside : Map Fields → List String → List String → Bool
some_outside token_map types [] = false
some_outside token_map types (id ∷ ids) =
    let rest = some_outside token_map types ids in
    not (contains_string (to_string_set types) (text_at (object_of token_map id) "instantiates"))
    || rest

-- CoveringLawMismatch
unfoldable pub covering_law_mismatch : Fields → Map Fields → Fields → Bool
covering_law_mismatch tcc token_map end = false
covering_law_mismatch tcc token_map (field k v law) =
    some_outside token_map (string_list (at (field k v law) "causes"))
      (string_list (at tcc "causes"))
    || some_outside token_map (string_list (at (field k v law) "effects"))
        (string_list (at tcc "effects"))

-- PredictionPairingMismatch; `observed` is `none` where the caller hands nil
unfoldable pub prediction_pairing_mismatch : Fields → Fields → Option Fields → Bool
prediction_pairing_mismatch error_rec predicted none = false
prediction_pairing_mismatch error_rec predicted (some observed) =
    not (is_null (at error_rec "observed"))
    && not (text_at observed "instantiates" == text_at predicted "instantiates")

-- startOf
unfoldable pub start_of : Map Fields → String → String
start_of token_map id = text_at (object_at (object_of token_map id) "interval") "start"

-- Retrocausal
unfoldable pub retrocausal : Fields → Map Fields → Bool
retrocausal tcc token_map =
    any
      (λ c.
        any (λ e. text_lt (start_of token_map e) (start_of token_map c))
          (string_list (at tcc "effects")))
      (string_list (at tcc "causes"))

-- the texts that ConduitWellformed returns
unfoldable pub conduit_reason : ConduitFault → String
conduit_reason dangling_port = "malformed_conduit: dangling port reference"
conduit_reason from_not_out = "malformed_conduit: from port is not out/bidirectional (a)"
conduit_reason to_not_in = "malformed_conduit: to port is not in/bidirectional (b)"
conduit_reason carries_not_accepted_by_from = "malformed_conduit: carries not accepted by from (c)"
conduit_reason carries_not_accepted_by_to = "malformed_conduit: carries not accepted by to (d)"
conduit_reason effects_not_accepted_by_to =
    "malformed_conduit: transform effects not accepted by to (d, relaxed per N4.2.2)"

-- ConduitWellformed
unfoldable pub conduit_wellformed : Fields → Map Fields → Map Fields → Bool × String
conduit_wellformed conduit port_map cro_map = elim (conduit_fault conduit port_map cro_map) [
  | none ↦ (true, "well-formed conduit")
  | some fault ↦ (false, conduit_reason fault)
]
