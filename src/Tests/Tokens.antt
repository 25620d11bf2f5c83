-- ===== src/Tests/Tokens.antt =====
-- The rules on tokens and wiring on small objects.
use causalontology.Prelude.{String, [], ◌∷◌, true, ◌≡◌, ◌≢◌, ◌↔◌, ◌⊎◌, Map}
use causalontology.Json.{Value, str, obj, arr, nil, cons, Fields, end, field, at, string_list}
use causalontology.Semantics.Tokens.{retrocausal, covering_law_mismatch, conduit_wellformed}
use causalontology.Semantics.Tokens.Claims.{
  Exists, Precedes, Outside, ShowsByRule19, retrocausal_iff, covering_law_mismatch_iff,
  state_gaps_lem,
}
use causalontology.Semantics.Tokens.Conduits.{IsConduit, conduit_wellformed_iff}

abbrev texts : String → Value
texts s = arr (cons (str s) nil)

abbrev port : String → Fields
port direction = field "direction" (str direction) (field "accepts" (texts "water") end)

abbrev ports : Map Fields
ports = ("tap", port "out") ∷ ("sink", port "in") ∷ []

abbrev pipe : Fields
pipe = field "from" (str "tap") (field "to" (str "sink") (field "carries" (texts "water") end))

conduit_wellformed_iff_example :
    ((conduit_wellformed pipe ports []).0 ≡ true) ↔ IsConduit pipe ports []
conduit_wellformed_iff_example = conduit_wellformed_iff pipe ports []

abbrev token : String → String → Fields
token kind start =
    field "instantiates" (str kind) (field "interval" (obj (field "start" (str start) end)) end)

abbrev tokens : Map Fields
tokens = ("t1", token "rain" "2020") ∷ ("t2", token "flood" "2019") ∷ []

abbrev claim : Fields
claim = field "causes" (texts "t1") (field "effects" (texts "t2") end)

retrocausal_iff_example :
    (retrocausal claim tokens ≡ true)
    ↔ Exists
        (λ c. Exists (λ e. Precedes tokens e c) (string_list (at claim "effects")))
        (string_list (at claim "causes"))
retrocausal_iff_example = retrocausal_iff claim tokens

abbrev law : Fields
law = field "causes" (texts "rain") (field "effects" (texts "drought") end)

covering_law_mismatch_iff_example : (covering_law_mismatch claim tokens law ≡ true) ↔ (
    (law ≢ end)
    × (Exists (Outside tokens (string_list (at law "causes"))) (string_list (at claim "causes"))
        ⊎ Exists
            (Outside tokens (string_list (at law "effects")))
            (string_list (at claim "effects"))))
covering_law_mismatch_iff_example = covering_law_mismatch_iff claim tokens law

abbrev state : Fields
state = field "value" (obj (field "quantity" (str "3") (field "unit" (str "m") end))) end

abbrev quality : Fields
quality = field "datatype" (str "quantity") (field "unit" (str "kg") end)

state_gaps_lem_example : ShowsByRule19 state quality
state_gaps_lem_example = state_gaps_lem state quality
