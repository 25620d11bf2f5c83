-- ===== src/Tests/Canonical.antt =====
-- Identity and signing on a continuant and an assertion.
use Prim.Native.String.{◌++◌}
use causalontology.Prelude.{
  ℕ, String, List, [], ◌∷◌, true, none, some, ◌==◌, ◌≡◌, refl, eq_iff, arith, if◌then◌else◌, ok,
  ◌↔◌,
}
use causalontology.Sets.{contains_string, same_string_set}
use causalontology.Sets.Laws.{SameMembers, same_string_set_iff}
use causalontology.Json.{null, str, Fields, end, field, obj, get, set, text_at, keys}
use causalontology.Json.Laws.{SameMap}
use causalontology.Jcs.{
  serialize_jcs, append_jcs, join_members, sort_strings, insert_text, jcs_quote, escapes,
  escape_rune,
}
use causalontology.Jcs.Order.{serialize_jcs-SameMap}
use causalontology.Canonical.{infer_kind, identity_fields, identity_bearing, identify}
use causalontology.Canonical.Bearing.{get-identity_bearing}
use causalontology.Canonical.Identity.{identify-agree, set_id-agree}
use causalontology.Signing.{signer_field, verify_record}
use causalontology.Prelude.{arith}
use causalontology.Json.{at, as_text}
use causalontology.Signing.Agrees.{verify_record-agree}
use causalontology.Tests.Doubles.{floats, crypto, encode, copies}

abbrev pub cell : Fields
cell =
    field "type" (str "continuant")
      (field "label" (str "cell") (field "category" (str "object") end))

-- the same map, written in another order
abbrev cell_again : Fields
cell_again =
    field "label" (str "cell")
      (field "category" (str "object") (field "type" (str "continuant") end))

cell-SameMap : SameMap cell cell_again
unfolding get
cell-SameMap key = ground (
  arith,
  eq_iff "type" key,
  eq_iff "label" key,
  eq_iff "category" key,
  eq_iff "type" "label",
  eq_iff "type" "category",
  eq_iff "label" "category",
)

cell_form :
    serialize_jcs floats (obj cell)
    ≡ ok "{\"category\":\"object\",\"label\":\"cell\",\"type\":\"continuant\"}"
unfolding serialize_jcs append_jcs join_members jcs_quote escapes escape_rune sort_strings
    insert_text keys
cell_form = refl

serialize_jcs-SameMap_example :
    serialize_jcs floats (obj cell) ≡ serialize_jcs floats (obj cell_again)
serialize_jcs-SameMap_example = serialize_jcs-SameMap floats cell cell_again cell-SameMap

identify-agree_example :
    identify floats crypto.digest (set cell "id" (str "x")) "continuant"
    ≡ identify floats crypto.digest cell "continuant"
identify-agree_example =
    identify-agree floats crypto.digest (set cell "id" (str "x")) cell "continuant" refl
      (set_id-agree cell "continuant" (str "x"))

continuant_fields : identity_fields "continuant" ≡ some ("label" ∷ "category" ∷ [])
unfolding identity_fields
continuant_fields = refl

get-identity_bearing_example :
    (out : Fields) × (identity_bearing cell "continuant" ≡ ok ("continuant", out))
    × (get out "label" ≡ (
        if "type" == "label"
        then some (str "continuant")
        else if contains_string ("label" ∷ "category" ∷ []) "label"
        then get cell "label"
        else none))
get-identity_bearing_example =
    get-identity_bearing cell "continuant" ("label" ∷ "category" ∷ []) "label" continuant_fields
      refl

same_string_set_iff_example :
    (same_string_set ("a" ∷ "b" ∷ "a" ∷ []) ("b" ∷ "a" ∷ []) ≡ true)
    ↔ SameMembers ("a" ∷ "b" ∷ "a" ∷ []) ("b" ∷ "a" ∷ [])
same_string_set_iff_example = same_string_set_iff ("a" ∷ "b" ∷ "a" ∷ []) ("b" ∷ "a" ∷ [])

inferred_kinds :
    (infer_kind (field "coarse" null (field "fine" null end)) ≡ ok "bridge")
    × (infer_kind (field "id" (str "port:1") end) ≡ ok "port")
    × (infer_kind cell ≡ ok "continuant")
unfolding infer_kind
inferred_kinds = (refl, refl, refl)

abbrev seed : List ℕ
seed = copies 32

abbrev pub claim : Fields
claim = field "type" (str "assertion") (
    field "about" (str "continuant:00")
      (field "source" (str ("ed25519:" ++ encode (copies 32))) end))

abbrev key : String
key = "ed25519:" ++ encode (copies 32)

abbrev claim_form : String
claim_form =
    "{\"about\":\"continuant:00\",\"source\":\"ed25519:1010101010101010101010101010101010101010101010101010101010101010\",\"type\":\"assertion\"}"

-- the claim under an identifier of the caller's
abbrev renamed : Fields
renamed = set claim "id" (str "assertion:x")

same_signature : text_at renamed "signature" ≡ text_at claim "signature"
unfolding text_at set at get as_text
same_signature = refl

same_signer : text_at renamed (signer_field "assertion") ≡ text_at claim (signer_field "assertion")
unfolding text_at set at get as_text signer_field
same_signer = refl

verify_record-agree_example :
    verify_record floats crypto renamed "assertion" ≡ verify_record floats crypto claim "assertion"
verify_record-agree_example =
    verify_record-agree renamed claim "assertion" floats crypto refl
      (set_id-agree claim "assertion" (str "assertion:x")) same_signature same_signer
