-- ===== src/Store/Writes.antt =====
-- Put, PutRecord and ForceMergeRecord. A write returns the identifier or the error, and the store
-- after it.
pub mod Steps
use causalontology.Prelude.{
  String, List, [], ◌∷◌, ◌++◌, Bool, true, false, Option, none, some, ◌==◌, if◌then◌else◌, ◌&&◌,
  ◌||◌, not, Map, find, insert, is_some, Result, ok, err, ◌>>=◌, Error, not_a_content_object,
  not_a_provenance_record, id_not_a_string, rejected, structural,
}
use causalontology.Json.{Value, str, Fields, has, at, as_text, text_at, set, copy_map}
use causalontology.Canonical.{resolve_kind, identify}
use causalontology.Signing.{verify_record}
use causalontology.Semantics.Rules.{validate_semantics}
use causalontology.Store.State.{Env, Store, is_content_kind, is_record_kind}
use causalontology.Store.Queries.{retraction_source_ok}
use causalontology.Store.Taxonomy.{would_cycle}
use causalontology.Store.Reasons.{join_reasons, cycle_reason}

-- `if _, present := obj["type"]; !present { obj["type"] = kind }`
unfoldable pub with_type : Fields → String → Fields
with_type m kind = if has m "type" then m else set m "type" (str kind)

-- the id that Put gives an object that has none
unfoldable pub with_id : Env → Fields → String → Result Fields
with_id env m kind =
    if has m "id"
    then ok m
    else identify env.floats env.crypto.digest m kind >>= λ id. ok (set m "id" (str id))

-- the kind, the identifier and the copy that Put works on
unfoldable pub prepare_object : Env → Fields → String → Result (String × String × Fields)
prepare_object env m kind = resolve_kind m kind >>= λ k.
    if is_content_kind k
    then (with_id env (with_type (copy_map m) k) k >>= λ obj. elim (as_text (at obj "id")) [
      | none ↦ err id_not_a_string
      | some id ↦ ok (k, id, obj)
    ])
    else err not_a_content_object

unfoldable pub accept_if : Bool × List String → Result (Unit {0})
accept_if (true, why) = ok tt
accept_if (false, why) = err (rejected (join_reasons why))

-- the two validations of Put
unfoldable pub check_object : Env → Fields → String → Result (Unit {0})
check_object env obj kind = env.validate_schema obj kind >>= λ schema. accept_if schema >>= λ _.
    validate_semantics env.floats obj kind >>= λ semantics. accept_if semantics

abbrev pub add_object : Store → String → Fields → Store
add_object s id obj = record s {
  objects = insert s.objects id obj;
  object_order = s.object_order ++ id ∷ [];
}

unfoldable pub admit_object : Env → Store → String × String × Fields → Result String × Store
admit_object env s (kind, id, obj) =
    if is_some (find s.objects id) then (ok id, s) else elim (check_object env obj kind) [
      | err e ↦ (err e, s)
      | ok _ ↦ (ok id, add_object s id obj)
    ]

-- Put
unfoldable pub put : Env → Store → Fields → String → Result String × Store
put env s m kind = elim (prepare_object env m kind) [
  | err e ↦ (err e, s)
  | ok prepared ↦ admit_object env s prepared
]

-- the identifier of a record: its id, or the one that its content gives
unfoldable pub record_id : Env → Fields → String → Result String
record_id env m kind =
    if text_at m "id" == ""
    then identify env.floats env.crypto.digest m kind
    else ok (text_at m "id")

-- the kind, the identifier and the copy that writeRecord works on
unfoldable pub prepare_record : Env → Fields → String → Result (String × String × Fields)
prepare_record env m kind = resolve_kind m kind >>= λ k.
    if is_record_kind k
    then (let rec = with_type (copy_map m) k in
        record_id env rec k >>= λ id. ok (k, id, set rec "id" (str id)))
    else err not_a_provenance_record

-- the error of a test of the store that ran out of fuel, which the code does not have
abbrev pub out_of_fuel : Error
out_of_fuel = structural "out of fuel"

unfoldable pub require : Option Bool → Error → Result (Unit {0})
require none e = err out_of_fuel
require (some true) e = ok tt
require (some false) e = err e

-- the lineage test of a retraction
unfoldable pub check_retraction : Store → Fields → String → Result (Unit {0})
check_retraction s rec kind =
    if kind == "retraction"
    then require (retraction_source_ok s rec) (
        rejected
          "a retraction is valid only from the retracted record's source or its succession lineage")
    else ok tt

unfoldable pub refuse : Option Bool → Error → Result (Unit {0})
refuse none e = err out_of_fuel
refuse (some true) e = err e
refuse (some false) e = ok tt

-- the cycle test of an enforcing store
unfoldable pub check_cycle : Store → Fields → String → Bool → Result (Unit {0})
check_cycle s rec kind force =
    let name = text_at rec "field" in
    if kind == "enrichment" && s.enforcing && not force && (name == "subsumes" || name == "part_of")
    then refuse (would_cycle s rec) (rejected (cycle_reason name))
    else ok tt

-- the tests behind the signature
unfoldable pub check_record : Env → Store → Fields → String → Bool → Result (Unit {0})
check_record env s rec kind force = validate_semantics env.floats rec kind >>= λ semantics.
    accept_if semantics >>= λ _. check_retraction s rec kind >>= λ _. check_cycle s rec kind force

abbrev pub add_record : Store → String → Fields → Store
add_record s id rec = record s {
  records = insert s.records id rec;
  record_order = s.record_order ++ id ∷ [];
}

abbrev pub quarantine_record : Store → String → Fields → Store
quarantine_record s id rec = record s { quarantine = insert s.quarantine id rec }

abbrev pub unverified : Error
unverified = rejected "unsigned or unverifiable record: quarantined"

unfoldable pub admit_record : Env → Store → Bool → String × String × Fields → Result String × Store
admit_record env s force (kind, id, rec) =
    if is_some (find s.records id)
    then (ok id, s)
    else if verify_record env.floats env.crypto rec kind
    then (elim (check_record env s rec kind force) [
      | err e ↦ (err e, s)
      | ok _ ↦ (ok id, add_record s id rec)
    ])
    else (err unverified, quarantine_record s id rec)

-- writeRecord
unfoldable pub write_record : Env → Store → Fields → String → Bool → Result String × Store
write_record env s m kind force = elim (prepare_record env m kind) [
  | err e ↦ (err e, s)
  | ok prepared ↦ admit_record env s force prepared
]

-- PutRecord
unfoldable pub put_record : Env → Store → Fields → String → Result String × Store
put_record env s m kind = write_record env s m kind false

-- ForceMergeRecord
unfoldable pub force_merge_record : Env → Store → Fields → String → Result String × Store
force_merge_record env s m kind = write_record env s m kind true
