-- ===== src/Tests/Stores.antt =====
-- A store with a continuant and a signed assertion.
use Prim.Native.String.{◌++◌}
use causalontology.Prelude.{
  String, [], ◌∷◌, true, false, some, ◌≡◌, refl, find, insert, is_some, size, ok,
}
use causalontology.Sets.{set_add, contains_string}
use causalontology.Json.{str, Fields, end, field, set, text_at}
use causalontology.Json.{delete, copy_map, has, at, as_text, keys, get, object_of}
use causalontology.Jcs.{
  serialize_jcs, append_jcs, join_members, sort_strings, insert_text, jcs_quote, escapes,
  escape_rune,
}
use causalontology.Signing.{verify_record, verify_as, signer_key_hex, verify_decoded}
use causalontology.Canonical.{canonicalize, resolve_kind, identify, identity_bearing, prefix}
use causalontology.Semantics.Rules.{validate_semantics, reasons_for}
use causalontology.Semantics.Conflict.{is_empty}
use causalontology.Store.State.{Store, new_store, is_content_kind, is_record_kind}
use causalontology.Store.Writes.{
  put, prepare_object, admit_object, check_object, with_id, with_type, accept_if, write_record,
  prepare_record, admit_record, record_id, check_record, check_retraction, check_cycle, require,
}
use causalontology.Store.Queries.{
  retraction_source_ok, walk, links, of_kind, lineage, predecessor_of, successor_of, records_of,
  assertions_about, enrichments_about,
}
use causalontology.Store.Queries.About.{ShowsDefault, default_views}
use causalontology.Store.Invariant.{IsValid}
use causalontology.Store.Invariant.Histories.{
  putting, recording, perform, fresh, after, Extends, Reachable-IsValid, perform-Extends,
}
use causalontology.Store.Invariant.Idempotent.{put_again}
use causalontology.Store.Invariant.Retraction.{FromLineage, write_record-FromLineage}
use causalontology.Tests.Doubles.{env, encode, copies, strokes, decode, push}
use causalontology.Tests.Canonical.{cell}

abbrev empty : Store
empty = new_store true

abbrev with_cell : Store
with_cell = (perform env empty (putting cell "continuant")).1

put-cell : (put env empty cell "continuant").0 ≡ ok "continuant:00"
unfolding put prepare_object admit_object check_object resolve_kind is_content_kind with_id
    with_type copy_map has at as_text identify identity_bearing serialize_jcs append_jcs
    join_members sort_strings insert_text keys jcs_quote escapes escape_rune prefix
    validate_semantics reasons_for is_empty accept_if is_some find set get
put-cell = refl

put_again_example :
    put env (put env empty cell "continuant").1 cell "continuant"
    ≡ (ok "continuant:00", (put env empty cell "continuant").1)
put_again_example = put_again env empty cell "continuant" "continuant:00" put-cell

Reachable-IsValid_example : IsValid env with_cell
Reachable-IsValid_example =
    Reachable-IsValid env true with_cell (after (putting cell "continuant") fresh)

perform-Extends_example : Extends with_cell (perform env with_cell (recording cell "assertion")).1
perform-Extends_example = perform-Extends env with_cell (recording cell "assertion")

abbrev key : String
key = "ed25519:" ++ encode (copies 32)

-- an assertion of the key, and its succession by another key
abbrev assertion : Fields
assertion = field "type" (str "assertion") (field "source" (str key) end)

abbrev with_assertion : Store
with_assertion = record empty {
  records = ("assertion:1", assertion) ∷ [];
  record_order = "assertion:1" ∷ [];
}

abbrev retraction : Fields
retraction = field "retracts" (str "assertion:1") (
    field "source" (str key) (
      field "signature" (str (encode (copies 64)))
        (field "id" (str "retraction:1") (field "type" (str "retraction") end))))

retraction_kind : resolve_kind retraction "retraction" ≡ ok "retraction"
unfolding resolve_kind
retraction_kind = refl

-- the copy that the store keeps
abbrev kept : Fields
kept = set (with_type (copy_map retraction) "retraction") "id" (str "retraction:1")

retraction_stored :
    find (write_record env with_assertion retraction "retraction" false).1.records "retraction:1"
    ≡ some kept
unfolding write_record prepare_record find resolve_kind is_record_kind record_id text_at with_type
    copy_map set has get at as_text admit_record is_some verify_record verify_as encode copies
    strokes signer_key_hex verify_decoded decode push delete canonicalize check_record
    validate_semantics reasons_for is_empty accept_if check_retraction require retraction_source_ok
    lineage walk predecessor_of successor_of links records_of of_kind object_of contains_string
    set_add size insert check_cycle
retraction_stored = refl

write_record-FromLineage_example : FromLineage with_assertion kept assertion
write_record-FromLineage_example =
    write_record-FromLineage env with_assertion retraction "retraction" false "retraction:1" kept
      assertion retraction_kind (unfold find in refl) retraction_stored
      (unfold find text_at set copy_map with_type has in refl)

default_views_example :
    ShowsDefault with_assertion "assertion" "x" (assertions_about with_assertion "x" false)
    × ShowsDefault with_assertion "enrichment" "x" (enrichments_about with_assertion "x" false)
default_views_example = default_views with_assertion "x"
