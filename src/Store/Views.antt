-- ===== src/Store/Views.antt =====
-- The views that join objects with their records: Get and Resolve.
pub mod Slots
pub mod Shown
pub mod Buckets
pub mod Resolves
use causalontology.Prelude.{
  String, List, [], ◌∷◌, ◌++◌, Bool, true, false, Option, none, some, ◌==◌, if◌then◌else◌, ◌&&◌,
  ◌||◌, not, Map, find, insert, any,
}
use causalontology.Sets.{contains_string, StringSet, set_add}
use causalontology.Json.{
  Value, str, obj, arr, Items, cons, nil, Fields, field, end, at, as_text, as_object, text_at,
  object_of, Floats,
}
use causalontology.Store.Words.{Words, entry_key, canon_label, norm_alias}
use causalontology.Store.State.{Store}
use causalontology.Store.Queries.{records_of, retracted_ids, enrichments_about}
use causalontology.Store.Taxonomy.{active_taxonomy_edges}

-- enrichmentBucket
pub record Bucket : Type 0 where
  pub entry : Value
  pub contributors : List Value

-- the buckets by field and by entry; a new key comes last, so the lists are also `fieldOrder` and
-- `bucketOrder`
abbrev pub Buckets : Type 0
Buckets = Map (Map Bucket)

unfoldable pub ids_into : StringSet → List Fields → StringSet
ids_into out [] = out
ids_into out (rec ∷ recs) =
    ids_into (elim (as_text (at rec "id")) [ none ↦ out | some id ↦ set_add out id ]) recs

-- `excludedIDs`
unfoldable pub excluded_ids : Store → Option StringSet
excluded_ids s = elim (active_taxonomy_edges s "subsumes") [
  | none ↦ none
  | some (kept, subsumes) ↦ elim (active_taxonomy_edges s "part_of") [
    | none ↦ none
    | some (left, part_of) ↦ some (ids_into (ids_into [] subsumes) part_of)
  ]
]

abbrev pub contributor : Fields → Value
contributor rec =
    obj (field "source" (at rec "source") (field "timestamp" (at rec "timestamp") end))

-- the slot of a field, made where it is not present
unfoldable pub slots_of : Buckets → String → Map Bucket
slots_of buckets name = elim (find buckets name) [ none ↦ [] | some slots ↦ slots ]

unfoldable pub with_contributor : Map Bucket → String → Fields → Map Bucket
with_contributor slots key rec = elim (find slots key) [
  | none ↦ insert slots key (record { entry = at rec "entry"; contributors = contributor rec ∷ [] })
  | some slot ↦
      insert slots key (record slot { contributors = slot.contributors ++ contributor rec ∷ [] })
]

-- one round of the loop over the enrichments
unfoldable pub add_record_to : Floats → Words → Buckets → Fields → Buckets
add_record_to fl w buckets rec = insert buckets (text_at rec "field") (
    with_contributor (slots_of buckets (text_at rec "field")) (entry_key fl w (at rec "entry")) rec)

-- `if excludedIDs[recordID] && view != "history" { continue }`
unfoldable pub shown : StringSet → Bool → List Fields → List Fields
shown excluded history [] = []
shown excluded history (rec ∷ recs) =
    let rest = shown excluded history recs in
    if contains_string excluded (text_at rec "id") && not history then rest else rec ∷ rest

unfoldable pub bucket_all : Floats → Words → Buckets → List Fields → Buckets
bucket_all fl w buckets [] = buckets
bucket_all fl w buckets (rec ∷ recs) = bucket_all fl w (add_record_to fl w buckets rec) recs

unfoldable pub items : List Value → Items
items [] = nil
items (v ∷ vs) = cons v (items vs)

unfoldable pub entries : Map Bucket → Items
entries [] = nil
entries ((key, slot) ∷ slots) =
    cons (obj (field "entry" slot.entry (field "contributors" (arr (items slot.contributors)) end)))
      (entries slots)

unfoldable pub enrichments : Buckets → Fields
enrichments [] = end
enrichments ((name, slots) ∷ buckets) = field name (arr (entries slots)) (enrichments buckets)

-- Get; the inner `none` is nil, and the outer one the fuel of ActiveTaxonomyEdges
unfoldable pub get_view : Floats → Words → Store → String → String → Option (Option Fields)
get_view fl w s identifier view = elim (find s.objects identifier) [
  | none ↦ some none
  | some m ↦
      let history = view == "history" in
      let full : Option (Option Fields) = elim (excluded_ids s) [
        | none ↦ none
        | some excluded ↦
            let recs = shown excluded history (enrichments_about s identifier history) in
            some (
              some (
                field "object" (obj m)
                  (field "enrichments" (obj (enrichments (bucket_all fl w [] recs))) end)))
      ] in
      if view == "raw" then some (some (field "object" (obj m) end)) else full
]

-- the test of an alias entry
unfoldable pub entry_matches : Words → String → String → Value → Bool
entry_matches w lang wanted v = elim (as_object v) [
  | none ↦ false
  | some entry ↦
      (lang == "" || text_at entry "lang" == lang) && norm_alias w (text_at entry "text") == wanted
]

-- a record of the loop over the enrichments that is an alias of the object
unfoldable pub is_alias : Words → StringSet → String → String → String → Fields → Bool
is_alias w retracted id lang wanted rec =
    if not (text_at rec "about" == id)
    then false
    else if not (text_at rec "field" == "aliases")
    then false
    else if contains_string retracted (text_at rec "id")
    then false
    else entry_matches w lang wanted (at rec "entry")

-- the loop over the enrichments
unfoldable pub has_alias : Words → StringSet → String → String → String → List Fields → Bool
has_alias w retracted id lang wanted [] = false
has_alias w retracted id lang wanted (rec ∷ recs) =
    let rest = has_alias w retracted id lang wanted recs in
    if is_alias w retracted id lang wanted rec then true else rest

unfoldable pub has_label : String → Fields → Bool
has_label wanted m = elim (as_text (at m "label")) [ none ↦ false | some label ↦ label == wanted ]

unfoldable pub is_named : Fields → Bool
is_named m = text_at m "type" == "occurrent" || text_at m "type" == "continuant"

-- the loop over the objects, on (labelHits, aliasHits)
unfoldable pub resolve_loop :
    Words
    → Store
    → String
    → String
    → List String × List String
    → List String
    → List String × List String
resolve_loop w s text lang hits [] = hits
resolve_loop w s text lang (labels, aliases) (id ∷ ids) =
    let m = object_of s.objects id in
    let alias =
      has_alias w (retracted_ids s) id lang (norm_alias w text) (records_of s "enrichment") in
    let hits : List String × List String =
      if not (is_named m)
      then (labels, aliases)
      else if has_label (canon_label w text) m
      then (labels ++ id ∷ [], aliases)
      else if alias
      then (labels, aliases ++ id ∷ [])
      else (labels, aliases) in
    resolve_loop w s text lang hits ids

-- Resolve
unfoldable pub resolve : Words → Store → String → String → List String
resolve w s text lang =
    let (labels, aliases) = resolve_loop w s text lang ([], []) s.object_order in labels ++ aliases
