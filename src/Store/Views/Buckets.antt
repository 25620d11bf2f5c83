-- ===== src/Store/Views/Buckets.antt =====
-- Get: what it shows of an object and its enrichments.
use causalontology.Prelude.{
  String, List, [], ◌∷◌, false, Option, none, some, ◌==◌, eq_iff, ◌≡◌, ◌≢◌, ◌⊎◌, inl, inr, subst,
  refl, sym, ap, ◌∙◌, arith, Map, find, Bool-cases, Option-cases,
}
use mathlib.Core.Option.{some-injective}
use causalontology.Json.{Value, obj, arr, Items, cons, nil, Fields, field, end, get, at, Floats}
use causalontology.Store.State.{Store}
use causalontology.Store.Queries.About.{select}
use causalontology.Store.Taxonomy.{active_taxonomy_edges}
use causalontology.Store.Taxonomy.Breaking.{broken_edges}
use causalontology.Store.Words.{Words}
use causalontology.Store.Queries.{enrichments_about}
use causalontology.Store.Views.{
  Bucket, Buckets, excluded_ids, ids_into, slots_of, shown, bucket_all, items, entries, enrichments,
  get_view,
}
use causalontology.Store.Views.Slots.{bucket_at, bucket_of, is_in_slot, bucket_all_lem}
use causalontology.Store.Views.Shown.{AreVisible, shown-AreVisible}

-- The array holds the value.
abbrev pub Holds : Items → Value → Type 0
Holds nil v = ⊥
Holds (cons x xs) v = (x ≡ v) ⊎ Holds xs v

-- The array of the sources and timestamps of the records.
unfoldable pub sources_of : List Fields → Items
sources_of [] = nil
sources_of (rec ∷ recs) =
    cons (obj (field "source" (at rec "source") (field "timestamp" (at rec "timestamp") end)))
      (sources_of recs)

items-sources_of :
    (first : Fields) (recs : List Fields)
    → items ((bucket_of first recs).contributors) ≡ sources_of (first ∷ recs)
unfolding items sources_of
items-sources_of first [] = refl
items-sources_of first (rec ∷ recs) =
    ap
      (cons
        (obj (field "source" (at first "source") (field "timestamp" (at first "timestamp") end))))
      (items-sources_of rec recs)

abbrev rendered : Bucket → Value
rendered slot =
    obj (field "entry" slot.entry (field "contributors" (arr (items slot.contributors)) end))

entries-Holds :
    (slots : Map Bucket) (key : String) (slot : Bucket)
    → find slots key ≡ some slot
    → Holds (entries slots) (rendered slot)
unfolding find entries
entries-Holds [] key slot h = absurd (cc)
entries-Holds ((k, first) ∷ slots) key slot h = elim (Bool-cases (k == key)) [
  | inl here ↦ inl (ap rendered (some-injective _ _ (ground (arith, h, here))))
  | inr there ↦ inr (entries-Holds slots key slot (ground (arith, h, there)))
]

get-enrichments :
    (buckets : Buckets) (name : String) (slots : Map Bucket)
    → find buckets name ≡ some slots
    → get (enrichments buckets) name ≡ some (arr (entries slots))
unfolding find enrichments get
get-enrichments [] name slots h = absurd (cc)
get-enrichments ((k, first) ∷ buckets) name slots h = elim (Bool-cases (k == name)) [
  | inl here ↦
      let e = some-injective _ _ (ground (arith, h, here)) in
      rw here (ap (λ z. some (arr (entries z))) e)
  | inr there ↦ rw there (get-enrichments buckets name slots (ground (arith, h, there)))
]

-- The field of the answer is an array that holds the value.
abbrev pub Lists : Fields → String → Value → Type 0
Lists out name v = (slots : Items) × (get out name ≡ some (arr slots)) × Holds slots v

enrichments-Lists :
    (buckets : Buckets) (name key : String) (slot : Bucket)
    → bucket_at buckets name key ≡ some slot
    → Lists (enrichments buckets) name (rendered slot)
unfolding slots_of find
enrichments-Lists buckets name key slot h = elim (Option-cases (find buckets name)) [
  | inl e ↦ absurd (let t = sym (ap (λ z. find (found z) key) e) ∙ h in cc)
  | inr (slots, e) ↦
      let t = sym (ap (λ z. find (found z) key) e) ∙ h in
      (entries slots, get-enrichments buckets name slots e, entries-Holds slots key slot t)
]
  where
    found : Option (Map Bucket) → Map Bucket
    found none = []
    found (some slots) = slots

-- Every shown record is listed: the records of one field and one canonical entry, as one value, with
-- the entry of the first of them and the sources and timestamps of all.
abbrev pub ListsAll : Floats → Words → List Fields → Fields → Type 0
ListsAll fl w recs out =
    (name key : String)
    → (select (is_in_slot fl w name key) recs ≡ [])
      ⊎ ((first : Fields) × (others : List Fields) × (select (is_in_slot fl w name key) recs
            ≡ first ∷ others)
          × Lists out name (
              obj (
                field "entry" (at first "entry")
                  (field "contributors" (arr (sources_of (first ∷ others))) end))))

List-cases :
    (recs : List Fields)
    → (recs ≡ []) ⊎ ((first : Fields) × (others : List Fields) × (recs ≡ first ∷ others))
List-cases [] = inl refl
List-cases (first ∷ others) = inr (first, others, refl)

bucket_all-ListsAll :
    (fl : Floats) (w : Words) (recs : List Fields)
    → ListsAll fl w recs (enrichments (bucket_all fl w [] recs))
bucket_all-ListsAll fl w recs name key =
    elim (List-cases (select (is_in_slot fl w name key) recs)) [
      | inl none_there ↦ inl none_there
      | inr (first, others, h) ↦ inr (
        first,
        others,
        h,
        subst
            (λ z.
              Lists (enrichments (bucket_all fl w [] recs)) name
                (obj (field "entry" (at first "entry") (field "contributors" (arr z) end))))
            (items-sources_of first others)
            (enrichments-Lists (bucket_all fl w [] recs) name key (bucket_of first others)
              (bucket_all_lem fl w recs name key first others h)),
      )
    ]

-- The answer of Get for an object in a view that is not raw.
abbrev pub ShowsObject : Floats → Words → Store → String → String → Fields → Type 0
ShowsObject fl w s identifier view m =
    (kept : List Fields) × (subsumes : List Fields) × (left : List Fields) × (part_of : List Fields)
    × (recs : List Fields) × (out : Fields) × (active_taxonomy_edges s "subsumes"
        ≡ some (kept, subsumes))
    × (active_taxonomy_edges s "part_of" ≡ some (left, part_of))
    × (get_view fl w s identifier view
        ≡ some (some (field "object" (obj m) (field "enrichments" (obj out) end))))
    × AreVisible s identifier view subsumes part_of recs
    × ListsAll fl w recs out

-- Get always answers for an object of the store, in a view that is not raw: it shows the object, and
-- under enrichments, for each field and canonical entry of a visible enrichment, an item in the array
-- of the field that has the entry of the first such enrichment, and for contributors the sources and
-- timestamps of all of them in the order of the store. In the history view every stored enrichment
-- about the object is visible; in the others those that no stored retraction names and that
-- ActiveTaxonomyEdges excludes neither from subsumes nor from part_of.
pub get_view_lem :
    (fl : Floats) (w : Words) (s : Store) (identifier view : String) (m : Fields)
    → find s.objects identifier ≡ some m
    → view ≢ "raw"
    → ShowsObject fl w s identifier view m
unfolding get_view excluded_ids
get_view_lem fl w s identifier view m present full =
    let (kept, subsumes, p, a, b) = broken_edges s "subsumes" in
    let (left, part_of, q, c, d) = broken_edges s "part_of" in
    let history = view == "history" in
    let recs =
      shown (ids_into (ids_into [] subsumes) part_of) history
        (enrichments_about s identifier history) in
    let not_raw : (view == "raw") ≡ false = is_not_raw in
    (
      kept,
      subsumes,
      left,
      part_of,
      recs,
      enrichments (bucket_all fl w [] recs),
      p,
      q,
      rw (present, not_raw, p, q, get_view, excluded_ids) refl,
      shown-AreVisible s identifier view subsumes part_of,
      bucket_all-ListsAll fl w recs,
    )
  where
    is_not_raw : (view == "raw") ≡ false
    is_not_raw = elim (Bool-cases (view == "raw")) [
      | inl same ↦ absurd (full ((eq_iff view "raw").0 same))
      | inr other ↦ other
    ]
