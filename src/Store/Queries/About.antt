-- ===== src/Store/Queries/About.antt =====
-- What the reads of assertions and enrichments return.
use causalontology.Prelude.{
  String, List, [], ◌∷◌, Bool, false, ◌==◌, eq_iff, ◌≡◌, ◌↔◌, refl, ap, ◌∙◌, map, Map, true, arith,
  if◌then◌else◌, ◌&&◌, not,
}
use causalontology.Sets.{contains_string, StringSet}
use causalontology.Json.{Fields, text_at, object_of}
use causalontology.Store.State.{Store}
use causalontology.Store.Queries.Retracted.{IsRetracted, retracted_ids-false}
use causalontology.Store.Queries.{
  of_kind, records_of, retracted_ids, assertions_in, assertions_about, enrichments_in,
  enrichments_about,
}

-- The default view is the filter of the records by the two tests.
unfoldable pub select : (Fields → Bool) → List Fields → List Fields
select keep [] = []
select keep (rec ∷ recs) = let rest = select keep recs in if keep rec then rec ∷ rest else rest

unfoldable pub is_current : StringSet → String → Fields → Bool
is_current retracted identifier rec =
    text_at rec "about" == identifier && not (contains_string retracted (text_at rec "id"))

assertions_in-select :
    (retracted : StringSet) (identifier : String) (recs : List Fields)
    → assertions_in retracted identifier false recs ≡ select (is_current retracted identifier) recs
unfolding assertions_in select is_current
assertions_in-select retracted identifier [] = refl
assertions_in-select retracted identifier (rec ∷ recs) =
    ground (arith, assertions_in-select retracted identifier recs)

enrichments_in-select :
    (retracted : StringSet) (identifier : String) (recs : List Fields)
    → enrichments_in retracted identifier false recs ≡ select (is_current retracted identifier) recs
unfolding enrichments_in select is_current
enrichments_in-select retracted identifier [] = refl
enrichments_in-select retracted identifier (rec ∷ recs) =
    ground (arith, enrichments_in-select retracted identifier recs)

pub select-select :
    (p q : Fields → Bool) (recs : List Fields)
    → select p (select q recs) ≡ select (λ r. q r && p r) recs
unfolding select
select-select p q [] = refl
select-select p q (rec ∷ recs) = ground (arith, select-select p q recs)

pub of_kind-select :
    (records : Map Fields) (kind : String) (ids : List String)
    → of_kind records kind ids
      ≡ select (λ r. text_at r "type" == kind) (map (object_of records) ids)
unfolding of_kind select
of_kind-select records kind [] = refl
of_kind-select records kind (id ∷ ids) = ground (arith, of_kind-select records kind ids)

-- A record of the type that is about the identifier, and whose own id no stored retraction names.
abbrev pub IsShown : Store → String → String → Fields → Type 0
IsShown s kind identifier rec =
    (text_at rec "type" ≡ kind)
    × (text_at rec "about" ≡ identifier)
    × ¬ IsRetracted s (text_at rec "id")

-- The stored records that are shown, in the order of the store.
abbrev pub ShowsDefault : Store → String → String → List Fields → Type 0
ShowsDefault s kind identifier result =
    (keep : Fields → Bool) × (result ≡ select keep (map (object_of s.records) s.record_order))
    × ((rec : Fields) → (keep rec ≡ true) ↔ IsShown s kind identifier rec)

current_test :
    (s : Store) (kind identifier : String) (rec : Fields)
    → ((text_at rec "type" == kind && is_current (retracted_ids s) identifier rec) ≡ true)
      ↔ IsShown s kind identifier rec
unfolding is_current
current_test s kind identifier rec =
    let (gone, gone') = retracted_ids-false s (text_at rec "id") in
    let (a, a') = eq_iff (text_at rec "type") kind in
    let (b, b') = eq_iff (text_at rec "about") identifier in
    (
      λ h. (a (ground (arith, h)), b (ground (arith, h)), gone (ground (arith, h))),
      λ (t, o, n). let x = a' t in let y = b' o in let z = gone' n in ground (arith, x, y, z),
    )

-- The default reads of assertions and of enrichments are, in insertion order, exactly the stored
-- records of that type that are about the identifier and whose id no stored retraction names.
pub default_views :
    (s : Store) (identifier : String)
    → ShowsDefault s "assertion" identifier (assertions_about s identifier false)
      × ShowsDefault s "enrichment" identifier (enrichments_about s identifier false)
unfolding assertions_about enrichments_about records_of
default_views s identifier =
    let gone = retracted_ids s in
    let keep =
      λ (kind : String) (r : Fields). text_at r "type" == kind && is_current gone identifier r in
    let narrow = λ (kind : String).
      ap (select (is_current gone identifier)) (of_kind-select s.records kind s.record_order)
      ∙ select-select (is_current gone identifier) (λ r. text_at r "type" == kind)
          (map (object_of s.records) s.record_order) in
    (
      (
        keep "assertion",
        assertions_in-select gone identifier (records_of s "assertion") ∙ narrow "assertion",
        current_test s "assertion" identifier,
      ),
      (
        keep "enrichment",
        enrichments_in-select gone identifier (records_of s "enrichment") ∙ narrow "enrichment",
        current_test s "enrichment" identifier,
      ),
    )
