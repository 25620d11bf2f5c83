-- ===== src/Store/Views/Slots.antt =====
-- The buckets of Get: what the loop over the enrichments leaves in each one.
use causalontology.Prelude.{
  String, List, [], ◌∷◌, ◌++◌, Bool, true, false, Option, none, some, ◌==◌, eq_iff, ◌≡◌, refl, sym,
  ap, ◌∙◌, inl, inr, if◌then◌else◌, ◌&&◌, Map, find, insert, find-insert, map, Bool-cases,
  Option-cases,
}
use mathlib.Core.List.{append-nil, append_assoc}
use causalontology.Json.{Fields, at, text_at, Floats}
use causalontology.Store.Queries.About.{select}
use causalontology.Store.Words.{Words, entry_key}
use causalontology.Store.Views.{
  Bucket, Buckets, contributor, slots_of, with_contributor, add_record_to, bucket_all,
}

slots_of-insert :
    (buckets : Buckets) (key other : String) (slots : Map Bucket)
    → slots_of (insert buckets key slots) other
      ≡ (if key == other then slots else slots_of buckets other)
unfolding slots_of
slots_of-insert buckets key other slots =
    ap (λ (z : Option (Map Bucket)). elim z [ none ↦ [] | some found ↦ found ])
      (find-insert buckets key slots other)
    ∙ choose (key == other)
  where
    choose :
        (b : Bool)
        → elim (if b then some slots else find buckets other) [ none ↦ [] | some found ↦ found ]
          ≡ (if b then slots else slots_of buckets other)
    choose true = refl
    choose false = refl

-- A record joins a bucket, or opens one.
unfoldable join_one : Option Bucket → Fields → Option Bucket
join_one none rec = some (record { entry = at rec "entry"; contributors = contributor rec ∷ [] })
join_one (some slot) rec =
    some (record slot { contributors = slot.contributors ++ contributor rec ∷ [] })

unfoldable joined : Option Bucket → List Fields → Option Bucket
joined o [] = o
joined o (rec ∷ recs) = joined (join_one o rec) recs

with_contributor_lem :
    (slots : Map Bucket) (key other : String) (rec : Fields)
    → find (with_contributor slots key rec) other
      ≡ (if key == other then join_one (find slots key) rec else find slots other)
unfolding with_contributor join_one
with_contributor_lem slots key other rec = elim (Option-cases (find slots key)) [
  | inl e ↦
      rw (e, with_contributor, join_one)
        (find-insert slots key
          (record { entry = at rec "entry"; contributors = contributor rec ∷ [] }) other)
  | inr (slot, e) ↦
      rw (e, with_contributor, join_one)
        (find-insert slots key
          (record slot { contributors = slot.contributors ++ contributor rec ∷ [] }) other)
]

-- The bucket for a field and a key.
abbrev pub bucket_at : Buckets → String → String → Option Bucket
bucket_at buckets name key = find (slots_of buckets name) key

module _ (fl : Floats) (w : Words) where
  -- The record belongs into the bucket for the field and the key.
  abbrev pub is_in_slot : String → String → Fields → Bool
  is_in_slot name key rec = text_at rec "field" == name && entry_key fl w (at rec "entry") == key

  add_record_to_lem :
      (buckets : Buckets) (rec : Fields) (name key : String)
      → bucket_at (add_record_to fl w buckets rec) name key ≡ (
          if is_in_slot name key rec
          then join_one (bucket_at buckets name key) rec
          else bucket_at buckets name key)
  unfolding add_record_to
  add_record_to_lem buckets rec name key =
      let own = text_at rec "field" in
      let k = entry_key fl w (at rec "entry") in
      let more = with_contributor (slots_of buckets own) k rec in
      ap (λ z. find z key) (slots_of-insert buckets own name more)
      ∙ elim (Bool-cases (own == name)) [
        | inr apart ↦ rw apart refl
        | inl same ↦ rw same (
            with_contributor_lem (slots_of buckets own) k key rec ∙ elim (Bool-cases (k == key)) [
              | inl here ↦ rw here (
                  ap (λ z. join_one (find (slots_of buckets own) z) rec) ((eq_iff k key).0 here)
                  ∙ ap (λ z. join_one (find (slots_of buckets z) key) rec)
                      ((eq_iff own name).0 same))
              | inr there ↦
                  rw there (ap (λ z. find (slots_of buckets z) key) ((eq_iff own name).0 same))
            ])
      ]

  bucket_all-joined :
      (buckets : Buckets) (recs : List Fields) (name key : String)
      → bucket_at (bucket_all fl w buckets recs) name key
        ≡ joined (bucket_at buckets name key) (select (is_in_slot name key) recs)
  unfolding bucket_all select joined
  bucket_all-joined buckets [] name key = refl
  bucket_all-joined buckets (rec ∷ recs) name key =
      bucket_all-joined (add_record_to fl w buckets rec) recs name key
      ∙ ap (λ z. joined z (select (is_in_slot name key) recs))
          (add_record_to_lem buckets rec name key)
      ∙ first (is_in_slot name key rec)
    where
      first :
          (b : Bool)
          → joined
              (if b then join_one (bucket_at buckets name key) rec else bucket_at buckets name key)
              (select (is_in_slot name key) recs)
            ≡ joined (bucket_at buckets name key) (
                if b
                then rec ∷ select (is_in_slot name key) recs
                else select (is_in_slot name key) recs)
      first true = refl
      first false = refl

-- The bucket of a list of records: the first one's entry, and the contributors of all.
abbrev pub bucket_of : Fields → List Fields → Bucket
bucket_of first recs = record {
  entry = at first "entry";
  contributors = contributor first ∷ map contributor recs;
}

joined-some :
    (slot : Bucket) (recs : List Fields)
    → joined (some slot) recs
      ≡ some
          (record { entry = slot.entry; contributors = slot.contributors ++ map contributor recs })
unfolding joined join_one
joined-some slot [] =
    ap (λ z. some (record { entry = slot.entry; contributors = z }))
      (sym (append-nil slot.contributors))
joined-some slot (rec ∷ recs) =
    joined-some (record slot { contributors = slot.contributors ++ contributor rec ∷ [] }) recs
    ∙ ap (λ z. some (record { entry = slot.entry; contributors = z }))
        (append_assoc slot.contributors (contributor rec ∷ []) (map contributor recs))

pub bucket_all_lem :
    (fl : Floats) (w : Words) (recs : List Fields) (name key : String) (first : Fields)
    (others : List Fields)
    → select (is_in_slot fl w name key) recs ≡ first ∷ others
    → bucket_at (bucket_all fl w [] recs) name key ≡ some (bucket_of first others)
unfolding joined join_one slots_of find
bucket_all_lem fl w recs name key first others h =
    bucket_all-joined fl w [] recs name key
    ∙ ap (joined none) h
    ∙ joined-some (record { entry = at first "entry"; contributors = contributor first ∷ [] })
        others
