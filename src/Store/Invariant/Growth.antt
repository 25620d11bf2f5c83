-- ===== src/Store/Invariant/Growth.antt =====
-- How the reads of records grow with a record that is added.
use causalontology.Prelude.{
  String, List, [], ◌∷◌, ◌++◌, true, false, none, some, ◌==◌, eq_iff, ◌≡◌, ◌↔◌, inl, inr, refl, ap,
  ◌∙◌, arith, Map, insert, find-insert, if◌then◌else◌, Bool-cases, Option-cases, subst,
}
use causalontology.Sets.{contains_string, StringSet, set_add}
use causalontology.Sets.Laws.{contains-set_add}
use causalontology.Json.{Fields, at, as_text, text_at, object_of}
use causalontology.Store.State.{Store}
use causalontology.Store.Queries.{of_kind, records_of, targets_of, retracted_ids}
use causalontology.Store.Writes.{add_record}
use causalontology.Store.Taxonomy.{active_in}
use causalontology.Store.Cycles.Trails.{In}
use causalontology.Store.Cycles.Finds.{Walk, rest, along, IsAcyclic}

of_kind-insert :
    (m : Map Fields) (kind id : String) (rec : Fields) (order : List String)
    → contains_string order id ≡ false
    → of_kind (insert m id rec) kind order ≡ of_kind m kind order
unfolding of_kind object_of contains_string
of_kind-insert m kind id rec [] h = refl
of_kind-insert m kind id rec (j ∷ order) h =
    ground
      (arith, find-insert m id rec j, eq_iff id j, eq_iff j id, of_kind-insert m kind id rec order)

of_kind-append :
    (m : Map Fields) (kind : String) (xs ys : List String)
    → of_kind m kind (xs ++ ys) ≡ of_kind m kind xs ++ of_kind m kind ys
unfolding of_kind
of_kind-append m kind [] ys = refl
of_kind-append m kind (x ∷ xs) ys = ground (arith, of_kind-append m kind xs ys)

of_kind-new :
    (m : Map Fields) (kind id : String) (rec : Fields)
    → of_kind (insert m id rec) kind (id ∷ [])
      ≡ (if text_at rec "type" == kind then rec ∷ [] else [])
unfolding of_kind object_of
of_kind-new m kind id rec = ground (arith, find-insert m id rec id, eq_iff id id)

-- A new record comes last among those of its type.
pub records_of-add_record :
    (s : Store) (kind id : String) (rec : Fields)
    → contains_string s.record_order id ≡ false
    → records_of (add_record s id rec) kind
      ≡ records_of s kind ++ (if text_at rec "type" == kind then rec ∷ [] else [])
unfolding records_of
records_of-add_record s kind id rec h =
    of_kind-append (insert s.records id rec) kind s.record_order (id ∷ [])
    ∙ ap (λ z. z ++ of_kind (insert s.records id rec) kind (id ∷ []))
        (of_kind-insert s.records kind id rec s.record_order h)
    ∙ ap (λ z. of_kind s.records kind s.record_order ++ z) (of_kind-new s.records kind id rec)

targets_of-more :
    (out : StringSet) (recs : List Fields) (x : String)
    → contains_string out x ≡ true
    → contains_string (targets_of out recs) x ≡ true
unfolding targets_of
targets_of-more out [] x h = h
targets_of-more out (rec ∷ recs) x h = elim (Option-cases (as_text (at rec "retracts"))) [
  | inl e ↦ rw (e, targets_of) (targets_of-more out recs x h)
  | inr (t, e) ↦
      rw (e, targets_of)
        (targets_of-more (set_add out t) recs x (ground (arith, contains-set_add out t x)))
]

targets_of-append :
    (out : StringSet) (xs ys : List Fields)
    → targets_of out (xs ++ ys) ≡ targets_of (targets_of out xs) ys
unfolding targets_of
targets_of-append out [] ys = refl
targets_of-append out (rec ∷ xs) ys =
    targets_of-append (elim (as_text (at rec "retracts")) [ none ↦ out | some t ↦ set_add out t ])
      xs ys

-- A new record retracts nothing less.
pub retracted_ids-add_record :
    (s : Store) (id : String) (rec : Fields) (x : String)
    → contains_string s.record_order id ≡ false
    → contains_string (retracted_ids s) x ≡ true
    → contains_string (retracted_ids (add_record s id rec)) x ≡ true
unfolding retracted_ids
retracted_ids-add_record s id rec x h m =
    rw
      (
        records_of-add_record s "retraction" id rec h,
        targets_of-append [] (records_of s "retraction")
            (if text_at rec "type" == "retraction" then rec ∷ [] else []),
      )
      (targets_of-more (targets_of [] (records_of s "retraction"))
        (if text_at rec "type" == "retraction" then rec ∷ [] else []) x m)

-- The unretracted records of a field.
pub In-active_in :
    (retracted : StringSet) (wanted : String) (recs : List Fields) (rec : Fields)
    → In rec (active_in retracted wanted recs) ↔ (
        In rec recs
        × (text_at rec "field" ≡ wanted)
        × (contains_string retracted (text_at rec "id") ≡ false))
unfolding active_in
In-active_in retracted wanted [] rec = (λ i. elim i [ ], λ (i, _, _). elim i [ ])
In-active_in retracted wanted (first ∷ recs) rec =
    let (fwd, bwd) = In-active_in retracted wanted recs rec in
    elim (Bool-cases (text_at first "field" == wanted)) [
      | inr other ↦ rw other (
        λ i. let (j, f, n) = fwd i in (inr j, f, n),
        λ (i, f, n). elim i [
          | inr j ↦ bwd (j, f, n)
          | inl e ↦
              absurd (
                ground
                  (arith, ap (λ r. text_at r "field") e, eq_iff (text_at first "field") wanted))
        ],
      )
      | inl same ↦ elim (Bool-cases (contains_string retracted (text_at first "id"))) [
        | inl gone ↦
            rw (same, gone)
              (
                λ i. let (j, f, n) = fwd i in (inr j, f, n),
                λ (i, f, n). elim i [
                  | inr j ↦ bwd (j, f, n)
                  | inl e ↦
                      absurd
                        (ground (arith, ap (λ r. contains_string retracted (text_at r "id")) e))
                ],
              )
        | inr here ↦
            rw (same, here)
              (
                λ i. elim i [
                  | inl e ↦ (
                    inl e,
                    subst (λ r. text_at r "field" ≡ wanted) e
                        ((eq_iff (text_at first "field") wanted).0 same),
                    subst (λ r. contains_string retracted (text_at r "id") ≡ false) e here,
                  )
                  | inr j ↦ let (k, f, n) = fwd j in (inr k, f, n)
                ],
                λ (i, f, n). elim i [ inl e ↦ inl e | inr j ↦ inr (bwd (j, f, n)) ],
              )
      ]
    ]

Walk-more :
    {recs more : List Fields} {u w : String} {p : List Fields}
    → ((rec : Fields) → In rec recs → In rec more)
    → Walk recs u p w
    → Walk more u p w
Walk-more h rest = rest
Walk-more h (along {rec = r} i k t) = along (h r i) k (Walk-more h t)

-- Fewer records make no new cycle.
pub IsAcyclic-fewer :
    (recs more : List Fields)
    → ((rec : Fields) → In rec recs → In rec more)
    → IsAcyclic more
    → IsAcyclic recs
IsAcyclic-fewer recs more h a u rec p t = a u rec p (Walk-more h t)
