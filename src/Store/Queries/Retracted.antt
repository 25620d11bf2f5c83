-- ===== src/Store/Queries/Retracted.antt =====
-- recordsOf and retractedIds, in terms of the stored records.
use causalontology.Prelude.{
  String, List, [], ◌∷◌, true, false, some, ◌==◌, eq_iff, ◌≡◌, ◌↔◌, ◌⊎◌, inl, inr, refl, sym, ap,
  ◌∙◌, subst, arith, Map, Bool-cases, Option-cases,
}
use mathlib.Core.Option.{some-injective}
use causalontology.Sets.{contains_string, StringSet, set_add}
use causalontology.Sets.Laws.{contains-set_add}
use causalontology.Json.{Fields, at, as_text, text_at, object_of}
use causalontology.Store.Cycles.Trails.{In}
use causalontology.Store.State.{Store}
use causalontology.Store.Queries.{of_kind, records_of, targets_of, retracted_ids}

-- A stored record of the type.
abbrev pub IsStored : Map Fields → List String → String → Fields → Type 0
IsStored records order kind rec =
    (id : String) × In id order × (object_of records id ≡ rec) × (text_at rec "type" ≡ kind)

of_kind-IsStored :
    (records : Map Fields) (kind : String) (ids : List String) (rec : Fields)
    → In rec (of_kind records kind ids) ↔ IsStored records ids kind rec
unfolding of_kind
of_kind-IsStored records kind [] rec = (λ i. absurd i, λ (id, i, e, t). absurd i)
of_kind-IsStored records kind (x ∷ ids) rec =
    let (fwd, bwd) = of_kind-IsStored records kind ids rec in
    let first = object_of records x in
    let (type, type') = eq_iff (text_at first "type") kind in
    elim (Bool-cases (text_at first "type" == kind)) [
      | inl here ↦ rw here (
        λ i. elim i [
          | inl e ↦ (x, inl refl, e, subst (λ r. text_at r "type" ≡ kind) e (type here))
          | inr j ↦ let (id, k, e, t) = fwd j in (id, inr k, e, t)
        ],
        λ (id, i, e, t). elim i [
          | inl same ↦ inl (ap (object_of records) same ∙ e)
          | inr k ↦ inr (bwd (id, k, e, t))
        ],
      )
      | inr other ↦ rw other (
        λ i. let (id, k, e, t) = fwd i in (id, inr k, e, t),
        λ (id, i, e, t). elim i [
          | inl same ↦ absurd (
              let w =
                type' (
                  subst (λ r. text_at r "type" ≡ kind) (sym (ap (object_of records) same ∙ e)) t) in
              cc)
          | inr k ↦ bwd (id, k, e, t)
        ],
      )
    ]

targets_of_iff :
    (out : StringSet) (recs : List Fields) (x : String)
    → (contains_string (targets_of out recs) x ≡ true) ↔ (
        (contains_string out x ≡ true)
        ⊎ ((ret : Fields) × In ret recs × (as_text (at ret "retracts") ≡ some x)))
unfolding targets_of
targets_of_iff out [] x = (λ h. inl h, λ s. elim s [ inl h ↦ h | inr (r, i, e) ↦ absurd i ])
targets_of_iff out (first ∷ recs) x = elim (Option-cases (as_text (at first "retracts"))) [
  | inl none_there ↦
      let (fwd, bwd) = targets_of_iff out recs x in
      rw none_there (
        λ h. elim (fwd h) [ inl o ↦ inl o | inr (r, i, e) ↦ inr (r, inr i, e) ],
        λ s. elim s [
          | inl o ↦ bwd (inl o)
          | inr (r, i, e) ↦ elim i [
            | inl same ↦
                absurd (let t = subst (λ z. as_text (at z "retracts") ≡ some x) (sym same) e in cc)
            | inr j ↦ bwd (inr (r, j, e))
          ]
        ],
      )
  | inr (t, there) ↦
      let (fwd, bwd) = targets_of_iff (set_add out t) recs x in
      let added = contains-set_add out t x in
      rw there (
        λ h. elim (fwd h) [
          | inr (r, i, e) ↦ inr (r, inr i, e)
          | inl o ↦ elim (Bool-cases (t == x)) [
            | inl same ↦ inr (first, inl refl, there ∙ ap some ((eq_iff t x).0 same))
            | inr other ↦ inl (ground (arith, o, added, other))
          ]
        ],
        λ s. elim s [
          | inl o ↦ bwd (inl (ground (arith, o, added)))
          | inr (r, i, e) ↦ elim i [
            | inl same ↦
                let k = subst (λ z. as_text (at z "retracts") ≡ some x) (sym same) e in
                let q = (eq_iff t x).1 (some-injective _ _ (sym there ∙ k)) in
                bwd (inl (ground (arith, added, q)))
            | inr j ↦ bwd (inr (r, j, e))
          ]
        ],
      )
]

-- A stored retraction names the identifier.
abbrev pub IsRetracted : Store → String → Type 0
IsRetracted s x =
    (ret : Fields) × IsStored s.records s.record_order "retraction" ret
    × (as_text (at ret "retracts") ≡ some x)

pub records_of-IsStored :
    (s : Store) (kind : String) (rec : Fields)
    → In rec (records_of s kind) ↔ IsStored s.records s.record_order kind rec
unfolding records_of
records_of-IsStored s kind rec = of_kind-IsStored s.records kind s.record_order rec

pub retracted_ids-IsRetracted :
    (s : Store) (x : String) → (contains_string (retracted_ids s) x ≡ true) ↔ IsRetracted s x
unfolding retracted_ids contains_string
retracted_ids-IsRetracted s x =
    let (fwd, bwd) = targets_of_iff [] (records_of s "retraction") x in
    (
      λ h. elim (fwd h) [
        | inl n ↦ absurd (cc)
        | inr (r, i, e) ↦ (r, (records_of-IsStored s "retraction" r).0 i, e)
      ],
      λ (r, i, e). bwd (inr (r, (records_of-IsStored s "retraction" r).1 i, e)),
    )

-- No stored retraction names it.
pub retracted_ids-false :
    (s : Store) (x : String) → (contains_string (retracted_ids s) x ≡ false) ↔ ¬ IsRetracted s x
retracted_ids-false s x =
    let (fwd, bwd) = retracted_ids-IsRetracted s x in
    (
      λ h r. let t = bwd r in cc,
      λ n. elim (Bool-cases (contains_string (retracted_ids s) x)) [
        | inl h ↦ absurd (n (fwd h))
        | inr h ↦ h
      ],
    )
