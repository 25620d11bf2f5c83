-- ===== src/Store/Invariant/Enforced.antt =====
-- An enforcing store into which nothing is merged by force keeps its taxonomies without cycles.
use causalontology.Prelude.{
  String, [], ◌∷◌, ◌++◌, true, false, ◌≡◌, ◌⊎◌, inl, inr, refl, sym, ◌∙◌, arith, subst, ok, ◌==◌,
  eq_iff, ◌&&◌, Bool-cases,
}
use causalontology.Sets.{contains_string}
use causalontology.Json.{Fields, text_at}
use causalontology.Store.State.{Env, Store, new_store}
use causalontology.Store.Queries.{records_of, retracted_ids, of_kind, targets_of}
use causalontology.Store.Cycles.Trails.{In}
use causalontology.Store.Cycles.Records.{In-append}
use causalontology.Store.Cycles.Finds.{IsAcyclic}
use causalontology.Store.Taxonomy.{active_in}
use causalontology.Store.Taxonomy.Breaking.{Walk-In}
use causalontology.Store.Writes.{put, put_record, check_record, add_record}
use causalontology.Store.Writes.Steps.{put_rule, write_record_rule, FreshRecord}
use causalontology.Store.Invariant.Preserved.{new_store-IsValid, put-IsValid, write_record-IsValid}
use causalontology.Store.Invariant.Growth.{IsAcyclic-fewer}
use causalontology.Store.Invariant.Acyclic.{
  taxonomy, is_taxonomic, TypeAgrees, IsGuarded, In-taxonomy, checked-IsAcyclic, copied-type,
}

-- The stores that writes without force lead to from an enforcing store, where each record is of the
-- type that its write says.
pub data Enforced (env : Env) : Store → Type 0 where
  fresh : Enforced env (new_store true)
  putting :
      {s : Store} (m : Fields) (kind : String) → Enforced env s → Enforced env (put env s m kind).1
  recording :
      {s : Store} (m : Fields) (kind : String)
      → TypeAgrees m kind
      → Enforced env s
      → Enforced env (put_record env s m kind).1

-- Adding a checked record makes no cycle.
added-IsAcyclic :
    (env : Env) (s : Store) (m : Fields) (kind k id : String) (rec : Fields)
    → IsGuarded env s
    → TypeAgrees m kind
    → FreshRecord env s m kind false k id rec
    → (field : String) → is_taxonomic field ≡ true
    → IsAcyclic (taxonomy (add_record s id rec) field)
added-IsAcyclic env s m kind k id rec g agrees f field tax =
    elim (Bool-cases (text_at rec "type" == "enrichment" && text_at rec "field" == field)) [
      | inl joins ↦
          let is_enrichment = (eq_iff (text_at rec "type") "enrichment").0 (ground arith) in
          let of_field = (eq_iff (text_at rec "field") field).0 (ground arith) in
          IsAcyclic-fewer (taxonomy t field) (taxonomy s field ++ rec ∷ [])
            (λ x i. elim (split x i) [
              | inl j ↦ (In-append x (taxonomy s field) (rec ∷ [])).1 (inl j)
              | inr (e, _, _) ↦ (In-append x (taxonomy s field) (rec ∷ [])).1 (inr (inl e))
            ])
            (subst (λ n. IsAcyclic (taxonomy s n ++ rec ∷ [])) of_field
              (checked-IsAcyclic env s rec g.enforcing
                (subst (λ n. check_record env s rec n false ≡ ok tt) (sym type_is ∙ is_enrichment)
                  f.checked)
                (subst (λ n. is_taxonomic n ≡ true) (sym of_field) tax)))
      | inr apart ↦
          IsAcyclic-fewer (taxonomy t field) (taxonomy s field)
            (λ x i. elim (split x i) [
              | inl j ↦ j
              | inr (_, y, z) ↦ absurd (
                  ground (
                    arith,
                    eq_iff (text_at rec "type") "enrichment",
                    eq_iff (text_at rec "field") field,
                  ))
            ])
            (g.acyclic field tax)
    ]
  where
    t : Store
    t = add_record s id rec

    free : contains_string s.record_order id ≡ false
    free = g.valid.record_list.listed id ∙ f.free

    type_is : text_at rec "type" ≡ k
    type_is =
        subst (λ r. text_at r "type" ≡ k) (sym f.copied)
          (copied-type m kind k id (agrees k f.resolved))

    split :
        (x : Fields)
        → In x (taxonomy t field)
        → In x (taxonomy s field)
          ⊎ ((rec ≡ x) × (text_at rec "type" ≡ "enrichment") × (text_at rec "field" ≡ field))
    split = In-taxonomy s id rec free field

put-IsGuarded :
    (env : Env) (s : Store) (m : Fields) (kind : String)
    → IsGuarded env s
    → IsGuarded env (put env s m kind).1
unfolding records_of retracted_ids
put-IsGuarded env s m kind g = record {
  enforcing =
      put_rule (λ _ t. t.enforcing ≡ true) env s m kind (λ _. g.enforcing) (λ _ _. g.enforcing)
        (λ _ _ _ _. g.enforcing);
  valid = put-IsValid env s m kind g.valid;
  acyclic =
      put_rule (λ _ t. (field : String) → is_taxonomic field ≡ true → IsAcyclic (taxonomy t field))
        env s m kind (λ _. g.acyclic) (λ _ _. g.acyclic) (λ _ _ _ _. g.acyclic);
}

put_record-IsGuarded :
    (env : Env) (s : Store) (m : Fields) (kind : String)
    → TypeAgrees m kind
    → IsGuarded env s
    → IsGuarded env (put_record env s m kind).1
unfolding records_of retracted_ids put_record
put_record-IsGuarded env s m kind agrees g = record {
  enforcing =
      write_record_rule (λ _ t. t.enforcing ≡ true) env s m kind false (λ _. g.enforcing)
        (λ _ _. g.enforcing) (λ _ _ _ _ _. g.enforcing) (λ _ _ _ _. g.enforcing);
  valid = write_record-IsValid env s m kind false g.valid;
  acyclic =
      write_record_rule
        (λ _ t. (field : String) → is_taxonomic field ≡ true → IsAcyclic (taxonomy t field)) env s m
        kind false (λ _. g.acyclic) (λ _ _. g.acyclic) (λ _ _ _ _ _. g.acyclic)
        (λ k id rec f. added-IsAcyclic env s m kind k id rec g agrees f);
}

new_store-IsGuarded : (env : Env) → IsGuarded env (new_store true)
unfolding records_of retracted_ids of_kind targets_of active_in
new_store-IsGuarded env = record {
  enforcing = refl;
  valid = new_store-IsValid env true;
  acyclic = λ field tax u l p w. elim (Walk-In [] l w (inl refl)) [ ];
}

Enforced-IsGuarded : (env : Env) (s : Store) → Enforced env s → IsGuarded env s
Enforced-IsGuarded env s fresh = new_store-IsGuarded env
Enforced-IsGuarded env s (putting {s = t} m kind e) =
    put-IsGuarded env t m kind (Enforced-IsGuarded env t e)
Enforced-IsGuarded env s (recording {s = t} m kind agrees e) =
    put_record-IsGuarded env t m kind agrees (Enforced-IsGuarded env t e)

-- In an enforcing store into which nothing was merged by force, and whose records are of the type
-- that their write said, the unretracted records of subsumes and those of part_of make no cycle.
pub Enforced-IsAcyclic :
    (env : Env) (s : Store) (field : String)
    → Enforced env s
    → is_taxonomic field ≡ true
    → IsAcyclic (taxonomy s field)
Enforced-IsAcyclic env s field e tax = (Enforced-IsGuarded env s e).acyclic field tax
