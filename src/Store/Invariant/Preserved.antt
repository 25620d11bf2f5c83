-- ===== src/Store/Invariant/Preserved.antt =====
-- Every write keeps the invariant.
use causalontology.Prelude.{
  String, List, [], ◌∷◌, ◌++◌, Bool, false, some, ◌==◌, eq_iff, ◌≡◌, refl, ◌∙◌, inl, inr, subst,
  arith, Map, find, insert, size, is_some, find-insert, size-insert_new, length-append, ok, bind-ok,
  Bool-cases, ap, true,
}
use causalontology.Sets.{contains_string}
use causalontology.Sets.Laws.{contains-append, IsUnique-snoc}
use causalontology.Json.{Fields}
use causalontology.Semantics.Rules.{validate_semantics}
use causalontology.Store.State.{Env, Store, new_store}
use causalontology.Store.Writes.{put, write_record, check_record, check_object, accept_if}
use causalontology.Store.Writes.Steps.{put_rule, write_record_rule}
use causalontology.Store.Invariant.{IsListed, StoredObject, StoredRecord, IsValid}

IsListed-insert :
    (m : Map Fields) (order : List String) (id : String) (obj : Fields)
    → is_some (find m id) ≡ false
    → IsListed m order
    → IsListed (insert m id obj) (order ++ id ∷ [])
unfolding contains_string is_some
IsListed-insert m order id obj free l = record {
  listed = λ j.
      ground
        (arith, contains-append order (id ∷ []) j, find-insert m id obj j, l.listed j, eq_iff id j);
  once = IsUnique-snoc order id l.once (l.listed id ∙ free);
  counted =
      omega
        (arith, length-append order (id ∷ []), size-insert_new m id obj (ground arith), l.counted);
}

-- What an insertion holds is the new entry or an old one.
insert_keeps {ℓ} :
    (P : String → Fields → Type ℓ) (m : Map Fields) (id : String) (obj : Fields)
    → P id obj
    → ((j : String) (o : Fields) → find m j ≡ some o → P j o)
    → (j : String) (o : Fields) → find (insert m id obj) j ≡ some o
    → P j o
insert_keeps P m id obj new old j o h = elim (Bool-cases (id == j)) [
  | inl e ↦
      subst (λ k. P k o) ((eq_iff id j).0 e)
        (subst (P id) (ground (arith, find-insert m id obj j)) new)
  | inr e ↦ old j o (ground (arith, find-insert m id obj j))
]

accepted :
    (sem : Bool × List String) → accept_if sem ≡ ok tt → (why : List String) × (sem ≡ (true, why))
unfolding accept_if
accepted (true, why) h = (why, refl)
accepted (false, why) h = cc

check_object-passed :
    (env : Env) (obj : Fields) (k : String)
    → check_object env obj k ≡ ok tt
    → ((why : List String) × (env.validate_schema obj k ≡ ok (true, why)))
      × ((why : List String) × (validate_semantics env.floats obj k ≡ ok (true, why)))
unfolding check_object
check_object-passed env obj k h =
    let (schema, e, rest) = bind-ok (env.validate_schema obj k) _ h in
    let (t, a, more) = bind-ok (accept_if schema) _ rest in
    let (sem, f, last) = bind-ok (validate_semantics env.floats obj k) _ more in
    let (why, p) = accepted schema a in
    let (reasons, q) = accepted sem last in ((why, e ∙ ap ok p), (reasons, f ∙ ap ok q))

check_record-semantics :
    (env : Env) (s : Store) (rec : Fields) (k : String) (force : Bool)
    → check_record env s rec k force ≡ ok tt
    → (why : List String) × (validate_semantics env.floats rec k ≡ ok (true, why))
unfolding check_record
check_record-semantics env s rec k force h =
    let (sem, e, rest) = bind-ok (validate_semantics env.floats rec k) _ h in
    let (t, a, more) = bind-ok (accept_if sem) _ rest in
    let (why, p) = accepted sem a in (why, e ∙ ap ok p)

pub new_store-IsValid : (env : Env) (enforcing : Bool) → IsValid env (new_store enforcing)
unfolding contains_string find is_some size
new_store-IsValid env enforcing = record {
  object_list = record { listed = λ id. refl; once = tt; counted = refl };
  record_list = record { listed = λ id. refl; once = tt; counted = refl };
  objects_ok = λ id obj h. cc;
  records_ok = λ id rec h. cc;
}

-- Put keeps the invariant, whether it stores, finds or refuses.
pub put-IsValid :
    (env : Env) (s : Store) (m : Fields) (kind : String)
    → IsValid env s
    → IsValid env (put env s m kind).1
put-IsValid env s m kind v =
    put_rule (λ _ t. IsValid env t) env s m kind (λ _. v) (λ _ _. v)
      (λ k id obj f. record {
        object_list = IsListed-insert s.objects s.object_order id obj f.free v.object_list;
        record_list = v.record_list;
        objects_ok =
            insert_keeps (StoredObject env) s.objects id obj
              (record {
                kind = k;
                named = f.named;
                kind_ok = f.kind_ok;
                schema_ok = (check_object-passed env obj k f.checked).0;
                lawful = (check_object-passed env obj k f.checked).1;
              })
              v.objects_ok;
        records_ok = v.records_ok;
      })

-- PutRecord and ForceMergeRecord keep the invariant; what they quarantine stays out of the records.
pub write_record-IsValid :
    (env : Env) (s : Store) (m : Fields) (kind : String) (force : Bool)
    → IsValid env s
    → IsValid env (write_record env s m kind force).1
write_record-IsValid env s m kind force v =
    write_record_rule (λ _ t. IsValid env t) env s m kind force (λ _. v) (λ _ _. v)
      (λ k id rec _ _. record {
        object_list = v.object_list;
        record_list = v.record_list;
        objects_ok = v.objects_ok;
        records_ok = v.records_ok;
      })
      (λ k id rec f. record {
        object_list = v.object_list;
        record_list = IsListed-insert s.records s.record_order id rec f.free v.record_list;
        objects_ok = v.objects_ok;
        records_ok =
            insert_keeps (StoredRecord env) s.records id rec
              (record {
                kind = k;
                named = f.named;
                kind_ok = f.kind_ok;
                verified = f.verified;
                lawful = check_record-semantics env s rec k force f.checked;
              })
              v.records_ok;
      })
