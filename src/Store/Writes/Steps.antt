-- ===== src/Store/Writes/Steps.antt =====
-- What a write does to the store, case by case.
use causalontology.Prelude.{
  String, Bool, true, false, some, ◌≡◌, inl, inr, arith, find, is_some, Result, ok, err, Error,
  Bool-cases, Result-cases, eq_iff, subst, sym,
}
use causalontology.Json.{str, Fields, at, as_text, set, copy_map}
use causalontology.Json.Laws.{get-set}
use causalontology.Signing.{verify_record}
use causalontology.Canonical.{resolve_kind}
use causalontology.Store.State.{Env, Store, is_content_kind, is_record_kind}
use causalontology.Store.Writes.{
  prepare_object, with_type, check_object, admit_object, put, prepare_record, check_record,
  admit_record, write_record, add_object, add_record, quarantine_record, unverified,
}

-- The copy that Put stores names its identifier, and its kind is a content kind.
prepare_object-id :
    (env : Env) (m : Fields) (kind k id : String) (obj : Fields)
    → prepare_object env m kind ≡ ok (k, id, obj)
    → (as_text (at obj "id") ≡ some id) × (is_content_kind k ≡ true)
unfolding prepare_object
prepare_object-id env m kind k id obj h = ground arith

prepare_record-parts :
    (env : Env) (m : Fields) (kind k id : String) (rec : Fields)
    → prepare_record env m kind ≡ ok (k, id, rec)
    → (rec ≡ set (with_type (copy_map m) k) "id" (str id))
      × (is_record_kind k ≡ true)
      × (resolve_kind m kind ≡ ok k)
unfolding prepare_record
prepare_record-parts env m kind k id rec h = ground arith

text-set_self : (m : Fields) (id : String) → as_text (at (set m "id" (str id)) "id") ≡ some id
unfolding at as_text
text-set_self m id = ground (arith, get-set m "id" (str id) "id", eq_iff "id" "id")

-- What Put stores: a checked copy under its identifier, which was free.
pub record Fresh (env : Env) (s : Store) (k id : String) (obj : Fields) : Type 0 where
  pub free : is_some (find s.objects id) ≡ false
  pub named : as_text (at obj "id") ≡ some id
  pub kind_ok : is_content_kind k ≡ true
  pub checked : check_object env obj k ≡ ok tt

-- To show something of a Put, show it of a refusal and of a known identifier, which change nothing,
-- and of a stored copy.
pub put_rule {ℓ} :
    (P : Result String → Store → Type ℓ) (env : Env) (s : Store) (m : Fields) (kind : String)
    → ((e : Error) → P (err e) s)
    → ((id : String) → is_some (find s.objects id) ≡ true → P (ok id) s)
    → ((k id : String) (obj : Fields) → Fresh env s k id obj → P (ok id) (add_object s id obj))
    → P (put env s m kind).0 (put env s m kind).1
unfolding put admit_object
put_rule P env s m kind refused known stored = elim (Result-cases (prepare_object env m kind)) [
  | inl (e, h) ↦ rw (h, put) (refused e)
  | inr ((k, id, obj), h) ↦
      let (named, kind_ok) = prepare_object-id env m kind k id obj h in
      rw (h, put)
        (elim (Bool-cases (is_some (find s.objects id))) [
          | inl old ↦ rw (old, admit_object) (known id old)
          | inr free ↦
              rw (free, admit_object)
                (elim (Result-cases (check_object env obj k)) [
                  | inl (e, c) ↦ rw c (refused e)
                  | inr (t, c) ↦ rw c (
                      stored k id obj
                        (record { free = free; named = named; kind_ok = kind_ok; checked = c }))
                ])
        ])
]

-- What writeRecord stores: a verified and checked copy under its identifier, which was free.
pub record FreshRecord (env : Env) (s : Store) (m : Fields) (kind : String) (force : Bool)
    (k id : String) (rec : Fields) : Type 0 where
  pub resolved : resolve_kind m kind ≡ ok k
  pub copied : rec ≡ set (with_type (copy_map m) k) "id" (str id)
  pub free : is_some (find s.records id) ≡ false
  pub named : as_text (at rec "id") ≡ some id
  pub kind_ok : is_record_kind k ≡ true
  pub verified : verify_record env.floats env.crypto rec k ≡ true
  pub checked : check_record env s rec k force ≡ ok tt

pub write_record_rule {ℓ} :
    (P : Result String → Store → Type ℓ) (env : Env) (s : Store) (m : Fields) (kind : String)
    (force : Bool)
    → ((e : Error) → P (err e) s)
    → ((id : String) → is_some (find s.records id) ≡ true → P (ok id) s)
    → ((k id : String) (rec : Fields)
        → is_some (find s.records id) ≡ false
        → verify_record env.floats env.crypto rec k ≡ false
        → P (err unverified) (quarantine_record s id rec))
    → ((k id : String) (rec : Fields)
        → FreshRecord env s m kind force k id rec
        → P (ok id) (add_record s id rec))
    → P (write_record env s m kind force).0 (write_record env s m kind force).1
unfolding write_record admit_record
write_record_rule P env s m kind force refused known unsigned stored =
    elim (Result-cases (prepare_record env m kind)) [
      | inl (e, h) ↦ rw (h, write_record) (refused e)
      | inr ((k, id, rec), h) ↦
          let (copied, kind_ok, resolved) = prepare_record-parts env m kind k id rec h in
          let named =
            subst (λ r. as_text (at r "id") ≡ some id) (sym copied)
              (text-set_self (with_type (copy_map m) k) id) in
          rw (h, write_record)
            (elim (Bool-cases (is_some (find s.records id))) [
              | inl old ↦ rw (old, admit_record) (known id old)
              | inr free ↦
                  rw (free, admit_record)
                    (elim (Bool-cases (verify_record env.floats env.crypto rec k)) [
                      | inr bad ↦ rw bad (unsigned k id rec free bad)
                      | inl good ↦ rw good (elim (Result-cases (check_record env s rec k force)) [
                        | inl (e, c) ↦ rw c (refused e)
                        | inr (t, c) ↦ rw c (
                            stored k id rec (record {
                              resolved = resolved;
                              copied = copied;
                              free = free;
                              named = named;
                              kind_ok = kind_ok;
                              verified = good;
                              checked = c;
                            }))
                      ])
                    ])
            ])
    ]
