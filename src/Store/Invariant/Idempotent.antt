-- ===== src/Store/Invariant/Idempotent.antt =====
-- Writing again what was accepted changes nothing.
use causalontology.Prelude.{
  String, true, eq_iff, ◌≡◌, sym, ◌∙◌, ap, inl, inr, arith, find, insert, is_some, find-insert,
  Result, ok, err, Error, Bool-cases, Result-cases, Map,
}
use causalontology.Json.{Fields}
use causalontology.Store.State.{Env, Store}
use causalontology.Store.Writes.{put, prepare_object, admit_object, check_object}

has-insert :
    (m : Map Fields) (id : String) (obj : Fields) → is_some (find (insert m id obj) id) ≡ true
unfolding is_some
has-insert m id obj = ground (arith, find-insert m id obj id, eq_iff id id)

-- An accepted object is in the store under the identifier that was returned.
admit-present :
    (env : Env) (s : Store) (k j id : String) (obj : Fields)
    → (admit_object env s (k, j, obj)).0 ≡ ok id
    → (j ≡ id) × (is_some (find (admit_object env s (k, j, obj)).1.objects j) ≡ true)
unfolding admit_object
admit-present env s k j id obj h = elim (Bool-cases (is_some (find s.objects j))) [
  | inl old ↦ (ground arith, rw old old)
  | inr free ↦ elim (Result-cases (check_object env obj k)) [
    | inl (e, c) ↦ absurd (ground arith)
    | inr (t, c) ↦ (ground arith, rw (free, c) (has-insert s.objects j obj))
  ]
]

put-prepared :
    (env : Env) (s : Store) (m : Fields) (kind : String) (p : String × String × Fields)
    → prepare_object env m kind ≡ ok p
    → put env s m kind ≡ admit_object env s p
unfolding put
put-prepared env s m kind p h = ground arith

put-unprepared :
    (env : Env) (s : Store) (m : Fields) (kind : String) (e : Error)
    → prepare_object env m kind ≡ err e
    → put env s m kind ≡ (err e, s)
unfolding put
put-unprepared env s m kind e h = ground arith

admit-known :
    (env : Env) (s : Store) (k id : String) (obj : Fields)
    → is_some (find s.objects id) ≡ true
    → admit_object env s (k, id, obj) ≡ (ok id, s)
unfolding admit_object
admit-known env s k id obj h = ground arith

-- Put is idempotent: after a Put that returned an identifier, the same Put returns it again and
-- leaves the store as it is.
pub put_again :
    (env : Env) (s : Store) (m : Fields) (kind id : String)
    → (put env s m kind).0 ≡ ok id
    → put env (put env s m kind).1 m kind ≡ (ok id, (put env s m kind).1)
put_again env s m kind id h = elim (Result-cases (prepare_object env m kind)) [
  | inl (e, p) ↦
      absurd (refuses (ap (λ (t : Result String × Store). t.0) (put-unprepared env s m kind e p)))
  | inr ((k, j, obj), p) ↦
      let t = (put env s m kind).1 in
      let first = put-prepared env s m kind (k, j, obj) p in
      let (same, present) =
        admit-present env s k j id obj (ap (λ (r : Result String × Store). r.0) (sym first) ∙ h) in
      let again = put-prepared env t m kind (k, j, obj) p in
      let there : is_some (find t.objects j) ≡ true =
        ap (λ (r : Result String × Store). is_some (find r.1.objects j)) first ∙ present in
      again ∙ admit-known env t k j obj there ∙ ap (λ (i : String). (ok i, t)) same
]
  where
    refuses : {e : Error} → (put env s m kind).0 ≡ err e → ⊥
    refuses x = cc
