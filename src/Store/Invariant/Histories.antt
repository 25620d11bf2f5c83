-- ===== src/Store/Invariant/Histories.antt =====
-- Histories of writes: what every reachable store satisfies, and what no write takes away.
use causalontology.Prelude.{
  String, Bool, true, false, some, eq_iff, ◌≡◌, arith, find, insert, is_some, find-insert, Result,
  List,
}
use causalontology.Json.{Fields}
use causalontology.Store.State.{Env, Store, new_store}
use causalontology.Store.Writes.{put, put_record, force_merge_record, write_record}
use causalontology.Store.Writes.Steps.{put_rule, write_record_rule}
use causalontology.Store.Invariant.{IsValid}
use causalontology.Store.Invariant.Preserved.{put-IsValid, write_record-IsValid, new_store-IsValid}

-- One write of a client.
pub data Write : Type 0 where
  putting recording merging : Fields → String → Write

unfoldable pub perform : Env → Store → Write → Result String × Store
perform env s (putting m kind) = put env s m kind
perform env s (recording m kind) = put_record env s m kind
perform env s (merging m kind) = force_merge_record env s m kind

-- The stores that writes, failing or not, lead to.
pub data Reachable (env : Env) (enforcing : Bool) : Store → Type 0 where
  fresh : Reachable env enforcing (new_store enforcing)
  after :
      {s : Store} (w : Write)
      → Reachable env enforcing s
      → Reachable env enforcing (perform env s w).1

-- The later store holds all that the earlier held, unchanged, in both maps.
pub record Extends (s t : Store) : Type 0 where
  pub objects_kept :
      (id : String) (obj : Fields) → find s.objects id ≡ some obj → find t.objects id ≡ some obj
  pub records_kept :
      (id : String) (rec : Fields) → find s.records id ≡ some rec → find t.records id ≡ some rec

perform-IsValid :
    (env : Env) (s : Store) (w : Write) → IsValid env s → IsValid env (perform env s w).1
unfolding perform put_record force_merge_record
perform-IsValid env s (putting m kind) v = put-IsValid env s m kind v
perform-IsValid env s (recording m kind) v = write_record-IsValid env s m kind false v
perform-IsValid env s (merging m kind) v = write_record-IsValid env s m kind true v

-- Every store that writes lead to from NewStore lists the keys of both maps, each once. Each object in
-- it stands under its own id, and for some kind ValidateSchema and ValidateSemantics answer true.
-- Each record stands under its own id, and for some kind VerifyRecord and ValidateSemantics do.
pub Reachable-IsValid :
    (env : Env) (enforcing : Bool) (s : Store) → Reachable env enforcing s → IsValid env s
Reachable-IsValid env enforcing s fresh = new_store-IsValid env enforcing
Reachable-IsValid env enforcing s (after {s = t} w r) =
    perform-IsValid env t w (Reachable-IsValid env enforcing t r)

keeps_old :
    (m : List (String × Fields)) (id : String) (obj : Fields)
    → is_some (find m id) ≡ false
    → (j : String) (o : Fields) → find m j ≡ some o
    → find (insert m id obj) j ≡ some o
unfolding is_some
keeps_old m id obj free j o h = ground (arith, find-insert m id obj j, eq_iff id j)

Extends-refl : (s : Store) → Extends s s
Extends-refl s = record { objects_kept = λ id obj h. h; records_kept = λ id rec h. h }

Extends-write :
    (env : Env) (s : Store) (m : Fields) (kind : String) (force : Bool)
    → Extends s (write_record env s m kind force).1
Extends-write env s m kind force =
    write_record_rule (λ _ t. Extends s t) env s m kind force (λ _. Extends-refl s)
      (λ _ _. Extends-refl s)
      (λ k id rec _ _. record { objects_kept = λ j o h. h; records_kept = λ j r h. h })
      (λ k id rec f. record {
        objects_kept = λ j o h. h;
        records_kept = keeps_old s.records id rec f.free;
      })

-- No write, failing or not, changes or removes a stored object or record.
pub perform-Extends : (env : Env) (s : Store) (w : Write) → Extends s (perform env s w).1
unfolding perform put_record force_merge_record
perform-Extends env s (putting m kind) =
    put_rule (λ _ t. Extends s t) env s m kind (λ _. Extends-refl s) (λ _ _. Extends-refl s)
      (λ k id obj f. record {
        objects_kept = keeps_old s.objects id obj f.free;
        records_kept = λ j r h. h;
      })
perform-Extends env s (recording m kind) = Extends-write env s m kind false
perform-Extends env s (merging m kind) = Extends-write env s m kind true
