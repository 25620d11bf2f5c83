-- ===== src/Store/Invariant.antt =====
-- What holds of every store: both maps are listed in order, and all that they hold was checked.
pub mod Preserved
pub mod Histories
pub mod Idempotent
pub mod Retraction
pub mod Growth
pub mod Acyclic
pub mod Enforced
use causalontology.Prelude.{
  String, Bool, true, ◌≡◌, some, Result, ok, ◌>>=◌, find, is_some, size, length, Map, List, [],
}
use causalontology.Sets.{contains_string}
use causalontology.Sets.Laws.{IsUnique}
use causalontology.Json.{Fields, at, as_text}
use causalontology.Signing.{verify_record}
use causalontology.Semantics.Rules.{validate_semantics}
use causalontology.Store.State.{Env, Store, is_content_kind, is_record_kind}
use causalontology.Store.Writes.{check_object, accept_if}

-- The order lists the keys of the map, each once.
pub record IsListed (m : Map Fields) (order : List String) : Type 0 where
  pub listed : (id : String) → contains_string order id ≡ is_some (find m id)
  pub once : IsUnique order
  pub counted : length order ≡ size m

-- A content object stands under its own id, and a content kind is such that ValidateSchema and
-- ValidateSemantics both answered true for it.
pub record StoredObject (env : Env) (id : String) (obj : Fields) : Type 0 where
  pub kind : String
  pub named : as_text (at obj "id") ≡ some id
  pub kind_ok : is_content_kind kind ≡ true
  pub schema_ok : (why : List String) × (env.validate_schema obj kind ≡ ok (true, why))
  pub lawful : (why : List String) × (validate_semantics env.floats obj kind ≡ ok (true, why))

-- A record stands under its own id, and a record kind is such that its signature verifies and
-- ValidateSemantics answered true for it.
pub record StoredRecord (env : Env) (id : String) (rec : Fields) : Type 0 where
  pub kind : String
  pub named : as_text (at rec "id") ≡ some id
  pub kind_ok : is_record_kind kind ≡ true
  pub verified : verify_record env.floats env.crypto rec kind ≡ true
  pub lawful : (why : List String) × (validate_semantics env.floats rec kind ≡ ok (true, why))

pub record IsValid (env : Env) (s : Store) : Type 0 where
  pub object_list : IsListed s.objects s.object_order
  pub record_list : IsListed s.records s.record_order
  pub objects_ok :
      (id : String) (obj : Fields) → find s.objects id ≡ some obj → StoredObject env id obj
  pub records_ok :
      (id : String) (rec : Fields) → find s.records id ≡ some rec → StoredRecord env id rec
