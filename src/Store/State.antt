-- ===== src/Store/State.antt =====
-- The state of a Store, and what its operations use of the rest.
use causalontology.Prelude.{ℕ, String, List, [], Bool, Map, size, Result, ◌==◌, ◌||◌}
use causalontology.Json.{Fields, Floats}
use causalontology.Signing.{Crypto}

-- What the store calls: floats, keys and hashes, and ValidateSchema.
pub record Env : Type 0 where
  pub floats : Floats
  pub crypto : Crypto
  pub validate_schema : Fields → String → Result (Bool × List String)

pub record Store : Type 0 where
  pub enforcing : Bool
  pub objects : Map Fields
  pub object_order : List String
  pub records : Map Fields
  pub record_order : List String
  pub quarantine : Map Fields

-- NewStore
abbrev pub new_store : Bool → Store
new_store enforcing = record {
  enforcing = enforcing;
  objects = [];
  object_order = [];
  records = [];
  record_order = [];
  quarantine = [];
}

-- ObjectCount
unfoldable pub object_count : Store → ℕ
unfolding size
object_count s = size s.objects

-- ContentKinds[kind]
unfoldable pub is_content_kind : String → Bool
is_content_kind kind =
    kind == "occurrent"
    || kind == "causal_relation_object"
    || kind == "continuant"
    || kind == "realizable"
    || kind == "stratum"
    || kind == "bridge"
    || kind == "cross_stratal_seam"
    || kind == "port"
    || kind == "conduit"
    || kind == "quality"
    || kind == "token_individual"
    || kind == "token_occurrence"
    || kind == "state_assertion"
    || kind == "token_causal_claim"
    || kind == "attitude"
    || kind == "predicted_occurrence"
    || kind == "prediction_error"

-- RecordKinds[kind]
unfoldable pub is_record_kind : String → Bool
is_record_kind kind =
    kind == "assertion" || kind == "enrichment" || kind == "retraction" || kind == "succession"
