-- ===== src/Canonical.antt =====
-- Canonicalization and content-addressed identity: bindings/go/v4/causalontology/canonical.go.
-- SHA-256 with its hex encoding is a parameter.
mod Kinds
pub mod Bearing
pub mod Identity
unfoldable pub use Kinds.{lookup_fields, identity_table, identity_fields, kind_of_prefix, prefix}
use Prim.Native.Char.{code}
use Prim.Native.String.{◌++◌}
use causalontology.Prelude.{
  String, List, [], ◌∷◌, Bool, true, false, Option, none, some, ◌==◌, if◌then◌else◌, ◌&&◌, ◌||◌,
  eqb, Result, ok, err, ◌>>=◌, cannot_infer_kind, unknown_kind,
}
use causalontology.Json.{
  Value, str, obj, Fields, end, field, get, has, at, set, as_text, text_at, Floats,
}
use causalontology.Jcs.{serialize_jcs}

-- `id[:colon]`, at the first colon
unfoldable pub before_colon : String → Option String
before_colon String.[] = none
before_colon (String.◌∷◌ c s) =
    let rest = before_colon s in
    if eqb (code c) b':'
    then some ""
    else elim rest [ none ↦ none | some front ↦ some (String.◌∷◌ c front) ]

-- the part of InferKind that reads the shape
unfoldable pub kind_of_shape : Fields → Result String
unfolding has
kind_of_shape m =
    if has m "coarse" && has m "fine"
    then ok "bridge"
    else if has m "causes" && has m "effects"
    then ok "causal_relation_object"
    else if has m "retracts"
    then ok "retraction"
    else if has m "predecessor" && has m "successor"
    then ok "succession"
    else if has m "field" && has m "entry"
    then ok "enrichment"
    else if has m "evidence_type" || (has m "about" && has m "confidence")
    then ok "assertion"
    else if has m "kind" && has m "bearer"
    then ok "realizable"
    else err cannot_infer_kind

-- the kind that the scheme of the id names
unfoldable pub kind_of_id_text : Fields → Option String
unfolding at as_text before_colon kind_of_prefix
kind_of_id_text m = elim (as_text (at m "id")) [
  | none ↦ none
  | some id ↦ elim (before_colon id) [ none ↦ none | some scheme ↦ kind_of_prefix scheme ]
]

-- InferKind
unfoldable pub infer_kind : Fields → Result String
unfolding at as_text kind_of_id_text kind_of_shape
infer_kind m = elim (as_text (at m "type")) [
  | some kind ↦ ok kind
  | none ↦ elim (kind_of_id_text m) [ some kind ↦ ok kind | none ↦ kind_of_shape m ]
]

-- `if kind == "" { kind = InferKind(obj) }`
unfoldable pub resolve_kind : Fields → String → Result String
unfolding infer_kind
resolve_kind m kind = if kind == "" then infer_kind m else ok kind

-- the loop of IdentityBearing over the fields of the kind
unfoldable pub copy_bearing : Fields → Fields → List String → Fields
unfolding get set
copy_bearing m out [] = out
copy_bearing m out (f ∷ fs) =
    copy_bearing m (elim (get m f) [ none ↦ out | some v ↦ set out f v ]) fs

-- IdentityBearing
unfoldable pub identity_bearing : Fields → String → Result (String × Fields)
unfolding resolve_kind identity_fields copy_bearing
identity_bearing m kind = resolve_kind m kind >>= λ k. elim (identity_fields k) [
  | none ↦ err (unknown_kind k)
  | some fields ↦ ok (k, copy_bearing m (field "type" (str k) end) fields)
]

-- Canonicalize
unfoldable pub canonicalize : Floats → Fields → String → Result String
unfolding identity_bearing serialize_jcs
canonicalize fl m kind = identity_bearing m kind >>= λ b. serialize_jcs fl (obj b.1)

-- Identify; `digest` is the lowercase hex of SHA-256
unfoldable pub identify : Floats → (String → String) → Fields → String → Result String
unfolding identity_bearing serialize_jcs prefix
identify fl digest m kind = identity_bearing m kind >>= λ b.
    serialize_jcs fl (obj b.1) >>= λ canonical. ok (prefix b.0 ++ (":" ++ digest canonical))
