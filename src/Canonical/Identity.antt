-- ===== src/Canonical/Identity.antt =====
-- The identifier is a function of the identity-bearing fields alone.
use Prim.Native.String.{◌++◌}
use causalontology.Prelude.{
  String, List, true, false, some, ◌==◌, eq_iff, ◌≡◌, arith, ok, ◌>>=◌, Option-cases, inl, inr,
}
use causalontology.Sets.{contains_string}
use causalontology.Json.{Value, Fields, end, field, str, obj, get, set, delete, Floats}
use causalontology.Json.Laws.{get-set, get-delete}
use causalontology.Jcs.{serialize_jcs}
use causalontology.Jcs.Order.{serialize_jcs-SameMap}
use causalontology.Canonical.{
  identity_fields, identity_table, copy_bearing, canonicalize, identify, prefix,
}
use causalontology.Canonical.Bearing.{
  identity_bearing-known, identity_bearing-unknown, copy_bearing-agree, lookup-free_of, no_id,
  no_signature,
}

-- Two objects with the same identity-bearing fields of a kind.
abbrev pub AgreeOn : String → Fields → Fields → Type 0
AgreeOn kind m n =
    (fs : List String) (k : String)
    → identity_fields kind ≡ some fs
    → contains_string fs k ≡ true
    → get m k ≡ get n k

module _ (fl : Floats) (m n : Fields) (kind : String) where
  pub canonicalize-agree :
      (kind == "") ≡ false → AgreeOn kind m n → canonicalize fl m kind ≡ canonicalize fl n kind
  unfolding canonicalize
  canonicalize-agree nonempty h = elim (Option-cases (identity_fields kind)) [
    | inl e ↦
        rw (identity_bearing-unknown m kind nonempty e, identity_bearing-unknown n kind nonempty e)
    | inr (fs, e) ↦
        rw
          (identity_bearing-known m kind fs nonempty e, identity_bearing-known n kind fs nonempty e)
          (same_form fs e)
  ]
    where
      same_form :
          (fs : List String)
          → identity_fields kind ≡ some fs
          → serialize_jcs fl (obj (copy_bearing m (field "type" (str kind) end) fs))
            ≡ serialize_jcs fl (obj (copy_bearing n (field "type" (str kind) end) fs))
      same_form fs e =
          let start = field "type" (str kind) end in
          serialize_jcs-SameMap fl (copy_bearing m start fs) (copy_bearing n start fs)
            (copy_bearing-agree m n start fs (λ k. h fs k e))

  pub identify-canonicalize :
      (digest : String → String)
      → (kind == "") ≡ false
      → identify fl digest m kind
        ≡ (canonicalize fl m kind >>= λ bytes. ok (prefix kind ++ (":" ++ digest bytes)))
  unfolding identify canonicalize
  identify-canonicalize digest nonempty = elim (Option-cases (identity_fields kind)) [
    | inl e ↦ rw (identity_bearing-unknown m kind nonempty e)
    | inr (fs, e) ↦ rw (identity_bearing-known m kind fs nonempty e)
  ]

-- Objects with the same identity-bearing fields have one identifier.
pub identify-agree :
    (fl : Floats) (digest : String → String) (m n : Fields) (kind : String)
    → (kind == "") ≡ false
    → AgreeOn kind m n
    → identify fl digest m kind ≡ identify fl digest n kind
identify-agree fl digest m n kind nonempty h = rw (
  identify-canonicalize fl m n kind digest nonempty,
  identify-canonicalize fl n m kind digest nonempty,
  canonicalize-agree fl m n kind nonempty h,
)

-- Writing "id" or deleting "signature" leaves every identity-bearing field alone.
pub set_id-agree : (m : Fields) (kind : String) (v : Value) → AgreeOn kind (set m "id" v) m
unfolding identity_fields
set_id-agree m kind v fs k e c =
    ground
      (arith, get-set m "id" v k, eq_iff "id" k, lookup-free_of "id" identity_table kind fs no_id e)

pub delete_signature-agree : (m : Fields) (kind : String) → AgreeOn kind (delete m "signature") m
unfolding identity_fields
delete_signature-agree m kind fs k e c = ground (
  arith,
  get-delete m "signature" k,
  eq_iff "signature" k,
  lookup-free_of "signature" identity_table kind fs no_signature e,
)

pub set_signature-agree :
    (m : Fields) (kind : String) (v : Value) → AgreeOn kind (set m "signature" v) m
unfolding identity_fields
set_signature-agree m kind v fs k e c = ground (
  arith,
  get-set m "signature" v k,
  eq_iff "signature" k,
  lookup-free_of "signature" identity_table kind fs no_signature e,
)
