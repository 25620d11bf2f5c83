-- ===== src/Canonical/Bearing.antt =====
-- What IdentityBearing keeps: "type", and exactly the identity-bearing fields that are present.
use causalontology.Prelude.{
  String, List, [], ◌∷◌, Bool, true, false, none, some, ◌==◌, eq_iff, ◌≡◌, refl, arith,
  if◌then◌else◌, ok, err, unknown_kind, Option-cases, ◌&&◌, inl, inr, not,
}
use causalontology.Sets.{contains_string}
use causalontology.Json.{str, Fields, end, field, get, set}
use causalontology.Json.Laws.{SameMap, get-set}
use causalontology.Canonical.{
  lookup_fields, identity_table, identity_fields, resolve_kind, copy_bearing, identity_bearing,
}

get-copy_bearing :
    (m out : Fields) (fs : List String) (k : String)
    → get (copy_bearing m out fs) k ≡ (
        if contains_string fs k
        then elim (get m k) [ none ↦ get out k | some v ↦ some v ]
        else get out k)
unfolding copy_bearing contains_string
get-copy_bearing m out [] k = refl
get-copy_bearing m out (f ∷ fs) k = elim (Option-cases (get m f)) [
  | inl e ↦ rw e (ground (arith, get-copy_bearing m out fs k, eq_iff f k))
  | inr (v, e) ↦
      rw e (ground (arith, get-copy_bearing m (set out f v) fs k, get-set out f v k, eq_iff f k))
]

-- Bearing maps of two objects that agree on the listed fields.
pub copy_bearing-agree :
    (m n out : Fields) (fs : List String)
    → ((k : String) → contains_string fs k ≡ true → get m k ≡ get n k)
    → SameMap (copy_bearing m out fs) (copy_bearing n out fs)
unfolding copy_bearing
copy_bearing-agree m n out fs h k =
    ground (arith, get-copy_bearing m out fs k, get-copy_bearing n out fs k, h k)

-- Every kind's fields are free of the three bookkeeping fields.
pub free_of : String → List (String × List String) → Bool
unfolding contains_string
free_of k [] = true
free_of k ((kind, fs) ∷ table) = not (contains_string fs k) && free_of k table

pub lookup-free_of :
    (k : String) (table : List (String × List String)) (kind : String) (fs : List String)
    → free_of k table ≡ true
    → lookup_fields table kind ≡ some fs
    → contains_string fs k ≡ false
unfolding free_of lookup_fields
lookup-free_of k [] kind fs h e = cc
lookup-free_of k ((j, gs) ∷ table) kind fs h e = ground (arith, lookup-free_of k table kind fs)

pub no_id : free_of "id" identity_table ≡ true
unfolding free_of
no_id = refl

pub no_signature : free_of "signature" identity_table ≡ true
unfolding free_of
no_signature = refl

pub no_type : free_of "type" identity_table ≡ true
unfolding free_of
no_type = refl

-- The bearing map reads "type" as the kind, an identity-bearing field as the object does, and
-- nothing else.
pub get-identity_bearing :
    (m : Fields) (kind : String) (fs : List String) (k : String)
    → identity_fields kind ≡ some fs
    → (kind == "") ≡ false
    → (out : Fields) × (identity_bearing m kind ≡ ok (kind, out))
      × (get out k ≡ (
          if "type" == k then some (str kind) else if contains_string fs k then get m k else none))
unfolding identity_bearing resolve_kind identity_fields get
get-identity_bearing m kind fs k e nonempty = (
  copy_bearing m (field "type" (str kind) end) fs,
  ground arith,
  ground (
    arith,
    get-copy_bearing m (field "type" (str kind) end) fs k,
    eq_iff "type" k,
    lookup-free_of "type" identity_table kind fs no_type e,
  ),
)

-- The two results of IdentityBearing when the kind is given.
pub identity_bearing-known :
    (m : Fields) (kind : String) (fs : List String)
    → (kind == "") ≡ false
    → identity_fields kind ≡ some fs
    → identity_bearing m kind ≡ ok (kind, copy_bearing m (field "type" (str kind) end) fs)
unfolding identity_bearing resolve_kind
identity_bearing-known m kind fs nonempty e = ground arith

pub identity_bearing-unknown :
    (m : Fields) (kind : String)
    → (kind == "") ≡ false
    → identity_fields kind ≡ none
    → identity_bearing m kind ≡ err (unknown_kind kind)
unfolding identity_bearing resolve_kind
identity_bearing-unknown m kind nonempty e = ground arith
