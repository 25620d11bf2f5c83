-- ===== src/Store/Invariant/Acyclic.antt =====
-- An enforcing store into which nothing is merged by force keeps its taxonomies without cycles.
use causalontology.Prelude.{
  String, List, [], ◌∷◌, ◌++◌, Bool, true, false, Option, none, some, ◌==◌, eq_iff, ◌≡◌, ◌⊎◌, ◌↔◌,
  inl, inr, refl, ap, ◌∙◌, arith, ◌||◌, if◌then◌else◌, Bool-cases, subst, ok, bind-ok, Error,
  rejected,
}
use causalontology.Sets.{contains_string}
use causalontology.Json.{str, Fields, has, at, as_text, text_at, set, copy_map}
use causalontology.Json.Laws.{get-set, get-copy_map}
use causalontology.Canonical.{resolve_kind}
use causalontology.Semantics.Rules.{validate_semantics}
use causalontology.Store.State.{Env, Store}
use causalontology.Store.Queries.{records_of, retracted_ids}
use causalontology.Store.Queries.Retracted.{
  IsStored, IsRetracted, records_of-IsStored, retracted_ids-false,
}
use causalontology.Store.Cycles.{find_cycle_records}
use causalontology.Store.Cycles.Trails.{In}
use causalontology.Store.Cycles.Records.{In-append}
use causalontology.Store.Cycles.Finds.{IsAcyclic, EndsInCycle, find_cycle_records_lem}
use causalontology.Store.Taxonomy.{active_in, would_cycle}
use causalontology.Store.Reasons.{cycle_reason}
use causalontology.Store.Writes.{
  check_record, check_cycle, check_retraction, refuse, accept_if, with_type, add_record,
}
use causalontology.Store.Invariant.{IsValid}
use causalontology.Store.Invariant.Growth.{
  records_of-add_record, retracted_ids-add_record, In-active_in,
}

-- The taxonomy of a field: its unretracted enrichments.
abbrev pub taxonomy : Store → String → List Fields
taxonomy s field = active_in (retracted_ids s) field (records_of s "enrichment")

abbrev pub is_taxonomic : String → Bool
is_taxonomic field = field == "subsumes" || field == "part_of"

-- The type of a record is left to the write, or is the kind of the write.
abbrev pub TypeAgrees : Fields → String → Type 0
TypeAgrees m kind =
    (k : String) → resolve_kind m kind ≡ ok k → (has m "type" ≡ false) ⊎ (text_at m "type" ≡ k)

-- The answer of wouldCycle, on the list that it searches.
would_cycle_lem :
    (s : Store) (rec : Fields)
    → ((would_cycle s rec ≡ some false) × IsAcyclic (taxonomy s (text_at rec "field") ++ rec ∷ []))
      ⊎ ((would_cycle s rec ≡ some true)
          × ((path : List Fields) × EndsInCycle
                (taxonomy s (text_at rec "field") ++ rec ∷ [])
                path))
unfolding would_cycle
would_cycle_lem s rec =
    elim (find_cycle_records_lem (taxonomy s (text_at rec "field") ++ rec ∷ [])) [
      | inl (e, a) ↦ inl (rw (e, would_cycle), a)
      | inr (path, e, c) ↦ inr (found path e c, (path, c))
    ]
  where
    found :
        (path : List Fields)
        → find_cycle_records (taxonomy s (text_at rec "field") ++ rec ∷ []) ≡ some path
        → EndsInCycle (taxonomy s (text_at rec "field") ++ rec ∷ []) path
        → would_cycle s rec ≡ some true
    found [] e (start, u, [], l, p, i, t, c) = absurd (cc)
    found [] e (start, u, m ∷ lead, l, p, i, t, c) = absurd (cc)
    found (first ∷ cycle) e c = rw (e, would_cycle)

-- An enrichment of the field in the store, whose id no stored retraction names.
abbrev pub IsActive : Store → String → Fields → Type 0
IsActive s field rec =
    IsStored s.records s.record_order "enrichment" rec
    × (text_at rec "field" ≡ field)
    × ¬ IsRetracted s (text_at rec "id")

pub taxonomy-IsActive :
    (s : Store) (field : String) (rec : Fields) → In rec (taxonomy s field) ↔ IsActive s field rec
taxonomy-IsActive s field rec =
    let (fwd, bwd) = In-active_in (retracted_ids s) field (records_of s "enrichment") rec in
    let (stored, stored') = records_of-IsStored s "enrichment" rec in
    let (kept, kept') = retracted_ids-false s (text_at rec "id") in
    (λ i. let (j, f, n) = fwd i in (stored j, f, kept n), λ (j, f, n). bwd (stored' j, f, kept' n))

-- The answer of wouldCycle on the active enrichments of the field of the record, and the record.
abbrev pub DecidesCycle : Store → Fields → Type 0
DecidesCycle s rec =
    (recs : List Fields) × ((r : Fields)
      → In r recs ↔ (IsActive s (text_at rec "field") r ⊎ (rec ≡ r)))
    × (((would_cycle s rec ≡ some false) × IsAcyclic recs)
        ⊎ ((would_cycle s rec ≡ some true) × ((path : List Fields) × EndsInCycle recs path)))

-- wouldCycle always answers. On a list of exactly the record and the stored enrichments of its field
-- whose ids no stored retraction names, it answers false where no walk along the list comes back to
-- its start, and true where some path along it ends in such a walk.
pub would_cycle-DecidesCycle : (s : Store) (rec : Fields) → DecidesCycle s rec
would_cycle-DecidesCycle s rec =
    let field = text_at rec "field" in
    (
      taxonomy s field ++ rec ∷ [],
      λ r.
          let (split, join) = In-append r (taxonomy s field) (rec ∷ []) in
          let (act, act') = taxonomy-IsActive s field r in
          (
            λ i. elim (split i) [
              | inl j ↦ inl (act j)
              | inr j ↦ elim j [ inl e ↦ inr e | inr n ↦ absurd n ]
            ],
            λ h. elim h [ inl a ↦ join (inl (act' a)) | inr e ↦ join (inr (inl e)) ],
          ),
      would_cycle_lem s rec,
    )

refuse-ok : (b : Option Bool) (e : Error) → refuse b e ≡ ok tt → b ≡ some false
unfolding refuse
refuse-ok none e h = cc
refuse-ok (some true) e h = cc
refuse-ok (some false) e h = refl

check_cycle-ok :
    (s : Store) (rec : Fields)
    → s.enforcing ≡ true
    → is_taxonomic (text_at rec "field") ≡ true
    → check_cycle s rec "enrichment" false ≡ ok tt
    → would_cycle s rec ≡ some false
unfolding check_cycle
check_cycle-ok s rec enforcing field h =
    refuse-ok (would_cycle s rec) (rejected (cycle_reason (text_at rec "field"))) (ground arith)

-- What an enforcing store has checked of an enrichment that it accepts.
pub checked-IsAcyclic :
    (env : Env) (s : Store) (rec : Fields)
    → s.enforcing ≡ true
    → check_record env s rec "enrichment" false ≡ ok tt
    → is_taxonomic (text_at rec "field") ≡ true
    → IsAcyclic (taxonomy s (text_at rec "field") ++ rec ∷ [])
unfolding check_record check_cycle check_retraction
checked-IsAcyclic env s rec enforcing h field =
    let (sem, _, more) = bind-ok (validate_semantics env.floats rec "enrichment") _ h in
    let (_, _, last) = bind-ok (accept_if sem) _ more in
    let free = check_cycle-ok s rec enforcing field last in
    elim (would_cycle_lem s rec) [ inl (_, a) ↦ a | inr (e, _) ↦ absurd (ground arith) ]

-- The type of the copy that is stored.
pub copied-type :
    (m : Fields) (kind k id : String)
    → (has m "type" ≡ false) ⊎ (text_at m "type" ≡ k)
    → text_at (set (with_type (copy_map m) k) "id" (str id)) "type" ≡ k
unfolding with_type has text_at at as_text
copied-type m kind k id (inl none_there) = ground (
  arith,
  get-set (with_type (copy_map m) k) "id" (str id) "type",
  get-set (copy_map m) "type" (str k) "type",
  get-copy_map m "type",
)
copied-type m kind k id (inr agrees) = ground (
  arith,
  get-set (with_type (copy_map m) k) "id" (str id) "type",
  get-set (copy_map m) "type" (str k) "type",
  get-copy_map m "type",
)

pub record IsGuarded (env : Env) (s : Store) : Type 0 where
  pub enforcing : s.enforcing ≡ true
  pub valid : IsValid env s
  pub acyclic : (field : String) → is_taxonomic field ≡ true → IsAcyclic (taxonomy s field)

-- A record of another type or field adds nothing to a taxonomy.
module _ (s : Store) (id : String) (rec : Fields)
    (free : contains_string s.record_order id ≡ false) where
  -- What is in a taxonomy afterwards was there, or is the new record.
  pub In-taxonomy :
      (field : String) (x : Fields)
      → In x (taxonomy (add_record s id rec) field)
      → In x (taxonomy s field)
        ⊎ ((rec ≡ x) × (text_at rec "type" ≡ "enrichment") × (text_at rec "field" ≡ field))
  In-taxonomy field x i =
      let t = add_record s id rec in
      let (j, f, n) = (In-active_in (retracted_ids t) field (records_of t "enrichment") x).0 i in
      let (fwd, bwd) = In-active_in (retracted_ids s) field (records_of s "enrichment") x in
      let kept = retracted_ids-add_record s id rec (text_at x "id") free in
      elim ((In-append x (records_of s "enrichment") _).0
        (subst (In x) (records_of-add_record s "enrichment" id rec free) j)) [
          | inl old ↦ inl (bwd (old, f, ground arith))
          | inr new ↦ fresh f new
        ]
    where
      fresh :
          text_at x "field" ≡ field
          → In x (if text_at rec "type" == "enrichment" then rec ∷ [] else [])
          → In x (taxonomy s field)
            ⊎ ((rec ≡ x) × (text_at rec "type" ≡ "enrichment") × (text_at rec "field" ≡ field))
      fresh f new = elim (Bool-cases (text_at rec "type" == "enrichment")) [
        | inl same ↦ elim (rw same at new) [
          | inl e ↦ inr (
            e,
            (eq_iff (text_at rec "type") "enrichment").0 same,
            ap (λ r. text_at r "field") e ∙ f,
          )
          | inr no_more ↦ elim no_more [ ]
        ]
        | inr other ↦ elim (rw other at new) [ ]
      ]
