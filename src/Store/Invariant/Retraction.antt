-- ===== src/Store/Invariant/Retraction.antt =====
-- Only the source of a record, or its succession lineage, can retract it.
use causalontology.Prelude.{
  String, Bool, true, false, Option, none, some, eq_iff, ◌≡◌, refl, ◌⊎◌, arith, find, insert,
  find-insert, subst, ok, bind-ok, Error,
}
use causalontology.Json.{Fields, text_at}
use causalontology.Canonical.{resolve_kind}
use causalontology.Semantics.Rules.{validate_semantics}
use causalontology.Store.State.{Env, Store}
use causalontology.Store.Queries.{retraction_source_ok, predecessor_of, successor_of}
use causalontology.Store.Queries.Lineage.{Chain, lineage_lem}
use causalontology.Store.Writes.{write_record, check_record, check_retraction, accept_if, require}
use causalontology.Store.Writes.Steps.{write_record_rule}

require-ok : (b : Option Bool) (e : Error) → require b e ≡ ok tt → b ≡ some true
unfolding require
require-ok none e h = cc
require-ok (some true) e h = refl
require-ok (some false) e h = cc

check_record-retraction :
    (env : Env) (s : Store) (rec : Fields) (force : Bool)
    → check_record env s rec "retraction" force ≡ ok tt
    → retraction_source_ok s rec ≡ some true
unfolding check_record check_retraction
check_record-retraction env s rec force h =
    let (sem, _, rest) = bind-ok (validate_semantics env.floats rec "retraction") _ h in
    let (_, _, more) = bind-ok (accept_if sem) _ rest in
    let (t, r, _) = bind-ok (require (retraction_source_ok s rec) _) _ more in
    require-ok (retraction_source_ok s rec) _ r

-- The source of a retraction against the record that it retracts.
abbrev pub FromLineage : Store → Fields → Fields → Type 0
FromLineage s rec target =
    Chain (predecessor_of s) (text_at target "source") (text_at rec "source")
    ⊎ Chain (successor_of s) (text_at target "source") (text_at rec "source")

checked-FromLineage :
    (env : Env) (s : Store) (force : Bool) (rec target : Fields)
    → check_record env s rec "retraction" force ≡ ok tt
    → find s.records (text_at rec "retracts") ≡ some target
    → FromLineage s rec target
unfolding retraction_source_ok
checked-FromLineage env s force rec target checked held =
    let allowed = check_record-retraction env s rec force checked in
    let (chain, e, _, _, _, only) = lineage_lem s (text_at target "source") in
    only (text_at rec "source") (ground arith)

-- When a write of the kind retraction, forced or not, adds a record, and the store holds what it
-- retracts, then its source is the source of the retracted record, or comes before or after it by
-- successions in the store.
pub write_record-FromLineage :
    (env : Env) (s : Store) (m : Fields) (kind : String) (force : Bool) (id : String)
    (rec target : Fields)
    → resolve_kind m kind ≡ ok "retraction"
    → find s.records id ≡ none
    → find (write_record env s m kind force).1.records id ≡ some rec
    → find s.records (text_at rec "retracts") ≡ some target
    → FromLineage s rec target
write_record-FromLineage env s m kind force id rec target is_retraction was_free now_there held =
    write_record_rule (λ _ t. find t.records id ≡ some rec → FromLineage s rec target) env s m kind
      force (λ _ there. absurd (clash there)) (λ _ _ there. absurd (clash there))
      (λ _ _ _ _ _ there. absurd (clash there))
      (λ k j r f there.
        let (key, same) = inserted j r there in
        checked-FromLineage env s force rec target
          (subst (λ x. check_record env s x "retraction" force ≡ ok tt) same
            (subst (λ x. check_record env s r x force ≡ ok tt) (kind_eq k f.resolved) f.checked))
          held)
      now_there
  where
    clash : find s.records id ≡ some rec → ⊥
    clash there = cc

    inserted :
        (j : String) (r : Fields) → find (insert s.records j r) id ≡ some rec → (j ≡ id) × (r ≡ rec)
    inserted j r there = (
      ground (arith, find-insert s.records j r id, eq_iff j id),
      ground (arith, find-insert s.records j r id),
    )

    kind_eq : (k : String) → resolve_kind m kind ≡ ok k → k ≡ "retraction"
    kind_eq k e = ground arith
