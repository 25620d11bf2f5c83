-- ===== src/Store/Gaps/Finds.antt =====
-- Gaps as a whole: the filter by kind, and all kinds together, in the words of the data.
use causalontology.Prelude.{
  String, List, [], ◌∷◌, ◌++◌, false, none, some, ◌==◌, eq_iff, ◌≡◌, ◌≢◌, ◌↔◌, ◌⊎◌, inl, inr, refl,
  sym, ap, ◌∙◌, subst, find, if◌then◌else◌, Bool-cases,
}
use causalontology.Sets.{contains_string}
use causalontology.Json.{str, arr, Items, Fields, field, end, at, has, text_at, object_of, Floats}
use causalontology.Store.State.{Store}
use causalontology.Store.Cycles.Trails.{In}
use causalontology.Store.Cycles.Records.{In-append}
use causalontology.Store.Taxonomy.{active_taxonomy_edges}
use causalontology.Store.Taxonomy.Breaking.{broken_edges}
use causalontology.Store.Gaps.{
  refined, open_claims, excluded_gaps, dangling_gaps, claims_of, conflict_gaps, of_gap_kind,
  all_gaps, gaps,
}
use causalontology.Store.Gaps.Kinds.{
  Open, open_claims-Open, excluded_gaps-Excluded, Dangling, dangling_gaps-Dangling,
}
use causalontology.Store.Gaps.Closed.{IsClosed, refined_iff}
use causalontology.Store.Gaps.Meaning.{
  IsClaim, is_claim-IsClaim, HasNoMechanism, mechanism_empty-HasNoMechanism, array_of, lacking,
  optional_fields, missing_lem, Refers, references-Refers,
}
use causalontology.Store.Gaps.Pairs.{Clashes, conflict_gaps-Clashes}

of_gap_kind_iff :
    (kind : String) (gs : List Fields) (gap : Fields)
    → In gap (of_gap_kind kind gs) ↔ (In gap gs × (text_at gap "kind" ≡ kind))
unfolding of_gap_kind
of_gap_kind_iff kind [] gap = (λ i. absurd i, λ (i, e). absurd i)
of_gap_kind_iff kind (g ∷ gs) gap =
    let (fwd, bwd) = of_gap_kind_iff kind gs gap in
    let (eq, eq') = eq_iff (text_at g "kind") kind in
    elim (Bool-cases (text_at g "kind" == kind)) [
      | inl here ↦ rw here (
        λ i. elim i [
          | inl e ↦ (inl e, subst (λ z. text_at z "kind" ≡ kind) e (eq here))
          | inr j ↦ let (k, e) = fwd j in (inr k, e)
        ],
        λ (i, e). elim i [ inl same ↦ inl same | inr k ↦ inr (bwd (k, e)) ],
      )
      | inr there ↦ rw there (
        λ i. let (k, e) = fwd i in (inr k, e),
        λ (i, e). elim i [
          | inl same ↦
              absurd (let t = eq' (subst (λ z. text_at z "kind" ≡ kind) (sym same) e) in cc)
          | inr k ↦ bwd (k, e)
        ],
      )
    ]

-- The filter: an empty kind asks for all gaps.
abbrev pub IsAsked : String → Fields → Type 0
IsAsked kind gap = (kind ≡ "") ⊎ ((kind ≢ "") × (text_at gap "kind" ≡ kind))

filtered_iff :
    (kind : String) (gs : List Fields) (gap : Fields)
    → In gap (if kind == "" then gs else of_gap_kind kind gs) ↔ (In gap gs × IsAsked kind gap)
filtered_iff kind gs gap = elim (Bool-cases (kind == "")) [
  | inl all ↦ rw all (λ i. (i, inl ((eq_iff kind "").0 all)), λ (i, a). i)
  | inr some_kind ↦
      let named : kind ≢ "" = λ e. let t = (eq_iff kind "").1 e in cc in
      let (fwd, bwd) = of_gap_kind_iff kind gs gap in
      rw some_kind (
        λ i. let (j, e) = fwd i in (j, inr (named, e)),
        λ (i, a). elim a [ inl e ↦ absurd (named e) | inr (n, e) ↦ bwd (i, e) ],
      )
]

-- A claim of the store that no claim refines, and the gap that it leaves.
abbrev pub LeavesOpen : Floats → Store → Fields → Type 0
LeavesOpen fl s gap =
    (id : String) × In id s.object_order
    × IsClaim (object_of s.objects id)
    × (¬ IsClosed fl s id)
    × ((((has (object_of s.objects id) "temporal" ≡ false)
            ⊎ (has (object_of s.objects id) "modality" ≡ false))
          × (field "id" (str id) (
                field "kind" (str "missing_field") (
                  field "missing"
                    (arr (array_of (lacking (object_of s.objects id) optional_fields))) end))
              ≡ gap))
        ⊎ (HasNoMechanism (object_of s.objects id)
            × (field "id" (str id) (field "kind" (str "empty_mechanism") end) ≡ gap)))

-- A record of the list, and the gap that it leaves.
abbrev pub LeavesOut : List Fields → Fields → Type 0
LeavesOut recs gap =
    (rec : Fields) × In rec recs
    × (field "id" (at rec "id") (
          field "kind" (str "inconsistent_hierarchy")
            (field "note" (str "excluded by the deterministic cycle-breaking view rule") end))
        ≡ gap)

-- A text that is not empty, to which an object of the store refers and under which there is no object.
abbrev pub LeadsNowhere : Store → Fields → Type 0
LeadsNowhere s gap =
    (id : String) × (ref : String) × In id s.object_order
    × Refers (object_of s.objects id) ref
    × (ref ≢ "")
    × (find s.objects ref ≡ none)
    × (field "id" (str id) (field "kind" (str "dangling_reference") (field "ref" (str ref) end))
        ≡ gap)

not_refined-IsClosed :
    (fl : Floats) (s : Store) (id : String)
    → (contains_string (refined fl s) id ≡ false) ↔ (¬ IsClosed fl s id)
not_refined-IsClosed fl s id =
    let (fwd, bwd) = refined_iff fl s id in
    (
      λ h c. let t = bwd c in cc,
      λ n. elim (Bool-cases (contains_string (refined fl s) id)) [
        | inl h ↦ absurd (n (fwd h))
        | inr h ↦ h
      ],
    )

Open-LeavesOpen :
    (fl : Floats) (s : Store) (gap : Fields)
    → Open (refined fl s) s.objects s.object_order gap ↔ LeavesOpen fl s gap
Open-LeavesOpen fl s gap =
    let note = λ (id : String) (xs : Items).
      field "id" (str id) (field "kind" (str "missing_field") (field "missing" (arr xs) end)) in
    (
      λ (id, i, c, n, g).
          let m = object_of s.objects id in
          (
            id,
            i,
            (is_claim-IsClaim m).0 c,
            (not_refined-IsClosed fl s id).0 n,
            elim g [
              | inl (lacks, e) ↦ inl (lacks, sym (ap (note id) (missing_lem m)) ∙ e)
              | inr (bare, e) ↦ inr ((mechanism_empty-HasNoMechanism m).0 bare, e)
            ],
          ),
      λ (id, i, c, n, g).
          let m = object_of s.objects id in
          (
            id,
            i,
            (is_claim-IsClaim m).1 c,
            (not_refined-IsClosed fl s id).1 n,
            elim g [
              | inl (lacks, e) ↦ inl (lacks, ap (note id) (missing_lem m) ∙ e)
              | inr (bare, e) ↦ inr ((mechanism_empty-HasNoMechanism m).1 bare, e)
            ],
          ),
    )

Dangling-LeadsNowhere :
    (s : Store) (gap : Fields) → Dangling s.objects s.object_order gap ↔ LeadsNowhere s gap
Dangling-LeadsNowhere s gap = (
  λ (id, i, (ref, r, n, a, e)).
      (id, ref, i, (references-Refers (object_of s.objects id) ref n).0 r, n, a, e),
  λ (id, ref, i, r, n, a, e).
      (id, i, (ref, (references-Refers (object_of s.objects id) ref n).1 r, n, a, e)),
)

module _ (fl : Floats) (s : Store) (subsumes part_of : List Fields) where
  -- A gap of one of the five kinds: an open claim, a record excluded from a taxonomy, a reference to
  -- an absent object, or a conflict of two claims.
  abbrev pub IsGap : Fields → Type 0
  IsGap gap =
      LeavesOpen fl s gap
      ⊎ LeavesOut subsumes gap
      ⊎ LeavesOut part_of gap
      ⊎ LeadsNowhere s gap
      ⊎ Clashes fl s.objects s.object_order gap

  all_gaps-IsGap : (gap : Fields) → In gap (all_gaps fl s subsumes part_of) ↔ IsGap gap
  unfolding all_gaps
  all_gaps-IsGap gap =
      let cros = claims_of s.objects s.object_order in
      let e = conflict_gaps fl cros in
      let d = dangling_gaps s.objects s.object_order in
      let c = excluded_gaps part_of in
      let b = excluded_gaps subsumes in
      let a = open_claims (refined fl s) s.objects s.object_order in
      let (s1, j1) = In-append gap (a ++ b ++ c ++ d) e in
      let (s2, j2) = In-append gap (a ++ b ++ c) d in
      let (s3, j3) = In-append gap (a ++ b) c in
      let (s4, j4) = In-append gap a b in
      let (oa, oa') = open_claims-Open (refined fl s) s.objects s.object_order gap in
      let (ob, ob') = excluded_gaps-Excluded subsumes gap in
      let (oc, oc') = excluded_gaps-Excluded part_of gap in
      let (od, od') = dangling_gaps-Dangling s.objects s.object_order gap in
      let (oe, oe') = conflict_gaps-Clashes fl s.objects s.object_order gap in
      let (pa, pa') = Open-LeavesOpen fl s gap in
      let (pd, pd') = Dangling-LeadsNowhere s gap in
      (
        λ i. elim (s1 i) [
          | inr x ↦ inr (inr (inr (inr (oe x))))
          | inl i2 ↦ elim (s2 i2) [
            | inr x ↦ inr (inr (inr (inl (pd (od x)))))
            | inl i3 ↦ elim (s3 i3) [
              | inr x ↦ inr (inr (inl (oc x)))
              | inl i4 ↦ elim (s4 i4) [ inr x ↦ inr (inl (ob x)) | inl x ↦ inl (pa (oa x)) ]
            ]
          ]
        ],
        λ g. elim g [
          | inl x ↦ j1 (inl (j2 (inl (j3 (inl (j4 (inl (oa' (pa' x)))))))))
          | inr (inl x) ↦ j1 (inl (j2 (inl (j3 (inl (j4 (inr (ob' x))))))))
          | inr (inr (inl x)) ↦ j1 (inl (j2 (inl (j3 (inr (oc' x))))))
          | inr (inr (inr (inl x))) ↦ j1 (inl (j2 (inr (od' (pd' x)))))
          | inr (inr (inr (inr x))) ↦ j1 (inr (oe' x))
        ],
      )

-- The answer of Gaps, and the gaps in it.
abbrev pub ShowsGaps : Floats → Store → String → Type 0
ShowsGaps fl s kind =
    (kept : List Fields) × (subsumes : List Fields) × (left : List Fields) × (part_of : List Fields)
    × (shown : List Fields) × (active_taxonomy_edges s "subsumes" ≡ some (kept, subsumes))
    × (active_taxonomy_edges s "part_of" ≡ some (left, part_of))
    × (gaps fl s kind ≡ some shown)
    × ((gap : Fields) → In gap shown ↔ (IsGap fl s subsumes part_of gap × IsAsked kind gap))

-- Gaps always answers. A map is in its answer exactly when it is of the asked kind, where the empty
-- text asks for any kind, and is one of these gaps: of a claim that no claim of the store refines and
-- that lacks its temporal window or its modality, with the list of the optional fields it lacks, or
-- whose mechanism is missing or the empty array; of a record that ActiveTaxonomyEdges excludes from
-- subsumes or part_of; of a text, not empty, in the causes, effects, context, mechanism or refines of
-- a claim, or for the bearer of a realizable, under which there is no object; or of two claims in
-- conflict, in the order of the store. References of objects of other types are not looked at.
pub gaps_lem : (fl : Floats) (s : Store) (kind : String) → ShowsGaps fl s kind
unfolding gaps
gaps_lem fl s kind =
    let (kept, subsumes, p, a, b) = broken_edges s "subsumes" in
    let (left, part_of, q, c, d) = broken_edges s "part_of" in
    let out = all_gaps fl s subsumes part_of in
    (
      kept,
      subsumes,
      left,
      part_of,
      if kind == "" then out else of_gap_kind kind out,
      p,
      q,
      rw (p, q, gaps) refl,
      λ gap.
          let (fwd, bwd) = filtered_iff kind out gap in
          let (is, is') = all_gaps-IsGap fl s subsumes part_of gap in
          (λ i. let (j, k) = fwd i in (is j, k), λ (g, k). bwd (is' g, k)),
    )
