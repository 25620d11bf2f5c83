-- ===== src/Store/Views/Shown.antt =====
-- The enrichments that Get shows of an object.
use causalontology.Prelude.{
  String, List, [], ◌∷◌, Bool, true, false, some, ◌==◌, eq_iff, ◌≡◌, ◌↔◌, ◌⊎◌, inl, inr, refl, sym,
  ap, ◌∙◌, subst, arith, ◌&&◌, ◌||◌, not, map, Bool-cases, Option-cases,
}
use mathlib.Core.Option.{some-injective}
use causalontology.Sets.{contains_string, StringSet, set_add}
use causalontology.Sets.Laws.{contains-set_add}
use causalontology.Json.{Fields, at, as_text, text_at, object_of}
use causalontology.Store.Cycles.Trails.{In}
use causalontology.Store.State.{Store}
use causalontology.Store.Queries.{records_of, retracted_ids, enrichments_in, enrichments_about}
use causalontology.Store.Queries.Retracted.{IsRetracted, retracted_ids-false}
use causalontology.Store.Queries.About.{select, select-select, of_kind-select}
use causalontology.Store.Views.{ids_into, shown}

-- A record of the list has the identifier for its id.
abbrev pub Excludes : List Fields → String → Type 0
Excludes recs x = (r : Fields) × In r recs × (as_text (at r "id") ≡ some x)

ids_into_iff :
    (out : StringSet) (recs : List Fields) (x : String)
    → (contains_string (ids_into out recs) x ≡ true)
      ↔ ((contains_string out x ≡ true) ⊎ Excludes recs x)
unfolding ids_into
ids_into_iff out [] x = (λ h. inl h, λ s. elim s [ inl h ↦ h | inr (r, i, e) ↦ absurd i ])
ids_into_iff out (first ∷ recs) x = elim (Option-cases (as_text (at first "id"))) [
  | inl none_there ↦
      let (fwd, bwd) = ids_into_iff out recs x in
      rw none_there (
        λ h. elim (fwd h) [ inl o ↦ inl o | inr (r, i, e) ↦ inr (r, inr i, e) ],
        λ s. elim s [
          | inl o ↦ bwd (inl o)
          | inr (r, i, e) ↦ elim i [
            | inl same ↦
                absurd (let t = subst (λ z. as_text (at z "id") ≡ some x) (sym same) e in cc)
            | inr j ↦ bwd (inr (r, j, e))
          ]
        ],
      )
  | inr (t, there) ↦
      let (fwd, bwd) = ids_into_iff (set_add out t) recs x in
      let added = contains-set_add out t x in
      rw there (
        λ h. elim (fwd h) [
          | inr (r, i, e) ↦ inr (r, inr i, e)
          | inl o ↦ elim (Bool-cases (t == x)) [
            | inl same ↦ inr (first, inl refl, there ∙ ap some ((eq_iff t x).0 same))
            | inr other ↦ inl (ground (arith, o, added, other))
          ]
        ],
        λ s. elim s [
          | inl o ↦ bwd (inl (ground (arith, o, added)))
          | inr (r, i, e) ↦ elim i [
            | inl same ↦
                let k = subst (λ z. as_text (at z "id") ≡ some x) (sym same) e in
                let q = (eq_iff t x).1 (some-injective _ _ (sym there ∙ k)) in
                bwd (inl (ground (arith, added, q)))
            | inr j ↦ bwd (inr (r, j, e))
          ]
        ],
      )
]

-- Neither list of excluded records has the identifier.
not_excluded :
    (subsumes part_of : List Fields) (x : String)
    → (contains_string (ids_into (ids_into [] subsumes) part_of) x ≡ false)
      ↔ ((¬ Excludes subsumes x) × (¬ Excludes part_of x))
unfolding contains_string
not_excluded subsumes part_of x =
    let (a, a') = ids_into_iff (ids_into [] subsumes) part_of x in
    let (b, b') = ids_into_iff [] subsumes x in
    (
      λ h. (λ e. let t = a' (inl (b' (inr e))) in cc, λ e. let t = a' (inr e) in cc),
      λ (n, m). elim (Bool-cases (contains_string (ids_into (ids_into [] subsumes) part_of) x)) [
        | inr h ↦ h
        | inl h ↦ absurd (elim (a h) [
          | inr e ↦ m e
          | inl i ↦ elim (b i) [ inl bad ↦ absurd (cc) | inr e ↦ n e ]
        ])
      ],
    )

-- An enrichment about the object, that no stored retraction names and that is in neither list of
-- excluded records; the history view shows all that are about the object.
abbrev pub IsVisible : Store → String → String → List Fields → List Fields → Fields → Type 0
IsVisible s identifier view subsumes part_of rec =
    (text_at rec "type" ≡ "enrichment")
    × (text_at rec "about" ≡ identifier)
    × ((view ≡ "history")
        ⊎ ((¬ IsRetracted s (text_at rec "id"))
            × (¬ Excludes subsumes (text_at rec "id"))
            × (¬ Excludes part_of (text_at rec "id"))))

enrichments_in-select :
    (retracted : StringSet) (identifier : String) (history : Bool) (recs : List Fields)
    → enrichments_in retracted identifier history recs
      ≡ select
          (λ r.
            text_at r "about" == identifier
            && (history || not (contains_string retracted (text_at r "id"))))
          recs
unfolding enrichments_in select
enrichments_in-select retracted identifier history [] = refl
enrichments_in-select retracted identifier history (rec ∷ recs) =
    ground (arith, enrichments_in-select retracted identifier history recs)

shown-select :
    (excluded : StringSet) (history : Bool) (recs : List Fields)
    → shown excluded history recs
      ≡ select (λ r. history || not (contains_string excluded (text_at r "id"))) recs
unfolding shown select
shown-select excluded history [] = refl
shown-select excluded history (rec ∷ recs) = ground (arith, shown-select excluded history recs)

all_tests :
    (t a h r e : Bool)
    → ((t && ((a && (h || not r)) && (h || not e))) ≡ true)
      ↔ ((t ≡ true) × (a ≡ true) × ((h ≡ true) ⊎ ((r ≡ false) × (e ≡ false))))
all_tests t a h r e = ground arith

-- The records are the visible ones of the store, in its order.
abbrev pub AreVisible : Store → String → String → List Fields → List Fields → List Fields → Type 0
AreVisible s identifier view subsumes part_of recs =
    (keep : Fields → Bool) × (recs ≡ select keep (map (object_of s.records) s.record_order))
    × ((rec : Fields) → (keep rec ≡ true) ↔ IsVisible s identifier view subsumes part_of rec)

pub shown-AreVisible :
    (s : Store) (identifier view : String) (subsumes part_of : List Fields)
    → AreVisible s identifier view subsumes part_of (
        shown
          (ids_into (ids_into [] subsumes) part_of)
          (view == "history")
          (enrichments_about s identifier (view == "history")))
unfolding enrichments_about records_of
shown-AreVisible s identifier view subsumes part_of =
    let excluded = ids_into (ids_into [] subsumes) part_of in
    let gone = retracted_ids s in
    let history = view == "history" in
    let all = map (object_of s.records) s.record_order in
    let typed = λ (r : Fields). text_at r "type" == "enrichment" in
    let about = λ (r : Fields).
      text_at r "about" == identifier && (history || not (contains_string gone (text_at r "id"))) in
    let left = λ (r : Fields). history || not (contains_string excluded (text_at r "id")) in
    (
      λ r. typed r && (about r && left r),
      shown-select excluded history _
          ∙ ap (select left) (
              enrichments_in-select gone identifier history _
              ∙ ap (select about) (of_kind-select s.records "enrichment" s.record_order))
          ∙ select-select left about (select typed all)
          ∙ select-select (λ r. about r && left r) typed all,
      λ rec.
          let id = text_at rec "id" in
          let (f, b) =
            all_tests (typed rec) (text_at rec "about" == identifier) history
              (contains_string gone id) (contains_string excluded id) in
          let (t, t') = eq_iff (text_at rec "type") "enrichment" in
          let (a, a') = eq_iff (text_at rec "about") identifier in
          let (v, v') = eq_iff view "history" in
          let (g, g') = retracted_ids-false s id in
          let (x, x') = not_excluded subsumes part_of id in
          (
            λ h.
                let (p, q, o) = f h in
                (
                  t p,
                  a q,
                  elim o [ inl y ↦ inl (v y) | inr (y, z) ↦ let (n, m) = x z in inr (g y, n, m) ],
                ),
            λ (p, q, o).
                b (
                  t' p,
                  a' q,
                  elim o [ inl y ↦ inl (v' y) | inr (y, n, m) ↦ inr (g' y, x' (n, m)) ],
                ),
          ),
    )
