-- ===== src/Semantics/Hierarchy/Meaning.antt =====
-- The hierarchy verdict, as reachability between what the causes and the effects resolve to.
use mathlib.Core.Logic.{∥∥₁_elim, ∥∥₁_map, ∥∥₁_prop}
use mathlib.Core.Bool.{So-prop}
use causalontology.Prelude.{
  String, List, [], ◌∷◌, Bool, true, false, some, ◌≡◌, ◌≢◌, ◌⊎◌, inl, inr, none, find, sym, ap, ◌∙◌,
  subst, arith, eq_iff, Option-cases, refl, Map, if◌then◌else◌, ◌↔◌,
}
use causalontology.Sets.{contains_string, StringSet}
use causalontology.Json.{Fields, at, string_list}
use causalontology.Semantics.Paths.{Graph, path_exists, Reach}
use causalontology.Semantics.Paths.Decides.{path_exists_decides}
use causalontology.Semantics.Bridges.{Resolves}
use causalontology.Semantics.Bridges.Closure.{bridge_closure_lem}
use causalontology.Semantics.Hierarchy.Loops.{Decides, Some, Every, any_of_decides, all_of_decides}
use causalontology.Semantics.Hierarchy.{
  consistent, inconsistent, indeterminate, add_edges, member_edges, any_of, connected,
  pair_connected, all_connected, judge, judge_mechanism, verdict, hierarchy_consistent,
}

module _ (g : Graph) where
  -- From a member of the one set a walk leads to a member of the other.
  abbrev Linked : StringSet → StringSet → Type 0
  Linked cps eps = Some (λ cp. Some (λ ep. ∥ Reach g cp ep ∥₁) eps) cps

  connected_decides : (cps eps : StringSet) → Decides (connected g cps eps) (Linked cps eps)
  unfolding connected
  connected_decides cps eps =
      any_of_decides (λ cp. any_of (path_exists g cp) eps)
        (λ cp. Some (λ ep. ∥ Reach g cp ep ∥₁) eps)
        (λ cp.
          any_of_decides (path_exists g cp) (λ ep. ∥ Reach g cp ep ∥₁) (path_exists_decides g cp)
            eps)
        cps

  -- What a cause resolves to leads to what an effect resolves to.
  abbrev pub Connects : List Fields → String → String → Type 0
  Connects bridges c e = ∥ (
      (cp : String) × (ep : String) × Resolves bridges c cp
      × Resolves bridges e ep
      × Reach g cp ep) ∥₁

  pair_connected_decides :
      (bridges : List Fields) (c e : String)
      → Decides (pair_connected g bridges c e) (Connects bridges c e)
  unfolding pair_connected
  pair_connected_decides bridges c e =
      let (cps, ec, mc) = bridge_closure_lem c bridges in
      let (eps, ee, me) = bridge_closure_lem e bridges in
      let (b, eb, mb) = connected_decides cps eps in
      (
        b,
        rw (pair_connected, ec, ee, eb),
        (
          λ h. ∥∥₁_elim (mb.0 h) ∥∥₁_prop (λ (cp, ic, w). ∥∥₁_elim w ∥∥₁_prop (λ (ep, ie, r).
              ∥∥₁_elim r ∥∥₁_prop (λ r.
                ∥∥₁_elim ((mc cp).0 ic) ∥∥₁_prop
                  (λ dc. ∥∥₁_map ((me ep).0 ie) (λ de. (cp, ep, dc, de, r)))))),
          λ w. ∥∥₁_elim w (So-prop b) (λ (cp, ep, dc, de, r).
              mb.1 ∣ (cp, (mc cp).1 ∣ dc ∣₁, ∣ (ep, (me ep).1 ∣ de ∣₁, ∣ r ∣₁) ∣₁) ∣₁),
        ),
      )

  all_connected_decides :
      (bridges : List Fields) (causes effects : List String)
      → Decides
          (all_connected g bridges causes effects)
          (Every (λ c. Every (Connects bridges c) effects) causes)
  unfolding all_connected
  all_connected_decides bridges causes effects =
      all_of_decides _ (λ c. Every (Connects bridges c) effects)
        (λ c. all_of_decides _ (Connects bridges c) (pair_connected_decides bridges c) effects)
        causes

verdict-some : (b : Bool) → verdict (some b) ≡ some (if b then consistent else inconsistent)
unfolding verdict
verdict-some true = refl
verdict-some false = refl

-- The answer on a mechanism whose members are there.
judged_lem :
    (parent : Fields) (members : Map Fields) (bridges : List Fields) (id : String)
    (mechanism : List String) (g : Graph)
    → string_list (at parent "mechanism") ≡ id ∷ mechanism
    → member_edges members [] (id ∷ mechanism) ≡ some g
    → (b : Bool) × (hierarchy_consistent parent members bridges
        ≡ some (if b then consistent else inconsistent))
      × ((b ≡ true) ↔ (
          (c e : String)
          → contains_string (string_list (at parent "causes")) c ≡ true
          → contains_string (string_list (at parent "effects")) e ≡ true
          → Connects g bridges c e))
unfolding hierarchy_consistent judge_mechanism judge
judged_lem parent members bridges id mechanism g em eg =
    let causes = string_list (at parent "causes") in
    let effects = string_list (at parent "effects") in
    let (b, e, m) = all_connected_decides g bridges causes effects in
    (
      b,
      rw (em, eg, e) (verdict-some b),
      (λ h c e ic ie. m.0 h c ic e ie, λ w. m.1 (λ c ic e ie. w c e ic ie)),
    )

absent_member :
    (members : Map Fields) (g : Graph) (ids : List String)
    → member_edges members g ids ≡ none
    → (id : String) × (contains_string ids id ≡ true) × (find members id ≡ none)
unfolding member_edges contains_string
absent_member members g [] h = absurd (cc)
absent_member members g (x ∷ ids) h = elim (Option-cases (find members x)) [
  | inl e ↦ (x, ground (arith, eq_iff x x), e)
  | inr (m, e) ↦
      let (id, i, n) =
        absent_member members
          (add_edges g (string_list (at m "causes")) (string_list (at m "effects"))) ids
          (ground (arith, h, e)) in
      (id, ground (arith, i), n)
]

-- The three ways in which HierarchyConsistent answers.
abbrev pub Answers : Fields → Map Fields → List Fields → Type 0
Answers parent members bridges =
    ((string_list (at parent "mechanism") ≡ [])
      × (hierarchy_consistent parent members bridges ≡ some consistent))
    ⊎ ((string_list (at parent "mechanism") ≢ [])
        × ((id : String) × (contains_string (string_list (at parent "mechanism")) id ≡ true)
            × (find members id ≡ none))
        × (hierarchy_consistent parent members bridges ≡ some indeterminate))
    ⊎ ((g : Graph) × (b : Bool) × (string_list (at parent "mechanism") ≢ [])
        × (member_edges members [] (string_list (at parent "mechanism")) ≡ some g)
        × (hierarchy_consistent parent members bridges
            ≡ some (if b then consistent else inconsistent))
        × ((b ≡ true) ↔ (
            (c e : String)
            → contains_string (string_list (at parent "causes")) c ≡ true
            → contains_string (string_list (at parent "effects")) e ≡ true
            → Connects g bridges c e)))

module _ (parent : Fields) (members : Map Fields) (bridges : List Fields) where
  answers :
      (ids : List String)
      → string_list (at parent "mechanism") ≡ ids
      → Answers parent members bridges
  unfolding hierarchy_consistent judge_mechanism judge
  answers [] e = inl (e, rw e refl)
  answers (id ∷ ids) e =
      let full : string_list (at parent "mechanism") ≢ [] = λ n. let t = sym e ∙ n in cc in
      elim (Option-cases (member_edges members [] (id ∷ ids))) [
        | inl f ↦ inr (
            inl (
              full,
              subst (λ z. (id : String) × (contains_string z id ≡ true) × (find members id ≡ none))
                  (sym e) (absent_member members [] (id ∷ ids) f),
              rw (e, f) refl,
            ))
        | inr (g, f) ↦
            let (b, h, m) = judged_lem parent members bridges id ids g e f in
            inr (inr (g, b, full, ap (member_edges members []) e ∙ f, h, m))
      ]

  -- HierarchyConsistent always answers: consistent where the mechanism is empty; indeterminate where a
  -- member of it is missing; and otherwise, with `g` the edges of the members, consistent exactly when
  -- something that each cause resolves to, bridge by bridge, leads in `g` to something that each
  -- effect resolves to, and inconsistent when not.
  pub hierarchy_consistent_lem : Answers parent members bridges
  hierarchy_consistent_lem = answers (string_list (at parent "mechanism")) refl
