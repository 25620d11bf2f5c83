-- ===== src/Store/Views/Resolves.antt =====
-- What Resolve returns, and in which order.
use causalontology.Prelude.{
  String, List, [], ◌∷◌, ◌++◌, Bool, true, false, some, ◌==◌, Option-cases, eq_iff, ◌≡◌, ◌↔◌, ◌⊎◌,
  inl, inr, refl, sym, ap, ◌∙◌, arith, if◌then◌else◌, ◌&&◌, not, Bool-cases, subst,
}
use mathlib.Core.Option.{some-injective}
use mathlib.Core.List.{append-nil, append_assoc}
use causalontology.Sets.{contains_string}
use causalontology.Store.Queries.Retracted.{
  IsStored, IsRetracted, records_of-IsStored, retracted_ids-false,
}
use causalontology.Json.{Value, as_text, as_object, Fields, at, text_at, object_of}
use causalontology.Store.Cycles.Trails.{In}
use causalontology.Store.State.{Store}
use causalontology.Store.Queries.{records_of, retracted_ids}
use causalontology.Store.Words.{Words, join, canon_label, norm_alias}
use causalontology.Store.Views.{
  entry_matches, is_alias, has_alias, has_label, is_named, resolve_loop, resolve,
}

-- The members of a list that pass a test, in order.
unfoldable pub pick : (String → Bool) → List String → List String
pick keep [] = []
pick keep (x ∷ xs) = let rest = pick keep xs in if keep x then x ∷ rest else rest

module _ (w : Words) (s : Store) (text lang : String) where
  -- An occurrent or continuant of the label.
  abbrev pub is_label_hit : String → Bool
  is_label_hit id =
      is_named (object_of s.objects id) && has_label (canon_label w text) (object_of s.objects id)

  -- Another one that has the text for an alias.
  abbrev pub is_alias_hit : String → Bool
  is_alias_hit id =
      is_named (object_of s.objects id)
      && not (has_label (canon_label w text) (object_of s.objects id))
      && has_alias w (retracted_ids s) id lang (norm_alias w text) (records_of s "enrichment")

  resolve_loop_lem :
      (labels aliases ids : List String)
      → resolve_loop w s text lang (labels, aliases) ids
        ≡ (labels ++ pick is_label_hit ids, aliases ++ pick is_alias_hit ids)
  unfolding resolve_loop pick
  resolve_loop_lem labels aliases [] = rw (append-nil labels, append-nil aliases) refl
  resolve_loop_lem labels aliases (id ∷ ids) =
      let m = object_of s.objects id in
      let alias =
        has_alias w (retracted_ids s) id lang (norm_alias w text) (records_of s "enrichment") in
      elim (Bool-cases (is_named m)) [
        | inr no_name ↦ rw no_name (resolve_loop_lem labels aliases ids)
        | inl named ↦ elim (Bool-cases (has_label (canon_label w text) m)) [
          | inl label ↦
              rw (named, label)
                (resolve_loop_lem (labels ++ id ∷ []) aliases ids
                  ∙ ap (λ z. (z, aliases ++ pick is_alias_hit ids))
                      (append_assoc labels (id ∷ []) (pick is_label_hit ids)))
          | inr no_label ↦ elim (Bool-cases alias) [
            | inl hit ↦
                rw (named, no_label, hit)
                  (resolve_loop_lem labels (aliases ++ id ∷ []) ids
                    ∙ ap (λ z. (labels ++ pick is_label_hit ids, z))
                        (append_assoc aliases (id ∷ []) (pick is_alias_hit ids)))
            | inr miss ↦ rw (named, no_label, miss) (resolve_loop_lem labels aliases ids)
          ]
        ]
      ]

  -- An unretracted enrichment of the object that has the text for an alias, in the language if one is
  -- asked for.
  abbrev pub HasAlias : String → List Fields → Type 0
  HasAlias id recs =
      (rec : Fields) × In rec recs
      × (text_at rec "about" ≡ id)
      × (text_at rec "field" ≡ "aliases")
      × (contains_string (retracted_ids s) (text_at rec "id") ≡ false)
      × (entry_matches w lang (norm_alias w text) (at rec "entry") ≡ true)

  IsAlias_iff :
      (id : String) (rec : Fields)
      → (is_alias w (retracted_ids s) id lang (norm_alias w text) rec ≡ true) ↔ (
          (text_at rec "about" ≡ id)
          × (text_at rec "field" ≡ "aliases")
          × (contains_string (retracted_ids s) (text_at rec "id") ≡ false)
          × (entry_matches w lang (norm_alias w text) (at rec "entry") ≡ true))
  unfolding is_alias
  IsAlias_iff id rec =
      ground (arith, eq_iff (text_at rec "about") id, eq_iff (text_at rec "field") "aliases")

  has_alias-HasAlias :
      (id : String) (recs : List Fields)
      → (has_alias w (retracted_ids s) id lang (norm_alias w text) recs ≡ true) ↔ HasAlias id recs
  unfolding has_alias
  has_alias-HasAlias id [] = (λ h. absurd (cc), λ (rec, i, a, b, c, d). absurd i)
  has_alias-HasAlias id (r ∷ recs) =
      let (fwd, bwd) = has_alias-HasAlias id recs in
      let (is, is') = IsAlias_iff id r in
      elim (Bool-cases (is_alias w (retracted_ids s) id lang (norm_alias w text) r)) [
        | inl here ↦
            rw here (λ _. let (a, b, c, d) = is here in (r, inl refl, a, b, c, d), λ _. refl)
        | inr there ↦ rw there (
          λ h. let (rec, i, a, b, c, d) = fwd h in (rec, inr i, a, b, c, d),
          λ (rec, i, a, b, c, d). elim i [
            | inl same ↦ absurd (
                let t =
                  subst (λ z. is_alias w (retracted_ids s) id lang (norm_alias w text) z ≡ true)
                    (sym same) ((IsAlias_iff id rec).1 (a, b, c, d)) in
                cc)
            | inr j ↦ bwd (rec, j, a, b, c, d)
          ],
        )
      ]

  -- An occurrent or a continuant.
  abbrev pub IsNamed : Fields → Type 0
  IsNamed m = (text_at m "type" ≡ "occurrent") ⊎ (text_at m "type" ≡ "continuant")

  -- The label is the text in lower case, its words joined by underscores.
  abbrev pub IsLabelled : Fields → Type 0
  IsLabelled m = as_text (at m "label") ≡ some (join "_" (w.fields (w.to_lower text)))

  -- An alias entry of the text, its words joined by blanks, in lower case; in the language, if one is
  -- asked for.
  abbrev pub Matches : Value → Type 0
  Matches v =
      (entry : Fields) × (as_object v ≡ some entry)
      × ((lang ≡ "") ⊎ (text_at entry "lang" ≡ lang))
      × (w.to_lower (join " " (w.fields (text_at entry "text")))
          ≡ w.to_lower (join " " (w.fields text)))

  -- A stored enrichment of the aliases of the object, whose id no stored retraction names, matches.
  abbrev pub IsAliased : String → Type 0
  IsAliased id =
      (rec : Fields) × IsStored s.records s.record_order "enrichment" rec
      × (text_at rec "about" ≡ id)
      × (text_at rec "field" ≡ "aliases")
      × (¬ IsRetracted s (text_at rec "id"))
      × Matches (at rec "entry")

  is_named-IsNamed : (m : Fields) → (is_named m ≡ true) ↔ IsNamed m
  unfolding is_named
  is_named-IsNamed m =
      ground (arith, eq_iff (text_at m "type") "occurrent", eq_iff (text_at m "type") "continuant")

  has_label-IsLabelled : (m : Fields) → (has_label (canon_label w text) m ≡ true) ↔ IsLabelled m
  unfolding has_label canon_label
  has_label-IsLabelled m = elim (Option-cases (as_text (at m "label"))) [
    | inl e ↦ rw (e, has_label) (λ h. absurd (cc), λ h. absurd (cc))
    | inr (t, e) ↦
        let (fwd, bwd) = eq_iff t (join "_" (w.fields (w.to_lower text))) in
        rw (e, has_label) (λ h. ap some (fwd h), λ h. bwd (some-injective _ _ h))
  ]

  entry_matches-Matches :
      (v : Value) → (entry_matches w lang (norm_alias w text) v ≡ true) ↔ Matches v
  unfolding entry_matches norm_alias
  entry_matches-Matches v = elim (Option-cases (as_object v)) [
    | inl e ↦ rw (e, entry_matches) (λ h. absurd (cc), λ (entry, f, l, t). absurd (cc))
    | inr (entry, e) ↦
        let (any_lang, any_lang') = eq_iff lang "" in
        let (same, same') = eq_iff (text_at entry "lang") lang in
        let (eq, eq') =
          eq_iff (w.to_lower (join " " (w.fields (text_at entry "text"))))
            (w.to_lower (join " " (w.fields text))) in
        rw (e, entry_matches)
          (
            λ h. (
              entry,
              refl,
              elim (Bool-cases (lang == "")) [
                | inl b ↦ inl (any_lang b)
                | inr b ↦ inr (same (ground (arith, h, b)))
              ],
              eq (ground (arith, h)),
            ),
            λ (other, f, l, t).
                let u = eq' (
                  subst
                    (λ z.
                      w.to_lower (join " " (w.fields (text_at z "text")))
                      ≡ w.to_lower (join " " (w.fields text)))
                    (sym (some-injective _ _ f)) t) in
                elim l [
                  | inl b ↦ let c = any_lang' b in ground (arith, u, c)
                  | inr b ↦
                      let c =
                        same'
                          (subst (λ z. text_at z "lang" ≡ lang) (sym (some-injective _ _ f)) b) in
                      ground (arith, u, c)
                ],
          )
  ]

  has_alias-IsAliased :
      (id : String)
      → (has_alias w (retracted_ids s) id lang (norm_alias w text) (records_of s "enrichment")
          ≡ true)
        ↔ IsAliased id
  has_alias-IsAliased id =
      let (fwd, bwd) = has_alias-HasAlias id (records_of s "enrichment") in
      (
        λ h.
            let (rec, i, a, f, n, m) = fwd h in
            (
              rec,
              (records_of-IsStored s "enrichment" rec).0 i,
              a,
              f,
              (retracted_ids-false s (text_at rec "id")).0 n,
              (entry_matches-Matches (at rec "entry")).0 m,
            ),
        λ (rec, i, a, f, n, m). bwd (
          rec,
          (records_of-IsStored s "enrichment" rec).1 i,
          a,
          f,
          (retracted_ids-false s (text_at rec "id")).1 n,
          (entry_matches-Matches (at rec "entry")).1 m,
        ),
      )

  -- What Resolve returns: first the objects that carry the label, then those that an alias names.
  abbrev pub ResolvesTo : List String → Type 0
  ResolvesTo result =
      (by_label : String → Bool) × (by_alias : String → Bool) × (result
        ≡ pick by_label s.object_order ++ pick by_alias s.object_order)
      × ((id : String)
          → (by_label id ≡ true)
            ↔ (IsNamed (object_of s.objects id) × IsLabelled (object_of s.objects id)))
      × ((id : String)
          → (by_alias id ≡ true) ↔ (
              IsNamed (object_of s.objects id)
              × (¬ IsLabelled (object_of s.objects id))
              × IsAliased id))

  both : (a b : Bool) → ((a && b) ≡ true) ↔ ((a ≡ true) × (b ≡ true))
  both a b = ground arith

  all_three : (a b c : Bool) → ((a && not b && c) ≡ true) ↔ ((a ≡ true) × (b ≡ false) × (c ≡ true))
  all_three a b c = ground arith

  -- Resolve returns, in the order of the store, first the occurrents and continuants whose label is the
  -- text in lower case, its words joined by underscores; and then those others for which a stored
  -- enrichment of their aliases, whose id no stored retraction names, has an entry in the language, if
  -- one is asked for, whose text is the same as the asked one in lower case and with single blanks.
  pub resolve_lem : ResolvesTo (resolve w s text lang)
  unfolding resolve
  resolve_lem = (
    is_label_hit,
    is_alias_hit,
    ap (λ (z : List String × List String). z.0 ++ z.1) (resolve_loop_lem [] [] s.object_order),
    λ id.
        let m = object_of s.objects id in
        let (split, join_up) = both (is_named m) (has_label (canon_label w text) m) in
        (
          λ h. let (a, b) = split h in ((is_named-IsNamed m).0 a, (has_label-IsLabelled m).0 b),
          λ (a, b). join_up ((is_named-IsNamed m).1 a, (has_label-IsLabelled m).1 b),
        ),
    λ id.
        let m = object_of s.objects id in
        let label = has_label (canon_label w text) m in
        let found =
          has_alias w (retracted_ids s) id lang (norm_alias w text) (records_of s "enrichment") in
        let (split, join_up) = all_three (is_named m) label found in
        (
          λ h.
              let (a, b, c) = split h in
              (
                (is_named-IsNamed m).0 a,
                λ l. (let t = (has_label-IsLabelled m).1 l in cc),
                (has_alias-IsAliased id).0 c,
              ),
          λ (a, n, c).
              let b : label ≡ false = elim (Bool-cases label) [
                | inl t ↦ absurd (n ((has_label-IsLabelled m).0 t))
                | inr t ↦ t
              ] in
              join_up ((is_named-IsNamed m).1 a, b, (has_alias-IsAliased id).1 c),
        ),
  )
