-- ===== src/Semantics/Tokens/Conduits.antt =====
-- Rule 17: what ConduitWellformed accepts.
use causalontology.Prelude.{
  String, List, true, false, none, some, ◌==◌, eq_iff, ◌≡◌, ◌≢◌, ◌↔◌, ◌⊎◌, inl, inr, refl, arith,
  Map, find, Option-cases, Bool-cases, ◌∙◌, sym, not, subst, ◌&&◌,
}
use mathlib.Core.Option.{some-injective}
use causalontology.Sets.{contains_string, to_string_set, subset_of}
use causalontology.Sets.Laws.{contains-to_string_set, subset_of_sound, subset_of_complete}
use causalontology.Json.{Fields, at, string_list, text_at}
use causalontology.Semantics.Tokens.{
  accepts_all, transform_fault, conduit_fault, conduit_wellformed,
}

-- Every member of the one list is in the other.
abbrev pub Within : List String → List String → Type 0
Within a b = (x : String) → contains_string a x ≡ true → contains_string b x ≡ true

accepts_all_iff :
    (accepted ids : List String) → (accepts_all accepted ids ≡ true) ↔ Within ids accepted
unfolding accepts_all
accepts_all_iff accepted ids = (
  λ h x i.
      sym (contains-to_string_set accepted x)
      ∙ subset_of_sound ids (to_string_set accepted) x (unfold subset_of in h) i,
  λ w.
      unfold subset_of in
      subset_of_complete ids (to_string_set accepted)
        (λ x i. contains-to_string_set accepted x ∙ w x i),
)

module _ (conduit : Fields) (cro_map : Map Fields) where
  -- Clause (d): the receiving port accepts what is carried, or, where a known transform is named, the
  -- effects of the transform; an unknown transform is not refuted.
  abbrev pub Delivers : Fields → Type 0
  Delivers to =
      let transform = text_at conduit "transform" in
      let accepted = string_list (at to "accepts") in
      ((transform ≡ "") × Within (string_list (at conduit "carries")) accepted)
      ⊎ ((transform ≢ "") × (find cro_map transform ≡ none))
      ⊎ ((transform ≢ "")
          × ((law : Fields) × (find cro_map transform ≡ some law)
              × Within (string_list (at law "effects")) accepted))

  transform_fault_iff : (to : Fields) → (transform_fault conduit to cro_map ≡ none) ↔ Delivers to
  unfolding transform_fault
  transform_fault_iff to =
      let transform = text_at conduit "transform" in
      let accepted = string_list (at to "accepts") in
      let carried = accepts_all_iff accepted (string_list (at conduit "carries")) in
      elim (Bool-cases (transform == "")) [
        | inl bare ↦
            let empty = (eq_iff transform "").0 bare in
            rw bare (
              λ h. inl (empty, carried.0 (ground arith)),
              λ d. elim d [
                | inl (_, w) ↦ let e = carried.1 w in ground arith
                | inr (inl (n, _)) ↦ absurd (n empty)
                | inr (inr (n, _)) ↦ absurd (n empty)
              ],
            )
        | inr named ↦
            let named' : transform ≢ "" = λ e. ground (arith, (eq_iff transform "").1 e) in
            elim (Option-cases (find cro_map transform)) [
              | inl e ↦ rw (named, e) (λ h. inr (inl (named', refl)), λ d. refl)
              | inr (law, e) ↦
                  let effects = accepts_all_iff accepted (string_list (at law "effects")) in
                  rw (named, e)
                    (
                      λ h. inr (inr (named', (law, refl, effects.0 (ground arith)))),
                      λ d. elim d [
                        | inl (empty, _) ↦ absurd (named' empty)
                        | inr (inl (_, n)) ↦ absurd (cc)
                        | inr (inr (_, (law', same, w))) ↦
                            let a = effects.1 (λ x i. w x (
                              subst (λ r. contains_string (string_list (at r "effects")) x ≡ true)
                                (some-injective _ _ same) i)) in
                            ground (arith, a)
                      ],
                    )
            ]
      ]

-- The port sends, and it accepts.
abbrev pub Sends : Fields → Type 0
Sends port = (text_at port "direction" ≡ "out") ⊎ (text_at port "direction" ≡ "bidirectional")

abbrev pub Receives : Fields → Type 0
Receives port = (text_at port "direction" ≡ "in") ⊎ (text_at port "direction" ≡ "bidirectional")

Sends-iff :
    (port : Fields)
    → ((not (text_at port "direction" == "out")
          && not (text_at port "direction" == "bidirectional"))
        ≡ false)
      ↔ Sends port
Sends-iff port = ground (
  arith,
  eq_iff (text_at port "direction") "out",
  eq_iff (text_at port "direction") "bidirectional",
)

Receives-iff :
    (port : Fields)
    → ((not (text_at port "direction" == "in") && not (text_at port "direction" == "bidirectional"))
        ≡ false)
      ↔ Receives port
Receives-iff port = ground (
  arith,
  eq_iff (text_at port "direction") "in",
  eq_iff (text_at port "direction") "bidirectional",
)

-- Rule 17, clauses (a) to (d).
abbrev pub IsConduit : Fields → Map Fields → Map Fields → Type 0
IsConduit conduit port_map cro_map =
    (from : Fields) × (to : Fields) × (find port_map (text_at conduit "from") ≡ some from)
    × (find port_map (text_at conduit "to") ≡ some to)
    × Sends from
    × Receives to
    × Within (string_list (at conduit "carries")) (string_list (at from "accepts"))
    × Delivers conduit cro_map to

module _ (conduit : Fields) (port_map cro_map : Map Fields) where
  conduit_fault_sound :
      conduit_fault conduit port_map cro_map ≡ none → IsConduit conduit port_map cro_map
  unfolding conduit_fault
  conduit_fault_sound h = elim (Option-cases (find port_map (text_at conduit "from"))) [
    | inl e ↦ absurd (ground (arith, e))
    | inr (from, e) ↦ elim (Option-cases (find port_map (text_at conduit "to"))) [
      | inl d ↦ absurd (ground (arith, e, d))
      | inr (to, d) ↦
          let carried =
            accepts_all_iff (string_list (at from "accepts"))
              (string_list (at conduit "carries")) in
          (
            from,
            to,
            e,
            d,
            (Sends-iff from).0 (ground (arith, e, d)),
            (Receives-iff to).0 (ground (arith, e, d)),
            carried.0 (ground (arith, e, d)),
            (transform_fault_iff conduit cro_map to).0 (ground (arith, e, d)),
          )
    ]
  ]

  conduit_fault_complete :
      IsConduit conduit port_map cro_map → conduit_fault conduit port_map cro_map ≡ none
  unfolding conduit_fault
  conduit_fault_complete (from, to, e, d, out, into, within, delivers) =
      let a = (Sends-iff from).1 out in
      let b = (Receives-iff to).1 into in
      let c =
        (accepts_all_iff (string_list (at from "accepts")) (string_list (at conduit "carries"))).1
          within in
      let t = (transform_fault_iff conduit cro_map to).1 delivers in
      ground (arith, e, d, a, b, c, t)

-- ConduitWellformed answers true exactly when both ports are there, the first one sends, the second
-- one receives, the first one accepts all that is carried, and so does the second one; where the
-- conduit names a transform, the second one accepts instead all effects of the transform, if the
-- transform is known.
pub conduit_wellformed_iff :
    (conduit : Fields) (port_map cro_map : Map Fields)
    → ((conduit_wellformed conduit port_map cro_map).0 ≡ true) ↔ IsConduit conduit port_map cro_map
unfolding conduit_wellformed
conduit_wellformed_iff conduit port_map cro_map =
    elim (Option-cases (conduit_fault conduit port_map cro_map)) [
      | inl e ↦
          rw (e, conduit_wellformed)
            (λ _. conduit_fault_sound conduit port_map cro_map e, λ _. refl)
      | inr (fault, e) ↦
          rw (e, conduit_wellformed)
            (
              λ h. absurd (cc),
              λ w. let n = conduit_fault_complete conduit port_map cro_map w in absurd (cc),
            )
    ]
