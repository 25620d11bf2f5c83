-- ===== src/Store/Gaps/Meaning.antt =====
-- The tests of Gaps in the words of the data: claims, mechanisms, references, lacking fields, pairs.
use causalontology.Prelude.{
  String, List, [], ◌∷◌, ◌++◌, true, Option, none, some, ◌==◌, eq_iff, ◌≡◌, ◌≢◌, ◌↔◌, ◌⊎◌, inl, inr,
  refl, sym, ap, ◌∙◌, arith, if◌then◌else◌, Bool-cases, Option-cases,
}
use causalontology.Json.{
  Value, null, bool, str, number, int, int64, float64, obj, arr, Items, cons, nil, Fields, has, get,
  at, text_at, string_list,
}
use causalontology.Semantics.Refinement.{missing_of, is_partial}
use causalontology.Store.Cycles.Trails.{In}
use causalontology.Store.Cycles.Records.{In-append}
use causalontology.Store.Gaps.{is_claim, items_of, is_empty_array, mechanism_empty, references}

abbrev pub IsClaim : Fields → Type 0
IsClaim m = text_at m "type" ≡ "causal_relation_object"

pub is_claim-IsClaim : (m : Fields) → (is_claim m ≡ true) ↔ IsClaim m
unfolding is_claim
is_claim-IsClaim m = eq_iff (text_at m "type") "causal_relation_object"

-- The claim has no mechanism, or the empty array for one.
abbrev pub HasNoMechanism : Fields → Type 0
HasNoMechanism m = (get m "mechanism" ≡ none) ⊎ (get m "mechanism" ≡ some (arr nil))

is_empty_array_iff : (v : Value) → (is_empty_array v ≡ true) ↔ (v ≡ arr nil)
unfolding is_empty_array
is_empty_array_iff null = (λ h. absurd (cc), λ h. absurd (cc))
is_empty_array_iff (bool b) = (λ h. absurd (cc), λ h. absurd (cc))
is_empty_array_iff (str s) = (λ h. absurd (cc), λ h. absurd (cc))
is_empty_array_iff (number s) = (λ h. absurd (cc), λ h. absurd (cc))
is_empty_array_iff (int n) = (λ h. absurd (cc), λ h. absurd (cc))
is_empty_array_iff (int64 n) = (λ h. absurd (cc), λ h. absurd (cc))
is_empty_array_iff (float64 f) = (λ h. absurd (cc), λ h. absurd (cc))
is_empty_array_iff (obj m) = (λ h. absurd (cc), λ h. absurd (cc))
is_empty_array_iff (arr nil) = (λ h. refl, λ h. refl)
is_empty_array_iff (arr (cons v xs)) = (λ h. absurd (cc), λ h. absurd (cc))

pub mechanism_empty-HasNoMechanism : (m : Fields) → (mechanism_empty m ≡ true) ↔ HasNoMechanism m
unfolding mechanism_empty
mechanism_empty-HasNoMechanism m = elim (Option-cases (get m "mechanism")) [
  | inl e ↦ rw (e, mechanism_empty) (λ h. inl refl, λ h. refl)
  | inr (v, e) ↦
      let (fwd, bwd) = is_empty_array_iff v in
      rw (e, mechanism_empty)
        (
          λ h. inr (ap some (fwd h)),
          λ s. elim s [ inl bad ↦ absurd (cc) | inr same ↦ bwd (ap the_value same) ],
        )
]
  where
    the_value : Option Value → Value
    the_value none = null
    the_value (some found) = found

-- The array of the texts.
unfoldable pub array_of : List String → Items
array_of [] = nil
array_of (s ∷ texts) = cons (str s) (array_of texts)

items_of-array_of : (texts : List String) → items_of texts ≡ array_of texts
unfolding items_of array_of
items_of-array_of [] = refl
items_of-array_of (s ∷ texts) = ap (cons (str s)) (items_of-array_of texts)

-- The fields among the names that the object does not have.
unfoldable pub lacking : Fields → List String → List String
lacking m [] = []
lacking m (name ∷ names) = let rest = lacking m names in if has m name then rest else name ∷ rest

missing_of-lacking : (m : Fields) (names : List String) → missing_of m names ≡ lacking m names
unfolding missing_of lacking
missing_of-lacking m [] = refl
missing_of-lacking m (name ∷ names) = ground (arith, missing_of-lacking m names)

-- The optional fields that a claim can lack.
abbrev pub optional_fields : List String
optional_fields = "mechanism" ∷ "temporal" ∷ "modality" ∷ "context" ∷ []

pub missing_lem : (m : Fields) → items_of (is_partial m).1 ≡ array_of (lacking m optional_fields)
unfolding is_partial
missing_lem m =
    ap items_of (missing_of-lacking m optional_fields)
    ∙ items_of-array_of (lacking m optional_fields)

-- A claim refers to its causes, its effects, its context, its mechanism and what it refines; a
-- realizable refers to its bearer.
abbrev pub Refers : Fields → String → Type 0
Refers m ref =
    (IsClaim m
      × (In ref (string_list (at m "causes"))
          ⊎ In ref (string_list (at m "effects"))
          ⊎ In ref (string_list (at m "context"))
          ⊎ In ref (string_list (at m "mechanism"))
          ⊎ (text_at m "refines" ≡ ref)))
    ⊎ ((text_at m "type" ≡ "realizable") × (text_at m "bearer" ≡ ref))

-- A list of at most one text.
In-unless : (t ref : String) → ref ≢ "" → In ref (if t == "" then [] else t ∷ []) ↔ (t ≡ ref)
In-unless t ref filled = elim (Bool-cases (t == "")) [
  | inl blank ↦ rw blank (λ i. absurd i, λ e. absurd (filled (sym e ∙ (eq_iff t "").0 blank)))
  | inr some_text ↦ rw some_text (λ i. elim i [ inl e ↦ e | inr n ↦ absurd n ], λ e. inl e)
]

claim_references :
    (a b c d e : List String) (ref : String)
    → In ref (a ++ b ++ c ++ d ++ e) ↔ (In ref a ⊎ In ref b ⊎ In ref c ⊎ In ref d ⊎ In ref e)
claim_references a b c d e ref =
    let (s1, j1) = In-append ref (a ++ b ++ c ++ d) e in
    let (s2, j2) = In-append ref (a ++ b ++ c) d in
    let (s3, j3) = In-append ref (a ++ b) c in
    let (s4, j4) = In-append ref a b in
    (
      λ i. elim (s1 i) [
        | inr x ↦ inr (inr (inr (inr x)))
        | inl i2 ↦ elim (s2 i2) [
          | inr x ↦ inr (inr (inr (inl x)))
          | inl i3 ↦ elim (s3 i3) [
            | inr x ↦ inr (inr (inl x))
            | inl i4 ↦ elim (s4 i4) [ inr x ↦ inr (inl x) | inl x ↦ inl x ]
          ]
        ]
      ],
      λ g. elim g [
        | inl x ↦ j1 (inl (j2 (inl (j3 (inl (j4 (inl x)))))))
        | inr (inl x) ↦ j1 (inl (j2 (inl (j3 (inl (j4 (inr x)))))))
        | inr (inr (inl x)) ↦ j1 (inl (j2 (inl (j3 (inr x)))))
        | inr (inr (inr (inl x))) ↦ j1 (inl (j2 (inr x)))
        | inr (inr (inr (inr x))) ↦ j1 (inr x)
      ],
    )

pub references-Refers :
    (m : Fields) (ref : String) → ref ≢ "" → In ref (references m) ↔ Refers m ref
unfolding references
references-Refers m ref filled =
    let (claim, claim') = is_claim-IsClaim m in
    let (bearing, bearing') = eq_iff (text_at m "type") "realizable" in
    elim (Bool-cases (is_claim m)) [
      | inl is ↦
          let (split, join) =
            claim_references (string_list (at m "causes")) (string_list (at m "effects"))
              (string_list (at m "context")) (string_list (at m "mechanism"))
              (if text_at m "refines" == "" then [] else text_at m "refines" ∷ []) ref in
          let (last, last') = In-unless (text_at m "refines") ref filled in
          rw is (
            λ i. inl (
              claim is,
              elim (split i) [
                | inl x ↦ inl x
                | inr (inl x) ↦ inr (inl x)
                | inr (inr (inl x)) ↦ inr (inr (inl x))
                | inr (inr (inr (inl x))) ↦ inr (inr (inr (inl x)))
                | inr (inr (inr (inr x))) ↦ inr (inr (inr (inr (last x))))
              ],
            ),
            λ s. elim s [
              | inl (_, g) ↦ join (elim g [
                | inl x ↦ inl x
                | inr (inl x) ↦ inr (inl x)
                | inr (inr (inl x)) ↦ inr (inr (inl x))
                | inr (inr (inr (inl x))) ↦ inr (inr (inr (inl x)))
                | inr (inr (inr (inr x))) ↦ inr (inr (inr (inr (last' x))))
              ])
              | inr (t, _) ↦
                  let c = sym (claim is) ∙ t in
                  absurd (let q = (eq_iff "causal_relation_object" "realizable").1 c in cc)
            ],
          )
      | inr other ↦ elim (Bool-cases (text_at m "type" == "realizable")) [
        | inl is ↦
            let (last, last') = In-unless (text_at m "bearer") ref filled in
            rw (other, is)
              (
                λ i. inr (bearing is, last i),
                λ s. elim s [ inl (c, _) ↦ absurd (let t = claim' c in cc) | inr (_, e) ↦ last' e ],
              )
        | inr neither ↦
            rw (other, neither)
              (
                λ i. absurd i,
                λ s. elim s [
                  | inl (c, _) ↦ absurd (let t = claim' c in cc)
                  | inr (b, _) ↦ absurd (let t = bearing' b in cc)
                ],
              )
      ]
    ]
