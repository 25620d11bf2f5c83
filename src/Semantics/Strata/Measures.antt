-- ===== src/Semantics/Strata/Measures.antt =====
-- The gap and the span that ClassifyCRO measures: the least and the greatest distance between the
-- ordinal of a cause and that of an effect.
use causalontology.Prelude.{
  ℕ, ◌≤◌, ℤ, pos, negsuc, List, [], ◌∷◌, ◌++◌, ◌≡◌, ◌↔◌, ◌⊎◌, inl, inr, refl, sym, ap, ◌∙◌, arith,
  ltb, ltb_ℤ, if◌then◌else◌, ◌||◌, map, subst, Bool-cases,
}
use causalontology.Store.Cycles.Trails.{In}
use causalontology.Store.Cycles.Records.{In-append}
use causalontology.Semantics.Strata.{measure_one, measure}
use causalontology.Semantics.Strata.Distances.{IsSmall, gap_of, distance-gap_of}

-- Every distance of a cause and an effect, and some of them.
abbrev pub EachPair : (ℕ → Type 0) → List ℤ → List ℤ → Type 0
EachPair P cs es = (i j : ℤ) → In i cs → In j es → P (gap_of i j)

abbrev pub SomePair : (ℕ → Type 0) → List ℤ → List ℤ → Type 0
SomePair P cs es = (i : ℤ) × (j : ℤ) × In i cs × In j es × P (gap_of i j)

-- One distance more.
abbrev note : ℤ × ℤ → ℕ → ℤ × ℤ
note (gap, span) d = (
  if ltb_ℤ gap (pos 0) || ltb_ℤ (pos d) gap then pos d else gap,
  if ltb_ℤ span (pos d) then pos d else span,
)

notes : ℤ × ℤ → List ℕ → ℤ × ℤ
notes m [] = m
notes m (d ∷ ds) = notes (note m d) ds

gaps : List ℤ → List ℤ → List ℕ
gaps [] es = []
gaps (i ∷ cs) es = map (gap_of i) es ++ gaps cs es

notes-append : (m : ℤ × ℤ) (xs ys : List ℕ) → notes m (xs ++ ys) ≡ notes (notes m xs) ys
unfolding notes
notes-append m [] ys = refl
notes-append m (d ∷ xs) ys = notes-append (note m d) xs ys

measure_one-notes :
    (i : ℤ) (m : ℤ × ℤ) (es : List ℤ)
    → IsSmall i
    → ((j : ℤ) → In j es → IsSmall j)
    → measure_one i m es ≡ notes m (map (gap_of i) es)
unfolding measure_one notes
measure_one-notes i (gap, span) [] si se = refl
measure_one-notes i (gap, span) (j ∷ es) si se =
    rw (distance-gap_of i j si (se j (inl refl)))
      (measure_one-notes i (note (gap, span) (gap_of i j)) es si (λ k h. se k (inr h)))

measure-notes :
    (cs es : List ℤ) (m : ℤ × ℤ)
    → ((i : ℤ) → In i cs → IsSmall i)
    → ((j : ℤ) → In j es → IsSmall j)
    → measure cs es m ≡ notes m (gaps cs es)
unfolding measure gaps notes
measure-notes [] es m sc se = refl
measure-notes (i ∷ cs) es m sc se =
    measure-notes cs es (measure_one i m es) (λ k h. sc k (inr h)) se
    ∙ ap (λ n. notes n (gaps cs es)) (measure_one-notes i m es (sc i (inl refl)) se)
    ∙ sym (notes-append m (map (gap_of i) es) (gaps cs es))

In-map :
    (i : ℤ) (es : List ℤ) (d : ℕ)
    → In d (map (gap_of i) es) ↔ ((j : ℤ) × In j es × (gap_of i j ≡ d))
In-map i [] d = (λ h. elim h [ ], λ (j, h, e). elim h [ ])
In-map i (k ∷ es) d =
    let (fwd, bwd) = In-map i es d in
    (
      λ h. elim h [ inl e ↦ (k, inl refl, e) | inr r ↦ let (j, l, e) = fwd r in (j, inr l, e) ],
      λ (j, h, e). elim h [
        | inl s ↦ inl (subst (λ x. gap_of i x ≡ d) (sym s) e)
        | inr l ↦ inr (bwd (j, l, e))
      ],
    )

In-gaps :
    (cs es : List ℤ) (d : ℕ)
    → In d (gaps cs es) ↔ ((i : ℤ) × (j : ℤ) × In i cs × In j es × (gap_of i j ≡ d))
unfolding gaps
In-gaps [] es d = (λ h. elim h [ ], λ (i, j, h, _, _). elim h [ ])
In-gaps (k ∷ cs) es d =
    let (fwd, bwd) = In-gaps cs es d in
    let (one, back) = In-map k es d in
    let (split, join) = In-append d (map (gap_of k) es) (gaps cs es) in
    (
      λ h. elim (split h) [
        | inl l ↦ let (j, i, e) = one l in (k, j, inl refl, i, e)
        | inr r ↦ let (i, j, a, b, e) = fwd r in (i, j, inr a, b, e)
      ],
      λ (i, j, h, b, e). elim h [
        | inl s ↦ join (inl (back (j, b, subst (λ x. gap_of x j ≡ d) (sym s) e)))
        | inr a ↦ join (inr (bwd (i, j, a, b, e)))
      ],
    )

-- The least and the greatest of some numbers.
abbrev pub Least : ℕ → List ℕ → Type 0
Least g ds = In g ds × ((d : ℕ) → In d ds → g ≤ d)

abbrev pub Greatest : ℕ → List ℕ → Type 0
Greatest s ds = In s ds × ((d : ℕ) → In d ds → d ≤ s)

abbrev low : ℕ → ℕ → ℕ
low g d = if ltb d g then d else g

abbrev high : ℕ → ℕ → ℕ
high s d = if ltb s d then d else s

note-pos : (g s d : ℕ) → note (pos g, pos s) d ≡ (pos (low g d), pos (high s d))
note-pos g s d = ground arith

-- What more numbers make of a least and a greatest one.
record Extremes (g s g' s' : ℕ) (ds : List ℕ) : Type 0 where
  least : (g' ≡ g) ⊎ In g' ds
  below : g' ≤ g
  below_all : (d : ℕ) → In d ds → g' ≤ d
  greatest : (s' ≡ s) ⊎ In s' ds
  above : s ≤ s'
  above_all : (d : ℕ) → In d ds → d ≤ s'

notes-Extremes :
    (g s : ℕ) (ds : List ℕ)
    → (g' : ℕ) × (s' : ℕ) × (notes (pos g, pos s) ds ≡ (pos g', pos s')) × Extremes g s g' s' ds
unfolding notes
notes-Extremes g s [] = (
  g,
  s,
  refl,
  record {
    least = inl refl;
    below = omega arith;
    below_all = λ d i. elim i [ ];
    greatest = inl refl;
    above = omega arith;
    above_all = λ d i. elim i [ ];
  },
)
notes-Extremes g s (d ∷ ds) =
    let (g', s', e, x) = notes-Extremes (low g d) (high s d) ds in
    (
      g',
      s',
      ap (λ m. notes m ds) (note-pos g s d) ∙ e,
      record {
        least = elim x.least [
          | inr i ↦ inr (inr i)
          | inl same ↦ elim (Bool-cases (ltb d g)) [
            | inl down ↦ inr (inl (ground (arith, same, down)))
            | inr up ↦ inl (ground (arith, same, up))
          ]
        ];
        below = ground (arith, x.below);
        below_all =
            λ k i. elim i [ inl same ↦ ground (arith, x.below, same) | inr j ↦ x.below_all k j ];
        greatest = elim x.greatest [
          | inr i ↦ inr (inr i)
          | inl same ↦ elim (Bool-cases (ltb s d)) [
            | inl up ↦ inr (inl (ground (arith, same, up)))
            | inr down ↦ inl (ground (arith, same, down))
          ]
        ];
        above = ground (arith, x.above);
        above_all =
            λ k i. elim i [ inl same ↦ ground (arith, x.above, same) | inr j ↦ x.above_all k j ];
      },
    )

note-first : (d : ℕ) → note (negsuc 0, negsuc 0) d ≡ (pos d, pos d)
note-first d = ground arith

-- The least and the greatest of the distances, where there is one.
extremes :
    (d : ℕ) (ds : List ℕ)
    → (g : ℕ) × (s : ℕ) × (notes (negsuc 0, negsuc 0) (d ∷ ds) ≡ (pos g, pos s))
      × Least g (d ∷ ds)
      × Greatest s (d ∷ ds)
unfolding notes
extremes d ds =
    let (g, s, e, x) = notes-Extremes d d ds in
    (
      g,
      s,
      ap (λ m. notes m ds) (note-first d) ∙ e,
      (
        elim x.least [ inl same ↦ inl (sym same) | inr i ↦ inr i ],
        λ k i. elim i [ inl same ↦ subst (λ n. g ≤ n) same x.below | inr j ↦ x.below_all k j ],
      ),
      (
        elim x.greatest [ inl same ↦ inl (sym same) | inr i ↦ inr i ],
        λ k i. elim i [ inl same ↦ subst (λ n. n ≤ s) same x.above | inr j ↦ x.above_all k j ],
      ),
    )

-- The measured gap and span are the least and the greatest distance.
pub measure_lem :
    (c e : ℤ) (cs es : List ℤ)
    → ((i : ℤ) → In i (c ∷ cs) → IsSmall i)
    → ((j : ℤ) → In j (e ∷ es) → IsSmall j)
    → (g : ℕ) × (s : ℕ) × (measure (c ∷ cs) (e ∷ es) (negsuc 0, negsuc 0) ≡ (pos g, pos s))
      × SomePair (λ d. d ≡ g) (c ∷ cs) (e ∷ es)
      × EachPair (λ d. g ≤ d) (c ∷ cs) (e ∷ es)
      × SomePair (λ d. d ≡ s) (c ∷ cs) (e ∷ es)
      × EachPair (λ d. d ≤ s) (c ∷ cs) (e ∷ es)
measure_lem c e cs es sc se =
    let rest = map (gap_of c) es ++ gaps cs (e ∷ es) in
    let (g, s, q, (ig, lg), (is, ls)) = extremes (gap_of c e) rest in
    let pairs = In-gaps (c ∷ cs) (e ∷ es) in
    (
      g,
      s,
      measure-notes (c ∷ cs) (e ∷ es) (negsuc 0, negsuc 0) sc se ∙ (unfold gaps in q),
      (pairs g).0 (unfold gaps in ig),
      λ i j a b. lg (gap_of i j) (unfold gaps in (pairs (gap_of i j)).1 (i, j, a, b, refl)),
      (pairs s).0 (unfold gaps in is),
      λ i j a b. ls (gap_of i j) (unfold gaps in (pairs (gap_of i j)).1 (i, j, a, b, refl)),
    )
