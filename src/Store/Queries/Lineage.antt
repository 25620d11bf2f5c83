-- ===== src/Store/Queries/Lineage.antt =====
-- Lineage ends, holds its key, and is made of succession steps.
use mathlib.Core.Logic.{⊎_elim}
use causalontology.Prelude.{
  ℕ, zero, suc, ◌+◌, ◌≤◌, String, [], ◌∷◌, true, false, some, ◌==◌, eq_iff, ◌≡◌, ◌≢◌, sym, ◌∙◌, ◌⊎◌,
  inl, inr, subst, arith, if◌then◌else◌, Map, find, size, Bool-cases, Option-cases,
}
use causalontology.Sets.{contains_string, StringSet, set_add}
use causalontology.Sets.Laws.{contains-set_add}
use causalontology.Store.State.{Store}
use causalontology.Store.Queries.{walk, predecessor_of, successor_of, lineage}

-- The entries whose value is not in the chain.
unchained : Map String → StringSet → ℕ
unchained [] chain = 0
unchained ((k, v) ∷ next) chain = (if contains_string chain v then 0 else 1) + unchained next chain

unchained-size : (next : Map String) (chain : StringSet) → unchained next chain ≤ size next
unfolding unchained size
unchained-size [] chain = omega arith
unchained-size ((k, v) ∷ next) chain = ground (arith, unchained-size next chain)

unchained_mono :
    (next : Map String) (chain : StringSet) (n : String)
    → unchained next (set_add chain n) ≤ unchained next chain
unfolding unchained
unchained_mono [] chain n = omega arith
unchained_mono ((k, v) ∷ next) chain n =
    ground (arith, unchained_mono next chain n, contains-set_add chain n v)

unchained-step :
    (next : Map String) (chain : StringSet) (cursor n : String)
    → find next cursor ≡ some n
    → contains_string chain n ≡ false
    → suc (unchained next (set_add chain n)) ≤ unchained next chain
unfolding unchained find
unchained-step [] chain cursor n e h = cc
unchained-step ((k, v) ∷ next) chain cursor n e h = ground (
  arith,
  unchained-step next chain cursor n,
  unchained_mono next chain n,
  contains-set_add chain n v,
  eq_iff n v,
  eq_iff n n,
)

-- A walk that stops where it stands.
walk-stop :
    (fuel : ℕ) (next : Map String) (chain : StringSet) (cursor : String)
    → ((n : String) → find next cursor ≡ some n → contains_string chain n ≡ true)
    → walk fuel next chain cursor ≡ some chain
unfolding walk
walk-stop zero next chain cursor h = elim (Option-cases (find next cursor)) [
  | inl e ↦ rw (e, walk)
  | inr (n, e) ↦ rw (e, walk) (rw (h n e))
]
walk-stop (suc fuel) next chain cursor h = elim (Option-cases (find next cursor)) [
  | inl e ↦ rw (e, walk)
  | inr (n, e) ↦ rw (e, walk) (rw (h n e))
]

walk-onward :
    (fuel : ℕ) (next : Map String) (chain : StringSet) (cursor n : String)
    → find next cursor ≡ some n
    → contains_string chain n ≡ false
    → walk (suc fuel) next chain cursor ≡ walk fuel next (set_add chain n) n
unfolding walk
walk-onward fuel next chain cursor n e new = rw (e, walk) (rw new)

-- The steps that a map makes from a key.
pub data Chain (next : Map String) (key : String) : String → Type 0 where
  start : Chain next key key
  step : {u v : String} → Chain next key u → find next u ≡ some v → Chain next key v

-- What a walk adds is a step from a member, and what it leaves is closed but for the cursor.
record Walked (next : Map String) (before : StringSet) (origin : String) (after : StringSet)
    : Type 0 where
  kept : (x : String) → contains_string before x ≡ true → contains_string after x ≡ true
  made :
      (x : String)
      → contains_string after x ≡ true
      → (contains_string before x ≡ true) ⊎ Chain next origin x

-- Each step from a member that the origin leads to ends in a member, or starts at the cursor, or there
-- is an excuse.
abbrev ClosedBut : Type 0 → Map String → String → StringSet → String → Type 0
ClosedBut E next origin chain cursor =
    (u v : String)
    → contains_string chain u ≡ true
    → Chain next origin u
    → find next u ≡ some v
    → (u ≡ cursor) ⊎ (contains_string chain v ≡ true) ⊎ E

abbrev Closed : Type 0 → Map String → String → StringSet → Type 0
Closed E next origin chain =
    (u v : String)
    → contains_string chain u ≡ true
    → Chain next origin u
    → find next u ≡ some v
    → (contains_string chain v ≡ true) ⊎ E

single_self : (key : String) → contains_string (key ∷ []) key ≡ true
unfolding contains_string
single_self key = ground (arith, eq_iff key key)

single_eq : (key x : String) → contains_string (key ∷ []) x ≡ true → key ≡ x
unfolding contains_string
single_eq key x m = (eq_iff key x).0 (ground arith)

single_closed : (next : Map String) (key : String) → ClosedBut ⊥ next key (key ∷ []) key
single_closed next key u v m c e = inl (sym (single_eq key u m))

-- What a walk returns.
abbrev WalkResult : Type 0 → ℕ → Map String → StringSet → String → String → Type 0
WalkResult E fuel next chain cursor origin =
    (r : StringSet) × (walk fuel next chain cursor ≡ some r)
    × Walked next chain origin r
    × (ClosedBut E next origin chain cursor → Closed E next origin r)

stopped :
    (E : Type 0) (fuel : ℕ) (next : Map String) (chain : StringSet) (cursor origin : String)
    → ((n : String) → find next cursor ≡ some n → contains_string chain n ≡ true)
    → WalkResult E fuel next chain cursor origin
stopped E fuel next chain cursor origin all = (
  chain,
  walk-stop fuel next chain cursor all,
  record { kept = λ x m. m; made = λ x m. inl m },
  λ closed u v m c e. elim (closed u v m c e) [
    | inl same ↦ inl (all v (subst (λ w. find next w ≡ some v) same e))
    | inr k ↦ k
  ],
)

ClosedBut-onward :
    (E : Type 0) (next : Map String) (origin : String) (chain : StringSet) (cursor n : String)
    → find next cursor ≡ some n
    → ClosedBut E next origin chain cursor
    → ClosedBut E next origin (set_add chain n) n
ClosedBut-onward E next origin chain cursor n e closed u v m c f = elim (Bool-cases (n == u)) [
  | inl same ↦ inl (sym ((eq_iff n u).0 same))
  | inr other ↦ elim (closed u v (ground (arith, contains-set_add chain n u)) c f) [
    | inl at_cursor ↦
        inr (inl (ground (arith, contains-set_add chain n v, eq_iff n v, values at_cursor)))
    | inr (inl old) ↦ inr (inl (ground (arith, contains-set_add chain n v)))
    | inr (inr excuse) ↦ inr (inr excuse)
  ]
]
  where
    values : u ≡ cursor → n ≡ v
    values same = ground (arith, subst (λ w. find next w ≡ some v) same f)

-- A walk from a step of the origin ends, and adds steps of the origin alone; if the chain was closed
-- but for the cursor, the result is closed.
walk_lem :
    (E : Type 0) (fuel : ℕ) (next : Map String) (chain : StringSet) (cursor origin : String)
    → unchained next chain ≤ fuel
    → Chain next origin cursor
    → WalkResult E fuel next chain cursor origin
walk_lem E zero next chain cursor origin h c = stopped E zero next chain cursor origin (λ n e.
    elim (Bool-cases (contains_string chain n)) [
      | inl old ↦ old
      | inr new ↦ absurd (omega (arith, unchained-step next chain cursor n e new))
    ])
walk_lem E (suc fuel) next chain cursor origin h c = elim (Option-cases (find next cursor)) [
  | inl e ↦ stopped E (suc fuel) next chain cursor origin (λ n x. ground arith)
  | inr (n, e) ↦ elim (Bool-cases (contains_string chain n)) [
    | inl old ↦ stopped E (suc fuel) next chain cursor origin (λ m x. ground arith)
    | inr new ↦
        let (r, done, walked, closed) =
          walk_lem E fuel next (set_add chain n) n origin
            (omega (arith, unchained-step next chain cursor n e new)) (step c e) in
        (
          r,
          walk-onward fuel next chain cursor n e new ∙ done,
          record {
            kept = λ x m. walked.kept x (ground (arith, contains-set_add chain n x));
            made = λ x m. added chain n x (step c e) (walked.made x m);
          },
          λ but. closed (ClosedBut-onward E next origin chain cursor n e but),
        )
  ]
]
  where
    added :
        (before : StringSet) (n x : String)
        → Chain next origin n
        → (contains_string (set_add before n) x ≡ true) ⊎ Chain next origin x
        → (contains_string before x ≡ true) ⊎ Chain next origin x
    added before n x s (inr made) = inr made
    added before n x s (inl m) = elim (Bool-cases (n == x)) [
      | inl same ↦ inr (subst (Chain next origin) ((eq_iff n x).0 same) s)
      | inr other ↦ inl (ground (arith, contains-set_add before n x))
    ]

chained :
    (E : Type 0) (next : Map String) (key : String) (r : StringSet) {x : String}
    → contains_string r key ≡ true
    → Closed E next key r
    → Chain next key x
    → (contains_string r x ≡ true) ⊎ E
chained E next key r k closed start = inl k
chained E next key r k closed (step {u} {v} c e) = elim (chained E next key r k closed c) [
  | inl m ↦ closed u v m c e
  | inr excuse ↦ inr excuse
]

-- A key other than the given one that the successions lead to from it, and lead back from as well.
abbrev pub Meets : Store → String → Type 0
Meets s key =
    (y : String) × (y ≢ key) × Chain (successor_of s) key y × Chain (predecessor_of s) key y

pub lineage_lem :
    (s : Store) (key : String)
    → (r : StringSet) × (lineage s key ≡ some r)
      × (contains_string r key ≡ true)
      × ((x : String) → Chain (predecessor_of s) key x → contains_string r x ≡ true)
      × ((x : String) → Chain (successor_of s) key x → (contains_string r x ≡ true) ⊎ Meets s key)
      × ((x : String)
          → contains_string r x ≡ true
          → Chain (predecessor_of s) key x ⊎ Chain (successor_of s) key x)
unfolding lineage
lineage_lem s key =
    let before = predecessor_of s in
    let later = successor_of s in
    let (r, e, back, closed) =
      walk_lem ⊥ (size before) before (key ∷ []) key key (unchained-size before (key ∷ [])) start in
    let (t, f, forth, done) =
      walk_lem (Meets s key) (size later) later r key key (unchained-size later r) start in
    let held = back.kept key (single_self key) in
    let earlier = λ (x : String) (m : contains_string r x ≡ true).
      ⊎_elim (λ k. subst (Chain before key) (single_eq key x k) start) (λ c. c) (back.made x m) in
    (
      t,
      rw (e, lineage) f,
      forth.kept key held,
      λ x c. forth.kept x (
          ⊎_elim (λ m. m) (λ n. absurd n)
            (chained ⊥ before key r held (closed (single_closed before key)) c)),
      λ x c.
          chained (Meets s key) later key t (forth.kept key held)
            (done (λ u v m k g. elim (Bool-cases (key == u)) [
              | inl same ↦ inl (sym ((eq_iff key u).0 same))
              | inr other ↦ inr (inr (u, λ p. ground (arith, eq_iff key u), k, earlier u m))
            ]))
            c,
      λ x m. ⊎_elim (λ old. inl (earlier x old)) (λ c. inr c) (forth.made x m),
    )
