-- ===== src/Semantics/Bridges/Closure.antt =====
-- BridgeClosure ends, and its result is the set of what the occurrent resolves to.
use mathlib.Core.Logic.{∥∥₁_elim}
use mathlib.Core.Bool.{So-prop}
use mathlib.Core.Option.{some-injective}
use mathlib.Core.Path.{ap}
use causalontology.Prelude.{
  ℕ, zero, suc, ◌+◌, ◌≤◌, String, List, [], ◌∷◌, Bool, true, false, Option, none, some, ◌==◌,
  eq_iff, ◌≡◌, refl, if◌then◌else◌, length, length-append, arith, Bool-cases, ◌⊎◌, inl, inr, ◌↔◌,
  subst, sym,
}
use causalontology.Sets.{contains_string, StringSet, set_add, add_all}
use causalontology.Sets.Laws.{contains-set_add, contains-add_all, contains-cons, contains-append}
use causalontology.Json.{Fields, at, as_text, string_list}
use causalontology.Semantics.Paths.{push_all}
use causalontology.Semantics.Paths.Fuel.{length-push_all}
use causalontology.Semantics.Paths.Decides.{contains-push_all}
use causalontology.Semantics.Bridges.{
  is_coarse, fine_of, Bridged, closure_loop, fine_count, bridge_closure, Resolves, itself, down,
}

is_coarse_iff : (o : Option String) (u : String) → (is_coarse o u ≡ true) ↔ (o ≡ some u)
unfolding is_coarse
is_coarse_iff none u = (λ h. absurd (cc), λ h. absurd (cc))
is_coarse_iff (some c) u =
    let (fwd, bwd) = eq_iff c u in (λ h. ap some (fwd h), λ e. bwd (some-injective _ _ e))

fine_of-Bridged :
    (bridges : List Fields) (u v : String)
    → (contains_string (fine_of bridges u) v ≡ true) ↔ Bridged bridges u v
unfolding fine_of
fine_of-Bridged [] u v = (λ h. absurd (unfold contains_string in cc), λ n. absurd n)
fine_of-Bridged (b ∷ bridges) u v =
    let (fwd, bwd) = fine_of-Bridged bridges u v in
    let fine = string_list (at b "fine") in
    let (this, this') = is_coarse_iff (as_text (at b "coarse")) u in
    let joined = contains-append fine (fine_of bridges u) v in
    elim (Bool-cases (is_coarse (as_text (at b "coarse")) u)) [
      | inl here ↦ rw here (
        λ h. elim (Bool-cases (contains_string fine v)) [
          | inl i ↦ inl (this here, i)
          | inr n ↦ inr (fwd (ground (arith, h, joined, n)))
        ],
        λ s. elim s [
          | inl (e, i) ↦ ground (arith, joined, i)
          | inr r ↦ let k = bwd r in ground (arith, joined, k)
        ],
      )
      | inr other ↦ rw other (
        λ h. inr (fwd h),
        λ s. elim s [ inl (e, i) ↦ (let t = this' e in absurd (cc)) | inr r ↦ bwd r ],
      )
    ]

-- The fine members whose coarse occurrent is not visited.
coarse_visited : Option String → StringSet → Bool
coarse_visited none visited = false
coarse_visited (some coarse) visited = contains_string visited coarse

unvisited_fine : List Fields → StringSet → ℕ
unvisited_fine [] visited = 0
unvisited_fine (b ∷ bridges) visited =
    (if coarse_visited (as_text (at b "coarse")) visited
      then 0
      else length (string_list (at b "fine")))
    + unvisited_fine bridges visited

unvisited-fine_count : (bridges : List Fields) → unvisited_fine bridges [] ≤ fine_count bridges
unfolding unvisited_fine fine_count
unvisited-fine_count [] = omega arith
unvisited-fine_count (b ∷ bridges) = ground (arith, unvisited-fine_count bridges)

-- One bridge, for a coarse occurrent read as `o`, with `n` fine members.
one_bridge :
    (o : Option String) (visited : StringSet) (current : String) (n : ℕ)
    → contains_string visited current ≡ false
    → (if coarse_visited o (set_add visited current) then 0 else n)
        + (if is_coarse o current then n else 0)
      ≤ (if coarse_visited o visited then 0 else n)
unfolding coarse_visited is_coarse
one_bridge none visited current n h = omega arith
one_bridge (some coarse) visited current n h =
    ground
      (arith, contains-set_add visited current coarse, eq_iff current coarse, eq_iff coarse current)

unvisited-set_add :
    (bridges : List Fields) (visited : StringSet) (current : String)
    → contains_string visited current ≡ false
    → unvisited_fine bridges (set_add visited current) + length (fine_of bridges current)
      ≤ unvisited_fine bridges visited
unfolding unvisited_fine fine_of
unvisited-set_add [] visited current h = omega arith
unvisited-set_add (b ∷ bridges) visited current h =
    let fine = string_list (at b "fine") in
    let one = one_bridge (as_text (at b "coarse")) visited current (length fine) h in
    let more = unvisited-set_add bridges visited current h in
    elim (Bool-cases (is_coarse (as_text (at b "coarse")) current)) [
      | inl e ↦
          rw e (omega (arith, one_of e one, more, length-append fine (fine_of bridges current)))
      | inr e ↦ rw e (omega (arith, one, more))
    ]
  where
    one_of :
        is_coarse (as_text (at b "coarse")) current ≡ true
        → (if coarse_visited (as_text (at b "coarse")) (set_add visited current)
              then 0
              else length (string_list (at b "fine")))
            + (if is_coarse (as_text (at b "coarse")) current
                then length (string_list (at b "fine"))
                else 0)
          ≤ (if coarse_visited (as_text (at b "coarse")) visited
              then 0
              else length (string_list (at b "fine")))
        → (if coarse_visited (as_text (at b "coarse")) (set_add visited current)
              then 0
              else length (string_list (at b "fine")))
            + length (string_list (at b "fine"))
          ≤ (if coarse_visited (as_text (at b "coarse")) visited
              then 0
              else length (string_list (at b "fine")))
    one_of e h = rw e at h

module _ (bridges : List Fields) where
  closure_loop_total :
      (fuel : ℕ) (result visited : StringSet) (frontier : List String)
      → unvisited_fine bridges visited + length frontier ≤ fuel
      → (r : StringSet) × (closure_loop fuel bridges result visited frontier ≡ some r)
  unfolding closure_loop
  closure_loop_total zero result visited [] h = (result, refl)
  closure_loop_total (suc fuel) result visited [] h = (result, refl)
  closure_loop_total zero result visited (current ∷ frontier) h = absurd (omega arith)
  closure_loop_total (suc fuel) result visited (current ∷ frontier) h =
      let fine = fine_of bridges current in
      elim (Bool-cases (contains_string visited current)) [
        | inl old ↦ rw old (closure_loop_total fuel result visited frontier (omega arith))
        | inr new ↦ rw new (
            closure_loop_total fuel (add_all result fine) (set_add visited current)
              (push_all fine frontier)
              (omega (
                arith,
                unvisited-set_add bridges visited current new,
                length-push_all fine frontier,
              )))
      ]

  module _ (occurrent : String) where
    record Inv (result visited frontier : List String) : Type 0 where
      source : contains_string result occurrent ≡ true
      sound : (x : String) → contains_string result x ≡ true → Resolves bridges occurrent x
      waiting : (x : String) → contains_string frontier x ≡ true → contains_string result x ≡ true
      pending :
          (x : String)
          → contains_string result x ≡ true
          → (contains_string visited x ≡ true) ⊎ (contains_string frontier x ≡ true)
      closed :
          (u v : String)
          → contains_string visited u ≡ true
          → contains_string (fine_of bridges u) v ≡ true
          → contains_string result v ≡ true

    Inv-again :
        (result visited frontier : List String) (current : String)
        → contains_string visited current ≡ true
        → Inv result visited (current ∷ frontier)
        → Inv result visited frontier
    Inv-again result visited frontier current old i = record {
      source = i.source;
      sound = i.sound;
      waiting = λ x m. i.waiting x (ground (arith, contains-cons current x frontier));
      pending =
          λ x m. ground (arith, i.pending x m, contains-cons current x frontier, eq_iff current x);
      closed = i.closed;
    }

    Inv-onward :
        (result visited frontier : List String) (current : String)
        → Inv result visited (current ∷ frontier)
        → Inv
            (add_all result (fine_of bridges current))
            (set_add visited current)
            (push_all (fine_of bridges current) frontier)
    Inv-onward result visited frontier current i =
        let fine = fine_of bridges current in
        let added = contains-add_all result fine in
        let pushed = contains-push_all fine frontier in
        let top =
          i.waiting current
            (ground (arith, contains-cons current current frontier, eq_iff current current)) in
        record {
          source = ground (arith, added occurrent, i.source);
          sound = λ x m. elim (Bool-cases (contains_string fine x)) [
            | inl new ↦ down (i.sound current top) ((fine_of-Bridged bridges current x).0 new)
            | inr other ↦ i.sound x (ground (arith, added x))
          ];
          waiting = λ x m.
              ground (arith, added x, pushed x, i.waiting x, contains-cons current x frontier);
          pending = λ x m. ground (
            arith,
            added x,
            pushed x,
            i.pending x,
            contains-cons current x frontier,
            contains-set_add visited current x,
            eq_iff current x,
          );
          closed = λ u v m e. elim (Bool-cases (current == u)) [
            | inl same ↦
                let out =
                  subst (λ w. contains_string (fine_of bridges w) v ≡ true)
                    (sym ((eq_iff current u).0 same)) e in
                ground (arith, added v, out)
            | inr other ↦ ground (arith, added v, i.closed u v, contains-set_add visited current u)
          ];
        }

    finished :
        (result visited : List String)
        → Inv result visited []
        → {v : String} → Resolves bridges occurrent v
        → contains_string result v ≡ true
    unfolding contains_string
    finished result visited i itself = i.source
    finished result visited i (down {u} {v} r e) =
        i.closed u v (ground (arith, i.pending u (finished result visited i r)))
          ((fine_of-Bridged bridges u v).1 e)

    closure_loop_correct :
        (fuel : ℕ) (result visited : StringSet) (frontier : List String) (r : StringSet)
        → Inv result visited frontier
        → closure_loop fuel bridges result visited frontier ≡ some r
        → (v : StringSet) × Inv r v []
    unfolding closure_loop
    closure_loop_correct zero result visited [] r i h =
        (visited, subst (λ s. Inv s visited []) (ground arith) i)
    closure_loop_correct (suc fuel) result visited [] r i h =
        (visited, subst (λ s. Inv s visited []) (ground arith) i)
    closure_loop_correct zero result visited (current ∷ frontier) r i h = absurd (ground arith)
    closure_loop_correct (suc fuel) result visited (current ∷ frontier) r i h =
        let fine = fine_of bridges current in
        elim (Bool-cases (contains_string visited current)) [
          | inl old ↦
              closure_loop_correct fuel result visited frontier r
                (Inv-again result visited frontier current old i) (ground arith)
          | inr new ↦
              closure_loop_correct fuel (add_all result fine) (set_add visited current)
                (push_all fine frontier) r (Inv-onward result visited frontier current i)
                (ground arith)
        ]

start :
    (bridges : List Fields) (occurrent : String)
    → Inv bridges occurrent (occurrent ∷ []) [] (occurrent ∷ [])
unfolding contains_string
start bridges occurrent = record {
  source = ground (arith, eq_iff occurrent occurrent);
  sound = λ x m. subst (Resolves bridges occurrent) ((eq_iff occurrent x).0 (ground arith)) itself;
  waiting = λ x m. m;
  pending = λ x m. inr m;
  closed = λ u v m e. cc;
}

-- BridgeClosure always ends, and its result holds exactly the occurrents that the start resolves to.
pub bridge_closure_lem :
    (occurrent : String) (bridges : List Fields)
    → (r : StringSet) × (bridge_closure occurrent bridges ≡ some r)
      × ((v : String) → (contains_string r v ≡ true) ↔ ∥ Resolves bridges occurrent v ∥₁)
unfolding bridge_closure
bridge_closure_lem occurrent bridges =
    let (r, e) =
      closure_loop_total bridges (suc (fine_count bridges)) (occurrent ∷ []) [] (occurrent ∷ [])
        (omega (arith, unvisited-fine_count bridges)) in
    let (visited, i) =
      closure_loop_correct bridges occurrent (suc (fine_count bridges)) (occurrent ∷ []) []
        (occurrent ∷ []) r (start bridges occurrent) e in
    (
      r,
      e,
      λ v. (
        λ m. ∣ i.sound v m ∣₁,
        λ w. ∥∥₁_elim w (So-prop _) (finished bridges occurrent r visited i),
      ),
    )
