-- ===== src/Semantics/Paths/Decides.antt =====
-- pathExists answers whether a walk leads from src to dst.
use mathlib.Core.Logic.{∥∥₁_elim}
use mathlib.Core.HLevel.{⊥_prop}
use causalontology.Prelude.{
  ℕ, zero, suc, String, List, [], ◌∷◌, Bool, true, false, some, ◌==◌, eq_iff, ◌≡◌, refl, arith,
  Bool-cases, ◌⊎◌, inl, inr, ◌↔◌, subst, ◌||◌,
}
use causalontology.Sets.{contains_string, StringSet, set_add}
use causalontology.Sets.Laws.{contains-set_add, contains-cons}
use causalontology.Semantics.Paths.{
  Graph, successors, push_all, path_loop, edge_count, path_exists, Reach, here, step,
}
use causalontology.Semantics.Paths.Fuel.{path_exists_total}

pub contains-push_all :
    (xs stack : List String) (x : String)
    → contains_string (push_all xs stack) x ≡ (contains_string xs x || contains_string stack x)
unfolding push_all contains_string
contains-push_all [] stack x = refl
contains-push_all (y ∷ xs) stack x = ground (arith, contains-push_all xs (y ∷ stack) x)

module _ (g : Graph) (src dst : String) where
  -- Every node on the stack is reachable.
  abbrev Sound : List String → Type 0
  Sound stack = (x : String) → contains_string stack x ≡ true → Reach g src x

  path_loop-Sound :
      (fuel : ℕ) (seen : StringSet) (stack : List String)
      → Sound stack
      → path_loop fuel g dst seen stack ≡ some true
      → Reach g src dst
  unfolding path_loop
  path_loop-Sound zero seen [] s h = absurd (ground arith)
  path_loop-Sound (suc fuel) seen [] s h = absurd (ground arith)
  path_loop-Sound zero seen (node ∷ stack) s h = absurd (ground arith)
  path_loop-Sound (suc fuel) seen (node ∷ stack) s h = elim (Bool-cases (node == dst)) [
    | inl e ↦ subst (Reach g src) ((eq_iff node dst).0 e) top
    | inr ne ↦ elim (Bool-cases (contains_string seen node)) [
      | inl old ↦ path_loop-Sound fuel seen stack below (ground arith)
      | inr new ↦
          path_loop-Sound fuel (set_add seen node) (push_all (successors g node) stack)
            (λ x m. elim (Bool-cases (contains_string (successors g node) x)) [
              | inl out ↦ step top out
              | inr other ↦ below x (ground (arith, contains-push_all (successors g node) stack x))
            ])
            (ground arith)
    ]
  ]
    where
      top : Reach g src node
      top = s node (ground (arith, contains-cons node node stack, eq_iff node node))

      below : Sound stack
      below = λ x m. s x (ground (arith, contains-cons node x stack))

  -- What is seen is not the goal, and its successors are seen or wait on the stack.
  record Inv (seen : StringSet) (stack : List String) : Type 0 where
    source : (contains_string seen src ≡ true) ⊎ (contains_string stack src ≡ true)
    missed : contains_string seen dst ≡ false
    closed :
        (u v : String)
        → contains_string seen u ≡ true
        → contains_string (successors g u) v ≡ true
        → (contains_string seen v ≡ true) ⊎ (contains_string stack v ≡ true)

  exhausted :
      (seen : StringSet)
      → Inv seen []
      → {v : String} → Reach g src v
      → contains_string seen v ≡ true
  unfolding contains_string
  exhausted seen i here = ground (arith, i.source)
  exhausted seen i (step {u} {v} r e) = ground (arith, i.closed u v (exhausted seen i r) e)

  path_loop_complete :
      (fuel : ℕ) (seen : StringSet) (stack : List String)
      → Inv seen stack
      → path_loop fuel g dst seen stack ≡ some false
      → ¬ Reach g src dst
  unfolding path_loop
  path_loop_complete zero seen [] i h r = ground (arith, exhausted seen i r, i.missed)
  path_loop_complete (suc fuel) seen [] i h r = ground (arith, exhausted seen i r, i.missed)
  path_loop_complete zero seen (node ∷ stack) i h r = ground arith
  path_loop_complete (suc fuel) seen (node ∷ stack) i h r = elim (Bool-cases (node == dst)) [
    | inl e ↦ ground arith
    | inr ne ↦ elim (Bool-cases (contains_string seen node)) [
      | inl old ↦ path_loop_complete fuel seen stack (again old) (ground arith) r
      | inr new ↦
          path_loop_complete fuel (set_add seen node) (push_all (successors g node) stack)
            (onward ne) (ground arith) r
    ]
  ]
    where
      again : contains_string seen node ≡ true → Inv seen stack
      again old = record {
        source = ground (arith, i.source, contains-cons node src stack, eq_iff node src);
        missed = i.missed;
        closed =
            λ u v m e. ground (arith, i.closed u v m e, contains-cons node v stack, eq_iff node v);
      }

      onward : (node == dst) ≡ false → Inv (set_add seen node) (push_all (successors g node) stack)
      onward ne = record {
        source = ground (
          arith,
          i.source,
          contains-cons node src stack,
          contains-set_add seen node src,
          contains-push_all (successors g node) stack src,
        );
        missed = ground (arith, i.missed, contains-set_add seen node dst);
        closed = λ u v m e. ground (
          arith,
          i.closed u v,
          contains-cons node v stack,
          contains-set_add seen node v,
          contains-set_add seen node u,
          eq_iff node u,
          contains-push_all (successors g node) stack v,
        );
      }

module _ (g : Graph) (src dst : String) where
  path_exists_sound : path_exists g src dst ≡ some true → Reach g src dst
  unfolding path_exists contains_string
  path_exists_sound =
      path_loop-Sound g src dst (suc (edge_count g)) [] (src ∷ [])
        (λ x m. subst (Reach g src) ((eq_iff src x).0 (ground arith)) here)

  path_exists_complete : path_exists g src dst ≡ some false → ¬ Reach g src dst
  unfolding path_exists contains_string
  path_exists_complete = path_loop_complete g src dst (suc (edge_count g)) [] (src ∷ []) (record {
    source = inr (ground (arith, eq_iff src src));
    missed = refl;
    closed = λ u v m e. cc;
  })

  answer : (b : Bool) → path_exists g src dst ≡ some b → (b ≡ true) ↔ ∥ Reach g src dst ∥₁
  answer true e = (λ _. ∣ path_exists_sound e ∣₁, λ _. refl)
  answer false e = (λ h. cc, λ r. absurd (∥∥₁_elim r ⊥_prop (path_exists_complete e)))

-- pathExists always answers, and answers true exactly when a walk leads from src to dst.
pub path_exists_decides :
    (g : Graph) (src dst : String)
    → (b : Bool) × (path_exists g src dst ≡ some b) × ((b ≡ true) ↔ ∥ Reach g src dst ∥₁)
path_exists_decides g src dst =
    let (b, e) = path_exists_total g src dst in (b, e, answer g src dst b e)
