-- ===== src/Semantics/Paths/Fuel.antt =====
-- The loop of pathExists ends within one pop for each edge and one for the start.
use causalontology.Prelude.{
  ℕ, zero, suc, ◌+◌, ◌≤◌, String, List, [], ◌∷◌, Bool, true, false, some, ◌==◌, eq_iff, ◌≡◌, refl,
  if◌then◌else◌, length, arith, Bool-cases, inl, inr,
}
use causalontology.Sets.{contains_string, StringSet, set_add}
use causalontology.Sets.Laws.{contains-set_add}
use causalontology.Semantics.Paths.{Graph, successors, push_all, path_loop, edge_count, path_exists}

pub length-push_all :
    (xs stack : List String) → length (push_all xs stack) ≡ length xs + length stack
unfolding push_all
length-push_all [] stack = omega arith
length-push_all (x ∷ xs) stack = omega (arith, length-push_all xs (x ∷ stack))

-- The edges that leave nodes outside `seen`.
pub unseen_edges : Graph → StringSet → ℕ
unseen_edges [] seen = 0
unseen_edges ((n, out) ∷ g) seen =
    (if contains_string seen n then 0 else length out) + unseen_edges g seen

pub unseen-edge_count : (g : Graph) → unseen_edges g [] ≡ edge_count g
unfolding unseen_edges edge_count contains_string
unseen-edge_count [] = refl
unseen-edge_count ((n, out) ∷ g) = omega (arith, unseen-edge_count g)

unseen_mono :
    (g : Graph) (seen : StringSet) (node : String)
    → unseen_edges g (set_add seen node) ≤ unseen_edges g seen
unfolding unseen_edges
unseen_mono [] seen node = omega arith
unseen_mono ((n, out) ∷ g) seen node =
    ground (arith, unseen_mono g seen node, contains-set_add seen node n)

pub unseen-set_add :
    (g : Graph) (seen : StringSet) (node : String)
    → contains_string seen node ≡ false
    → unseen_edges g (set_add seen node) + length (successors g node) ≤ unseen_edges g seen
unfolding unseen_edges successors
unseen-set_add [] seen node h = omega arith
unseen-set_add ((n, out) ∷ g) seen node h = ground (
  arith,
  unseen-set_add g seen node h,
  unseen_mono g seen node,
  contains-set_add seen node n,
  eq_iff node n,
  eq_iff n node,
)

-- Enough fuel gives an answer.
pub path_loop_total :
    (fuel : ℕ) (g : Graph) (dst : String) (seen : StringSet) (stack : List String)
    → unseen_edges g seen + length stack ≤ fuel
    → (b : Bool) × (path_loop fuel g dst seen stack ≡ some b)
unfolding path_loop
path_loop_total zero g dst seen [] h = (false, refl)
path_loop_total (suc fuel) g dst seen [] h = (false, refl)
path_loop_total zero g dst seen (node ∷ stack) h = absurd (omega arith)
path_loop_total (suc fuel) g dst seen (node ∷ stack) h = elim (Bool-cases (node == dst)) [
  | inl e ↦ (true, rw e)
  | inr ne ↦ elim (Bool-cases (contains_string seen node)) [
    | inl old ↦ rw (ne, old) (path_loop_total fuel g dst seen stack (omega arith))
    | inr new ↦
        rw (ne, new)
          (path_loop_total fuel g dst (set_add seen node) (push_all (successors g node) stack) (
            omega
              (arith, unseen-set_add g seen node new, length-push_all (successors g node) stack)))
  ]
]

pub path_exists_total :
    (g : Graph) (src dst : String) → (b : Bool) × (path_exists g src dst ≡ some b)
unfolding path_exists
path_exists_total g src dst =
    path_loop_total (suc (edge_count g)) g dst [] (src ∷ []) (omega (arith, unseen-edge_count g))
