-- ===== src/Semantics/Bridges.antt =====
-- BridgeClosure, algorithm A: every finer occurrent that an occurrent resolves to.
pub mod Closure
use causalontology.Prelude.{
  ℕ, zero, suc, ◌+◌, String, List, [], ◌∷◌, ◌++◌, Bool, true, false, Option, none, some, ◌==◌, ◌≡◌,
  ◌⊎◌, if◌then◌else◌, length,
}
use causalontology.Sets.{contains_string, StringSet, set_add, add_all}
use causalontology.Json.{Fields, at, as_text, string_list}
use causalontology.Semantics.Paths.{push_all}

-- whether `b["coarse"].(string)` is the occurrent
unfoldable pub is_coarse : Option String → String → Bool
is_coarse none current = false
is_coarse (some coarse) current = coarse == current

-- the fine members of the bridges in `coarseIndex[current]`, in order
unfoldable pub fine_of : List Fields → String → List String
fine_of [] current = []
fine_of (b ∷ bridges) current =
    let rest = fine_of bridges current in
    if is_coarse (as_text (at b "coarse")) current then string_list (at b "fine") ++ rest else rest

-- The loop, with fuel for one pop each.
unfoldable pub closure_loop :
    ℕ → List Fields → StringSet → StringSet → List String → Option StringSet
closure_loop fuel bridges result visited [] = some result
closure_loop zero bridges result visited (current ∷ frontier) = none
closure_loop (suc fuel) bridges result visited (current ∷ frontier) =
    let fine = fine_of bridges current in
    let again = closure_loop fuel bridges result visited frontier in
    let onward =
      closure_loop fuel bridges (add_all result fine) (set_add visited current)
        (push_all fine frontier) in
    if contains_string visited current then again else onward

unfoldable pub fine_count : List Fields → ℕ
fine_count [] = 0
fine_count (b ∷ bridges) = length (string_list (at b "fine")) + fine_count bridges

-- BridgeClosure
unfoldable pub bridge_closure : String → List Fields → Option StringSet
bridge_closure occurrent bridges =
    closure_loop (suc (fine_count bridges)) bridges (occurrent ∷ []) [] (occurrent ∷ [])

-- A bridge of the list has the one occurrent for its coarse one, and the other among its fine ones.
abbrev pub Bridged : List Fields → String → String → Type 0
Bridged [] u v = ⊥
Bridged (b ∷ bridges) u v =
    ((as_text (at b "coarse") ≡ some u) × (contains_string (string_list (at b "fine")) v ≡ true))
    ⊎ Bridged bridges u v

-- Resolution downwards, bridge by bridge.
pub data Resolves (bridges : List Fields) (occurrent : String) : String → Type 0 where
  itself : Resolves bridges occurrent occurrent
  down :
      {u v : String}
      → Resolves bridges occurrent u
      → Bridged bridges u v
      → Resolves bridges occurrent v
