-- ===== src/Store/Cycles/Marks.antt =====
-- The marks of a search, and the number of nodes that have none.
use causalontology.Prelude.{
  ℕ, suc, ◌+◌, ◌≤◌, String, List, [], ◌∷◌, true, none, eq_iff, ◌≡◌, arith, Map, find, insert,
  find-insert, is_some, if◌then◌else◌, length,
}
use causalontology.Sets.{contains_string}
use causalontology.Semantics.Cycles.{Mark}

-- Every marked node stays marked.
abbrev pub Grows : Map Mark → Map Mark → Type 0
Grows before after = (u : String) → find after u ≡ none → find before u ≡ none

pub unmarked : List String → Map Mark → ℕ
unmarked [] state = 0
unmarked (u ∷ us) state = (if is_some (find state u) then 0 else 1) + unmarked us state

pub unmarked-le :
    (us : List String) (before after : Map Mark)
    → Grows before after
    → unmarked us after ≤ unmarked us before
unfolding unmarked is_some
unmarked-le [] before after g = omega arith
unmarked-le (u ∷ us) before after g = ground (arith, g u, unmarked-le us before after g)

pub insert-Grows : (state : Map Mark) (node : String) (m : Mark) → Grows state (insert state node m)
insert-Grows state node m u h = ground (arith, find-insert state node m u)

pub unmarked-insert :
    (us : List String) (state : Map Mark) (node : String) (m : Mark)
    → contains_string us node ≡ true
    → find state node ≡ none
    → suc (unmarked us (insert state node m)) ≤ unmarked us state
unfolding unmarked contains_string is_some
unmarked-insert [] state node m i h = absurd (ground arith)
unmarked-insert (u ∷ us) state node m i h = ground (
  arith,
  find-insert state node m u,
  eq_iff u node,
  eq_iff node u,
  unmarked-le us state (insert state node m) (insert-Grows state node m),
  unmarked-insert us state node m,
)

pub unmarked-length : (us : List String) (state : Map Mark) → unmarked us state ≤ length us
unfolding unmarked
unmarked-length [] state = omega arith
unmarked-length (u ∷ us) state = ground (arith, unmarked-length us state)
