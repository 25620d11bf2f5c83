-- ===== src/Sets/Sizes.antt =====
-- Sets of at most one member.
use causalontology.Prelude.{
  String, [], ◌∷◌, true, false, eq_iff, ◌≡◌, ◌≢◌, arith, ltb, length, ◌∙◌, sym,
}
use causalontology.Sets.{contains_string, StringSet}
use causalontology.Sets.Laws.{IsUnique}

-- A set of more than one member has two.
pub two_members :
    (xs : StringSet)
    → IsUnique xs
    → ltb 1 (length xs) ≡ true
    → (x : String) × (y : String) × (contains_string xs x ≡ true)
      × (contains_string xs y ≡ true)
      × (x ≢ y)
unfolding contains_string
two_members [] u h = absurd (ground arith)
two_members (x ∷ []) u h = absurd (ground arith)
two_members (x ∷ y ∷ xs) u h =
    (x, y, ground (arith, eq_iff x x), ground (arith, eq_iff y y), λ e. ground (arith, eq_iff y x))

-- All members of a set of at most one are the same.
pub one_member :
    (xs : StringSet) (x y : String)
    → ltb 1 (length xs) ≡ false
    → contains_string xs x ≡ true
    → contains_string xs y ≡ true
    → x ≡ y
unfolding contains_string
one_member [] x y h i j = absurd (ground arith)
one_member (z ∷ []) x y h i j = sym ((eq_iff z x).0 (ground arith)) ∙ (eq_iff z y).0 (ground arith)
one_member (z ∷ w ∷ xs) x y h i j = absurd (ground arith)
