-- ===== src/Sets/Laws.antt =====
-- The sets of semantics.go against membership.
use causalontology.Prelude.{
  suc, ◌≤◌, String, List, [], ◌∷◌, ◌++◌, true, false, ◌==◌, eq_iff, ◌≡◌, refl, sym, ◌∙◌, ◌↔◌, inl,
  inr, arith, if◌then◌else◌, length, Bool-cases, Bool-ext, ◌||◌,
}
use causalontology.Sets.{
  contains_string, StringSet, set_add, add_all, to_string_set, subset_of, same_string_set,
}

-- Each text once.
abbrev pub IsUnique : StringSet → Type 0
IsUnique [] = Unit
IsUnique (x ∷ xs) = (contains_string xs x ≡ false) × IsUnique xs

-- The same members.
abbrev pub SameMembers : List String → List String → Type 0
SameMembers a b = (x : String) → contains_string a x ≡ contains_string b x

pub contains-cons :
    (y x : String) (xs : List String)
    → contains_string (y ∷ xs) x ≡ (if y == x then true else contains_string xs x)
unfolding contains_string
contains-cons y x xs = refl

pub contains-set_add :
    (xs : StringSet) (y x : String)
    → contains_string (set_add xs y) x ≡ (if y == x then true else contains_string xs x)
unfolding set_add
contains-set_add xs y x = ground (arith, eq_iff y x, contains-cons y x xs)

pub set_add-IsUnique : (xs : StringSet) (y : String) → IsUnique xs → IsUnique (set_add xs y)
unfolding set_add
set_add-IsUnique xs y u = ground arith

pub contains-add_all :
    (out xs : List String) (x : String)
    → contains_string (add_all out xs) x ≡ (contains_string out x || contains_string xs x)
unfolding add_all contains_string
contains-add_all out [] x = ground arith
contains-add_all out (y ∷ xs) x =
    ground (arith, contains-add_all (set_add out y) xs x, contains-set_add out y x)

add_all-IsUnique : (out xs : List String) → IsUnique out → IsUnique (add_all out xs)
unfolding add_all
add_all-IsUnique out [] u = u
add_all-IsUnique out (y ∷ xs) u = add_all-IsUnique (set_add out y) xs (set_add-IsUnique out y u)

-- toStringSet has the members of the slice, each once.
pub contains-to_string_set :
    (xs : List String) (x : String) → contains_string (to_string_set xs) x ≡ contains_string xs x
unfolding to_string_set contains_string
contains-to_string_set xs x = contains-add_all [] xs x

pub to_string_set-IsUnique : (xs : List String) → IsUnique (to_string_set xs)
unfolding to_string_set
to_string_set-IsUnique xs = add_all-IsUnique [] xs tt

-- subsetOf is inclusion.
pub subset_of_sound :
    (a b : StringSet) (x : String)
    → subset_of a b ≡ true
    → contains_string a x ≡ true
    → contains_string b x ≡ true
unfolding subset_of contains_string
subset_of_sound [] b x h m = cc
subset_of_sound (y ∷ a) b x h m = ground (arith, subset_of_sound a b x, eq_iff y x)

pub subset_of_complete :
    (a b : StringSet)
    → ((x : String) → contains_string a x ≡ true → contains_string b x ≡ true)
    → subset_of a b ≡ true
unfolding subset_of contains_string
subset_of_complete [] b h = refl
subset_of_complete (y ∷ a) b h =
    let tail = subset_of_complete a b (λ x m. h x (ground arith)) in
    ground (arith, tail, h y, eq_iff y y)

-- One occurrence less.
erase : String → List String → List String
erase x [] = []
erase x (y ∷ ys) = let rest = erase x ys in if y == x then ys else y ∷ rest

contains-erase :
    (x z : String) (ys : List String)
    → (x == z) ≡ false
    → contains_string (erase x ys) z ≡ contains_string ys z
unfolding erase contains_string
contains-erase x z [] h = refl
contains-erase x z (y ∷ ys) h =
    ground (arith, contains-erase x z ys, eq_iff y x, eq_iff y z, eq_iff x z)

length-erase :
    (x : String) (ys : List String)
    → contains_string ys x ≡ true
    → suc (length (erase x ys)) ≡ length ys
unfolding erase contains_string
length-erase x [] h = cc
length-erase x (y ∷ ys) h = ground (arith, length-erase x ys)

-- Distinct members of a list are at most as many as its entries.
pub length-le_of_subset :
    (a b : List String)
    → IsUnique a
    → ((x : String) → contains_string a x ≡ true → contains_string b x ≡ true)
    → length a ≤ length b
unfolding contains_string
length-le_of_subset [] b u h = omega arith
length-le_of_subset (y ∷ a) b u h =
    let here = h y (ground (arith, eq_iff y y)) in
    let rest =
      length-le_of_subset a (erase y b) u.1
        (λ x m. ground (arith, contains-erase y x b, h x, eq_iff y x)) in
    omega (arith, rest, length-erase y b here)

-- Of two sets of one size, neither is properly inside the other.
subset_of_size :
    (a b : StringSet)
    → IsUnique a
    → length a ≡ length b
    → ((x : String) → contains_string a x ≡ true → contains_string b x ≡ true)
    → (x : String) → contains_string b x ≡ true
    → contains_string a x ≡ true
subset_of_size a b u e h x m = elim (Bool-cases (contains_string a x)) [
  | inl here ↦ here
  | inr out ↦
      let smaller =
        length-le_of_subset a (erase x b) u
          (λ z n. ground (arith, contains-erase x z b, h z n, eq_iff x z)) in
      absurd (omega (arith, smaller, length-erase x b m))
]

-- sameStringSet is equality of the sets of members.
pub same_string_set_sound : (a b : List String) → same_string_set a b ≡ true → SameMembers a b
unfolding same_string_set
same_string_set_sound a b h x =
    let set_a = to_string_set a in
    let set_b = to_string_set b in
    let size : length set_a ≡ length set_b = ground (arith) in
    let sub : subset_of set_a set_b ≡ true = ground (arith) in
    let into = λ (z : String). subset_of_sound set_a set_b z sub in
    let back = λ (z : String). subset_of_size set_a set_b (to_string_set-IsUnique a) size into z in
    Bool-ext (contains_string a x) (contains_string b x)
      (λ m. ground (arith, contains-to_string_set a x, contains-to_string_set b x, into x))
      (λ m. ground (arith, contains-to_string_set a x, contains-to_string_set b x, back x))

pub same_string_set_complete : (a b : List String) → SameMembers a b → same_string_set a b ≡ true
unfolding same_string_set
same_string_set_complete a b h =
    let set_a = to_string_set a in
    let set_b = to_string_set b in
    let same =
      λ (x : String). contains-to_string_set a x ∙ h x ∙ sym (contains-to_string_set b x) in
    let into = λ (x : String) (m : contains_string set_a x ≡ true). sym (same x) ∙ m in
    let back = λ (x : String) (m : contains_string set_b x ≡ true). same x ∙ m in
    let le = length-le_of_subset set_a set_b (to_string_set-IsUnique a) into in
    let ge = length-le_of_subset set_b set_a (to_string_set-IsUnique b) back in
    ground (arith, subset_of_complete set_a set_b into)

-- sameStringSet answers true exactly for slices with the same members, whatever their order and
-- repetitions.
pub same_string_set_iff : (a b : List String) → (same_string_set a b ≡ true) ↔ SameMembers a b
same_string_set_iff a b = (same_string_set_sound a b, same_string_set_complete a b)

pub same_string_set_comm : (a b : List String) → same_string_set a b ≡ same_string_set b a
same_string_set_comm a b =
    Bool-ext (same_string_set a b) (same_string_set b a)
      (λ h. same_string_set_complete b a (λ x. sym (same_string_set_sound a b h x)))
      (λ h. same_string_set_complete a b (λ x. sym (same_string_set_sound b a h x)))

pub contains-append :
    (xs ys : List String) (x : String)
    → contains_string (xs ++ ys) x ≡ (contains_string xs x || contains_string ys x)
unfolding contains_string
contains-append [] ys x = refl
contains-append (y ∷ xs) ys x = ground (arith, contains-append xs ys x)

pub IsUnique-snoc :
    (xs : List String) (x : String)
    → IsUnique xs
    → contains_string xs x ≡ false
    → IsUnique (xs ++ x ∷ [])
unfolding contains_string
IsUnique-snoc [] x u h = (refl, tt)
IsUnique-snoc (y ∷ xs) x u h = (
  ground (arith, contains-append xs (x ∷ []) y, eq_iff x y, eq_iff y x),
  IsUnique-snoc xs x u.1 (ground arith),
)
