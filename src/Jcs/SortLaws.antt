-- ===== src/Jcs/SortLaws.antt =====
-- Sorting gives one list for each set of keys.
use causalontology.Prelude.{
  String, List, [], ◌∷◌, true, false, ◌==◌, eq_iff, ◌≡◌, refl, ◌∙◌, arith, if◌then◌else◌, all,
  text_lt, text_lt_irrefl, text_lt_trans, text_lt_total, Bool-cases, inl, inr, Bool-ext,
}
use causalontology.Sets.{contains_string}
use causalontology.Sets.Laws.{IsUnique, SameMembers}
use causalontology.Jcs.Sort.{insert_text, sort_strings}

-- Each text below all that follow.
abbrev pub IsAscending : List String → Type 0
IsAscending [] = Unit
IsAscending (x ∷ xs) = (all (text_lt x) xs ≡ true) × IsAscending xs

pub contains-insert_text :
    (x : String) (xs : List String) (z : String)
    → contains_string (insert_text x xs) z ≡ (if x == z then true else contains_string xs z)
unfolding insert_text contains_string
contains-insert_text x [] z = refl
contains-insert_text x (y ∷ ys) z = ground (arith, contains-insert_text x ys z)

pub contains-sort_strings :
    (xs : List String) (z : String) → contains_string (sort_strings xs) z ≡ contains_string xs z
unfolding sort_strings contains_string
contains-sort_strings [] z = refl
contains-sort_strings (x ∷ xs) z =
    ground (arith, contains-insert_text x (sort_strings xs) z, contains-sort_strings xs z)

all_of_members :
    (x : String) (xs : List String)
    → ((z : String) → contains_string xs z ≡ true → text_lt x z ≡ true)
    → all (text_lt x) xs ≡ true
unfolding contains_string
all_of_members x [] h = refl
all_of_members x (y ∷ ys) h =
    ground (arith, all_of_members x ys (λ z m. h z (ground arith)), h y, eq_iff y y)

pub member_of_all :
    (x : String) (xs : List String) (z : String)
    → all (text_lt x) xs ≡ true
    → contains_string xs z ≡ true
    → text_lt x z ≡ true
unfolding contains_string
member_of_all x [] z h m = cc
member_of_all x (y ∷ ys) z h m = ground (arith, member_of_all x ys z, eq_iff y z)

insert_text-IsAscending :
    (x : String) (xs : List String)
    → contains_string xs x ≡ false
    → IsAscending xs
    → IsAscending (insert_text x xs)
unfolding insert_text contains_string
insert_text-IsAscending x [] n a = (refl, tt)
insert_text-IsAscending x (y ∷ ys) n a = elim (Bool-cases (text_lt y x)) [
  | inl below ↦
      let tail = insert_text-IsAscending x ys (ground arith) a.1 in
      let front = all_of_members y (insert_text x ys) (λ z m.
        ground (arith, contains-insert_text x ys z, eq_iff x z, member_of_all y ys z a.0)) in
      rw below (front, tail)
  | inr above ↦
      let less : text_lt x y ≡ true = ground (arith, text_lt_total x y, eq_iff y x) in
      let front =
        all_of_members x (y ∷ ys)
          (λ z m. ground (arith, eq_iff y z, member_of_all y ys z a.0, text_lt_trans x y z)) in
      rw above (front, a)
]

pub sort_strings-IsAscending : (xs : List String) → IsUnique xs → IsAscending (sort_strings xs)
unfolding sort_strings
sort_strings-IsAscending [] u = tt
sort_strings-IsAscending (x ∷ xs) u =
    insert_text-IsAscending x (sort_strings xs) (contains-sort_strings xs x ∙ u.0)
      (sort_strings-IsAscending xs u.1)

-- Ascending lists with the same members are equal.
pub IsAscending-ext :
    (xs ys : List String) → IsAscending xs → IsAscending ys → SameMembers xs ys → xs ≡ ys
unfolding contains_string
IsAscending-ext [] [] a b h = refl
IsAscending-ext [] (y ∷ ys) a b h = ground (arith, h y, eq_iff y y)
IsAscending-ext (x ∷ xs) [] a b h = ground (arith, h x, eq_iff x x)
IsAscending-ext (x ∷ xs) (y ∷ ys) a b h =
    let heads : x ≡ y = ground (
      arith,
      h x,
      h y,
      eq_iff x x,
      eq_iff y y,
      eq_iff x y,
      eq_iff y x,
      member_of_all x xs y a.0,
      member_of_all y ys x b.0,
      text_lt_trans x y x,
      text_lt_irrefl x,
    ) in
    let tails = IsAscending-ext xs ys a.1 b.1 (λ z.
      Bool-ext (contains_string xs z) (contains_string ys z)
        (λ m.
          ground (
            arith,
            h z,
            heads,
            eq_iff x z,
            eq_iff y z,
            member_of_all x xs z a.0 m,
            text_lt_irrefl x,
          ))
        (λ m. ground (
          arith,
          h z,
          heads,
          eq_iff x z,
          eq_iff y z,
          member_of_all y ys z b.0 m,
          text_lt_irrefl y,
        ))) in
    cc
