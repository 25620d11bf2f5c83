-- ===== src/Jcs/Order.antt =====
-- Canonical forms do not depend on the order in which a map is iterated.
use mathlib.Core.Path.{fun_ext}
use causalontology.Prelude.{String, ◌≡◌, refl, sym, ◌∙◌, ap, arith}
use causalontology.Json.{obj, Fields, end, field, get, at, keys, Floats}
use causalontology.Json.Laws.{SameMap, has-get, at-get, contains-keys, keys-IsUnique}
use causalontology.Jcs.{append_jcs, member_text, serialize_jcs, sort_strings}
use causalontology.Jcs.SortLaws.{contains-sort_strings, sort_strings-IsAscending, IsAscending-ext}

pub member_text-at :
    (fl : Floats) (m : Fields) (key : String) → member_text fl m key ≡ append_jcs fl (at m key)
unfolding append_jcs at get
member_text-at fl end key = refl
member_text-at fl (field k v m) key = ground (arith, member_text-at fl m key)

-- The sorted keys of equal maps.
pub sorted_keys : (m n : Fields) → SameMap m n → sort_strings (keys m) ≡ sort_strings (keys n)
sorted_keys m n h =
    IsAscending-ext (sort_strings (keys m)) (sort_strings (keys n))
      (sort_strings-IsAscending (keys m) (keys-IsUnique m))
      (sort_strings-IsAscending (keys n) (keys-IsUnique n))
      (λ k.
        contains-sort_strings (keys m) k
        ∙ contains-keys m k
        ∙ has-get m n k (h k)
        ∙ sym (contains-keys n k)
        ∙ sym (contains-sort_strings (keys n) k))

-- Two maps with equal reads have one canonical form.
pub serialize_jcs-SameMap :
    (fl : Floats) (m n : Fields) → SameMap m n → serialize_jcs fl (obj m) ≡ serialize_jcs fl (obj n)
unfolding serialize_jcs append_jcs
serialize_jcs-SameMap fl m n h =
    let texts : member_text fl m ≡ member_text fl n = fun_ext (λ k.
      member_text-at fl m k
      ∙ ap (append_jcs fl) (at-get m n k (h k))
      ∙ sym (member_text-at fl n k)) in
    rw (texts, sorted_keys m n h)
