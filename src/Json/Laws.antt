-- ===== src/Json/Laws.antt =====
-- Maps: reads after writes, deletions and copies.
use causalontology.Prelude.{String, none, some, ◌==◌, eq_iff, ◌≡◌, refl, arith, if◌then◌else◌}
use causalontology.Sets.{contains_string}
use causalontology.Sets.Laws.{IsUnique, contains-set_add, set_add-IsUnique}
use causalontology.Json.{Value, Fields, end, field, get, has, at, set, delete, keys, copy_map}

-- The same map: equal reads at every key.
abbrev pub SameMap : Fields → Fields → Type 0
SameMap m n = (key : String) → get m key ≡ get n key

pub get-set :
    (m : Fields) (k : String) (v : Value) (j : String)
    → get (set m k v) j ≡ (if k == j then some v else get m j)
unfolding get set
get-set end k v j = refl
get-set (field i w m) k v j = ground (arith, get-set m k v j, eq_iff i k, eq_iff i j, eq_iff k j)

pub get-delete :
    (m : Fields) (k j : String) → get (delete m k) j ≡ (if k == j then none else get m j)
unfolding get delete
get-delete end k j = ground arith
get-delete (field i w m) k j = ground (arith, get-delete m k j, eq_iff i k, eq_iff i j, eq_iff k j)

-- CopyMap makes the same map.
pub get-copy_map : (m : Fields) → SameMap (copy_map m) m
unfolding get copy_map
get-copy_map end j = refl
get-copy_map (field k v m) j = ground (arith, get-set (copy_map m) k v j, get-copy_map m j)

pub has-get : (m n : Fields) (k : String) → get m k ≡ get n k → has m k ≡ has n k
unfolding has
has-get m n k h = ground arith

pub at-get : (m n : Fields) (k : String) → get m k ≡ get n k → at m k ≡ at n k
unfolding at
at-get m n k h = ground arith

pub contains-keys : (m : Fields) (j : String) → contains_string (keys m) j ≡ has m j
unfolding keys has get contains_string
contains-keys end j = refl
contains-keys (field k v m) j = ground (arith, contains-set_add (keys m) k j, contains-keys m j)

pub keys-IsUnique : (m : Fields) → IsUnique (keys m)
unfolding keys
keys-IsUnique end = tt
keys-IsUnique (field k v m) = set_add-IsUnique (keys m) k (keys-IsUnique m)
