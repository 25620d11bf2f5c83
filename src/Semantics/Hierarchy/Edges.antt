-- ===== src/Semantics/Hierarchy/Edges.antt =====
-- The graph that HierarchyConsistent draws from the members of a mechanism.
use causalontology.Prelude.{
  String, List, [], ◌∷◌, Bool, some, ◌==◌, eq_iff, ◌≡◌, refl, arith, Map, find, insert,
  if◌then◌else◌, ◌||◌, ◌&&◌, any, inl, inr, Option-cases,
}
use causalontology.Sets.{contains_string, StringSet, add_all}
use causalontology.Sets.Laws.{contains-add_all}
use causalontology.Json.{Fields, at, string_list, object_of}
use causalontology.Semantics.Paths.{Graph, successors}
use causalontology.Semantics.Hierarchy.{add_edges, member_edges}

successors-insert :
    (g : Graph) (k : String) (out : StringSet) (u : String)
    → successors (insert g k out) u ≡ (if k == u then out else successors g u)
unfolding successors insert
successors-insert [] k out u = refl
successors-insert ((n, old) ∷ g) k out u =
    ground (arith, successors-insert g k out u, eq_iff n k, eq_iff k u, eq_iff n u)

successors-add_edges :
    (g : Graph) (causes effects : List String) (u v : String)
    → contains_string (successors (add_edges g causes effects) u) v ≡ (
        contains_string (successors g u) v || contains_string causes u && contains_string effects v)
unfolding add_edges contains_string
successors-add_edges g [] effects u v = ground arith
successors-add_edges g (cause ∷ causes) effects u v = ground (
  arith,
  successors-add_edges (insert g cause (add_all (successors g cause) effects)) causes effects u v,
  successors-insert g cause (add_all (successors g cause) effects) u,
  contains-add_all (successors g cause) effects v,
  eq_iff cause u,
)

-- The member has the one among its causes and the other among its effects.
abbrev pub draws : Fields → String → String → Bool
draws member u v =
    contains_string (string_list (at member "causes")) u
    && contains_string (string_list (at member "effects")) v

successors-more :
    (members : Map Fields) (mechanism : List String) (g₀ g : Graph) (u v : String)
    → member_edges members g₀ mechanism ≡ some g
    → contains_string (successors g u) v ≡ (
        contains_string (successors g₀ u) v
        || any (λ id. draws (object_of members id) u v) mechanism)
unfolding member_edges object_of
successors-more members [] g₀ g u v h = ground arith
successors-more members (id ∷ mechanism) g₀ g u v h = elim (Option-cases (find members id)) [
  | inl e ↦ absurd (ground (arith, e))
  | inr (member, e) ↦ ground (
    arith,
    successors-more members mechanism
        (add_edges g₀ (string_list (at member "causes")) (string_list (at member "effects"))) g u v,
    successors-add_edges g₀ (string_list (at member "causes")) (string_list (at member "effects")) u
        v,
    e,
  )
]

-- The graph has an edge exactly where some member of the mechanism has its start among the causes
-- and its end among the effects.
pub successors-member_edges :
    (members : Map Fields) (mechanism : List String) (g : Graph) (u v : String)
    → member_edges members [] mechanism ≡ some g
    → contains_string (successors g u) v ≡ any (λ id. draws (object_of members id) u v) mechanism
unfolding successors contains_string
successors-member_edges members mechanism g u v h =
    ground (arith, successors-more members mechanism [] g u v h)
