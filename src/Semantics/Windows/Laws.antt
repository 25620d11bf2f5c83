-- ===== src/Semantics/Windows/Laws.antt =====
-- Windows of different dimensions never meet; overlap is symmetric.
use causalontology.Prelude.{Option, none, some, eq_iff, ◌≡◌, refl, arith}
use causalontology.Json.{Fields, Float, Floats, at, as_object, text_at}
use causalontology.Semantics.Windows.{
  dimension_of, bounds_of, bounds_overlap, windows_overlap, window_overlap,
}

module _ (fl : Floats) where
  bounds_overlap_comm :
      (a b : Option (Float × Float)) → bounds_overlap fl a b ≡ bounds_overlap fl b a
  unfolding bounds_overlap
  bounds_overlap_comm none none = refl
  bounds_overlap_comm none (some b) = refl
  bounds_overlap_comm (some a) none = refl
  bounds_overlap_comm (some (lo_a, hi_a)) (some (lo_b, hi_b)) = ground arith

  windows_overlap_comm : (a b : Option Fields) → windows_overlap fl a b ≡ windows_overlap fl b a
  unfolding windows_overlap
  windows_overlap_comm none none = refl
  windows_overlap_comm none (some b) = refl
  windows_overlap_comm (some a) none = refl
  windows_overlap_comm (some a) (some b) = ground (
    arith,
    bounds_overlap_comm (bounds_of fl a) (bounds_of fl b),
    eq_iff (dimension_of (text_at a "unit")) (dimension_of (text_at b "unit")),
    eq_iff (dimension_of (text_at b "unit")) (dimension_of (text_at a "unit")),
  )

  pub window_overlap_comm : (a b : Fields) → window_overlap fl a b ≡ window_overlap fl b a
  unfolding window_overlap
  window_overlap_comm a b =
      windows_overlap_comm (as_object (at a "temporal")) (as_object (at b "temporal"))
