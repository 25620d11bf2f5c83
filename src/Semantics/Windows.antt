-- ===== src/Semantics/Windows.antt =====
-- Temporal windows: rules 4 and 20, dimensions and magnitudes.
pub mod Laws
use causalontology.Prelude.{
  ℕ, pos, String, List, [], ◌∷◌, Bool, true, false, Option, none, some, ◌==◌, if◌then◌else◌, ◌&&◌,
  Result, ok, err, temporal_not_an_object, delays_not_numbers,
}
use causalontology.Json.{
  Value, null, Fields, end, field, Float, Floats, get, at, as_object, as_float, float_value,
  text_at,
}

-- UnitSeconds, 0 for a unit that is not in the table
unfoldable pub unit_seconds : String → ℕ
unit_seconds unit =
    if unit == "seconds"
    then 1
    else if unit == "minutes"
    then 60
    else if unit == "hours"
    then 3600
    else if unit == "days"
    then 86400
    else if unit == "weeks"
    then 604800
    else if unit == "months"
    then 2629746
    else if unit == "years"
    then 31556952
    else 0

-- OrdinalUnits[unit]
unfoldable pub is_ordinal : String → Bool
is_ordinal unit = unit == "ticks"

-- dimensionOf
unfoldable pub dimension_of : String → String
unfolding is_ordinal
dimension_of unit = if is_ordinal unit then "ordinal" else "wallclock"

module _ (fl : Floats) where
  -- magnitudeOf
  unfoldable pub magnitude_of : Float → String → Float
  unfolding is_ordinal unit_seconds
  magnitude_of value unit =
      if is_ordinal unit
      then value
      else if unit == "instant"
      then fl.of_int (pos 0)
      else fl.mul value (fl.of_int (pos (unit_seconds unit)))

  -- ToSeconds; `none` is its panic on an ordinal unit
  unfoldable pub to_seconds : Float → String → Option Float
  unfolding is_ordinal unit_seconds
  to_seconds duration unit =
      if is_ordinal unit
      then none
      else if unit == "instant"
      then some (fl.of_int (pos 0))
      else some (fl.mul duration (fl.of_int (pos (unit_seconds unit))))

  -- Admissible with the window's object at hand
  unfoldable pub admissible_in : Fields → Float → Result Bool
  unfolding magnitude_of at text_at as_float
  admissible_in temporal elapsed = elim (as_float fl (at temporal "minimum_delay")) [
    | none ↦ err delays_not_numbers
    | some minimum ↦ elim (as_float fl (at temporal "maximum_delay")) [
      | none ↦ err delays_not_numbers
      | some maximum ↦
          let unit = text_at temporal "unit" in
          ok
            (fl.le (magnitude_of minimum unit) elapsed && fl.le elapsed (magnitude_of maximum unit))
    ]
  ]

  unfoldable pub admissible_value : Value → Float → Result Bool
  unfolding admissible_in as_object
  admissible_value null elapsed = ok true
  admissible_value temporal elapsed = elim (as_object temporal) [
    | none ↦ err temporal_not_an_object
    | some m ↦ admissible_in m elapsed
  ]

  -- Admissible: a missing key reads nil
  unfoldable pub admissible : Fields → Float → Result Bool
  unfolding admissible_value at
  admissible cro elapsed = admissible_value (at cro "temporal") elapsed

  -- the bounds of a window, if both are numbers
  unfoldable pub bounds_of : Fields → Option (Float × Float)
  unfolding at as_float magnitude_of text_at
  bounds_of temporal = elim (as_float fl (at temporal "minimum_delay")) [
    | none ↦ none
    | some minimum ↦ elim (as_float fl (at temporal "maximum_delay")) [
      | none ↦ none
      | some maximum ↦
          let unit = text_at temporal "unit" in
          some (magnitude_of minimum unit, magnitude_of maximum unit)
    ]
  ]

  unfoldable pub bounds_overlap : Option (Float × Float) → Option (Float × Float) → Bool
  bounds_overlap none b = true
  bounds_overlap (some a) none = true
  bounds_overlap (some (lo_a, hi_a)) (some (lo_b, hi_b)) = fl.le lo_a hi_b && fl.le lo_b hi_a

  -- windowOverlap on the temporal objects
  unfoldable pub windows_overlap : Option Fields → Option Fields → Bool
  unfolding bounds_overlap bounds_of dimension_of text_at
  windows_overlap none b = true
  windows_overlap (some a) none = true
  windows_overlap (some a) (some b) =
      if dimension_of (text_at a "unit") == dimension_of (text_at b "unit")
      then bounds_overlap (bounds_of a) (bounds_of b)
      else false

  -- windowOverlap
  unfoldable pub window_overlap : Fields → Fields → Bool
  unfolding windows_overlap at as_object
  window_overlap a b = windows_overlap (as_object (at a "temporal")) (as_object (at b "temporal"))

  -- `value, _ := AsFloat(m[key])`
  unfoldable pub float_at : Fields → String → Float
  unfolding at float_value
  float_at m key = float_value fl (at m key)

  -- the comparison of DelayWithinWindow
  unfoldable pub delay_within : Fields → Fields → Bool
  unfolding magnitude_of float_at text_at dimension_of
  delay_within delay window =
      let delay_unit = text_at delay "unit" in
      let window_unit = text_at window "unit" in
      let observed = magnitude_of (float_at delay "duration") delay_unit in
      if dimension_of delay_unit == dimension_of window_unit
      then fl.le (magnitude_of (float_at window "minimum_delay") window_unit) observed
        && fl.le observed (magnitude_of (float_at window "maximum_delay") window_unit)
      else false

  -- DelayWithinWindow: an empty map has length 0
  unfoldable pub delay_within_window : Fields → Fields → Bool
  unfolding delay_within
  delay_within_window end window = true
  delay_within_window (field k v m) end = true
  delay_within_window (field k v m) (field j w n) = delay_within (field k v m) (field j w n)
