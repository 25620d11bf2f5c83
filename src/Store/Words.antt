-- ===== src/Store/Words.antt =====
-- The texts that the views compare: canonLabel, normAlias, and the key of an entry.
use Prim.Native.String.{◌++◌}
use causalontology.Prelude.{String, List, [], ◌∷◌, ok, err}
use causalontology.Json.{Value, Floats}
use causalontology.Jcs.{serialize_jcs}

-- What the views use of strings and of fmt: ToLower, Fields, and Sprintf("%v", v).
pub record Words : Type 0 where
  pub to_lower : String → String
  pub fields : String → List String
  pub print : Value → String

-- `entryKey`
unfoldable pub entry_key : Floats → Words → Value → String
entry_key fl w entry = elim (serialize_jcs fl entry) [ err e ↦ "!" ++ w.print entry | ok key ↦ key ]

-- strings.Join
unfoldable pub join : String → List String → String
join sep [] = ""
join sep (x ∷ []) = x
join sep (x ∷ y ∷ xs) = x ++ sep ++ join sep (y ∷ xs)

-- canonLabel
unfoldable pub canon_label : Words → String → String
canon_label w text = join "_" (w.fields (w.to_lower text))

-- normAlias
unfoldable pub norm_alias : Words → String → String
norm_alias w text = w.to_lower (join " " (w.fields text))
