-- ===== src/Semantics/Rules/Texts.antt =====
-- The reasons of ValidateSemantics that name a field or a kind.
use Prim.Native.String.{String, ◌++◌}

unfoldable pub illegal_field : String → String → String
illegal_field field kind = field ++ (" is not a legal field for a " ++ (kind ++ " (rule 12)"))

unfoldable pub wrong_entry : String → String → String
wrong_entry field shape = "a " ++ (field ++ (" entry must be a " ++ (shape ++ ": identifier")))

-- `shape + ":"`
unfoldable pub scheme_prefix : String → String
scheme_prefix shape = shape ++ ":"
