-- ===== src/Prelude/Prefixes.antt =====
-- strings.HasPrefix and strings.TrimPrefix.
use Prim.Native.Char.{code}
use Prim.Native.String.append
use Prim.Native.String.{String, [], ◌∷◌, ◌++◌}
use mathlib.Core.Path.{◌≡◌}
use mathlib.Core.Bool.{Bool, true, false}
use mathlib.Core.Option.{Option, none, some}
use native.Mathlib.Omega.{arith}
use causalontology.Prelude.Tests.{eqb, if◌then◌else◌}

-- What follows the prefix, `none` where the text does not begin with it.
unfoldable pub strip_prefix : String → String → Option String
strip_prefix [] s = some s
strip_prefix (c ∷ p) [] = none
strip_prefix (c ∷ p) (d ∷ s) =
    let rest = strip_prefix p s in if eqb (code c) (code d) then rest else none

-- HasPrefix(s, p)
unfoldable pub has_prefix : String → String → Bool
unfolding strip_prefix
has_prefix s p = elim (strip_prefix p s) [ none ↦ false | some rest ↦ true ]

pub strip_prefix-append : (p s : String) → strip_prefix p (p ++ s) ≡ some s
unfolding strip_prefix
strip_prefix-append [] s = rw append.nil
strip_prefix-append (c ∷ p) s = rw append.cons (ground (arith, strip_prefix-append p s))
