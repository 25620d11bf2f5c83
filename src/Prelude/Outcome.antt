-- ===== src/Prelude/Outcome.antt =====
-- A Go function that returns `(value, error)`: the value, or the error.
use mathlib.Core.Path.{◌≡◌, refl}
use Prim.Native.String.{String}
use mathlib.Core.Logic.{◌⊎◌, inl, inr}

-- One constructor for each error that the modelled code makes.
pub data Error : Type 0 where
  cannot_infer_kind : Error
  unknown_kind : String → Error
  not_a_content_object : Error
  not_a_provenance_record : Error
  id_not_a_string : Error
  temporal_not_an_object : Error
  delays_not_numbers : Error
  bad_number : Error
  not_finite : Error
  structural : String → Error
  -- `RejectedWrite`, with its reason
  rejected : String → Error

pub data Result {ℓ} (A : Type ℓ) : Type ℓ where
  err : Error → Result A
  ok : A → Result A

-- `if err != nil { return err }` between two calls.
infixl 5 ◌>>=◌
abbrev pub ◌>>=◌ {ℓ₁ ℓ₂} : {V : Type ℓ₁} {W : Type ℓ₂} → Result V → (V → Result W) → Result W
err reason >>= next = err reason
ok value >>= next = next value

-- Both calls of a chain that returned a value did so.
pub bind-ok {ℓ₁ ℓ₂} :
    {V : Type ℓ₁} {W : Type ℓ₂} (first : Result V) (next : V → Result W) {w : W}
    → (first >>= next) ≡ ok w
    → (v : V) × (first ≡ ok v) × (next v ≡ ok w)
bind-ok (err reason) next h = cc
bind-ok (ok value) next h = (value, refl, h)

pub Result-cases {ℓ} :
    {A : Type ℓ} (r : Result A) → ((e : Error) × (r ≡ err e)) ⊎ ((a : A) × (r ≡ ok a))
Result-cases (ok a) = inr (a, refl)
Result-cases (err e) = inl (e, refl)
