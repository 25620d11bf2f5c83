-- ===== src/Tests/Doubles.antt =====
-- Stand-ins for what the code does not implement: floats that are whole numbers, keys and
-- signatures that are constant, and a hex whose digits are strokes.
use Prim.Native.Char.{code}
use causalontology.Prelude.{
  ℕ, zero, suc, ◌+◌, ◌*◌, pos, pos_part, String, [], ◌∷◌, true, false, Option, none, some, ◌≡◌,
  refl, arith, ltb, leb, eqb, if◌then◌else◌, length, ok,
}
use causalontology.Json.{Floats}
use causalontology.Jcs.{digits_value}
use causalontology.Signing.{Bytes, IsBytes, Crypto, CryptoLaws}
use causalontology.Store.State.{Env}

abbrev pub floats : Floats
floats = record {
  parse = digits_value 0;
  unparsed = λ s. 0;
  of_int = pos_part;
  to_int = pos;
  lt = ltb;
  le = leb;
  eq = eqb;
  mul = λ a b. a * b;
  nan_or_inf = λ f. false;
  trunc = λ f. f;
  abs = λ f. f;
  negate = λ f. 0;
  exact = pos;
  shortest = λ f. "0e+00";
}

unfoldable pub strokes : ℕ → String → String
strokes zero s = String.◌∷◌ "0" s
strokes (suc n) s = String.◌∷◌ "1" (strokes n s)

unfoldable pub encode : Bytes → String
encode [] = ""
encode (n ∷ b) = strokes n (encode b)

unfoldable pub push : ℕ → Option Bytes → Option Bytes
push n none = none
push n (some b) = some (n ∷ b)

unfoldable pub decode : ℕ → String → Option Bytes
decode n String.[] = some []
decode n (String.◌∷◌ c s) =
    let more = decode (suc n) s in
    let next = push n (decode 0 s) in if eqb (code c) 49 then more else next

decode-strokes :
    (n m : ℕ) (b : Bytes) (s : String)
    → decode 0 s ≡ some b
    → decode m (strokes n s) ≡ some ((n + m) ∷ b)
unfolding decode strokes push
decode-strokes zero m b s h = ground arith
decode-strokes (suc n) m b s h = ground (arith, decode-strokes n (suc m) b s h)

decode-encode : (b : Bytes) → decode 0 (encode b) ≡ some b
unfolding encode
decode-encode [] = unfold decode in refl
decode-encode (n ∷ b) = ground (arith, decode-strokes n 0 b (encode b) (decode-encode b))

unfoldable pub copies : ℕ → Bytes
copies zero = []
copies (suc n) = 1 ∷ copies n

pub length-copies : (n : ℕ) → length (copies n) ≡ n
unfolding copies
length-copies zero = refl
length-copies (suc n) = omega (arith, length-copies n)

copies-IsBytes : (n : ℕ) → IsBytes (copies n)
unfolding copies
copies-IsBytes zero = tt
copies-IsBytes (suc n) = (omega arith, copies-IsBytes n)

abbrev pub crypto : Crypto
crypto = record {
  secret_of_seed = λ seed. copies 64;
  public_of_secret = λ secret. copies 32;
  sign = λ secret message. copies 64;
  verify = λ public message signature. eqb (length signature) 64;
  hex_encode = encode;
  hex_decode = decode 0;
  digest = λ bytes. "00";
}

pub crypto_laws : CryptoLaws crypto
crypto_laws = record {
  secret_size = λ seed size. length-copies 64;
  verify_sign = λ seed message size. ground (arith, length-copies 64);
  public_size = λ seed size. length-copies 32;
  signature_size = λ seed message size. length-copies 64;
  public_bytes = λ seed size. copies-IsBytes 32;
  signature_bytes = λ seed message size. copies-IsBytes 64;
  hex_round_trip = λ b _. decode-encode b;
  hex_empty = unfold decode in refl;
}

abbrev pub env : Env
env = record { floats = floats; crypto = crypto; validate_schema = λ obj kind. ok (true, []) }
