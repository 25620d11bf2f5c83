-- ===== src/Signing.antt =====
-- Record-level signing: bindings/go/v4/causalontology/signing.go. crypto/ed25519 and encoding/hex
-- are a parameter, with what their documentation promises as a record of laws.
pub mod RoundTrip
pub mod Agrees
use Prim.Native.String.{◌++◌}
use causalontology.Prelude.{
  ℕ, ◌<◌, String, List, [], ◌∷◌, Bool, true, false, Option, none, some, ◌==◌, ◌≡◌, if◌then◌else◌,
  eqb, length, Result, ok, err, ◌>>=◌, strip_prefix,
}
use causalontology.Json.{Value, str, Fields, set, delete, text_at, copy_map, Floats}
use causalontology.Canonical.{resolve_kind, canonicalize, identify}

abbrev pub Bytes : Type 0
Bytes = List ℕ

pub record Crypto : Type 0 where
  -- ed25519.NewKeyFromSeed, and its Public
  pub secret_of_seed : Bytes → Bytes
  pub public_of_secret : Bytes → Bytes
  pub sign : Bytes → String → Bytes
  pub verify : Bytes → String → Bytes → Bool
  pub hex_encode : Bytes → String
  pub hex_decode : String → Option Bytes
  -- lowercase hex of SHA-256
  pub digest : String → String

-- Numbers that are bytes.
abbrev pub IsBytes : Bytes → Type 0
IsBytes [] = Unit
IsBytes (n ∷ b) = (n < 256) × IsBytes b

-- RFC 8032 and the sizes of crypto/ed25519, for seeds of 32 bytes; and hex.
pub record CryptoLaws (c : Crypto) : Type 0 where
  pub verify_sign :
      (seed : Bytes) (message : String)
      → length seed ≡ 32
      → c.verify
          (c.public_of_secret (c.secret_of_seed seed))
          message
          (c.sign (c.secret_of_seed seed) message)
        ≡ true
  pub secret_size : (seed : Bytes) → length seed ≡ 32 → length (c.secret_of_seed seed) ≡ 64
  pub public_size :
      (seed : Bytes) → length seed ≡ 32 → length (c.public_of_secret (c.secret_of_seed seed)) ≡ 32
  pub signature_size :
      (seed : Bytes) (message : String)
      → length seed ≡ 32
      → length (c.sign (c.secret_of_seed seed) message) ≡ 64
  pub public_bytes :
      (seed : Bytes) → length seed ≡ 32 → IsBytes (c.public_of_secret (c.secret_of_seed seed))
  pub signature_bytes :
      (seed : Bytes) (message : String)
      → length seed ≡ 32
      → IsBytes (c.sign (c.secret_of_seed seed) message)
  pub hex_round_trip : (b : Bytes) → IsBytes b → c.hex_decode (c.hex_encode b) ≡ some b
  pub hex_empty : c.hex_decode "" ≡ some []

-- KeypairFromSeed; `none` is the panic of NewKeyFromSeed on a seed that is not of 32 bytes
unfoldable pub keypair_from_seed : Crypto → Bytes → Option (Bytes × String)
keypair_from_seed c seed =
    let secret = c.secret_of_seed seed in
    if eqb (length seed) 32
    then some (secret, "ed25519:" ++ c.hex_encode (c.public_of_secret secret))
    else none

-- what SignRecord signs: the body without the signature, its canonical form, and the identifier
unfoldable pub signed_body : Floats → Crypto → Fields → String → Result (Fields × String × String)
unfolding resolve_kind copy_map delete canonicalize identify
signed_body fl c m kind = resolve_kind m kind >>= λ k.
    (let body = delete (copy_map m) "signature" in
      canonicalize fl body k >>= λ message.
      identify fl c.digest body k >>= λ id. ok (body, message, id))

-- SignRecord; `none` is the panic of ed25519.Sign on a secret that is not of 64 bytes
unfoldable pub sign_record : Floats → Crypto → Fields → Bytes → String → Option (Result Fields)
unfolding signed_body copy_map set
sign_record fl c m secret kind = elim (signed_body fl c m kind) [
  | err e ↦ some (err e)
  | ok (body, message, id) ↦
      if eqb (length secret) 64
      then some (
          ok (
            set (set (copy_map body) "id" (str id)) "signature"
              (str (c.hex_encode (c.sign secret message)))))
      else none
]

-- the field that holds the signer's key
unfoldable pub signer_field : String → String
signer_field kind = if kind == "succession" then "predecessor" else "source"

-- signerKeyHex
unfoldable pub signer_key_hex : Fields → String → String
unfolding signer_field text_at strip_prefix
signer_key_hex m kind = elim (strip_prefix "ed25519:" (text_at m (signer_field kind))) [
  | none ↦ ""
  | some key ↦ key
]

-- the checks of VerifyRecord on the decoded key and signature
unfoldable pub verify_decoded :
    Floats → Crypto → Fields → String → Option Bytes → Option Bytes → Bool
verify_decoded fl c m kind none signature = false
verify_decoded fl c m kind (some public) none = false
verify_decoded fl c m kind (some public) (some signature) =
    if eqb (length public) 32
    then (if eqb (length signature) 64
        then (elim (canonicalize fl (delete (copy_map m) "signature") kind) [
          | err e ↦ false
          | ok message ↦ c.verify public message signature
        ])
        else false)
    else false

-- VerifyRecord, the kind known
unfoldable pub verify_as : Floats → Crypto → Fields → String → Bool
verify_as fl c m kind =
    let signature_hex = text_at m "signature" in
    let key_hex = signer_key_hex m kind in
    if signature_hex == ""
    then false
    else if key_hex == ""
    then false
    else verify_decoded fl c m kind (c.hex_decode key_hex) (c.hex_decode signature_hex)

-- VerifyRecord
unfoldable pub verify_record : Floats → Crypto → Fields → String → Bool
verify_record fl c m kind = elim (resolve_kind m kind) [ err e ↦ false | ok k ↦ verify_as fl c m k ]
