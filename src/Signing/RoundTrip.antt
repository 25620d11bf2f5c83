-- ===== src/Signing/RoundTrip.antt =====
-- A record that SignRecord completes passes VerifyRecord.
use Prim.Native.String.{◌++◌}
use causalontology.Prelude.{String}
use causalontology.Json.{str, Fields, set, delete, copy_map, Floats}
use causalontology.Canonical.{prefix}
use causalontology.Signing.{Crypto, CryptoLaws, Bytes}

-- The body that SignRecord hashes and signs.
abbrev body_of : Fields → Fields
body_of m = delete (copy_map m) "signature"

-- The completed record.
abbrev pub completed : Crypto → Fields → Bytes → String → String → Fields
completed c m secret message id =
    set (set (copy_map (body_of m)) "id" (str id)) "signature"
      (str (c.hex_encode (c.sign secret message)))

module _ (fl : Floats) (c : Crypto) (laws : CryptoLaws c) where
  module _ (m : Fields) (seed : Bytes) (kind message : String) where
    abbrev secret : Bytes
    secret = c.secret_of_seed seed

    abbrev id : String
    id = prefix kind ++ (":" ++ c.digest message)

    abbrev pub address : String
    address = "ed25519:" ++ c.hex_encode (c.public_of_secret secret)

    abbrev out : Fields
    out = completed c m secret message id
