-- ===== src/Signing/Agrees.antt =====
-- What VerifyRecord depends on.
use causalontology.Prelude.{String, false, Option, none, some, ◌==◌, ◌≡◌, refl, sym, ◌∙◌, arith}
use causalontology.Json.{Fields, delete, copy_map, text_at, Floats}
use causalontology.Json.Laws.{get-copy_map}
use causalontology.Canonical.{resolve_kind}
use causalontology.Canonical.Identity.{AgreeOn, canonicalize-agree, delete_signature-agree}
use causalontology.Signing.{
  Bytes, Crypto, signer_field, signer_key_hex, verify_decoded, verify_as, verify_record,
}

verify_record-known :
    (fl : Floats) (c : Crypto) (m : Fields) (kind : String)
    → (kind == "") ≡ false
    → verify_record fl c m kind ≡ verify_as fl c m kind
unfolding verify_record resolve_kind
verify_record-known fl c m kind nonempty = ground arith

module _ (m n : Fields) (kind : String) where
  body-agree :
      AgreeOn kind m n
      → AgreeOn kind (delete (copy_map m) "signature") (delete (copy_map n) "signature")
  body-agree h fs k e i =
      delete_signature-agree (copy_map m) kind fs k e i
      ∙ get-copy_map m k
      ∙ h fs k e i
      ∙ sym (get-copy_map n k)
      ∙ sym (delete_signature-agree (copy_map n) kind fs k e i)

  signer_key_hex-text :
      text_at m (signer_field kind) ≡ text_at n (signer_field kind)
      → signer_key_hex m kind ≡ signer_key_hex n kind
  unfolding signer_key_hex
  signer_key_hex-text h = rw (h, signer_key_hex) refl

  module _ (fl : Floats) (c : Crypto) where
    verify_decoded-agree :
        (kind == "") ≡ false
        → AgreeOn kind m n
        → (public signature : Option Bytes)
        → verify_decoded fl c m kind public signature ≡ verify_decoded fl c n kind public signature
    unfolding verify_decoded
    verify_decoded-agree nonempty h none signature = refl
    verify_decoded-agree nonempty h (some public) none = refl
    verify_decoded-agree nonempty h (some public) (some signature) =
        rw
          (canonicalize-agree fl (delete (copy_map m) "signature") (delete (copy_map n) "signature")
            kind nonempty (body-agree h))
          refl

    verify_as-agree :
        (kind == "") ≡ false
        → AgreeOn kind m n
        → text_at m "signature" ≡ text_at n "signature"
        → text_at m (signer_field kind) ≡ text_at n (signer_field kind)
        → verify_as fl c m kind ≡ verify_as fl c n kind
    unfolding verify_as
    verify_as-agree nonempty h same signer = ground (
      arith,
      same,
      signer_key_hex-text signer,
      verify_decoded-agree nonempty h (c.hex_decode (signer_key_hex n kind))
          (c.hex_decode (text_at n "signature")),
    )

    -- For a kind that is given, two records with the same identity-bearing fields, the same signature
    -- and the same signer are both accepted by VerifyRecord, or both refused: no other field, the
    -- identifier included, has a part in it.
    pub verify_record-agree :
        (kind == "") ≡ false
        → AgreeOn kind m n
        → text_at m "signature" ≡ text_at n "signature"
        → text_at m (signer_field kind) ≡ text_at n (signer_field kind)
        → verify_record fl c m kind ≡ verify_record fl c n kind
    verify_record-agree nonempty h same signer =
        verify_record-known fl c m kind nonempty
        ∙ verify_as-agree nonempty h same signer
        ∙ sym (verify_record-known fl c n kind nonempty)
