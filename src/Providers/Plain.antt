-- ===== src/Providers/Plain.antt =====
-- What the verifiers of one header accept: generic_hmac.rs, adyen.rs, bvnk.rs and triplea.rs of
-- crates/hookbox-providers/src.
use hookbox.Prelude.{String, List, ℕ, Option, some, ◌≡◌, ◌↔◌, true, Bool, refl, ◌∙◌, ap}
use hookbox.Domain.{VerificationResult}
use hookbox.Providers.Crypto.{
  Crypto, ComparesBytes, IsVerified, with_header, with_header-IsVerified, IsVerified-with_header,
  let_some, let_some-IsVerified, IsVerified-let_some, verdict, verdict-IsVerified,
}
use hookbox.Providers.GenericHmac
use hookbox.Providers.GenericHmac.{GenericHmacVerifier}
use hookbox.Providers.Adyen
use hookbox.Providers.Adyen.{AdyenVerifier}
use hookbox.Providers.Bvnk
use hookbox.Providers.Bvnk.{BvnkVerifier}
use hookbox.Providers.TripleaFiat
use hookbox.Providers.TripleaFiat.{TripleAFiatVerifier}

module _ {Headers Key Signature : Type 0} (p : Crypto Headers Key Signature) where
  -- The header of that name decodes to what is computed.
  unfoldable pub Carries : Headers → String → (List ℕ → Option (List ℕ)) → Option (List ℕ) → Type 0
  Carries headers name decode computed =
      (text : List ℕ) × (mac : List ℕ) × (p.get headers name ≡ some (some text))
      × (decode text ≡ some mac)
      × (computed ≡ some mac)

  -- The header of that name decodes to a signature which the test accepts.
  unfoldable pub CarriesRsa : Headers → String → (Signature → Bool) → Type 0
  CarriesRsa headers name accepts =
      (text : List ℕ) × (bytes : List ℕ) × (signature : Signature) × (p.get headers name
        ≡ some (some text))
      × (p.base64_decode text ≡ some bytes)
      × (p.signature_of bytes ≡ some signature)
      × (accepts signature ≡ true)

  -- The body that three of the verifiers share.
  abbrev compared :
      Headers
      → String
      → String
      → String
      → (List ℕ → Option (List ℕ))
      → Option (List ℕ)
      → VerificationResult
  compared headers name malformed refused decode computed = with_header p headers name λ text.
      let_some (decode text) malformed
        λ provided. let_some computed refused λ expected. verdict (p.ct_eq expected provided)

  compared-Carries :
      ComparesBytes p
      → (headers : Headers) (name malformed refused : String) (decode : List ℕ → Option (List ℕ))
        (computed : Option (List ℕ))
      → IsVerified (compared headers name malformed refused decode computed)
        ↔ Carries headers name decode computed
  unfolding Carries ComparesBytes
  compared-Carries law headers name malformed refused decode computed = (forward, backward)
    where
      forward :
          IsVerified (compared headers name malformed refused decode computed)
          → Carries headers name decode computed
      forward h =
          let (text, found, h₁) = with_header-IsVerified p headers name _ h in
          let (provided, d, h₂) = let_some-IsVerified (decode text) malformed _ h₁ in
          let (expected, c, h₃) = let_some-IsVerified computed refused _ h₂ in
          let same = (law expected provided).0 ((verdict-IsVerified _).0 h₃) in
          (text, provided, found, d, c ∙ ap some same)

      backward :
          Carries headers name decode computed
          → IsVerified (compared headers name malformed refused decode computed)
      backward (text, mac, found, d, c) = IsVerified-with_header p headers name _ text found (
          IsVerified-let_some (decode text) malformed _ mac d (
            IsVerified-let_some computed refused _ mac c
              ((verdict-IsVerified _).1 ((law mac mac).1 refl))))

  -- Each of the MAC verifiers accepts exactly the requests whose header, of the verifier's name,
  -- decodes to the MAC of the body under the verifier's key: in hexadecimal for the generic one, in
  -- base64 for Adyen and BVNK; provided that `ct_eq` compares bytes.
  pub macs-Carries :
      ComparesBytes p
      → (g : GenericHmacVerifier) (a : AdyenVerifier) (b : BvnkVerifier) (headers : Headers)
        (body : List ℕ)
      → (IsVerified (GenericHmac.verify p g headers body)
          ↔ Carries headers g.header_name p.hex_decode (p.hmac_sha256 g.secret body))
        × (IsVerified (Adyen.verify p a headers body)
            ↔ Carries headers "HmacSignature" p.base64_decode (p.hmac_sha256 a.key_bytes body))
        × (IsVerified (Bvnk.verify p b headers body)
            ↔ Carries headers "x-signature" p.base64_decode (p.hmac_sha256 b.secret body))
  unfolding GenericHmac.verify Adyen.verify Bvnk.verify
  macs-Carries law g a b headers body = (
    compared-Carries law headers g.header_name "invalid_hex_signature" "invalid_secret_length"
        p.hex_decode (p.hmac_sha256 g.secret body),
    compared-Carries law headers "HmacSignature" "invalid_base64_signature" "invalid_key_length"
        p.base64_decode (p.hmac_sha256 a.key_bytes body),
    compared-Carries law headers "x-signature" "invalid_base64_signature" "invalid_secret_length"
        p.base64_decode (p.hmac_sha256 b.secret body),
  )

  -- The Triple-A fiat verifier accepts exactly the requests whose header decodes from base64 to a
  -- signature that the key accepts for the body.
  pub fiat-CarriesRsa :
      (v : TripleAFiatVerifier Key) (headers : Headers) (body : List ℕ)
      → IsVerified (TripleaFiat.verify p v headers body)
        ↔ CarriesRsa headers "TripleA-Signature" (p.rsa_verify v.verifying_key body)
  unfolding TripleaFiat.verify CarriesRsa
  fiat-CarriesRsa v headers body = (forward, backward)
    where
      forward :
          IsVerified (TripleaFiat.verify p v headers body)
          → CarriesRsa headers "TripleA-Signature" (p.rsa_verify v.verifying_key body)
      forward h =
          let (text, found, h₁) = with_header-IsVerified p headers "TripleA-Signature" _ h in
          let (bytes, d, h₂) =
            let_some-IsVerified (p.base64_decode text) "invalid_base64_signature" _ h₁ in
          let (signature, s, h₃) =
            let_some-IsVerified (p.signature_of bytes) "invalid_rsa_signature_format" _ h₂ in
          (text, bytes, signature, found, d, s, (verdict-IsVerified _).0 h₃)

      backward :
          CarriesRsa headers "TripleA-Signature" (p.rsa_verify v.verifying_key body)
          → IsVerified (TripleaFiat.verify p v headers body)
      backward (text, bytes, signature, found, d, s, ok) =
          IsVerified-with_header p headers "TripleA-Signature" _ text found (
            IsVerified-let_some (p.base64_decode text) "invalid_base64_signature" _ bytes d (
              IsVerified-let_some (p.signature_of bytes) "invalid_rsa_signature_format" _ signature
                s ((verdict-IsVerified _).1 ok)))
