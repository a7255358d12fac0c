-- ===== src/Providers/TripleaFiat.antt =====
-- `TripleAFiatVerifier` of crates/hookbox-providers/src/triplea.rs.
use hookbox.Prelude.{String, List, ℕ, Option, none, some}
use hookbox.Domain.{VerificationResult}
use hookbox.Providers.Crypto.{Crypto, with_header, let_some, verdict}

pub record TripleAFiatVerifier (Key : Type 0) : Type 0 where
  pub provider : String
  pub verifying_key : Key

module _ {Headers Key Signature : Type 0} (p : Crypto Headers Key Signature) where
  unfoldable pub new : String → String → Option (TripleAFiatVerifier Key)
  new provider pem_public_key = elim (p.from_public_key_pem pem_public_key) [
    | none ↦ none
    | some key ↦ some (record { provider = provider; verifying_key = key })
  ]

  unfoldable pub verify : TripleAFiatVerifier Key → Headers → List ℕ → VerificationResult
  unfolding with_header let_some verdict
  verify v headers body = with_header p headers "TripleA-Signature" λ header_str.
      let_some (p.base64_decode header_str) "invalid_base64_signature" λ sig_bytes.
        let_some (p.signature_of sig_bytes) "invalid_rsa_signature_format"
          λ signature. verdict (p.rsa_verify v.verifying_key body signature)
