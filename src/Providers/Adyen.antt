-- ===== src/Providers/Adyen.antt =====
-- `AdyenVerifier` of crates/hookbox-providers/src/adyen.rs.
use hookbox.Prelude.{String, List, ℕ, Option, none, some}
use hookbox.Domain.{VerificationResult}
use hookbox.Providers.Crypto.{Crypto, with_header, let_some, verdict}
use hookbox.Providers.Text.{as_bytes}
use hookbox.Prelude.{str_eq, if◌then◌else◌}

pub record AdyenVerifier : Type 0 where
  pub provider : String
  pub key_bytes : List ℕ

module _ {Headers Key Signature : Type 0} (p : Crypto Headers Key Signature) where
  unfoldable pub new : String → String → Option AdyenVerifier
  unfolding as_bytes
  new provider hex_key =
      if str_eq hex_key "" then none else elim (p.hex_decode (as_bytes hex_key)) [
        | none ↦ none
        | some key_bytes ↦ some (record { provider = provider; key_bytes = key_bytes })
      ]

  unfoldable pub verify : AdyenVerifier → Headers → List ℕ → VerificationResult
  unfolding with_header let_some verdict
  verify v headers body = with_header p headers "HmacSignature" λ header_str.
      let_some (p.base64_decode header_str) "invalid_base64_signature" λ provided_sig.
        let_some (p.hmac_sha256 v.key_bytes body) "invalid_key_length"
          λ expected. verdict (p.ct_eq expected provided_sig)
