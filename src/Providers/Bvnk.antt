-- ===== src/Providers/Bvnk.antt =====
-- `BvnkVerifier` of crates/hookbox-providers/src/bvnk.rs.
use hookbox.Prelude.{String, List, ℕ}
use hookbox.Domain.{VerificationResult}
use hookbox.Providers.Crypto.{Crypto, with_header, let_some, verdict}

pub record BvnkVerifier : Type 0 where
  pub provider : String
  pub secret : List ℕ

unfoldable pub new : String → List ℕ → BvnkVerifier
new provider secret = record { provider = provider; secret = secret }

module _ {Headers Key Signature : Type 0} (p : Crypto Headers Key Signature) where
  unfoldable pub verify : BvnkVerifier → Headers → List ℕ → VerificationResult
  unfolding with_header let_some verdict
  verify v headers body = with_header p headers "x-signature" λ header_str.
      let_some (p.base64_decode header_str) "invalid_base64_signature" λ provided_sig.
        let_some (p.hmac_sha256 v.secret body) "invalid_secret_length"
          λ expected. verdict (p.ct_eq expected provided_sig)
