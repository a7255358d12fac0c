-- ===== src/Providers/GenericHmac.antt =====
-- `GenericHmacVerifier` of crates/hookbox-providers/src/generic_hmac.rs.
use hookbox.Prelude.{String, List, ℕ}
use hookbox.Domain.{VerificationResult}
use hookbox.Providers.Crypto.{Crypto, with_header, let_some, verdict}

pub record GenericHmacVerifier : Type 0 where
  pub provider : String
  pub secret : List ℕ
  pub header_name : String

unfoldable pub new : String → List ℕ → String → GenericHmacVerifier
new provider secret header_name = record {
  provider = provider;
  secret = secret;
  header_name = header_name;
}

module _ {Headers Key Signature : Type 0} (p : Crypto Headers Key Signature) where
  unfoldable pub verify : GenericHmacVerifier → Headers → List ℕ → VerificationResult
  unfolding with_header let_some verdict
  verify v headers body = with_header p headers v.header_name λ provided_hex.
      let_some (p.hex_decode provided_hex) "invalid_hex_signature" λ provided_sig.
        let_some (p.hmac_sha256 v.secret body) "invalid_secret_length"
          λ expected. verdict (p.ct_eq expected provided_sig)
