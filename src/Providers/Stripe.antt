-- ===== src/Providers/Stripe.antt =====
-- `StripeVerifier` of crates/hookbox-providers/src/stripe.rs. The clock's reading is an argument.
use hookbox.Prelude.{Option, String, List, ℕ, ℤ, ◌∷◌, ◌++◌, not, ltb}
use hookbox.Domain.{VerificationResult}
use hookbox.Providers.Crypto.{Crypto, with_header, let_some, refuse_if, unix_now, abs_diff, verdict}
use hookbox.Providers.Text.{parse_u64, as_bytes, is_utf8}
use hookbox.Providers.Fields.{signature_fields, any_matches, is_empty}

-- The tolerance is in seconds.
pub record StripeVerifier : Type 0 where
  pub provider : String
  pub secret : String
  pub tolerance : ℕ

abbrev default_tolerance_secs : ℕ
default_tolerance_secs = 300

unfoldable pub new : String → String → StripeVerifier
new provider secret = record {
  provider = provider;
  secret = secret;
  tolerance = default_tolerance_secs;
}

unfoldable pub with_tolerance : StripeVerifier → ℕ → StripeVerifier
with_tolerance v tolerance = record {
  provider = v.provider;
  secret = v.secret;
  tolerance = tolerance;
}

module _ {Headers Key Signature : Type 0} (p : Crypto Headers Key Signature) where
  -- The steps 6 and 7: the MAC of the timestamp, a dot and the body, and the signatures.
  unfoldable pub match_signatures :
      StripeVerifier → List ℕ → List (List ℕ) → List ℕ → VerificationResult
  unfolding let_some refuse_if as_bytes any_matches verdict is_utf8
  match_signatures v ts_str v1_sigs body = refuse_if (not (is_utf8 body)) "invalid_body_encoding" (
      let_some (p.hmac_sha256 (as_bytes v.secret) (ts_str ++ (b'.' ∷ body))) "invalid_secret_length"
        λ expected. verdict (any_matches p expected v1_sigs))

  -- The steps 4 and 5: both fields are there, and the timestamp is near the clock.
  unfoldable pub check_fields :
      StripeVerifier → ℤ → Option (List ℕ) → List (List ℕ) → List ℕ → VerificationResult
  unfolding let_some refuse_if parse_u64 unix_now abs_diff match_signatures
  check_fields v raw_now timestamp_str v1_sigs body =
      let_some timestamp_str "missing_timestamp" λ ts_str.
        refuse_if (is_empty v1_sigs) "missing_v1_signature" (
          let_some (parse_u64 ts_str) "invalid_timestamp" λ timestamp.
            refuse_if (ltb v.tolerance (abs_diff (unix_now raw_now) timestamp)) "timestamp_expired"
              (match_signatures v ts_str v1_sigs body))

  unfoldable pub verify : StripeVerifier → ℤ → Headers → List ℕ → VerificationResult
  unfolding with_header signature_fields check_fields
  verify v raw_now headers body = with_header p headers "Stripe-Signature" λ header_str.
      let (timestamp_str, v1_sigs) = signature_fields header_str in
      check_fields v raw_now timestamp_str v1_sigs body
