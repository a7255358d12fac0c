-- ===== src/Providers/Walapay.antt =====
-- `WalapayVerifier` of crates/hookbox-providers/src/walapay.rs. The clock's reading is an argument.
use hookbox.Prelude.{
  ap, sym, ◌≢◌, ◌≡◌, String, List, ℕ, ℤ, [], ◌∷◌, ◌++◌, Option, none, some, ltb, Bool, true, false,
  if◌then◌else◌,
}
use hookbox.Domain.{VerificationResult}
use hookbox.Providers.Crypto.{Crypto, let_some, refuse_if, unix_now, abs_diff, verdict}
use hookbox.Providers.Text.{strip_prefix, parse_u64, as_bytes, split_whitespace}

-- The key is the decoded one, and the tolerance is in seconds.
pub record WalapayVerifier : Type 0 where
  pub provider : String
  pub key : List ℕ
  pub tolerance : ℕ

abbrev default_tolerance_secs : ℕ
default_tolerance_secs = 300

abbrev pub v1_comma : List ℕ
v1_comma = b'v' ∷ b'1' ∷ b',' ∷ []

-- An empty key is refused.
unfoldable pub keyed : String → List ℕ → Option WalapayVerifier
keyed provider [] = none
keyed provider (k ∷ key) =
    some (record { provider = provider; key = k ∷ key; tolerance = default_tolerance_secs })

pub keyed-some :
    (provider : String) (key : List ℕ) (v : WalapayVerifier)
    → keyed provider key ≡ some v
    → (v.provider ≡ provider) × (key ≡ v.key) × (v.key ≢ [])
unfolding keyed
keyed-some provider [] v h = cc h
keyed-some provider (k ∷ key) v h = (
  sym (ap (λ w. w.provider) (same h)),
  ap (λ w. w.key) (same h),
  λ e. cc (ap (λ w. w.key) (same h), e),
)
  where
    same : {a b : WalapayVerifier} → some a ≡ some b → a ≡ b
    same e = cc

unfoldable pub with_tolerance : WalapayVerifier → ℕ → WalapayVerifier
with_tolerance v tolerance = record { provider = v.provider; key = v.key; tolerance = tolerance }

module _ {Headers Key Signature : Type 0} (p : Crypto Headers Key Signature) where
  unfoldable pub new : String → String → Option WalapayVerifier
  unfolding as_bytes strip_prefix keyed
  new provider secret = elim (strip_prefix (as_bytes "whsec_") (as_bytes secret)) [
    | none ↦ none
    | some b64 ↦ elim (p.base64_decode b64) [ none ↦ none | some key ↦ keyed provider key ]
  ]

  -- The loop of step 5: entries with another version are passed over.
  unfoldable pub any_entry : List ℕ → List (List ℕ) → Bool
  unfolding strip_prefix
  any_entry expected_b64 [] = false
  any_entry expected_b64 (entry ∷ entries) =
      let rest = any_entry expected_b64 entries in
      elim (strip_prefix v1_comma entry) [
        | none ↦ rest
        | some provided_b64 ↦ if p.ct_eq expected_b64 provided_b64 then true else rest
      ]

  -- The steps 3 to 5.
  unfoldable pub match_entries :
      WalapayVerifier → List ℕ → List ℕ → List ℕ → List ℕ → VerificationResult
  unfolding let_some any_entry split_whitespace verdict
  match_entries v msg_id ts_str sig_str body =
      let_some (p.hmac_sha256 v.key (msg_id ++ (b'.' ∷ (ts_str ++ (b'.' ∷ body)))))
        "invalid_key_length"
        λ expected. verdict (any_entry (p.base64_encode expected) (split_whitespace sig_str))

  -- Step 2, and what follows it.
  unfoldable pub check_timestamp :
      WalapayVerifier → ℤ → List ℕ → List ℕ → List ℕ → List ℕ → VerificationResult
  unfolding let_some refuse_if parse_u64 unix_now abs_diff match_entries
  check_timestamp v raw_now msg_id ts_str sig_str body =
      let_some (parse_u64 ts_str) "invalid_timestamp" λ timestamp.
        refuse_if (ltb v.tolerance (abs_diff (unix_now raw_now) timestamp)) "timestamp_expired"
          (match_entries v msg_id ts_str sig_str body)

  -- The three headers are looked up before any of them is decoded.
  unfoldable pub verify : WalapayVerifier → ℤ → Headers → List ℕ → VerificationResult
  unfolding let_some check_timestamp
  verify v raw_now headers body =
      let_some (p.get headers "svix-id") "missing_svix_id_header" λ msg_id_val.
        let_some (p.get headers "svix-timestamp") "missing_svix_timestamp_header" λ ts_val.
          let_some (p.get headers "svix-signature") "missing_svix_signature_header" λ sig_val.
            let_some msg_id_val "invalid_svix_id_encoding" λ msg_id.
              let_some ts_val "invalid_svix_timestamp_encoding" λ ts_str.
                let_some sig_val "invalid_svix_signature_encoding"
                  λ sig_str. check_timestamp v raw_now msg_id ts_str sig_str body
