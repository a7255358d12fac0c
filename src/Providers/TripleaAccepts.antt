-- ===== src/Providers/TripleaAccepts.antt =====
-- What `TripleACryptoVerifier` of crates/hookbox-providers/src/triplea_crypto.rs accepts.
use hookbox.Prelude.{List, ℕ, ℤ, ◌↔◌}
use hookbox.Providers.Crypto.{
  Crypto, ComparesBytes, IsVerified, with_header-IsVerified, IsVerified-with_header,
  let_some-IsVerified, IsVerified-let_some, refuse_if-IsVerified, verdict-IsVerified,
}
use hookbox.Providers.Text.{parse_u64}
use hookbox.Providers.Fields.{signature_fields, is_empty, any_matches-is_empty}
use hookbox.Providers.Timestamped.{
  Checks, TimestampSigned, Checks-TimestampSigned, TimestampSigned-Checks,
}
use hookbox.Providers.TripleaCrypto
use hookbox.Providers.TripleaCrypto.{TripleACryptoVerifier}

module _ {Headers Key Signature : Type 0} (p : Crypto Headers Key Signature) where
  TripleaCrypto-Checks :
      (v : TripleACryptoVerifier) (raw_now : ℤ) (headers : Headers) (body : List ℕ)
      → IsVerified (TripleaCrypto.verify p v raw_now headers body)
      → Checks p "triplea-signature" v.secret v.tolerance raw_now headers body
  unfolding TripleaCrypto.verify TripleaCrypto.check_fields TripleaCrypto.match_signatures
  TripleaCrypto-Checks v raw_now headers body h =
      let (header_str, found, h₁) = with_header-IsVerified p headers "triplea-signature" _ h in
      let (ts_str, last, h₂) =
        let_some-IsVerified (signature_fields header_str).0 "missing_timestamp" _ h₁ in
      let (_, h₃) =
        (refuse_if-IsVerified (is_empty (signature_fields header_str).1) "missing_v1_signature" _).0
          h₂ in
      let (timestamp, parsed, h₄) =
        let_some-IsVerified (parse_u64 ts_str) "invalid_timestamp" _ h₃ in
      let (near, h₅) = (refuse_if-IsVerified _ "timestamp_expired" _).0 h₄ in
      let (mac, signed, h₇) = let_some-IsVerified _ "invalid_secret_length" _ h₅ in
      record {
        header_str = header_str;
        ts_str = ts_str;
        timestamp = timestamp;
        mac = mac;
        found = found;
        last = last;
        parsed = parsed;
        near = near;
        signed = signed;
        matches = (verdict-IsVerified _).0 h₇;
      }

  Checks-TripleaCrypto :
      (v : TripleACryptoVerifier) (raw_now : ℤ) (headers : Headers) (body : List ℕ)
      → Checks p "triplea-signature" v.secret v.tolerance raw_now headers body
      → IsVerified (TripleaCrypto.verify p v raw_now headers body)
  unfolding TripleaCrypto.verify TripleaCrypto.check_fields TripleaCrypto.match_signatures
  Checks-TripleaCrypto v raw_now headers body c =
      IsVerified-with_header p headers "triplea-signature" _ c.header_str c.found (
        IsVerified-let_some _ "missing_timestamp" _ c.ts_str c.last (
          (refuse_if-IsVerified _ "missing_v1_signature" _).1 (
            any_matches-is_empty p c.mac _ c.matches,
            IsVerified-let_some _ "invalid_timestamp" _ c.timestamp c.parsed (
                (refuse_if-IsVerified _ "timestamp_expired" _).1 (
                  c.near,
                  IsVerified-let_some _ "invalid_secret_length" _ c.mac c.signed
                      ((verdict-IsVerified _).1 c.matches),
                )),
          )))

  -- The Triple-A crypto verifier accepts exactly the requests that are signed the same way in the
  -- `triplea-signature` header, whatever the bytes of the body; provided that `ct_eq` compares bytes.
  pub triplea_crypto-TimestampSigned :
      ComparesBytes p
      → (v : TripleACryptoVerifier) (raw_now : ℤ) (headers : Headers) (body : List ℕ)
      → IsVerified (TripleaCrypto.verify p v raw_now headers body)
        ↔ TimestampSigned p "triplea-signature" v.secret v.tolerance raw_now headers body
  triplea_crypto-TimestampSigned law v raw_now headers body = (
    λ h. Checks-TimestampSigned p law _ _ _ _ _ _ (TripleaCrypto-Checks v raw_now headers body h),
    λ s. Checks-TripleaCrypto v raw_now headers body (TimestampSigned-Checks p law _ _ _ _ _ _ s),
  )
