-- ===== src/Providers/StripeAccepts.antt =====
-- What `StripeVerifier` of crates/hookbox-providers/src/stripe.rs accepts.
use hookbox.Prelude.{List, ℕ, ℤ, not, ◌≡◌, ◌↔◌, ap, true, arith}
use hookbox.Providers.Crypto.{
  Crypto, ComparesBytes, IsVerified, with_header-IsVerified, IsVerified-with_header,
  let_some-IsVerified, IsVerified-let_some, refuse_if-IsVerified, verdict-IsVerified,
}
use hookbox.Providers.Text.{parse_u64, is_utf8}
use hookbox.Providers.Fields.{signature_fields, is_empty, any_matches-is_empty}
use hookbox.Providers.Timestamped.{
  Checks, TimestampSigned, Checks-TimestampSigned, TimestampSigned-Checks,
}
use hookbox.Providers.Stripe
use hookbox.Providers.Stripe.{StripeVerifier}

module _ {Headers Key Signature : Type 0} (p : Crypto Headers Key Signature) where
  Stripe-Checks :
      (v : StripeVerifier) (raw_now : ℤ) (headers : Headers) (body : List ℕ)
      → IsVerified (Stripe.verify p v raw_now headers body)
      → (is_utf8 body ≡ true)
        × Checks p "Stripe-Signature" v.secret v.tolerance raw_now headers body
  unfolding Stripe.verify Stripe.check_fields Stripe.match_signatures
  Stripe-Checks v raw_now headers body h =
      let (header_str, found, h₁) = with_header-IsVerified p headers "Stripe-Signature" _ h in
      let (ts_str, last, h₂) =
        let_some-IsVerified (signature_fields header_str).0 "missing_timestamp" _ h₁ in
      let (_, h₃) =
        (refuse_if-IsVerified (is_empty (signature_fields header_str).1) "missing_v1_signature" _).0
          h₂ in
      let (timestamp, parsed, h₄) =
        let_some-IsVerified (parse_u64 ts_str) "invalid_timestamp" _ h₃ in
      let (near, h₅) = (refuse_if-IsVerified _ "timestamp_expired" _).0 h₄ in
      let (utf8, h₆) = (refuse_if-IsVerified (not (is_utf8 body)) "invalid_body_encoding" _).0 h₅ in
      let (mac, signed, h₇) = let_some-IsVerified _ "invalid_secret_length" _ h₆ in
      (
        ground (arith, utf8),
        record {
          header_str = header_str;
          ts_str = ts_str;
          timestamp = timestamp;
          mac = mac;
          found = found;
          last = last;
          parsed = parsed;
          near = near;
          signed = signed;
          matches = (verdict-IsVerified _).0 h₇;
        },
      )

  Checks-Stripe :
      (v : StripeVerifier) (raw_now : ℤ) (headers : Headers) (body : List ℕ)
      → is_utf8 body ≡ true
      → Checks p "Stripe-Signature" v.secret v.tolerance raw_now headers body
      → IsVerified (Stripe.verify p v raw_now headers body)
  unfolding Stripe.verify Stripe.check_fields Stripe.match_signatures
  Checks-Stripe v raw_now headers body utf8 c =
      IsVerified-with_header p headers "Stripe-Signature" _ c.header_str c.found (
        IsVerified-let_some _ "missing_timestamp" _ c.ts_str c.last (
          (refuse_if-IsVerified _ "missing_v1_signature" _).1 (
            any_matches-is_empty p c.mac _ c.matches,
            IsVerified-let_some _ "invalid_timestamp" _ c.timestamp c.parsed (
                (refuse_if-IsVerified _ "timestamp_expired" _).1 (
                  c.near,
                  (refuse_if-IsVerified _ "invalid_body_encoding" _).1 (
                    ap not utf8,
                    IsVerified-let_some _ "invalid_secret_length" _ c.mac c.signed
                        ((verdict-IsVerified _).1 c.matches),
                  ),
                )),
          )))

  -- The Stripe verifier accepts exactly the requests whose `Stripe-Signature` header is there, has
  -- as its last `t=` field a number within the tolerance of the clock, and has some `v1=` field that
  -- is the hexadecimal HMAC of that field, a dot and the body, where the body is UTF-8; provided that
  -- `ct_eq` compares bytes.
  pub stripe-TimestampSigned :
      ComparesBytes p
      → (v : StripeVerifier) (raw_now : ℤ) (headers : Headers) (body : List ℕ)
      → IsVerified (Stripe.verify p v raw_now headers body) ↔ (
          (is_utf8 body ≡ true)
          × TimestampSigned p "Stripe-Signature" v.secret v.tolerance raw_now headers body)
  stripe-TimestampSigned law v raw_now headers body = (
    λ h.
        let (utf8, c) = Stripe-Checks v raw_now headers body h in
        (utf8, Checks-TimestampSigned p law _ _ _ _ _ _ c),
    λ (utf8, s).
        Checks-Stripe v raw_now headers body utf8 (TimestampSigned-Checks p law _ _ _ _ _ _ s),
  )
