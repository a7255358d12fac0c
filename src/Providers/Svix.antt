-- ===== src/Providers/Svix.antt =====
-- What `WalapayVerifier` of crates/hookbox-providers/src/walapay.rs accepts.
use mathlib.Core.List.{Memᴰ}
use hookbox.Prelude.{
  List, ℕ, ℤ, [], ◌∷◌, ◌++◌, some, ltb, true, false, ◌≡◌, ◌↔◌, ◌≤◌, arith, Option-cases, Bool-cases,
  inl, inr, sym, refl, ◌∙◌, ap, ◌≢◌,
}
use hookbox.Providers.Crypto.{
  let_some, Crypto, ComparesBytes, IsVerified, let_some-IsVerified, IsVerified-let_some,
  refuse_if-IsVerified, verdict-IsVerified, unix_now, abs_diff,
}
use hookbox.Providers.Fields.{some_inj}
use hookbox.Providers.Text.{strip_prefix, strip_prefix_iff, parse_u64, split_whitespace}
use hookbox.Providers.Walapay
use hookbox.Providers.Walapay.{WalapayVerifier, v1_comma, any_entry}

module _ {Headers Key Signature : Type 0} (p : Crypto Headers Key Signature) where
  -- The three headers are there, the timestamp is within the tolerance, and an entry of version 1
  -- is the MAC in base64.
  pub record SvixSigned (v : WalapayVerifier) (raw_now : ℤ) (headers : Headers) (body : List ℕ)
      : Type 0 where
    pub msg_id : List ℕ
    pub ts_str : List ℕ
    pub sig_str : List ℕ
    pub timestamp : ℕ
    pub mac : List ℕ
    pub has_id : p.get headers "svix-id" ≡ some (some msg_id)
    pub has_timestamp : p.get headers "svix-timestamp" ≡ some (some ts_str)
    pub has_signature : p.get headers "svix-signature" ≡ some (some sig_str)
    pub parsed : parse_u64 ts_str ≡ some timestamp
    pub near : abs_diff (unix_now raw_now) timestamp ≤ v.tolerance
    pub signed : p.hmac_sha256 v.key (msg_id ++ (b'.' ∷ (ts_str ++ (b'.' ∷ body)))) ≡ some mac
    pub offered : Memᴰ (v1_comma ++ p.base64_encode mac) (split_whitespace sig_str)

  other_entry :
      {x entry : List ℕ} {entries : List (List ℕ)}
      → entry ≢ x
      → Memᴰ x (entry ∷ entries)
      → Memᴰ x entries
  other_entry n (Memᴰ.head e) = absurd (n (sym e))
  other_entry n (Memᴰ.tail m) = m

  any_entry_iff :
      ComparesBytes p
      → (expected : List ℕ) (entries : List (List ℕ))
      → (any_entry p expected entries ≡ true) ↔ Memᴰ (v1_comma ++ expected) entries
  unfolding any_entry ComparesBytes
  any_entry_iff law expected [] = (λ h. cc, λ m. elim m [ ])
  any_entry_iff law expected (entry ∷ entries) =
      let ih = any_entry_iff law expected entries in
      let as_entry = strip_prefix_iff v1_comma entry in
      elim (Option-cases (strip_prefix v1_comma entry)) [
        | inl e ↦
            rw (e, any_entry)
              (
                λ h. Memᴰ.tail (ih.0 h),
                λ m. ih.1 (other_entry (λ q. cc ((as_entry expected).1 q, e)) m),
              )
        | inr (provided, e) ↦ elim (Bool-cases (p.ct_eq expected provided)) [
          | inl c ↦
              rw (e, c, any_entry)
                (
                  λ _. Memᴰ.head (
                      sym
                        ((as_entry expected).0 (e ∙ ap some (sym ((law expected provided).0 c))))),
                  λ _. refl,
                )
          | inr c ↦
              rw (e, c, any_entry)
                (
                  λ h. Memᴰ.tail (ih.0 h),
                  λ m. ih.1 (other_entry (λ q. differs provided c e ((as_entry expected).1 q)) m),
                )
        ]
      ]
    where
      differs :
          (provided : List ℕ)
          → p.ct_eq expected provided ≡ false
          → strip_prefix v1_comma entry ≡ some provided
          → strip_prefix v1_comma entry ≡ some expected
          → ⊥
      differs provided c e e' = cc ((law expected provided).1 (sym (some_inj (sym e ∙ e'))), c)

  walapay-SvixSigned_forward :
      ComparesBytes p
      → (v : WalapayVerifier) (raw_now : ℤ) (headers : Headers) (body : List ℕ)
      → IsVerified (Walapay.verify p v raw_now headers body)
      → SvixSigned v raw_now headers body
  unfolding Walapay.verify Walapay.check_timestamp Walapay.match_entries
  walapay-SvixSigned_forward law v raw_now headers body h =
      let (id_val, e₁, h₁) = let_some-IsVerified _ "missing_svix_id_header" _ h in
      let (ts_val, e₂, h₂) = let_some-IsVerified _ "missing_svix_timestamp_header" _ h₁ in
      let (sig_val, e₃, h₃) = let_some-IsVerified _ "missing_svix_signature_header" _ h₂ in
      let (msg_id, f₁, h₄) = let_some-IsVerified id_val "invalid_svix_id_encoding" _ h₃ in
      let (ts_str, f₂, h₅) = let_some-IsVerified ts_val "invalid_svix_timestamp_encoding" _ h₄ in
      let (sig_str, f₃, h₆) = let_some-IsVerified sig_val "invalid_svix_signature_encoding" _ h₅ in
      let (timestamp, parsed, h₇) =
        let_some-IsVerified (parse_u64 ts_str) "invalid_timestamp" _ h₆ in
      let (near, h₈) =
        (refuse_if-IsVerified (ltb v.tolerance (abs_diff (unix_now raw_now) timestamp))
            "timestamp_expired" _).0
          h₇ in
      let (mac, signed, h₉) = let_some-IsVerified _ "invalid_key_length" _ h₈ in
      record {
        msg_id = msg_id;
        ts_str = ts_str;
        sig_str = sig_str;
        timestamp = timestamp;
        mac = mac;
        has_id = e₁ ∙ ap some f₁;
        has_timestamp = e₂ ∙ ap some f₂;
        has_signature = e₃ ∙ ap some f₃;
        parsed = parsed;
        near = ground (arith, near);
        signed = signed;
        offered = (any_entry_iff law _ _).0 ((verdict-IsVerified _).0 h₉);
      }

  walapay-SvixSigned_backward :
      ComparesBytes p
      → (v : WalapayVerifier) (raw_now : ℤ) (headers : Headers) (body : List ℕ)
      → SvixSigned v raw_now headers body
      → IsVerified (Walapay.verify p v raw_now headers body)
  unfolding let_some Walapay.verify Walapay.check_timestamp Walapay.match_entries
  walapay-SvixSigned_backward law v raw_now headers body s =
      IsVerified-let_some _ "missing_svix_id_header" _ (some s.msg_id) s.has_id (
        IsVerified-let_some _ "missing_svix_timestamp_header" _ (some s.ts_str) s.has_timestamp (
          IsVerified-let_some _ "missing_svix_signature_header" _ (some s.sig_str) s.has_signature (
            IsVerified-let_some _ "invalid_timestamp" _ s.timestamp s.parsed (
              (refuse_if-IsVerified (ltb v.tolerance (abs_diff (unix_now raw_now) s.timestamp))
                  "timestamp_expired" _).1
                (
                  ground (arith, s.near),
                  IsVerified-let_some _ "invalid_key_length" _ s.mac s.signed
                      ((verdict-IsVerified _).1 ((any_entry_iff law _ _).1 s.offered)),
                )))))

  -- The Walapay verifier accepts exactly the requests that have the three svix headers, a timestamp
  -- within the tolerance of the clock, and among the entries of the signature header `v1,` with the
  -- base64 of the HMAC of id, timestamp and body; provided that `ct_eq` compares bytes.
  pub walapay-SvixSigned :
      ComparesBytes p
      → (v : WalapayVerifier) (raw_now : ℤ) (headers : Headers) (body : List ℕ)
      → IsVerified (Walapay.verify p v raw_now headers body) ↔ SvixSigned v raw_now headers body
  walapay-SvixSigned law v raw_now headers body = (
    walapay-SvixSigned_forward law v raw_now headers body,
    walapay-SvixSigned_backward law v raw_now headers body,
  )
