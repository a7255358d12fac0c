-- ===== src/Providers/Timestamped.antt =====
-- What stripe.rs and triplea_crypto.rs accept, without the order in which they look.
use hookbox.Prelude.{
  inr, inl, arith, String, List, ℕ, ℤ, [], ◌∷◌, ◌++◌, none, some, ltb, true, false, ◌≡◌, ◌≤◌,
}
use mathlib.Core.List.{Memᴰ}
use hookbox.Providers.Crypto.{Crypto, unix_now, abs_diff, ComparesBytes}
use hookbox.Providers.Text.{parse_u64, as_bytes, split}
use hookbox.Providers.Fields.{
  fields-Mem, Mem-fields, fields-LastField, LastField-fields, any_matches, any_matches_iff,
  signature_fields, LastField, t_equals, v1_equals,
}

module _ {Headers Key Signature : Type 0} (p : Crypto Headers Key Signature) where
  -- The header of that name is there, its last `t=` field is a number within the tolerance, and
  -- some `v1=` field is the MAC in hexadecimal.
  pub record TimestampSigned (name secret : String) (tolerance : ℕ) (raw_now : ℤ)
      (headers : Headers) (body : List ℕ) : Type 0 where
    pub header_str : List ℕ
    pub ts_str : List ℕ
    pub timestamp : ℕ
    pub mac : List ℕ
    pub signature : List ℕ
    pub found : p.get headers name ≡ some (some header_str)
    pub last : LastField t_equals ts_str (split b',' header_str)
    pub parsed : parse_u64 ts_str ≡ some timestamp
    pub near : abs_diff (unix_now raw_now) timestamp ≤ tolerance
    pub signed : p.hmac_sha256 (as_bytes secret) (ts_str ++ (b'.' ∷ body)) ≡ some mac
    pub offered : Memᴰ (v1_equals ++ signature) (split b',' header_str)
    pub decoded : p.hex_decode signature ≡ some mac

  -- The same, by what the code computes.
  pub record Checks (name secret : String) (tolerance : ℕ) (raw_now : ℤ) (headers : Headers)
      (body : List ℕ) : Type 0 where
    pub header_str : List ℕ
    pub ts_str : List ℕ
    pub timestamp : ℕ
    pub mac : List ℕ
    pub found : p.get headers name ≡ some (some header_str)
    pub last : (signature_fields header_str).0 ≡ some ts_str
    pub parsed : parse_u64 ts_str ≡ some timestamp
    pub near : ltb tolerance (abs_diff (unix_now raw_now) timestamp) ≡ false
    pub signed : p.hmac_sha256 (as_bytes secret) (ts_str ++ (b'.' ∷ body)) ≡ some mac
    pub matches : any_matches p mac (signature_fields header_str).1 ≡ true

  pub Checks-TimestampSigned :
      ComparesBytes p
      → (name secret : String) (tolerance : ℕ) (raw_now : ℤ) (headers : Headers) (body : List ℕ)
      → Checks name secret tolerance raw_now headers body
      → TimestampSigned name secret tolerance raw_now headers body
  unfolding signature_fields
  Checks-TimestampSigned law name secret tolerance raw_now headers body c =
      let parts = split b',' c.header_str in
      let (sig, m, d) =
        (any_matches_iff p c.mac law (signature_fields c.header_str).1).0 c.matches in
      record {
        header_str = c.header_str;
        ts_str = c.ts_str;
        timestamp = c.timestamp;
        mac = c.mac;
        signature = sig;
        found = c.found;
        last = elim (fields-LastField c.ts_str parts (none, []) c.last) [
          | inl l ↦ l
          | inr (n, _) ↦ cc n
        ];
        parsed = c.parsed;
        near = ground (arith, c.near);
        signed = c.signed;
        offered = elim (fields-Mem sig parts (none, []) m) [ inl i ↦ elim i [ ] | inr o ↦ o ];
        decoded = d;
      }

  pub TimestampSigned-Checks :
      ComparesBytes p
      → (name secret : String) (tolerance : ℕ) (raw_now : ℤ) (headers : Headers) (body : List ℕ)
      → TimestampSigned name secret tolerance raw_now headers body
      → Checks name secret tolerance raw_now headers body
  unfolding signature_fields
  TimestampSigned-Checks law name secret tolerance raw_now headers body s =
      let parts = split b',' s.header_str in
      record {
        header_str = s.header_str;
        ts_str = s.ts_str;
        timestamp = s.timestamp;
        mac = s.mac;
        found = s.found;
        last = LastField-fields s.ts_str parts (none, []) s.last;
        parsed = s.parsed;
        near = ground (arith, s.near);
        signed = s.signed;
        matches =
            (any_matches_iff p s.mac law (signature_fields s.header_str).1).1
              (s.signature, Mem-fields s.signature parts (none, []) (inr s.offered), s.decoded);
      }
