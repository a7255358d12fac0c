-- ===== src/Providers/Crypto.antt =====
-- What the verifiers use of `http`, `hex`, `base64`, `hmac`, `subtle` and `rsa`, and the early
-- returns that the verifiers of crates/hookbox-providers/src have in common.
use hookbox.Prelude.{
  ap, ◌∙◌, ℕ, String, List, Option, none, some, Bool, true, false, ◌≡◌, refl, ◌↔◌, ltb, ◌-◌,
  if◌then◌else◌, ℤ, pos, negsuc, arith, subst, sym,
}
use hookbox.Domain.{VerificationResult, VerificationStatus}

-- Third-party code. `get` is `HeaderMap::get`, and `to_str` is applied to what it finds: `none`
-- where a value is not visible ASCII. `hmac_sha256` is `none` where `new_from_slice` refuses the
-- key. A decoder is `none` on malformed input.
pub record Crypto (Headers Key Signature : Type 0) : Type 0 where
  pub get : Headers → String → Option (Option (List ℕ))
  pub hex_decode : List ℕ → Option (List ℕ)
  pub base64_decode : List ℕ → Option (List ℕ)
  pub base64_encode : List ℕ → List ℕ
  pub hmac_sha256 : List ℕ → List ℕ → Option (List ℕ)
  pub ct_eq : List ℕ → List ℕ → Bool
  pub from_public_key_pem : String → Option Key
  pub signature_of : List ℕ → Option Signature
  pub rsa_verify : Key → List ℕ → Signature → Bool

-- What `subtle` documents of the comparison in constant time.
unfoldable pub ComparesBytes :
    {Headers Key Signature : Type 0} → Crypto Headers Key Signature → Type 0
ComparesBytes p = (xs ys : List ℕ) → (p.ct_eq xs ys ≡ true) ↔ (xs ≡ ys)

abbrev pub verified : String → VerificationResult
verified reason = record { status = VerificationStatus.verified; reason = some reason }

abbrev pub failed : String → VerificationResult
failed reason = record { status = VerificationStatus.failed; reason = some reason }

-- `let Some(x) = o else { return Self::failed(reason) };` before `k`.
unfoldable pub let_some {ℓ} :
    {A : Type ℓ} → Option A → String → (A → VerificationResult) → VerificationResult
let_some none reason k = failed reason
let_some (some a) reason k = k a

-- `if b { return Self::failed(reason); }` before `r`.
unfoldable pub refuse_if : Bool → String → VerificationResult → VerificationResult
refuse_if true reason r = failed reason
refuse_if false reason r = r

-- The header of that name as text, or one of two refusals.
unfoldable pub with_header :
    {Headers Key Signature : Type 0}
    → Crypto Headers Key Signature
    → Headers
    → String
    → (List ℕ → VerificationResult)
    → VerificationResult
unfolding let_some
with_header p h name k =
    let_some (p.get h name) "missing_signature_header"
      λ value. let_some value "invalid_signature_header_encoding" k

-- `u64::try_from(raw_now).unwrap_or(0)`.
unfoldable pub unix_now : ℤ → ℕ
unix_now (pos n) = n
unix_now (negsuc n) = 0

unfoldable pub abs_diff : ℕ → ℕ → ℕ
abs_diff a b = if ltb a b then b - a else a - b

-- `ct_eq` of the code and `into` a verdict.
unfoldable pub verdict : Bool → VerificationResult
verdict true = verified "signature_valid"
verdict false = failed "signature_mismatch"

abbrev pub IsVerified : VerificationResult → Type 0
IsVerified r = r.status ≡ VerificationStatus.verified

pub let_some-IsVerified {ℓ} :
    {A : Type ℓ} (o : Option A) (reason : String) (k : A → VerificationResult)
    → IsVerified (let_some o reason k)
    → (a : A) × (o ≡ some a) × IsVerified (k a)
unfolding let_some
let_some-IsVerified none reason k h = cc
let_some-IsVerified (some a) reason k h = (a, refl, h)

pub IsVerified-let_some {ℓ} :
    {A : Type ℓ} (o : Option A) (reason : String) (k : A → VerificationResult) (a : A)
    → o ≡ some a
    → IsVerified (k a)
    → IsVerified (let_some o reason k)
unfolding let_some
IsVerified-let_some o reason k a e h = subst (λ x. IsVerified (let_some x reason k)) (sym e) h

pub refuse_if-IsVerified :
    (b : Bool) (reason : String) (r : VerificationResult)
    → IsVerified (refuse_if b reason r) ↔ ((b ≡ false) × IsVerified r)
unfolding refuse_if
refuse_if-IsVerified b reason r = ground arith

pub verdict-IsVerified : (b : Bool) → IsVerified (verdict b) ↔ (b ≡ true)
unfolding verdict
verdict-IsVerified b = ground arith

pub with_header-IsVerified :
    {Headers Key Signature : Type 0} (p : Crypto Headers Key Signature) (h : Headers)
    (name : String) (k : List ℕ → VerificationResult)
    → IsVerified (with_header p h name k)
    → (text : List ℕ) × (p.get h name ≡ some (some text)) × IsVerified (k text)
unfolding with_header
with_header-IsVerified p h name k v =
    let (value, found, v') = let_some-IsVerified (p.get h name) "missing_signature_header" _ v in
    let (text, e, v'') = let_some-IsVerified value "invalid_signature_header_encoding" k v' in
    (text, found ∙ ap some e, v'')

pub IsVerified-with_header :
    {Headers Key Signature : Type 0} (p : Crypto Headers Key Signature) (h : Headers)
    (name : String) (k : List ℕ → VerificationResult) (text : List ℕ)
    → p.get h name ≡ some (some text)
    → IsVerified (k text)
    → IsVerified (with_header p h name k)
unfolding with_header let_some
IsVerified-with_header p h name k text e v =
    IsVerified-let_some (p.get h name) "missing_signature_header" _ (some text) e v
