-- ===== src/Bootstrap/Verifiers.antt =====
-- crates/hookbox-server/src/bootstrap.rs.
use Prim.Native.Nat.{Ordering}
use Prim.Native.String.{compare, ◌++◌ as text_append}
use hookbox.Prelude.{
  ℕ, pos, String, Option, none, some, Bool, true, false, List, [], ◌∷◌, Result, ok, err, ◌>>=◌,
  map_err, str_eq, leb, leb_ℤ, if◌then◌else◌, unwrap_or, order_by,
}
use hookbox.Config.Sections.{ProviderConfig, RetryConfig}
use hookbox.Providers.Crypto.{Crypto}
use hookbox.Providers.Text.{as_bytes}
use hookbox.Providers.Boxed.{BoxedVerifier}
use hookbox.Providers.Stripe
use hookbox.Providers.TripleaCrypto
use hookbox.Providers.Walapay
use hookbox.Providers.GenericHmac
use hookbox.Providers.Adyen
use hookbox.Providers.Bvnk
use hookbox.Providers.TripleaFiat

-- What the texts of the errors say.
pub data BootstrapError : Type 0 where
  bad_interval bad_max_attempts : BootstrapError
  no_secret no_public_key bad_hex_key bad_pem bad_svix_secret : String → BootstrapError
  in_provider : String → BootstrapError → BootstrapError

unfoldable pub validate_retry_config : RetryConfig → Result (Unit {0}) BootstrapError
validate_retry_config retry =
    if leb 1 retry.interval_seconds
    then (if leb_ℤ (pos 1) retry.max_attempts then ok tt else err BootstrapError.bad_max_attempts)
    else err BootstrapError.bad_interval

-- `as_deref().filter(|s| !s.is_empty()).ok_or_else(..)`.
unfoldable pub non_empty : Option String → BootstrapError → Result String BootstrapError
non_empty none e = err e
non_empty (some s) e = if str_eq s "" then err e else ok s

unfoldable pub non_empty_secret : String → ProviderConfig → Result String BootstrapError
unfolding non_empty
non_empty_secret name provider = non_empty provider.secret (BootstrapError.no_secret name)

-- `if let Some(tolerance) = tolerance { verifier = verifier.with_tolerance(..) }`.
abbrev pub with_optional {ℓ} : {A : Type ℓ} → (A → ℕ → A) → A → Option ℕ → A
with_optional f a none = a
with_optional f a (some tolerance) = f a tolerance

abbrev pub ok_or {ℓ} : {A : Type ℓ} → Option A → BootstrapError → Result A BootstrapError
ok_or none e = err e
ok_or (some a) e = ok a

-- `format!("X-{name}-Signature")`.
abbrev pub default_header : String → String
default_header name = text_append "X-" (text_append name "-Signature")

abbrev pub name_le : String × ProviderConfig → String × ProviderConfig → Bool
name_le a b = elim (compare a.0 b.0) [ Ordering.gt ↦ false | _ ↦ true ]

module _ {Headers Key Signature : Type 0} (p : Crypto Headers Key Signature) where
  unfoldable pub build_stripe : String → ProviderConfig → Result (BoxedVerifier Key) BootstrapError
  unfolding non_empty_secret Stripe.new Stripe.with_tolerance
  build_stripe name provider = do
    secret ← non_empty_secret name provider
    ok (
        BoxedVerifier.stripe
          (with_optional Stripe.with_tolerance (Stripe.new name secret) provider.tolerance_seconds))

  unfoldable pub build_adyen : String → ProviderConfig → Result (BoxedVerifier Key) BootstrapError
  unfolding non_empty Adyen.new
  build_adyen name provider = do
    secret ← non_empty provider.secret (BootstrapError.no_secret name)
    verifier ← ok_or (Adyen.new p name secret) (BootstrapError.bad_hex_key name)
    ok (BoxedVerifier.adyen verifier)

  unfoldable pub build_bvnk : String → ProviderConfig → Result (BoxedVerifier Key) BootstrapError
  unfolding non_empty as_bytes Bvnk.new
  build_bvnk name provider = do
    secret ← non_empty provider.secret (BootstrapError.no_secret name)
    ok (BoxedVerifier.bvnk (Bvnk.new name (as_bytes secret)))

  unfoldable pub build_triplea_fiat :
      String → ProviderConfig → Result (BoxedVerifier Key) BootstrapError
  unfolding non_empty TripleaFiat.new
  build_triplea_fiat name provider = do
    pem ← non_empty provider.public_key (BootstrapError.no_public_key name)
    verifier ← ok_or (TripleaFiat.new p name pem) (BootstrapError.bad_pem name)
    ok (BoxedVerifier.triplea_fiat verifier)

  unfoldable pub build_triplea_crypto :
      String → ProviderConfig → Result (BoxedVerifier Key) BootstrapError
  unfolding non_empty TripleaCrypto.new TripleaCrypto.with_tolerance
  build_triplea_crypto name provider = do
    secret ← non_empty provider.secret (BootstrapError.no_secret name)
    ok (
        BoxedVerifier.triplea_crypto (
          with_optional TripleaCrypto.with_tolerance (TripleaCrypto.new name secret)
            provider.tolerance_seconds))

  unfoldable pub build_walapay : String → ProviderConfig → Result (BoxedVerifier Key) BootstrapError
  unfolding non_empty Walapay.new Walapay.with_tolerance
  build_walapay name provider = do
    secret ← non_empty provider.secret (BootstrapError.no_secret name)
    verifier ← ok_or (Walapay.new p name secret) (BootstrapError.bad_svix_secret name)
    ok (
        BoxedVerifier.walapay
          (with_optional Walapay.with_tolerance verifier provider.tolerance_seconds))

  -- The generic verifier, with the header that the type of provider uses where none is configured.
  unfoldable pub build_generic :
      String → String → ProviderConfig → Result (BoxedVerifier Key) BootstrapError
  unfolding non_empty_secret as_bytes GenericHmac.new
  build_generic header name provider = do
    secret ← non_empty_secret name provider
    ok (
        BoxedVerifier.generic_hmac
          (GenericHmac.new name (as_bytes secret) (unwrap_or provider.header header)))

  -- A type that is not known is taken for the generic one.
  unfoldable pub build_one_verifier :
      String → ProviderConfig → Result (BoxedVerifier Key) BootstrapError
  unfolding build_stripe build_adyen build_bvnk build_triplea_fiat build_triplea_crypto
      build_walapay build_generic
  build_one_verifier name provider =
      if str_eq provider.verifier_type "stripe"
      then build_stripe name provider
      else if str_eq provider.verifier_type "adyen"
      then build_adyen name provider
      else if str_eq provider.verifier_type "bvnk"
      then build_bvnk name provider
      else if str_eq provider.verifier_type "triplea-fiat"
      then build_triplea_fiat name provider
      else if str_eq provider.verifier_type "triplea-crypto"
      then build_triplea_crypto name provider
      else if str_eq provider.verifier_type "walapay"
      then build_walapay name provider
      else if str_eq provider.verifier_type "checkout"
      then build_generic "Cko-Signature" name provider
      else if str_eq provider.verifier_type "hmac-sha256"
      then build_generic (default_header name) name provider
      else build_generic (default_header name) name provider

  unfoldable pub build_all :
      List (String × ProviderConfig) → Result (List (BoxedVerifier Key)) BootstrapError
  unfolding build_one_verifier
  build_all [] = ok []
  build_all ((name, provider) ∷ rest) =
      let others = build_all rest in
      do
        verifier ← map_err (BootstrapError.in_provider name) (build_one_verifier name provider)
        verifiers ← others
        ok (verifier ∷ verifiers)

  -- The providers in the order of their names.
  unfoldable pub build_provider_verifiers :
      List (String × ProviderConfig) → Result (List (BoxedVerifier Key)) BootstrapError
  unfolding order_by build_all
  build_provider_verifiers providers = build_all (order_by name_le providers)
