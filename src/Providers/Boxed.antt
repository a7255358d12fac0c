-- ===== src/Providers/Boxed.antt =====
-- `Box<dyn SignatureVerifier>` over the verifiers of crates/hookbox-providers/src, and their
-- implementations of the trait.
use hookbox.Prelude.{String, List, ℕ, ℤ}
use hookbox.Domain.{VerificationResult}
use hookbox.Pipeline.Traits.{SignatureVerifier}
use hookbox.Providers.Crypto.{Crypto}
use hookbox.Providers.Stripe
use hookbox.Providers.Stripe.{StripeVerifier}
use hookbox.Providers.TripleaCrypto
use hookbox.Providers.TripleaCrypto.{TripleACryptoVerifier}
use hookbox.Providers.Walapay
use hookbox.Providers.Walapay.{WalapayVerifier}
use hookbox.Providers.GenericHmac
use hookbox.Providers.GenericHmac.{GenericHmacVerifier}
use hookbox.Providers.Adyen
use hookbox.Providers.Adyen.{AdyenVerifier}
use hookbox.Providers.Bvnk
use hookbox.Providers.Bvnk.{BvnkVerifier}
use hookbox.Providers.TripleaFiat
use hookbox.Providers.TripleaFiat.{TripleAFiatVerifier}

pub data BoxedVerifier (Key : Type 0) : Type 0 where
  stripe : StripeVerifier → BoxedVerifier Key
  adyen : AdyenVerifier → BoxedVerifier Key
  bvnk : BvnkVerifier → BoxedVerifier Key
  triplea_fiat : TripleAFiatVerifier Key → BoxedVerifier Key
  triplea_crypto : TripleACryptoVerifier → BoxedVerifier Key
  walapay : WalapayVerifier → BoxedVerifier Key
  generic_hmac : GenericHmacVerifier → BoxedVerifier Key

unfoldable pub provider_name : {Key : Type 0} → BoxedVerifier Key → String
provider_name (BoxedVerifier.stripe v) = v.provider
provider_name (BoxedVerifier.adyen v) = v.provider
provider_name (BoxedVerifier.bvnk v) = v.provider
provider_name (BoxedVerifier.triplea_fiat v) = v.provider
provider_name (BoxedVerifier.triplea_crypto v) = v.provider
provider_name (BoxedVerifier.walapay v) = v.provider
provider_name (BoxedVerifier.generic_hmac v) = v.provider

module _ {Headers Key Signature : Type 0} (p : Crypto Headers Key Signature) where
  unfoldable pub verify_boxed : ℤ → BoxedVerifier Key → Headers → List ℕ → VerificationResult
  unfolding Stripe.verify Adyen.verify Bvnk.verify TripleaFiat.verify TripleaCrypto.verify
      Walapay.verify GenericHmac.verify
  verify_boxed raw_now (BoxedVerifier.stripe v) = Stripe.verify p v raw_now
  verify_boxed raw_now (BoxedVerifier.adyen v) = Adyen.verify p v
  verify_boxed raw_now (BoxedVerifier.bvnk v) = Bvnk.verify p v
  verify_boxed raw_now (BoxedVerifier.triplea_fiat v) = TripleaFiat.verify p v
  verify_boxed raw_now (BoxedVerifier.triplea_crypto v) = TripleaCrypto.verify p v raw_now
  verify_boxed raw_now (BoxedVerifier.walapay v) = Walapay.verify p v raw_now
  verify_boxed raw_now (BoxedVerifier.generic_hmac v) = GenericHmac.verify p v

  -- The verifier as the pipeline sees it, at one reading of the clock.
  unfoldable pub signature_verifier : ℤ → BoxedVerifier Key → SignatureVerifier Headers
  unfolding provider_name verify_boxed
  signature_verifier raw_now v = record {
    provider_name = provider_name v;
    verify = verify_boxed raw_now v;
  }
