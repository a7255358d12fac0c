-- ===== src/Examples/Providers.antt =====
-- The theorems on crates/hookbox-providers/src at concrete values: the MAC of a message is the
-- message, and every encoding is the identity.
use hookbox.Prelude.{ℕ, true, some, List, [], ◌∷◌, pos, ◌≡◌, ◌↔◌, refl, if◌then◌else◌, str_eq}
use hookbox.Providers.Crypto.{IsVerified}
use hookbox.Providers.Text.{split, strip_prefix, is_utf8}
use hookbox.Providers.Stripe
use hookbox.Providers.Stripe.{StripeVerifier}
use hookbox.Providers.TripleaCrypto.{TripleACryptoVerifier}
use hookbox.Providers.Walapay
use hookbox.Providers.Walapay.{WalapayVerifier}
use hookbox.Providers.GenericHmac
use hookbox.Providers.GenericHmac.{GenericHmacVerifier}
use hookbox.Providers.Adyen
use hookbox.Providers.Adyen.{AdyenVerifier}
use hookbox.Providers.Bvnk
use hookbox.Providers.Bvnk.{BvnkVerifier}
use hookbox.Providers.Timestamped.{TimestampSigned}
use hookbox.Providers.StripeAccepts.{stripe-TimestampSigned}
use hookbox.Providers.Svix.{SvixSigned, walapay-SvixSigned}
use hookbox.Providers.Plain.{Carries, macs-Carries}
use hookbox.Examples.Keys.{Headers, crypto, crypto-ComparesBytes}

abbrev stripe : StripeVerifier
stripe = record { provider = "stripe"; secret = "k"; tolerance = 300 }

abbrev triplea : TripleACryptoVerifier
triplea = record { provider = "triplea"; secret = "k"; tolerance = 300 }

abbrev walapay : WalapayVerifier
walapay = record { provider = "walapay"; key = 9 ∷ []; tolerance = 300 }

-- t=5,v1=5.A
abbrev timestamped : List ℕ
timestamped = b't' ∷ b'=' ∷ b'5' ∷ b',' ∷ b'v' ∷ b'1' ∷ b'=' ∷ b'5' ∷ b'.' ∷ b'A' ∷ []

abbrev body : List ℕ
body = b'A' ∷ []

abbrev everywhere : List ℕ → Headers
everywhere text name = some (some text)

stripe_accepts : IsVerified (Stripe.verify crypto stripe (pos 10) (everywhere timestamped) body)
unfolding Stripe.verify split strip_prefix
stripe_accepts = refl

stripe_refuses_late :
    (Stripe.verify crypto stripe (pos 306) (everywhere timestamped) body).reason
    ≡ some "timestamp_expired"
unfolding Stripe.verify split strip_prefix
stripe_refuses_late = refl

stripe-TimestampSigned_example :
    IsVerified (Stripe.verify crypto stripe (pos 10) (everywhere timestamped) body) ↔ (
      (is_utf8 body ≡ true)
      × TimestampSigned crypto "Stripe-Signature" "k" 300 (pos 10) (everywhere timestamped) body)
stripe-TimestampSigned_example =
    stripe-TimestampSigned crypto crypto-ComparesBytes stripe (pos 10) (everywhere timestamped) body

-- The id and the timestamp are 5, and the signature is v1,5.5.A
abbrev svix : Headers
svix name =
    if str_eq name "svix-signature"
    then some (some (b'v' ∷ b'1' ∷ b',' ∷ b'5' ∷ b'.' ∷ b'5' ∷ b'.' ∷ b'A' ∷ []))
    else some (some (b'5' ∷ []))

walapay_accepts : IsVerified (Walapay.verify crypto walapay (pos 10) svix body)
unfolding Walapay.verify
walapay_accepts = refl

walapay-SvixSigned_example :
    IsVerified (Walapay.verify crypto walapay (pos 10) svix body)
    ↔ SvixSigned crypto walapay (pos 10) svix body
walapay-SvixSigned_example =
    walapay-SvixSigned crypto crypto-ComparesBytes walapay (pos 10) svix body

abbrev generic : GenericHmacVerifier
generic = record { provider = "g"; secret = 9 ∷ []; header_name = "x" }

abbrev adyen : AdyenVerifier
adyen = record { provider = "a"; key_bytes = 9 ∷ [] }

abbrev bvnk : BvnkVerifier
bvnk = record { provider = "b"; secret = 9 ∷ [] }

macs-Carries_example :
    (IsVerified (GenericHmac.verify crypto generic (everywhere body) body)
      ↔ Carries crypto (everywhere body) "x" crypto.hex_decode (crypto.hmac_sha256 (9 ∷ []) body))
    × (IsVerified (Adyen.verify crypto adyen (everywhere body) body)
        ↔ Carries crypto
            (everywhere body)
            "HmacSignature"
            crypto.base64_decode
            (crypto.hmac_sha256 (9 ∷ []) body))
    × (IsVerified (Bvnk.verify crypto bvnk (everywhere body) body)
        ↔ Carries crypto
            (everywhere body)
            "x-signature"
            crypto.base64_decode
            (crypto.hmac_sha256 (9 ∷ []) body))
macs-Carries_example =
    macs-Carries crypto crypto-ComparesBytes generic adyen bvnk (everywhere body) body
