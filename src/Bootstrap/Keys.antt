-- ===== src/Bootstrap/Keys.antt =====
-- The verifier and the key that each type of provider gets in crates/hookbox-server/src/bootstrap.rs.
use hookbox.Providers.Adyen.{AdyenVerifier}
use hookbox.Providers.TripleaFiat.{TripleAFiatVerifier}
use hookbox.Providers.Walapay.{keyed-some, WalapayVerifier}
use Prim.Native.String.{◌++◌ as text_append}
use hookbox.Prelude.{
  ◌⊎◌, unwrap_or, Option-cases, ◌∙◌, subst, if◌then◌else◌, ℕ, String, Option, none, some, Bool,
  true, false, List, [], ok, str_eq, ◌≡◌, ◌≢◌, inl, inr, refl, sym, ap, ◌++◌,
}
use hookbox.Config.Sections.{ProviderConfig}
use hookbox.Providers.Crypto.{Crypto}
use hookbox.Providers.Text.{strip_prefix_iff, strip_prefix, as_bytes}
use hookbox.Providers.Boxed.{BoxedVerifier, provider_name}
use hookbox.Providers.Stripe
use hookbox.Providers.TripleaCrypto
use hookbox.Providers.Walapay
use hookbox.Providers.GenericHmac
use hookbox.Providers.Adyen
use hookbox.Providers.Bvnk
use hookbox.Providers.TripleaFiat
use hookbox.Bootstrap.Steps.{first_ok, ok_inj, ok_or-ok, non_empty-ok, some_inj}
use hookbox.Bootstrap.Verifiers.{
  BootstrapError, non_empty, non_empty_secret, build_stripe, build_adyen, build_bvnk,
  build_triplea_fiat, build_triplea_crypto, build_walapay, build_generic, with_optional, ok_or,
}

-- A type that has no verifier of its own.
pub record IsGeneric (t : String) : Type 0 where
  pub not_stripe : t ≢ "stripe"
  pub not_adyen : t ≢ "adyen"
  pub not_bvnk : t ≢ "bvnk"
  pub not_triplea_fiat : t ≢ "triplea-fiat"
  pub not_triplea_crypto : t ≢ "triplea-crypto"
  pub not_walapay : t ≢ "walapay"

-- The header of the generic verifier: the configured one, or that of the type.
abbrev pub HasHeader : ProviderConfig → String → String → Type 0
HasHeader c name header =
    (c.header ≡ some header)
    ⊎ ((c.header ≡ none)
        × (((c.verifier_type ≡ "checkout") × (header ≡ "Cko-Signature"))
            ⊎ ((c.verifier_type ≢ "checkout")
                × (header ≡ text_append "X-" (text_append name "-Signature")))))

-- The verifier is that of the type, and its key comes from a text that is not empty.
module _ {Headers Key Signature : Type 0} (p : Crypto Headers Key Signature) where
  unfoldable pub Keyed : ProviderConfig → BoxedVerifier Key → Type 0
  Keyed c (BoxedVerifier.stripe v) =
      (c.verifier_type ≡ "stripe") × (c.secret ≡ some v.secret) × (v.secret ≢ "")
  Keyed c (BoxedVerifier.triplea_crypto v) =
      (c.verifier_type ≡ "triplea-crypto") × (c.secret ≡ some v.secret) × (v.secret ≢ "")
  Keyed c (BoxedVerifier.adyen v) =
      (c.verifier_type ≡ "adyen")
      × ((s : String) × (c.secret ≡ some s)
          × (s ≢ "")
          × (p.hex_decode (as_bytes s) ≡ some v.key_bytes))
  Keyed c (BoxedVerifier.bvnk v) =
      (c.verifier_type ≡ "bvnk")
      × ((s : String) × (c.secret ≡ some s) × (s ≢ "") × (v.secret ≡ as_bytes s))
  Keyed c (BoxedVerifier.generic_hmac v) =
      IsGeneric c.verifier_type
      × HasHeader c v.provider v.header_name
      × ((s : String) × (c.secret ≡ some s) × (s ≢ "") × (v.secret ≡ as_bytes s))
  Keyed c (BoxedVerifier.triplea_fiat v) =
      (c.verifier_type ≡ "triplea-fiat")
      × ((pem : String) × (c.public_key ≡ some pem)
          × (pem ≢ "")
          × (p.from_public_key_pem pem ≡ some v.verifying_key))
  Keyed c (BoxedVerifier.walapay v) =
      (c.verifier_type ≡ "walapay")
      × ((s : String) × (b64 : List ℕ) × (c.secret ≡ some s)
          × (as_bytes s ≡ as_bytes "whsec_" ++ b64)
          × (p.base64_decode b64 ≡ some v.key)
          × (v.key ≢ []))

  abbrev pub Built : String → ProviderConfig → BoxedVerifier Key → Type 0
  Built name c v = (provider_name v ≡ name) × Keyed c v

  pub build_stripe-Built :
      (name : String) (c : ProviderConfig) (v : BoxedVerifier Key)
      → c.verifier_type ≡ "stripe"
      → build_stripe p name c ≡ ok v
      → Built name c v
  unfolding build_stripe non_empty_secret provider_name Keyed Stripe.new Stripe.with_tolerance
  build_stripe-Built name c v ty h =
      let (s, found, e) = first_ok (non_empty_secret name c) _ v h in
      let (q, n) = non_empty-ok c.secret _ s found in
      subst (Built name c) (ok_inj e) (tuned s q n c.tolerance_seconds)
    where
      tuned :
          (s : String)
          → c.secret ≡ some s
          → s ≢ ""
          → (o : Option ℕ)
          → Built name c
              (BoxedVerifier.stripe (with_optional Stripe.with_tolerance (Stripe.new name s) o))
      tuned s q n none = (refl, (ty, q, n))
      tuned s q n (some t) = (refl, (ty, q, n))

  pub build_triplea_crypto-Built :
      (name : String) (c : ProviderConfig) (v : BoxedVerifier Key)
      → c.verifier_type ≡ "triplea-crypto"
      → build_triplea_crypto p name c ≡ ok v
      → Built name c v
  unfolding build_triplea_crypto provider_name Keyed TripleaCrypto.new TripleaCrypto.with_tolerance
  build_triplea_crypto-Built name c v ty h =
      let (s, found, e) = first_ok (non_empty c.secret (BootstrapError.no_secret name)) _ v h in
      let (q, n) = non_empty-ok c.secret _ s found in
      subst (Built name c) (ok_inj e) (tuned s q n c.tolerance_seconds)
    where
      tuned :
          (s : String)
          → c.secret ≡ some s
          → s ≢ ""
          → (o : Option ℕ)
          → Built name c (
              BoxedVerifier.triplea_crypto
                (with_optional TripleaCrypto.with_tolerance (TripleaCrypto.new name s) o))
      tuned s q n none = (refl, (ty, q, n))
      tuned s q n (some t) = (refl, (ty, q, n))

  pub build_bvnk-Built :
      (name : String) (c : ProviderConfig) (v : BoxedVerifier Key)
      → c.verifier_type ≡ "bvnk"
      → build_bvnk p name c ≡ ok v
      → Built name c v
  unfolding build_bvnk provider_name Keyed Bvnk.new
  build_bvnk-Built name c v ty h =
      let (s, found, e) = first_ok (non_empty c.secret (BootstrapError.no_secret name)) _ v h in
      let (q, n) = non_empty-ok c.secret _ s found in
      subst (Built name c) (ok_inj e) (refl, (ty, (s, q, n, refl)))

  pub build_generic-Built :
      (header name : String) (c : ProviderConfig) (v : BoxedVerifier Key)
      → IsGeneric c.verifier_type
      → HasHeader c name (unwrap_or c.header header)
      → build_generic p header name c ≡ ok v
      → Built name c v
  unfolding build_generic non_empty_secret provider_name Keyed GenericHmac.new
  build_generic-Built header name c v g hd h =
      let (s, found, e) = first_ok (non_empty_secret name c) _ v h in
      let (q, n) = non_empty-ok c.secret _ s found in
      subst (Built name c) (ok_inj e) (refl, (g, hd, (s, q, n, refl)))

  adyen_new :
      (name s : String) (v : AdyenVerifier)
      → Adyen.new p name s ≡ some v
      → (v.provider ≡ name) × (p.hex_decode (as_bytes s) ≡ some v.key_bytes)
  unfolding Adyen.new
  adyen_new name s v h = decode (str_eq s "") (p.hex_decode (as_bytes s)) h
    where
      decode :
          (b : Bool) (o : Option (List ℕ))
          → (if b then none else elim o [
            | none ↦ none
            | some k ↦ some (record { provider = name; key_bytes = k })
          ])
            ≡ some v
          → (v.provider ≡ name) × (o ≡ some v.key_bytes)
      decode true o h = cc h
      decode false none h = cc h
      decode false (some k) h =
          let same = some_inj h in
          (sym (ap (λ w. w.provider) same), ap (λ w. some w.key_bytes) same)

  pub build_adyen-Built :
      (name : String) (c : ProviderConfig) (v : BoxedVerifier Key)
      → c.verifier_type ≡ "adyen"
      → build_adyen p name c ≡ ok v
      → Built name c v
  unfolding build_adyen provider_name Keyed
  build_adyen-Built name c v ty h =
      let (s, found, e) = first_ok (non_empty c.secret (BootstrapError.no_secret name)) _ v h in
      let (q, n) = non_empty-ok c.secret _ s found in
      let (a, made, e') =
        first_ok (ok_or (Adyen.new p name s) (BootstrapError.bad_hex_key name)) _ v e in
      let (named, decoded) = adyen_new name s a (ok_or-ok (Adyen.new p name s) _ a made) in
      subst (Built name c) (ok_inj e') (named, (ty, (s, q, n, decoded)))

  fiat_new :
      (name pem : String) (v : TripleAFiatVerifier Key)
      → TripleaFiat.new p name pem ≡ some v
      → (v.provider ≡ name) × (p.from_public_key_pem pem ≡ some v.verifying_key)
  unfolding TripleaFiat.new
  fiat_new name pem v h = parse (p.from_public_key_pem pem) h
    where
      parse :
          (o : Option Key)
          → elim o [ none ↦ none | some k ↦ some (record { provider = name; verifying_key = k }) ]
            ≡ some v
          → (v.provider ≡ name) × (o ≡ some v.verifying_key)
      parse none h = cc h
      parse (some k) h =
          let same = some_inj h in
          (sym (ap (λ w. w.provider) same), ap (λ w. some w.verifying_key) same)

  pub build_triplea_fiat-Built :
      (name : String) (c : ProviderConfig) (v : BoxedVerifier Key)
      → c.verifier_type ≡ "triplea-fiat"
      → build_triplea_fiat p name c ≡ ok v
      → Built name c v
  unfolding build_triplea_fiat provider_name Keyed
  build_triplea_fiat-Built name c v ty h =
      let (s, found, e) =
        first_ok (non_empty c.public_key (BootstrapError.no_public_key name)) _ v h in
      let (q, n) = non_empty-ok c.public_key _ s found in
      let (a, made, e') =
        first_ok (ok_or (TripleaFiat.new p name s) (BootstrapError.bad_pem name)) _ v e in
      let (named, parsed) = fiat_new name s a (ok_or-ok (TripleaFiat.new p name s) _ a made) in
      subst (Built name c) (ok_inj e') (named, (ty, (s, q, n, parsed)))

  walapay_new :
      (name s : String) (v : WalapayVerifier)
      → Walapay.new p name s ≡ some v
      → (v.provider ≡ name)
        × ((b64 : List ℕ) × (as_bytes s ≡ as_bytes "whsec_" ++ b64)
            × (p.base64_decode b64 ≡ some v.key)
            × (v.key ≢ []))
  unfolding Walapay.new
  walapay_new name s v h = elim (Option-cases (strip_prefix (as_bytes "whsec_") (as_bytes s))) [
    | inl e ↦ cc (rw (e, Walapay.new) at h)
    | inr (b64, e) ↦ elim (Option-cases (p.base64_decode b64)) [
      | inl d ↦ cc (rw (e, d, Walapay.new) at h)
      | inr (key, d) ↦
          let (named, same, filled) = keyed-some name key v (rw (e, d, Walapay.new) at h) in
          (
            named,
            (
              b64,
              (strip_prefix_iff (as_bytes "whsec_") (as_bytes s) b64).0 e,
              d ∙ ap some same,
              filled,
            ),
          )
    ]
  ]

  pub build_walapay-Built :
      (name : String) (c : ProviderConfig) (v : BoxedVerifier Key)
      → c.verifier_type ≡ "walapay"
      → build_walapay p name c ≡ ok v
      → Built name c v
  unfolding build_walapay provider_name Keyed Walapay.with_tolerance
  build_walapay-Built name c v ty h =
      let (s, found, e) = first_ok (non_empty c.secret (BootstrapError.no_secret name)) _ v h in
      let (q, n) = non_empty-ok c.secret _ s found in
      let (a, made, e') =
        first_ok (ok_or (Walapay.new p name s) (BootstrapError.bad_svix_secret name)) _ v e in
      let (named, (b64, stripped, decoded, filled)) =
        walapay_new name s a (ok_or-ok (Walapay.new p name s) _ a made) in
      subst (Built name c) (ok_inj e')
        (tuned a named (ty, (s, b64, q, stripped, decoded, filled)) c.tolerance_seconds)
    where
      tuned :
          (a : WalapayVerifier)
          → a.provider ≡ name
          → Keyed c (BoxedVerifier.walapay a)
          → (o : Option ℕ)
          → Built name c (BoxedVerifier.walapay (with_optional Walapay.with_tolerance a o))
      tuned a named k none = (named, k)
      tuned a named k (some t) = (named, k)
