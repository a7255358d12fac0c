-- ===== src/Bootstrap/Built.antt =====
-- The verifiers that crates/hookbox-server/src/bootstrap.rs builds.
use hookbox.Prelude.{
  Option, none, some, ◌≢◌, ◌⊎◌, inl, inr, str_eq_iff, unwrap_or, refl, subst, if◌then◌else◌, pos,
  String, Bool, true, false, List, [], ◌∷◌, Result, ok, map_err, str_eq, ◌≡◌, ◌↔◌, order_by, ◌≤◌,
  ◌≤ℤ◌, arith,
}
use hookbox.Config.Sections.{ProviderConfig, RetryConfig}
use hookbox.Providers.Crypto.{Crypto}
use hookbox.Providers.Boxed.{BoxedVerifier, provider_name}
use hookbox.Bootstrap.Steps.{first_ok, ok_inj, map_err-ok}
use hookbox.Bootstrap.Keys.{
  IsGeneric, HasHeader, Keyed, Built, build_stripe-Built, build_adyen-Built, build_bvnk-Built,
  build_triplea_fiat-Built, build_triplea_crypto-Built, build_walapay-Built, build_generic-Built,
}
use hookbox.Bootstrap.Verifiers.{
  default_header, BootstrapError, build_one_verifier, build_all, build_provider_verifiers, name_le,
  validate_retry_config,
}

-- The retry section is refused exactly when a number of it is below 1.
pub validate_retry_config_iff :
    (retry : RetryConfig)
    → (validate_retry_config retry ≡ ok tt)
      ↔ ((1 ≤ retry.interval_seconds) × (pos 1 ≤ℤ retry.max_attempts))
unfolding validate_retry_config
validate_retry_config_iff retry = ground arith

module _ {Headers Key Signature : Type 0} (p : Crypto Headers Key Signature) where
  -- One verifier for each provider in turn, under its name.
  pub Matches : List (String × ProviderConfig) → List (BoxedVerifier Key) → Type 0
  Matches [] [] = Unit
  Matches [] (v ∷ vs) = ⊥
  Matches (provider ∷ providers) [] = ⊥
  Matches ((name, c) ∷ providers) (v ∷ vs) =
      ((provider_name v ≡ name) × Keyed p c v) × Matches providers vs

  pick :
      {P : Type 0} {v : BoxedVerifier Key} (t known : String)
      {x y : Result (BoxedVerifier Key) BootstrapError}
      → (t ≡ known → x ≡ ok v → P)
      → (t ≢ known → y ≡ ok v → P)
      → (if str_eq t known then x else y) ≡ ok v
      → P
  pick {P} {v} t known {x} {y} f g h = tested (str_eq t known) refl h
    where
      tested : (b : Bool) → str_eq t known ≡ b → (if b then x else y) ≡ ok v → P
      tested true e h = f ((str_eq_iff t known).0 e) h
      tested false e h = g (λ same. cc ((str_eq_iff t known).1 same, e)) h

  header_of-HasHeader :
      (c : ProviderConfig) (name header : String)
      → ((c.verifier_type ≡ "checkout") × (header ≡ "Cko-Signature"))
        ⊎ ((c.verifier_type ≢ "checkout") × (header ≡ default_header name))
      → HasHeader c name (unwrap_or c.header header)
  header_of-HasHeader c name header h = given c.header refl
    where
      given : (o : Option String) → c.header ≡ o → HasHeader c name (unwrap_or o header)
      given none e = inr (e, h)
      given (some x) e = inl e

  build_one_verifier-Built :
      (name : String) (c : ProviderConfig) (v : BoxedVerifier Key)
      → build_one_verifier p name c ≡ ok v
      → Built p name c v
  unfolding build_one_verifier
  build_one_verifier-Built name c v h =
      let t = c.verifier_type in
      pick t "stripe" (build_stripe-Built p name c v)
        (λ s. pick t "adyen" (build_adyen-Built p name c v) (λ a.
          pick t "bvnk" (build_bvnk-Built p name c v) (λ b.
            pick t "triplea-fiat" (build_triplea_fiat-Built p name c v) (λ f.
              pick t "triplea-crypto" (build_triplea_crypto-Built p name c v) (λ k.
                pick t "walapay" (build_walapay-Built p name c v) (λ w.
                  let g : IsGeneric t = record {
                    not_stripe = s;
                    not_adyen = a;
                    not_bvnk = b;
                    not_triplea_fiat = f;
                    not_triplea_crypto = k;
                    not_walapay = w;
                  } in
                  pick t "checkout"
                    (λ e.
                      build_generic-Built p "Cko-Signature" name c v g
                        (header_of-HasHeader c name "Cko-Signature" (inl (e, refl))))
                    (λ n.
                      let built =
                        build_generic-Built p (default_header name) name c v g
                          (header_of-HasHeader c name (default_header name) (inr (n, refl))) in
                      pick t "hmac-sha256" (λ e. built) (λ m. built))))))))
        h

  build_all-Matches :
      (providers : List (String × ProviderConfig)) (vs : List (BoxedVerifier Key))
      → build_all p providers ≡ ok vs
      → Matches providers vs
  unfolding build_all Matches
  build_all-Matches [] [] h = tt
  build_all-Matches [] (v ∷ vs) h = cc h
  build_all-Matches ((name, c) ∷ rest) vs h =
      let (v, built, h') =
        first_ok {A = BoxedVerifier Key}
          (map_err (BootstrapError.in_provider name) (build_one_verifier p name c)) _ vs h in
      let (others, all_built, e) = first_ok (build_all p rest) _ vs h' in
      let matched : Matches ((name, c) ∷ rest) (v ∷ others) = (
        build_one_verifier-Built name c v
            (map_err-ok (BootstrapError.in_provider name) (build_one_verifier p name c) v built),
        build_all-Matches rest others all_built,
      ) in
      let same : v ∷ others ≡ vs = ok_inj e in subst (Matches ((name, c) ∷ rest)) same matched

  -- Where the server starts, it has exactly one verifier for each configured provider, in the order
  -- of the names: it carries the name, is the verifier of the configured type, and its key is what
  -- that type makes of the configured secret or public key, which is not empty; a type without a
  -- verifier of its own has the generic one, with the configured header or else that of the type.
  pub build_provider_verifiers-Matches :
      (providers : List (String × ProviderConfig)) (vs : List (BoxedVerifier Key))
      → build_provider_verifiers p providers ≡ ok vs
      → Matches (order_by (name_le) providers) vs
  unfolding build_provider_verifiers
  build_provider_verifiers-Matches providers vs h =
      build_all-Matches (order_by (name_le) providers) vs h
