-- ===== src/Providers.antt =====
-- crates/hookbox-providers/src: the signature verifiers.
pub mod Crypto
pub mod Text
pub mod Fields
pub mod Stripe
pub mod TripleaCrypto
pub mod Walapay
pub mod GenericHmac
pub mod Adyen
pub mod Bvnk
pub mod TripleaFiat
pub mod Timestamped
pub mod StripeAccepts
pub mod TripleaAccepts
pub mod Svix
pub mod Plain
pub mod Boxed
