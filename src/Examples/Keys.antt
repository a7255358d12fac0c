-- ===== src/Examples/Keys.antt =====
-- A cryptography and brokers to try the theorems on.
use hookbox.Prelude.{
  ℕ, String, Bool, true, false, Option, some, List, [], ◌∷◌, ◌==◌, ◌&&◌, ◌≡◌, ◌↔◌, refl, arith,
  ==_iff, ok,
}
use hookbox.Providers.Crypto.{Crypto, ComparesBytes}
use hookbox.Emitters.Brokers.{Brokers, Timed}
use hookbox.Emitters.Local.{Channels}

abbrev pub Headers : Type 0
Headers = String → Option (Option (List ℕ))

abbrev pub same_bytes : List ℕ → List ℕ → Bool
same_bytes [] [] = true
same_bytes [] (y ∷ ys) = false
same_bytes (x ∷ xs) [] = false
same_bytes (x ∷ xs) (y ∷ ys) = (x == y) && same_bytes xs ys

same_bytes_iff : (xs ys : List ℕ) → (same_bytes xs ys ≡ true) ↔ (xs ≡ ys)
same_bytes_iff [] [] = ((λ h. refl), λ h. refl)
same_bytes_iff [] (y ∷ ys) = ((λ h. cc h), λ h. cc h)
same_bytes_iff (x ∷ xs) [] = ((λ h. cc h), λ h. cc h)
same_bytes_iff (x ∷ xs) (y ∷ ys) = ground (arith, ==_iff x y, same_bytes_iff xs ys)

abbrev pub crypto : Crypto Headers (Unit {0}) (Unit {0})
crypto = record {
  get = λ headers name. headers name;
  hex_decode = λ text. some text;
  base64_decode = λ text. some text;
  base64_encode = λ bytes. bytes;
  hmac_sha256 = λ key message. some message;
  ct_eq = same_bytes;
  from_public_key_pem = λ pem. some tt;
  signature_of = λ bytes. some tt;
  rsa_verify = λ key message signature. true;
}

pub crypto-ComparesBytes : ComparesBytes crypto
unfolding ComparesBytes
crypto-ComparesBytes xs ys = same_bytes_iff xs ys

-- The world counts the messages.
abbrev pub brokers : Brokers ℕ (Unit {0}) (Unit {0}) (Unit {0}) ℕ
brokers = record {
  to_vec = λ event. ok (7 ∷ []);
  to_string = λ event. ok "7";
  uuid_text = λ id. "id";
  millis = λ n. "5000";
  timed_out = λ e. false;
  create_producer = λ servers client acks timeout. ok tt;
  send = λ producer topic key payload timeout n. (ok tt, ℕ.suc n);
  connect = λ url n. (ok tt, n);
  publish = λ client subject payload n. (ok tt, ℕ.suc n);
  sqs_client = λ region url n. (tt, n);
  send_message = λ client timeout message n. (Timed.done (ok tt), ℕ.suc n);
  open_redis = λ url. ok tt;
  connect_redis = λ client timeout n. (Timed.elapsed, n);
  xadd = λ conn timeout stream maxlen payload n. (Timed.done (ok tt), ℕ.suc n);
}

abbrev pub channels : Channels ℕ (Unit {0}) (Unit {0}) ℕ
channels = record { channel = λ buffer. (tt, tt); send = λ sender event n. (ok tt, ℕ.suc n) }
