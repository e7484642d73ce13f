-- ===== src/Crypto/Envelope.antt =====
-- The envelope as the object store sees it: `encode_object` and `decode_object` of src/main.rs for
-- one mode and one set of key files, with the texts that survive the round trip.
use majutsu.Base.{ℕ, ◌≡◌, Bool, true, not, ◌&&◌, ◌||◌, Option, some, List, arith, length}
use majutsu.Base.Text.{starts_with}
use majutsu.Crypto.{
  EncryptionMode, age, enabled, enc_magic, age_magic, nonce_len, Ciphers, Keys, encode_object,
  decode_object,
}
use majutsu.Crypto.RoundTrip.{IsLawful, OpensOwn, decode_object-encode_object}

pub record Envelope : Type 0 where
  pub encode : List ℕ → Option (List ℕ)
  pub decode : List ℕ → Option (List ℕ)
  pub is_storable : List ℕ → Bool
  pub decode-encode :
      (bytes : List ℕ) {stored : List ℕ}
      → is_storable bytes ≡ true
      → encode bytes ≡ some stored
      → decode stored ≡ some bytes

abbrev pub storable : EncryptionMode → List ℕ → Bool
storable mode bytes =
    enabled mode || (not (starts_with age_magic bytes) && not (starts_with enc_magic bytes))

module _ (c : Ciphers) (keys : Keys) (lawful : IsLawful c) (mode : EncryptionMode) (nonce : List ℕ)
    (len : length nonce ≡ nonce_len) (own : mode ≡ age → OpensOwn lawful.to_public keys) where
  pub storable_round_trip :
      (bytes : List ℕ) {stored : List ℕ}
      → storable mode bytes ≡ true
      → encode_object c keys mode nonce bytes ≡ some stored
      → decode_object c keys stored ≡ some bytes
  unfolding enabled
  storable_round_trip bytes ok h =
      decode_object-encode_object c keys lawful mode nonce bytes len (λ e. ground arith) own h

  -- The cryptography of the source fills the interface.
  unfoldable pub object_envelope : Envelope
  object_envelope = record {
    encode = encode_object c keys mode nonce;
    decode = decode_object c keys;
    is_storable = storable mode;
    decode-encode = storable_round_trip;
  }
