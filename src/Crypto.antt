-- ===== src/Crypto.antt =====
-- The object envelope of crates/majutsu-crypto/src/lib.rs: `EncryptionMode`, `encode_object` and
-- `decode_object`. An error and a panic are `none`; the texts of error messages are left out.

pub mod Tests
pub mod RoundTrip
pub mod Envelope
use majutsu.Base.{
  ℕ, ◌+◌, ◌≡◌, Bool, true, false, not, Option, none, some, List, [], ◌∷◌, ◌++◌, ltb, ◌==◌,
  if◌then◌else◌, length, take, drop, is_empty,
}
use majutsu.Base.Text.{Str, codes, str_eq, starts_with, trim}

pub data EncryptionMode : Type 0 where
  plain age chacha20poly1305 : EncryptionMode

pub parse : Str → Option EncryptionMode
parse value =
    if str_eq value (codes "")
    then some plain
    else if str_eq value (codes "none")
    then some plain
    else if str_eq value (codes "age")
    then some age
    else if str_eq value (codes "chacha20poly1305")
    then some chacha20poly1305
    else none

unfoldable pub enabled : EncryptionMode → Bool
enabled plain = false
enabled age = true
enabled chacha20poly1305 = true

pub as_str : EncryptionMode → Str
as_str plain = codes "none"
as_str age = codes "age"
as_str chacha20poly1305 = codes "chacha20poly1305"

infixl 5 ◌>>=◌
abbrev pub ◌>>=◌ {ℓ κ} : {A : Type ℓ} {B : Type κ} → Option A → (A → Option B) → Option B
none >>= f = none
some a >>= f = f a

abbrev pub enc_magic : List ℕ
enc_magic = codes "MJENC1\n"

abbrev pub age_magic : List ℕ
age_magic = codes "age-encryption.org/v1"

abbrev pub nonce_len : ℕ
nonce_len = 12

-- What the third-party crates do (`chacha20poly1305`, `hex`, `age`), on bytes.
pub record Ciphers : Type 0 where
  pub hex_decode : Str → Option (List ℕ)
  pub seal : List ℕ → List ℕ → List ℕ → Option (List ℕ)
  pub unseal : List ℕ → List ℕ → List ℕ → Option (List ℕ)
  pub age_encrypt : List Str → List ℕ → Option (List ℕ)
  pub age_decrypt : List Str → List ℕ → Option (List ℕ)

-- What is read from the key files: `none` where a file is missing or malformed.
pub record Keys : Type 0 where
  pub master_key : Option Str
  pub recipients : Option (List Str)
  pub identities : Option (List Str)

module _ (c : Ciphers) where
  -- `encode_legacy_envelope_with_key_hex`; the nonce is drawn at random.
  unfoldable pub encode_legacy_envelope_with_key_hex : Str → List ℕ → List ℕ → Option (List ℕ)
  encode_legacy_envelope_with_key_hex key_hex nonce bytes = do
    key ← c.hex_decode (trim key_hex)
    ciphertext ← c.seal key nonce bytes
    some (enc_magic ++ (nonce ++ ciphertext))

  unfoldable pub decode_legacy_envelope_with_key_hex : Str → List ℕ → Option (List ℕ)
  decode_legacy_envelope_with_key_hex key_hex bytes =
      let start = length enc_magic in
      if ltb (length bytes) (start + nonce_len) then none else do
        key ← c.hex_decode (trim key_hex)
        c.unseal key (take nonce_len (drop start bytes)) (drop (start + nonce_len) bytes)

  -- The outer `none` is an error, the inner one that no recipient is configured.
  age_encrypt_object : Keys → List ℕ → Option (Option (List ℕ))
  age_encrypt_object keys bytes = do
    recipients ← keys.recipients
    if is_empty recipients
        then some none
        else do ciphertext ← c.age_encrypt recipients bytes; some (some ciphertext)

  age_decrypt_object : Keys → List ℕ → Option (List ℕ)
  age_decrypt_object keys bytes = do
    identities ← keys.identities
    if is_empty identities then none else c.age_decrypt identities bytes

  unfoldable pub encode_legacy_envelope : Keys → List ℕ → List ℕ → Option (List ℕ)
  unfolding encode_legacy_envelope_with_key_hex
  encode_legacy_envelope keys nonce bytes = do
    key_hex ← keys.master_key
    encode_legacy_envelope_with_key_hex key_hex nonce bytes

  unfoldable pub decode_legacy_envelope : Keys → List ℕ → Option (List ℕ)
  unfolding decode_legacy_envelope_with_key_hex
  decode_legacy_envelope keys bytes = do
    key_hex ← keys.master_key
    decode_legacy_envelope_with_key_hex key_hex bytes

  unfoldable pub encode_object : Keys → EncryptionMode → List ℕ → List ℕ → Option (List ℕ)
  unfolding age_encrypt_object encode_legacy_envelope
  encode_object keys plain nonce bytes = some bytes
  encode_object keys age nonce bytes = do
    sealed ← age_encrypt_object keys bytes
    elim sealed [
      | some ciphertext ↦ some ciphertext
      | none ↦ encode_legacy_envelope keys nonce bytes
    ]
  encode_object keys chacha20poly1305 nonce bytes = encode_legacy_envelope keys nonce bytes

  unfoldable pub decode_object : Keys → List ℕ → Option (List ℕ)
  unfolding age_decrypt_object decode_legacy_envelope
  decode_object keys bytes =
      if starts_with age_magic bytes
      then age_decrypt_object keys bytes
      else if not (starts_with enc_magic bytes)
      then some bytes
      else decode_legacy_envelope keys bytes
