-- ===== src/Crypto/RoundTrip.antt =====
-- What `decode_object` gives back of what `encode_object` wrote.
use majutsu.Base.{
  ℕ, ◌≤◌, ◌<◌, ◌≡◌, ◌≢◌, inl, inr, refl, Bool, Bool-cases, any, is_empty, length-drop, true, false,
  some, List, [], ◌∷◌, ◌++◌, arith, length, take, drop, Option-cases, length-append, take-append,
  drop-append, ltb, ◌↔◌,
}
use majutsu.Base.Text.{Str, starts_with, str_eq, trim}
use majutsu.Base.Sets.{mem}
use majutsu.Crypto.{
  decode_legacy_envelope, EncryptionMode, plain, age, chacha20poly1305, parse, as_str, enabled,
  enc_magic, age_magic, nonce_len, Ciphers, Keys, encode_legacy_envelope_with_key_hex,
  decode_legacy_envelope_with_key_hex, encode_object, decode_object,
}

-- Documented behaviour of the ciphers: the AEAD opens what it sealed under the same key and nonce, and what it
-- opens is no longer than what was sealed; an age file starts with its version line, is longer than what it
-- holds, and opens with an identity of one of its recipients. `to_public` is the recipient of an identity.
pub record IsLawful (c : Ciphers) : Type 0 where
  pub to_public : Str → Str
  pub unseal-seal :
      (key nonce bytes ciphertext : List ℕ)
      → c.seal key nonce bytes ≡ some ciphertext
      → c.unseal key nonce ciphertext ≡ some bytes
  pub unseal_length :
      (key nonce ciphertext bytes : List ℕ)
      → c.unseal key nonce ciphertext ≡ some bytes
      → length bytes ≤ length ciphertext
  pub age_header :
      (recipients : List Str) (bytes ciphertext : List ℕ)
      → c.age_encrypt recipients bytes ≡ some ciphertext
      → starts_with age_magic ciphertext ≡ true
  pub age_opens :
      (recipients identities : List Str) (bytes ciphertext : List ℕ)
      → c.age_encrypt recipients bytes ≡ some ciphertext
      → any (λ i. mem (to_public i) recipients) identities ≡ true
      → c.age_decrypt identities ciphertext ≡ some bytes
  pub age_length :
      (identities : List Str) (ciphertext bytes : List ℕ)
      → c.age_decrypt identities ciphertext ≡ some bytes
      → length bytes < length ciphertext

-- Where recipients are configured, the file of identities has one that belongs to one of them.
abbrev pub OpensOwn : (Str → Str) → Keys → Type 0
OpensOwn to_public keys =
    (recipients : List Str)
    → keys.recipients ≡ some recipients
    → is_empty recipients ≡ false
    → (identities : List Str) × (keys.identities ≡ some identities)
      × (any (λ i. mem (to_public i) recipients) identities ≡ true)

any_full : (f : Str → Bool) (xs : List Str) → any f xs ≡ true → is_empty xs ≡ false
any_full f [] h = cc
any_full f (x ∷ xs) h = refl

take_nonce :
    (nonce rest : List ℕ) → length nonce ≡ nonce_len → take nonce_len (nonce ++ rest) ≡ nonce
take_nonce nonce rest len = rw (← len) (take-append nonce rest)

drop_nonce :
    (nonce rest : List ℕ) → length nonce ≡ nonce_len → drop nonce_len (nonce ++ rest) ≡ rest
drop_nonce nonce rest len = rw (← len) (drop-append nonce rest)

module _ (c : Ciphers) (keys : Keys) (lawful : IsLawful c) where
  -- The envelope splits at the magic and the nonce, whatever the ciphertext holds.
  legacy_opens :
      (key_hex : Str) (nonce bytes stored : List ℕ)
      → length nonce ≡ nonce_len
      → encode_legacy_envelope_with_key_hex c key_hex nonce bytes ≡ some stored
      → (starts_with age_magic stored ≡ false)
        × (starts_with enc_magic stored ≡ true)
        × (decode_legacy_envelope_with_key_hex c key_hex stored ≡ some bytes)
  unfolding encode_legacy_envelope_with_key_hex decode_legacy_envelope_with_key_hex starts_with
  legacy_opens key_hex nonce bytes stored len h =
      elim (Option-cases (c.hex_decode (trim key_hex))) [
        | inl bad ↦ absurd (ground arith)
        | inr (key, good) ↦ elim (Option-cases (c.seal key nonce bytes)) [
          | inl failed ↦ absurd (ground arith)
          | inr (ciphertext, sealed) ↦
              let e : stored ≡ enc_magic ++ (nonce ++ ciphertext) = ground arith in
              let opened = lawful.unseal-seal key nonce bytes ciphertext sealed in
              let long : ltb (length (enc_magic ++ (nonce ++ ciphertext))) 19 ≡ false =
                ground (arith, length-append nonce ciphertext) in
              rw e (
                refl,
                refl,
                rw (long, good, take_nonce nonce ciphertext len, drop_nonce nonce ciphertext len)
                    opened,
              )
        ]
      ]

  -- `decode_object` returns the bytes that `encode_object` was given, under every mode, where the encoding
  -- succeeds. Conditions: the same key files, with encryption off bytes that start with neither magic, and
  -- under age, where recipients are configured, an identity of one of them.
  pub decode_object-encode_object :
      (mode : EncryptionMode) (nonce bytes : List ℕ) {stored : List ℕ}
      → length nonce ≡ nonce_len
      → (mode ≡ plain
          → (starts_with age_magic bytes ≡ false) × (starts_with enc_magic bytes ≡ false))
      → (mode ≡ age → OpensOwn lawful.to_public keys)
      → encode_object c keys mode nonce bytes ≡ some stored
      → decode_object c keys stored ≡ some bytes
  unfolding encode_object decode_object
  decode_object-encode_object plain nonce bytes len unlike own h = ground (arith, unlike refl)
  decode_object-encode_object chacha20poly1305 nonce bytes {stored} len unlike own h =
      elim (Option-cases keys.master_key) [
        | inl missing ↦ absurd (ground arith)
        | inr (key_hex, found) ↦ ground (arith, legacy_opens key_hex nonce bytes stored len)
      ]
  decode_object-encode_object age nonce bytes {stored} len unlike own h =
      elim (Option-cases keys.recipients) [
        | inl missing ↦ absurd (ground arith)
        | inr ([], found) ↦ elim (Option-cases keys.master_key) [
          | inl missing ↦ absurd (ground arith)
          | inr (key_hex, found') ↦ ground (arith, legacy_opens key_hex nonce bytes stored len)
        ]
        | inr (r ∷ rs, found) ↦ elim (Option-cases (c.age_encrypt (r ∷ rs) bytes)) [
          | inl failed ↦ absurd (ground arith)
          | inr (ciphertext, sealed) ↦
              let header = lawful.age_header (r ∷ rs) bytes ciphertext sealed in
              let (identities, there, one) = own refl (r ∷ rs) found refl in
              let opened = lawful.age_opens (r ∷ rs) identities bytes ciphertext sealed one in
              let full = any_full (λ i. mem (lawful.to_public i) (r ∷ rs)) identities one in
              ground (arith, there, full)
        ]
      ]

  age_not_own :
      (bytes : List ℕ)
      → starts_with age_magic bytes ≡ true
      → decode_object c keys bytes ≢ some bytes
  unfolding decode_object
  age_not_own bytes h e = elim (Option-cases keys.identities) [
    | inl missing ↦ absurd (ground arith)
    | inr (identities, found) ↦ absurd (ground (arith, lawful.age_length identities bytes bytes))
  ]

  legacy_not_own :
      (bytes : List ℕ)
      → starts_with age_magic bytes ≡ false
      → starts_with enc_magic bytes ≡ true
      → decode_object c keys bytes ≢ some bytes
  unfolding decode_object decode_legacy_envelope decode_legacy_envelope_with_key_hex
  legacy_not_own bytes h h' e = elim (Option-cases keys.master_key) [
    | inl missing ↦ absurd (ground arith)
    | inr (key_hex, found) ↦ elim (Option-cases (c.hex_decode (trim key_hex))) [
      | inl bad ↦ absurd (ground arith)
      | inr (key, good) ↦ absurd (
          ground (
            arith,
            lawful.unseal_length key (take nonce_len (drop 7 bytes)) (drop 19 bytes) bytes,
            length-drop 19 bytes,
          ))
    ]
  ]

  -- With encryption off an object is read back exactly when it starts with neither magic: a file that is
  -- itself an age file, or starts like the older envelope, is stored as it is and never read back as it was,
  -- whatever the key files hold.
  pub decode_object-encode_object_plain :
      (nonce bytes stored : List ℕ)
      → encode_object c keys plain nonce bytes ≡ some stored
      → (decode_object c keys stored ≡ some bytes)
        ↔ ((starts_with age_magic bytes ≡ false) × (starts_with enc_magic bytes ≡ false))
  unfolding encode_object
  decode_object-encode_object_plain nonce bytes stored h =
      let same : bytes ≡ stored = cc in
      rw (← same) (
        (λ e. elim (Bool-cases (starts_with age_magic bytes)) [
          | inl a ↦ absurd (age_not_own bytes a e)
          | inr a ↦ elim (Bool-cases (starts_with enc_magic bytes)) [
            | inl b ↦ absurd (legacy_not_own bytes a b e)
            | inr b ↦ (a, b)
          ]
        ]),
        (λ unlike. unfold decode_object in ground (arith, unlike)),
      )

-- `parse` reads back every mode that `as_str` prints, and only `none` is not enabled.
pub parse-as_str :
    (mode : EncryptionMode)
    → (parse (as_str mode) ≡ some mode) × ((enabled mode ≡ false) ↔ (mode ≡ plain))
unfolding parse as_str str_eq enabled
parse-as_str plain = ground arith
parse-as_str age = ground arith
parse-as_str chacha20poly1305 = ground arith
