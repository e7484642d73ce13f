-- ===== src/Crypto/Tests.antt =====
-- Toy ciphers that keep the documented laws, and runs of the envelope.
use majutsu.Base.{
  ℕ, ◌≤◌, ◌<◌, ◌≡◌, ◌↔◌, refl, sym, true, false, Bool-cases, inl, inr, none, some, List, [], ◌∷◌,
  ◌++◌, if◌then◌else◌, arith, length, drop, length-drop,
}
use majutsu.Base.Text.{Str, codes, str_eq, starts_with}
use majutsu.Base.Sets.{mem}
use majutsu.Crypto.{age, age_magic, enc_magic, Ciphers, Keys, encode_object, decode_object}
use majutsu.Crypto.RoundTrip.{
  IsLawful, OpensOwn, decode_object-encode_object, decode_object-encode_object_plain,
}

-- A recipient is its identity, and an age file is its version line and the text.
abbrev pub ciphers : Ciphers
ciphers = record {
  hex_decode = λ s. some s;
  seal = λ key nonce bytes. some bytes;
  unseal = λ key nonce bytes. some bytes;
  age_encrypt = λ recipients bytes. some (age_magic ++ bytes);
  age_decrypt =
      λ identities bytes. if starts_with age_magic bytes then some (drop 21 bytes) else none;
}

abbrev pub keys : Keys
keys = record {
  master_key = some (codes "0a");
  recipients = some (codes "ada" ∷ []);
  identities = some (codes "bob" ∷ codes "ada" ∷ []);
}

starts_with-length : (p s : Str) → starts_with p s ≡ true → length p ≤ length s
unfolding starts_with
starts_with-length [] s h = omega arith
starts_with-length (c ∷ p) [] h = absurd (cc h)
starts_with-length (c ∷ p) (d ∷ s) h = ground (arith, starts_with-length p s)

opened_shorter :
    (ciphertext bytes : List ℕ)
    → (if starts_with age_magic ciphertext then some (drop 21 ciphertext) else none) ≡ some bytes
    → length bytes < length ciphertext
opened_shorter ciphertext bytes h = elim (Bool-cases (starts_with age_magic ciphertext)) [
  | inl e ↦
      let long : 21 ≤ length ciphertext = starts_with-length age_magic ciphertext e in
      ground (arith, h, length-drop 21 ciphertext)
  | inr e ↦ absurd (ground (arith, h))
]

pub ciphers-IsLawful : IsLawful ciphers
unfolding starts_with
ciphers-IsLawful = record {
  to_public = λ i. i;
  unseal-seal = λ key nonce bytes ciphertext h. sym h;
  unseal_length = λ key nonce ciphertext bytes h. ground (arith, h);
  age_header = λ recipients bytes ciphertext h. ground (arith, h);
  age_opens = λ recipients identities bytes ciphertext h one. ground (arith, h);
  age_length = λ identities ciphertext bytes h. opened_shorter ciphertext bytes h;
}

abbrev pub nonce : List ℕ
nonce = 0 ∷ 1 ∷ 2 ∷ 3 ∷ 4 ∷ 5 ∷ 6 ∷ 7 ∷ 8 ∷ 9 ∷ 10 ∷ 11 ∷ []

keys-OpensOwn : OpensOwn ciphers-IsLawful.to_public keys
unfolding ciphers-IsLawful mem str_eq
keys-OpensOwn recipients h full =
    let e : codes "ada" ∷ [] ≡ recipients = cc h in
    (codes "bob" ∷ codes "ada" ∷ [], refl, rw (← e) refl)

decode_object-encode_object_example :
    decode_object ciphers keys (age_magic ++ codes "text") ≡ some (codes "text")
unfolding encode_object
decode_object-encode_object_example =
    decode_object-encode_object ciphers keys ciphers-IsLawful age nonce (codes "text") refl
      (λ e. absurd (cc e)) (λ e. keys-OpensOwn) refl

decode_object-encode_object_plain_example :
    (decode_object ciphers keys (age_magic ++ codes "\nnotes")
      ≡ some (age_magic ++ codes "\nnotes"))
    ↔ ((starts_with age_magic (age_magic ++ codes "\nnotes") ≡ false)
        × (starts_with enc_magic (age_magic ++ codes "\nnotes") ≡ false))
unfolding encode_object
decode_object-encode_object_plain_example =
    decode_object-encode_object_plain ciphers keys ciphers-IsLawful nonce
      (age_magic ++ codes "\nnotes") (age_magic ++ codes "\nnotes") refl
