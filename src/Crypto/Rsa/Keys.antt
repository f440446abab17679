-- ===== src/Crypto/Rsa/Keys.antt =====
-- `_cdtp_crypto_rsa_key_pair` of src/crypto.c: the keys that it makes.
use cdtp.Common.{ℕ, ◌<◌, ◌≡◌, refl, ◌⊎◌, inl, inr, List, none, length, copy_whole, Option-cases}
use cdtp.Crypto.Attempt.{done, null}
use cdtp.Crypto.Evp.{Evp, IsEvp, KeyGen, IsKeyGen}
use cdtp.Crypto.Rsa.{
  KeyPair, rsa_key_size, rsa_key_pair, public_key_from_bytes, private_key_from_bytes,
}
use cdtp.Crypto.Rsa.RoundTrip.{Pair}

-- the keys with these texts
abbrev pub key_pair : List ℕ → List ℕ → KeyPair
key_pair public_text private_text = record {
  public_key = record { key = public_text; key_size = length public_text };
  private_key = record { key = private_text; key_size = length private_text };
}

module _ {Ctx Pkey : Type 0} (evp : Evp Ctx Pkey) {IsPair : Pkey → Pkey → Type 0}
    (laws : IsEvp evp IsPair) (gen : KeyGen Pkey) (gen_laws : IsKeyGen gen evp IsPair) where
  -- A call of OpenSSL fails on the way to the two texts.
  pub data NoKeys : Type 0 where
    no_key : gen.rsa_gen rsa_key_size ≡ none → NoKeys
    no_bio_public : gen.bio_public ≡ none → NoKeys
    no_bio_private : gen.bio_private ≡ none → NoKeys
    no_public : (key : Pkey) → gen.write_public key ≡ none → NoKeys
    no_private : (key : Pkey) → gen.write_private key ≡ none → NoKeys

  -- The function returns NULL, since a call of OpenSSL fails; or two keys that OpenSSL reads as a pair,
  -- each with its text whole and its size below 2 ^ 31, the public one not empty. Nothing is read or
  -- written out of bounds. OpenSSL is taken to keep to the laws of `IsEvp` and `IsKeyGen`.
  pub rsa_key_pair-Pair :
      ((rsa_key_pair gen ≡ null) × NoKeys)
      ⊎ ((keys : KeyPair) × (rsa_key_pair gen ≡ done keys)
          × Pair evp laws keys.public_key keys.private_key
          × (0 < length keys.public_key.key))
  unfolding rsa_key_pair public_key_from_bytes private_key_from_bytes
  rsa_key_pair-Pair = elim (Option-cases (gen.rsa_gen rsa_key_size)) [
    | inl e ↦ inl (rw e, no_key e)
    | inr (key, e) ↦ elim (Option-cases gen.bio_public) [
      | inl b ↦ inl (rw (e, b), no_bio_public b)
      | inr (_, b) ↦ elim (Option-cases (gen.write_public key)) [
        | inl p ↦ inl (rw (e, b, p), no_public key p)
        | inr (public_text, p) ↦ elim (Option-cases gen.bio_private) [
          | inl b' ↦ inl (rw (e, b, p, b'), no_bio_private b')
          | inr (_, b') ↦ elim (Option-cases (gen.write_private key)) [
            | inl q ↦ inl (rw (e, b, p, b', q), no_private key q)
            | inr (private_text, q) ↦
                let (some_public, public_small) = gen_laws.public_length key public_text p in
                let (some_private, private_small) = gen_laws.private_length key private_text q in
                let t = gen_laws.texts rsa_key_size key public_text private_text e p q in
                inr (
                  key_pair public_text private_text,
                  rw (
                    e,
                    b,
                    p,
                    b',
                    q,
                    gen_laws.reads public_text some_public,
                    gen_laws.reads private_text some_private,
                    copy_whole public_text refl,
                    copy_whole private_text refl,
                  ),
                  record {
                    public = t.public;
                    private = t.private;
                    bits = t.bits;
                    pair = t.pair;
                    public_whole = refl;
                    public_small = public_small;
                    reads_public = t.reads_public;
                    has_size = t.has_size;
                    private_whole = refl;
                    private_small = private_small;
                    reads_private = t.reads_private;
                  },
                  some_public,
                )
          ]
        ]
      ]
    ]
  ]
