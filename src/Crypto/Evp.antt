-- ===== src/Crypto/Evp.antt =====
-- What the code uses of OpenSSL, which is not part of this repository: the symmetric cipher
-- AES-256-CBC in its three steps, and the envelopes of `EVP_Seal…` and `EVP_Open…`. A call that
-- reports a failure is `none`. Contexts and keys in OpenSSL's form are of any types.
use cdtp.Common.{ℕ, ◌+◌, ◌≤◌, ◌*◌, ◌/◌, ◌≡◌, ◌<◌, ◌^◌, List, ◌++◌, Option, none, some, length}

pub record Evp (Ctx Pkey : Type 0) : Type 0 where
  -- `EVP_CIPHER_CTX_new`, `EVP_CIPHER_CTX_block_size`
  pub ctx_new : Option (Unit {0})
  pub block_size : ℕ
  -- `EVP_CIPHER_iv_length`
  pub iv_length : ℕ
  -- `EVP_EncryptInit_ex` with a key and a nonce; `EVP_EncryptUpdate`; `EVP_EncryptFinal_ex`. The
  -- macros `EVP_SealUpdate` and `EVP_SealFinal` stand for the last two.
  pub encrypt_init : List ℕ → List ℕ → Option Ctx
  pub encrypt_update : Ctx → List ℕ → Option (List ℕ × Ctx)
  pub encrypt_final : Ctx → Option (List ℕ)
  pub decrypt_init : List ℕ → List ℕ → Option Ctx
  pub decrypt_update : Ctx → List ℕ → Option (List ℕ × Ctx)
  pub decrypt_final : Ctx → Option (List ℕ)
  -- `PEM_read_bio_PUBKEY` and `PEM_read_bio_PrivateKey` on a buffer
  pub read_public : List ℕ → Option Pkey
  pub read_private : List ℕ → Option Pkey
  -- `EVP_PKEY_size`, with `none` for the result 0
  pub pkey_size : Pkey → Option ℕ
  -- `EVP_SealInit`, which draws a key and a nonce from `random`: the encrypted key, the nonce and
  -- the context. `EVP_OpenInit` takes the encrypted key, the nonce and the private key.
  pub seal_init : Pkey → List ℕ → Option (List ℕ × List ℕ × Ctx)
  pub open_init : List ℕ → List ℕ → Pkey → Option Ctx

module _ {Ctx Pkey : Type 0} (evp : Evp Ctx Pkey) where
  open evp use {encrypt_update, encrypt_final, decrypt_update, decrypt_final}

  -- A context that encrypted `plaintext` to `c₁` and `c₂`.
  pub record Encrypts (e : Ctx) (plaintext c₁ c₂ : List ℕ) : Type 0 where
    pub after : Ctx
    pub updated : encrypt_update e plaintext ≡ some (c₁, after)
    pub finished : encrypt_final after ≡ some c₂

  -- A context whose update or final step fails on `plaintext`.
  pub data Refuses (e : Ctx) (plaintext : List ℕ) : Type 0 where
    no_update : encrypt_update e plaintext ≡ none → Refuses e plaintext
    no_final :
        {c₁ : List ℕ} {after : Ctx}
        → encrypt_update e plaintext ≡ some (c₁, after)
        → encrypt_final after ≡ none
        → Refuses e plaintext

  -- A context that decrypts `ciphertext` to `p₁` and `p₂`.
  pub record Decrypts (d : Ctx) (ciphertext p₁ p₂ : List ℕ) : Type 0 where
    pub after : Ctx
    pub updated : decrypt_update d ciphertext ≡ some (p₁, after)
    pub finished : decrypt_final after ≡ some p₂

  -- A context that gives back the plaintext of what `e` encrypted.
  pub record Undoes (d : Ctx) (plaintext ciphertext : List ℕ) : Type 0 where
    pub first : List ℕ
    pub last : List ℕ
    pub decrypts : Decrypts d ciphertext first last
    pub whole : first ++ last ≡ plaintext

-- The documented behaviour: contexts can be had, an update gives less than a block more than it is
-- given, CBC with PKCS padding fills up to the next whole block, and what was encrypted is decrypted under the same key and nonce, and with a private key
-- what was sealed with its public key.
pub record IsEvp {Ctx Pkey : Type 0} (evp : Evp Ctx Pkey) (IsPair : Pkey → Pkey → Type 0)
    : Type 0 where
  pub new : evp.ctx_new ≡ some tt
  pub blocks : evp.block_size ≡ 16
  pub ivs : evp.iv_length ≡ 16
  pub updates :
      (e after : Ctx) (plaintext c₁ : List ℕ)
      → evp.encrypt_update e plaintext ≡ some (c₁, after)
      → length c₁ ≤ length plaintext + 15
  pub sizes :
      (e : Ctx) (plaintext c₁ c₂ : List ℕ)
      → Encrypts evp e plaintext c₁ c₂
      → length c₁ + length c₂ ≡ (length plaintext / 16 + 1) * 16
  pub decrypts :
      (key nonce plaintext c₁ c₂ : List ℕ) (e : Ctx)
      → evp.encrypt_init key nonce ≡ some e
      → Encrypts evp e plaintext c₁ c₂
      → (d : Ctx) × (evp.decrypt_init key nonce ≡ some d) × Undoes evp d plaintext (c₁ ++ c₂)
  pub opens :
      (public private : Pkey) (random encrypted_key nonce plaintext c₁ c₂ : List ℕ) (e : Ctx)
      → IsPair public private
      → evp.seal_init public random ≡ some (encrypted_key, nonce, e)
      → Encrypts evp e plaintext c₁ c₂
      → (d : Ctx) × (evp.open_init encrypted_key nonce private ≡ some d)
        × Undoes evp d plaintext (c₁ ++ c₂)
  -- a nonce has as many bytes as `EVP_CIPHER_iv_length` says, and an encrypted key as many as
  -- `EVP_PKEY_size` at most
  pub envelopes :
      (public : Pkey) (size : ℕ) (random encrypted_key nonce : List ℕ) (e : Ctx)
      → evp.pkey_size public ≡ some size
      → evp.seal_init public random ≡ some (encrypted_key, nonce, e)
      → (length nonce ≡ 16) × (length encrypted_key ≤ size) × (size < 2 ^ 16)

-- What the code uses of OpenSSL to make a pair of keys.
pub record KeyGen (Pkey : Type 0) : Type 0 where
  -- `EVP_RSA_gen` with the size of a key in bits
  pub rsa_gen : ℕ → Option Pkey
  -- `BIO_new` for the public key and for the private one
  pub bio_public : Option (Unit {0})
  pub bio_private : Option (Unit {0})
  -- `PEM_write_bio_PUBKEY` and `PEM_write_bio_PrivateKey` into an empty memory BIO: what it holds
  pub write_public : Pkey → Option (List ℕ)
  pub write_private : Pkey → Option (List ℕ)
  -- `BIO_read` from a memory BIO that holds these bytes: what it reads of the number that is asked
  -- for, and `none` for a result below 1
  pub bio_read : List ℕ → ℕ → Option (List ℕ)

-- The text of a public key and that of a private key, as OpenSSL reads them: both keys of a pair.
pub record Texts {Ctx Pkey : Type 0} (evp : Evp Ctx Pkey) (IsPair : Pkey → Pkey → Type 0)
    (public_text private_text : List ℕ) : Type 0 where
  pub public : Pkey
  pub private : Pkey
  pub bits : ℕ
  pub pair : IsPair public private
  pub reads_public : evp.read_public public_text ≡ some public
  pub has_size : evp.pkey_size public ≡ some bits
  pub reads_private : evp.read_private private_text ≡ some private

-- The documented behaviour: a memory BIO gives all that it holds, and what is written of a key that
-- was generated is read back as the two keys of a pair. A text is neither empty nor of 2 ^ 31 bytes.
pub record IsKeyGen {Ctx Pkey : Type 0} (gen : KeyGen Pkey) (evp : Evp Ctx Pkey)
    (IsPair : Pkey → Pkey → Type 0) : Type 0 where
  pub reads : (text : List ℕ) → 0 < length text → gen.bio_read text (length text) ≡ some text
  pub public_length :
      (key : Pkey) (text : List ℕ)
      → gen.write_public key ≡ some text
      → (0 < length text) × (length text < 2 ^ 31)
  pub private_length :
      (key : Pkey) (text : List ℕ)
      → gen.write_private key ≡ some text
      → (0 < length text) × (length text < 2 ^ 31)
  pub texts :
      (size : ℕ) (key : Pkey) (public_text private_text : List ℕ)
      → gen.rsa_gen size ≡ some key
      → gen.write_public key ≡ some public_text
      → gen.write_private key ≡ some private_text
      → Texts evp IsPair public_text private_text
