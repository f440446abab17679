-- ===== src/Crypto/Rsa.antt =====
-- src/crypto.c, RSA keys, and encryption with them: an envelope with the length of the encrypted key,
-- that key, the nonce and the ciphertext.
mod Envelope
pub mod RoundTrip
pub mod Keys
use cdtp.Common.{
  ℕ, ◌+◌, List, [], Option, none, some, Run, ok, bad_pointer, take, malloc, copy, length,
  ◌then_run◌,
}
use cdtp.Wire.{lensize, encode_message_size, decode_message_size}
use cdtp.Crypto.{CryptoData, crypto_data, pad_data, Padded, unpad_data, sub_size}
use cdtp.Crypto.Attempt.{Attempt, done, null, crash, run, check, ◌>>=◌}
use cdtp.Crypto.Aes.{to_int, int_sum, encrypt_all, decrypt_all}
use cdtp.Crypto.Evp.{Evp, KeyGen}

-- `CDTPRSAPublicKey` and `CDTPRSAPrivateKey`, each in a type of its own
pub record PublicKey : Type 0 where
  pub key : List ℕ
  pub key_size : ℕ

pub record PrivateKey : Type 0 where
  pub key : List ℕ
  pub key_size : ℕ

-- `CDTPRSAKeyPair`
pub record KeyPair : Type 0 where
  pub public_key : PublicKey
  pub private_key : PrivateKey

-- `_cdtp_crypto_rsa_public_key_to_bytes`
unfoldable pub public_key_to_bytes : PublicKey → Run CryptoData
public_key_to_bytes k = crypto_data k.key k.key_size

-- `_cdtp_crypto_rsa_private_key_to_bytes`
unfoldable pub private_key_to_bytes : PrivateKey → Run CryptoData
private_key_to_bytes k = crypto_data k.key k.key_size

-- `_cdtp_crypto_rsa_public_key_from_bytes`
unfoldable pub public_key_from_bytes : List ℕ → ℕ → Run PublicKey
public_key_from_bytes bytes size =
    copy size bytes 0 (malloc size) 0 then_run λ key. ok (record { key = key; key_size = size })

-- `_cdtp_crypto_rsa_private_key_from_bytes`
unfoldable pub private_key_from_bytes : List ℕ → ℕ → Run PrivateKey
private_key_from_bytes bytes size =
    copy size bytes 0 (malloc size) 0 then_run λ key. ok (record { key = key; key_size = size })

-- `CDTP_RSA_KEY_SIZE`
abbrev pub rsa_key_size : ℕ
rsa_key_size = 2048

-- `_cdtp_crypto_rsa_key_pair`
unfoldable pub rsa_key_pair : {Pkey : Type 0} → KeyGen Pkey → Attempt KeyPair
unfolding public_key_from_bytes private_key_from_bytes
rsa_key_pair gen = do
  r ← check (gen.rsa_gen rsa_key_size)
  _ ← check gen.bio_public
  bp_public ← check (gen.write_public r)
  _ ← check gen.bio_private
  bp_private ← check (gen.write_private r)
  let pub_len = length bp_public
  let pri_len = length bp_private
  public_key_bytes ← check (gen.bio_read bp_public pub_len)
  private_key_bytes ← check (gen.bio_read bp_private pri_len)
  public_key ← run (public_key_from_bytes public_key_bytes pub_len)
  private_key ← run (private_key_from_bytes private_key_bytes pri_len)
  done (record { public_key = public_key; private_key = private_key })

module _ {Ctx Pkey : Type 0} (evp : Evp Ctx Pkey) where
  -- `_cdtp_crypto_openssl_rsa_public_key`
  unfoldable pub openssl_rsa_public_key : PublicKey → Attempt Pkey
  openssl_rsa_public_key k = do
    pub_len ← run (to_int k.key_size)
    pub_key ← run (copy pub_len k.key 0 (malloc pub_len) 0)
    check (evp.read_public pub_key)

  -- `_cdtp_crypto_openssl_rsa_private_key`
  unfoldable pub openssl_rsa_private_key : PrivateKey → Attempt Pkey
  openssl_rsa_private_key k = do
    pri_len ← run (to_int k.key_size)
    pri_key ← run (copy pri_len k.key 0 (malloc pri_len) 0)
    check (evp.read_private pri_key)

  -- `_cdtp_crypto_rsa_encrypt`. `random` is what `EVP_SealInit` draws; `beyond` lies behind the copy
  -- of the plaintext. A public key that OpenSSL cannot read has size 0, which fails as well.
  unfoldable pub rsa_encrypt : List ℕ → List ℕ → PublicKey → List ℕ → ℕ → Attempt CryptoData
  unfolding openssl_rsa_public_key
  rsa_encrypt beyond random public_key plaintext plaintext_size = do
    plain ← run (crypto_data plaintext plaintext_size)
    let plaintext_padded = (pad_data beyond plain).padded
    plaintext_len ← run (to_int plaintext_padded.data_size)
    evp_public_key ← openssl_rsa_public_key public_key
    let nonce_len = evp.iv_length
    _ ← check (evp.pkey_size evp_public_key)
    _ ← check evp.ctx_new
    (encrypted_key, nonce, ctx) ← check (evp.seal_init evp_public_key random)
    let encrypted_key_len = length encrypted_key
    ciphertext ← encrypt_all evp ctx plaintext_padded.bytes plaintext_len
    let ciphertext_len = length ciphertext
    all_size ← run (int_sum (lensize + encrypted_key_len + nonce_len + ciphertext_len))
    let encoded_encrypted_key_len = encode_message_size encrypted_key_len
    all₁ ← run (copy lensize encoded_encrypted_key_len 0 (malloc all_size) 0)
    all₂ ← run (copy encrypted_key_len encrypted_key 0 all₁ lensize)
    all₃ ← run (copy nonce_len nonce 0 all₂ (lensize + encrypted_key_len))
    all₄ ← run (copy ciphertext_len ciphertext 0 all₃ (lensize + encrypted_key_len + nonce_len))
    run (crypto_data all₄ all_size)

  -- a key that is handed on though it may be NULL; what OpenSSL does then is not documented
  abbrev handed_on : Attempt Pkey → Attempt Pkey
  handed_on (done k) = done k
  handed_on null = crash bad_pointer
  handed_on (crash e) = crash e

  -- `_cdtp_crypto_rsa_decrypt`
  unfoldable pub rsa_decrypt : PrivateKey → List ℕ → ℕ → Attempt CryptoData
  unfolding openssl_rsa_private_key
  rsa_decrypt private_key all_unsigned ciphertext_size = do
    evp_private_key ← handed_on (openssl_rsa_private_key private_key)
    let nonce_len = evp.iv_length
    encoded_encrypted_key_len ← run (copy lensize all_unsigned 0 (malloc lensize) 0)
    decoded ← run (decode_message_size encoded_encrypted_key_len)
    encrypted_key_len ← run (to_int decoded)
    encrypted_key ← run (copy encrypted_key_len all_unsigned lensize (malloc encrypted_key_len) 0)
    nonce ← run (copy nonce_len all_unsigned (lensize + encrypted_key_len) (malloc nonce_len) 0)
    start ← run (int_sum (lensize + encrypted_key_len + nonce_len))
    ciphertext_len ← run (to_int (sub_size ciphertext_size start))
    ciphertext ← run (copy ciphertext_len all_unsigned start (malloc ciphertext_len) 0)
    _ ← check evp.ctx_new
    ctx ← check (evp.open_init encrypted_key nonce evp_private_key)
    plaintext_unsigned ← decrypt_all evp ctx ciphertext ciphertext_len
    plain ← run (crypto_data plaintext_unsigned (length plaintext_unsigned))
    run (unpad_data plain)
