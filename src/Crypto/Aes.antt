-- ===== src/Crypto/Aes.antt =====
-- src/crypto.c, encryption with AES-256-CBC. The nonce is sent before the ciphertext.
pub mod Blocks
pub mod RoundTrip
use cdtp.Common.{
  ℕ, ◌+◌, ◌-◌, ◌%◌, ◌^◌, ltb, if◌then◌else◌, List, [], Option, Run, ok, fault, out_of_bounds,
  overflow, take, malloc, copy, ◌then_run◌, length,
}
use cdtp.Crypto.{CryptoData, crypto_data, pad_data, Padded, unpad_data, sub_size}
use cdtp.Crypto.Attempt.{Attempt, done, run, check, ◌>>=◌}
use cdtp.Crypto.Evp.{Evp}

-- `CDTPAESKey`
pub record AesKey : Type 0 where
  pub key : List ℕ
  pub key_size : ℕ

abbrev pub aes_key_size : ℕ
aes_key_size = 32

abbrev pub aes_nonce_size : ℕ
aes_nonce_size = 16

-- `_cdtp_crypto_aes_key`, from what `RAND_bytes` filled the array with
unfoldable pub aes_key : Option (List ℕ) → Attempt AesKey
aes_key random = do
  key_unsigned ← check random
  key ← run (copy aes_key_size key_unsigned 0 (malloc aes_key_size) 0)
  done (record { key = key; key_size = aes_key_size })

-- `_cdtp_crypto_aes_key_from`
unfoldable pub aes_key_from : List ℕ → ℕ → Run AesKey
aes_key_from bytes size =
    copy size bytes 0 (malloc size) 0 then_run λ key. ok (record { key = key; key_size = size })

-- The conversion `(int) n`. The code allocates and copies by the result, so that a negative one is
-- a fault.
unfoldable pub to_int : ℕ → Run ℕ
to_int n = if ltb (n % 2 ^ 32) (2 ^ 31) then ok (n % 2 ^ 32) else fault out_of_bounds

-- A sum of `int`s that are not negative.
unfoldable pub int_sum : ℕ → Run ℕ
int_sum n = if ltb n (2 ^ 31) then ok n else fault overflow

module _ {Ctx Pkey : Type 0} (evp : Evp Ctx Pkey) where
  -- From the block size to the `realloc`: the update and the final step write one behind the other
  -- into a block of `plaintext_len + block_size - 1` bytes.
  unfoldable pub encrypt_all : Ctx → List ℕ → ℕ → Attempt (List ℕ)
  unfolding int_sum
  encrypt_all ctx plaintext_data plaintext_len = do
    room ← run (int_sum (plaintext_len + evp.block_size))
    let block = malloc (room - 1)
    (first, ctx') ← check (evp.encrypt_update ctx (take plaintext_len plaintext_data))
    block₁ ← run (copy (length first) first 0 block 0)
    last ← check (evp.encrypt_final ctx')
    block₂ ← run (copy (length last) last 0 block₁ (length first))
    total ← run (int_sum (length first + length last))
    done (take total block₂)

  -- The same for decryption, into a block of `ciphertext_len` bytes.
  unfoldable pub decrypt_all : Ctx → List ℕ → ℕ → Attempt (List ℕ)
  unfolding int_sum
  decrypt_all ctx ciphertext_data ciphertext_len = do
    let block = malloc ciphertext_len
    (first, ctx') ← check (evp.decrypt_update ctx (take ciphertext_len ciphertext_data))
    block₁ ← run (copy (length first) first 0 block 0)
    last ← check (evp.decrypt_final ctx')
    block₂ ← run (copy (length last) last 0 block₁ (length first))
    total ← run (int_sum (length first + length last))
    done (take total block₂)

  -- `_cdtp_crypto_aes_encrypt`: `random` is what `RAND_bytes` gave, 32 bytes, of which OpenSSL reads
  -- the first 16 as the nonce; of the key it reads 32. `beyond` lies behind the copy of the plaintext.
  unfoldable pub aes_encrypt : List ℕ → Option (List ℕ) → AesKey → List ℕ → ℕ → Attempt CryptoData
  unfolding encrypt_all to_int int_sum
  aes_encrypt beyond random key plaintext plaintext_size = do
    nonce_unsigned ← check random
    plain ← run (crypto_data plaintext plaintext_size)
    let plaintext_padded = (pad_data beyond plain).padded
    plaintext_len ← run (to_int plaintext_padded.data_size)
    _ ← check evp.ctx_new
    key_read ← run (copy aes_key_size key.key 0 (malloc aes_key_size) 0)
    ctx ← check (evp.encrypt_init key_read (take aes_nonce_size nonce_unsigned))
    ciphertext ← encrypt_all ctx plaintext_padded.bytes plaintext_len
    let ciphertext_len = length ciphertext
    all_size ← run (int_sum (aes_nonce_size + ciphertext_len))
    with_nonce ← run (copy aes_nonce_size nonce_unsigned 0 (malloc all_size) 0)
    with_nonce' ← run (copy ciphertext_len ciphertext 0 with_nonce aes_nonce_size)
    run (crypto_data with_nonce' all_size)

  -- `_cdtp_crypto_aes_decrypt`
  unfoldable pub aes_decrypt : AesKey → List ℕ → ℕ → Attempt CryptoData
  unfolding decrypt_all to_int
  aes_decrypt key ciphertext ciphertext_size = do
    nonce_unsigned ← run (copy aes_nonce_size ciphertext 0 (malloc aes_nonce_size) 0)
    let size = sub_size ciphertext_size aes_nonce_size
    ciphertext_data ← run (copy size ciphertext aes_nonce_size (malloc size) 0)
    ciphertext_len ← run (to_int size)
    _ ← check evp.ctx_new
    key_read ← run (copy aes_key_size key.key 0 (malloc aes_key_size) 0)
    ctx ← check (evp.decrypt_init key_read nonce_unsigned)
    plaintext_unsigned ← decrypt_all ctx ciphertext_data ciphertext_len
    plain ← run (crypto_data plaintext_unsigned (length plaintext_unsigned))
    run (unpad_data plain)
