-- ===== src/Crypto/Tests.antt =====
-- Encryption with the cipher of Crypto/Toy.
use cdtp.Crypto.Toy.{toy_gen, toy_gen-IsKeyGen, toy, toy-IsEvp}
use cdtp.Crypto.Rsa.{KeyPair, rsa_key_pair, PublicKey, PrivateKey, rsa_encrypt, rsa_decrypt}
use cdtp.Crypto.Rsa.Keys.{NoKeys, rsa_key_pair-Pair}
use cdtp.Common.{
  ℕ, ◌+◌, ◌^◌, ◌%◌, ◌≤◌, ◌<◌, ◌≡◌, ◌≢◌, refl, ◌⊎◌, List, [], ◌∷◌, ok, length, replicate, take, ◌-◌,
  arith, some, overflow,
}
use cdtp.Crypto.{CryptoData, pad_data, unpad_data}
use cdtp.Crypto.Attempt.{done, null, crash}
use cdtp.Crypto.Padding.{IsWhole, marker, pad_data-overrun, pad_data-size, unpad-pad}
use cdtp.Crypto.Aes.{AesKey, aes_encrypt, aes_decrypt}
use cdtp.Crypto.Aes.RoundTrip.{aes_decrypt-encrypt, Fails as AesFails}
use cdtp.Crypto.Rsa.RoundTrip.{Pair, Fails as RsaFails, rsa_decrypt-encrypt}

abbrev hello : List ℕ
hello = 104 ∷ 105 ∷ []

abbrev hello_data : CryptoData
hello_data = record { bytes = hello; data_size = 2 }

hello_data-IsWhole : IsWhole hello_data
hello_data-IsWhole = record { whole = refl; fits = omega arith }

-- fifteen bytes, which get the longer marker
abbrev fifteen : CryptoData
fifteen = record { bytes = replicate 15 7; data_size = 15 }

fifteen-IsWhole : IsWhole fifteen
fifteen-IsWhole = record { whole = refl; fits = omega arith }

pad_data-overrun_example :
    ((pad_data (8 ∷ 9 ∷ []) fifteen).overrun ≡ take (length (marker 15)) (8 ∷ 9 ∷ []))
    × (length (pad_data (8 ∷ 9 ∷ []) fifteen).overrun ≡ length (marker 15))
    × (0 < length (pad_data (8 ∷ 9 ∷ []) fifteen).overrun)
pad_data-overrun_example = pad_data-overrun (8 ∷ 9 ∷ []) fifteen-IsWhole (omega arith)

pad_data-size_example :
    (15 < (pad_data (8 ∷ 9 ∷ []) fifteen).padded.data_size)
    × ((pad_data (8 ∷ 9 ∷ []) fifteen).padded.data_size ≤ 15 + 2)
    × ((pad_data (8 ∷ 9 ∷ []) fifteen).padded.data_size % 16 ≢ 0)
pad_data-size_example = pad_data-size (8 ∷ 9 ∷ []) fifteen (omega arith)

unpad-pad_example : unpad_data (pad_data (8 ∷ 9 ∷ []) hello_data).padded ≡ ok hello_data
unpad-pad_example = unpad-pad (8 ∷ 9 ∷ []) hello_data-IsWhole (omega arith)

abbrev key : AesKey
key = record { key = replicate 32 5; key_size = 32 }

aes_decrypt-encrypt_example :
    ((aes_encrypt toy (8 ∷ 9 ∷ []) (some (replicate 32 1)) key hello 2 ≡ null)
      × AesFails toy toy-IsEvp key refl (replicate 32 1) hello (8 ∷ 9 ∷ []))
    ⊎ (((aes_encrypt toy (8 ∷ 9 ∷ []) (some (replicate 32 1)) key hello 2 ≡ crash overflow)
          × (2 ≡ 2 ^ 31 - 33))
        ⊎ ((c : CryptoData) × (aes_encrypt toy (8 ∷ 9 ∷ []) (some (replicate 32 1)) key hello 2
              ≡ done c)
            × (c.data_size ≡ length c.bytes)
            × (c.data_size ≤ 2 + 34)
            × (aes_decrypt toy key c.bytes c.data_size ≡ done hello_data)))
aes_decrypt-encrypt_example =
    aes_decrypt-encrypt toy toy-IsEvp key refl (replicate 32 1) hello (8 ∷ 9 ∷ []) refl
      (omega arith)

abbrev public_key : PublicKey
public_key = record { key = 1 ∷ []; key_size = 1 }

abbrev private_key : PrivateKey
private_key = record { key = 2 ∷ []; key_size = 1 }

pair : Pair toy toy-IsEvp public_key private_key
unfolding toy
pair = record {
  public = 0;
  private = 0;
  bits = 2;
  pair = refl;
  public_whole = refl;
  public_small = omega arith;
  reads_public = refl;
  has_size = refl;
  private_whole = refl;
  private_small = omega arith;
  reads_private = refl;
}

rsa_decrypt-encrypt_example :
    ((rsa_encrypt toy (8 ∷ 9 ∷ []) [] public_key hello 2 ≡ null)
      × RsaFails toy toy-IsEvp pair.public [] hello (8 ∷ 9 ∷ []))
    ⊎ ((c : CryptoData) × (rsa_encrypt toy (8 ∷ 9 ∷ []) [] public_key hello 2 ≡ done c)
        × (c.data_size ≡ length c.bytes)
        × (2 < c.data_size)
        × (c.data_size ≤ 2 + 2 ^ 16 + 39)
        × (rsa_decrypt toy private_key c.bytes c.data_size ≡ done hello_data))
rsa_decrypt-encrypt_example =
    rsa_decrypt-encrypt toy toy-IsEvp public_key private_key pair hello (8 ∷ 9 ∷ []) []
      (omega arith)

rsa_key_pair-Pair_example :
    ((rsa_key_pair toy_gen ≡ null) × NoKeys toy toy-IsEvp toy_gen toy_gen-IsKeyGen)
    ⊎ ((keys : KeyPair) × (rsa_key_pair toy_gen ≡ done keys)
        × Pair toy toy-IsEvp keys.public_key keys.private_key
        × (0 < length keys.public_key.key))
rsa_key_pair-Pair_example = rsa_key_pair-Pair toy toy-IsEvp toy_gen toy_gen-IsKeyGen
