-- ===== src/Transport/Frames.antt =====
-- Frames, which both sides send: the size, then the ciphertext (src/util.c and src/crypto.c), and how
-- one arrives in two calls of `read`.
use cdtp.Common.{
  ℕ, ◌-◌, ◌^◌, ◌≤◌, ◌<◌, ◌≡◌, refl, ◌⊎◌, inl, inr, List, [], ◌++◌, some, ok, out_of_bounds,
  overflow, length, take, drop, malloc, copy_overrun, ltb-cases, arith,
}
use mathlib.Core.List.{append-nil}
use native.Mathlib.Nat.{mod-eq_of_lt}
use cdtp.Wire.{lensize, encode_message_size, decode_message_size, deconstruct_message}
use cdtp.Wire.Message.{construct_message_lem, deconstruct-construct}
use cdtp.Wire.Length.{decode-encode}
use cdtp.Crypto.{CryptoData}
use cdtp.Crypto.Attempt.{done, null, crash}
use cdtp.Crypto.Evp.{Evp, IsEvp}
use cdtp.Crypto.Aes.{AesKey, aes_key_size, aes_encrypt, aes_decrypt}
use cdtp.Crypto.Aes.RoundTrip.{Fails, aes_decrypt-encrypt}
use cdtp.Transport.{Read}

abbrev pub frame_of : List ℕ → List ℕ
frame_of bytes = encode_message_size (length bytes) ++ bytes

deconstruct_frame :
    (bytes : List ℕ)
    → length bytes < 2 ^ 40
    → deconstruct_message (frame_of bytes) ≡ ok (bytes, length bytes)
deconstruct_frame bytes small =
    rw (construct_message_lem bytes, append-nil (encode_message_size (length bytes) ++ bytes)) at
      (deconstruct-construct bytes [] small)

-- the first call of `read`, for the size, and the second, for the rest
abbrev pub size_read : ℕ → List ℕ → Read
size_read errno frame = record { bytes = some (take lensize frame); errno = errno }

abbrev pub body_read : ℕ → List ℕ → Read
body_read errno frame = record { bytes = some (drop lensize frame); errno = errno }

-- the buffer after the first call
abbrev pub filled : List ℕ → List ℕ → List ℕ
filled bytes buffer = encode_message_size (length bytes) ++ drop lensize buffer

pub take-frame_of :
    (bytes : List ℕ) → take lensize (frame_of bytes) ≡ encode_message_size (length bytes)
unfolding encode_message_size
take-frame_of bytes = refl

pub drop-frame_of : (bytes : List ℕ) → drop lensize (frame_of bytes) ≡ bytes
unfolding encode_message_size
drop-frame_of bytes = refl

pub decode-filled :
    (bytes buffer : List ℕ)
    → length bytes < 2 ^ 40
    → decode_message_size (filled bytes buffer) ≡ ok (length bytes)
decode-filled bytes buffer small =
    rw (mod-eq_of_lt small) at (decode-encode (length bytes) (drop lensize buffer))

module _ {Ctx Pkey : Type 0} (evp : Evp Ctx Pkey) where
  -- A ciphertext that is shorter than a nonce is read past its end.
  pub aes_decrypt-short :
      (key : AesKey) (bytes : List ℕ)
      → length bytes < 16
      → aes_decrypt evp key bytes (length bytes) ≡ crash out_of_bounds
  unfolding aes_decrypt
  aes_decrypt-short key bytes short =
      rw (copy_overrun 16 bytes 0 (malloc 16) 0 (omega arith) (omega arith))

module _ {Ctx Pkey : Type 0} (evp : Evp Ctx Pkey) {IsPair : Pkey → Pkey → Type 0}
    (laws : IsEvp evp IsPair) (key : AesKey) (key_whole : length key.key ≡ aes_key_size) where
  -- A frame from which the holder of the key gets the data.
  pub record Carries (bytes frame : List ℕ) : Type 0 where
    pub ciphertext : List ℕ
    pub unframed : deconstruct_message frame ≡ ok (ciphertext, length ciphertext)
    pub decrypted :
        aes_decrypt evp key ciphertext (length ciphertext)
        ≡ done (record { bytes = bytes; data_size = length bytes })
    pub framed : frame ≡ frame_of ciphertext
    pub small : length ciphertext < 2 ^ 40
    pub nonce_in : 16 ≤ length ciphertext

  -- What an encryption gives, as a frame, or how it ends without.
  pub seals :
      (nonce bytes beyond : List ℕ)
      → length nonce ≡ 32
      → length bytes < 2 ^ 31 - 32
      → ((aes_encrypt evp beyond (some nonce) key bytes (length bytes) ≡ null)
          × Fails evp laws key key_whole nonce bytes beyond)
        ⊎ (((aes_encrypt evp beyond (some nonce) key bytes (length bytes) ≡ crash overflow)
              × (length bytes ≡ 2 ^ 31 - 33))
            ⊎ ((c : CryptoData) × (aes_encrypt evp beyond (some nonce) key bytes (length bytes)
                  ≡ done c)
                × (c.data_size ≡ length c.bytes)
                × Carries bytes (frame_of c.bytes)))
  seals nonce bytes beyond drawn small =
      elim (aes_decrypt-encrypt evp laws key key_whole nonce bytes beyond drawn small) [
        | inl failed ↦ inl failed
        | inr (inl long) ↦ inr (inl long)
        | inr (inr (c, ran, size, few, decrypts)) ↦ inr (
            inr (
              c,
              ran,
              size,
              record {
                ciphertext = c.bytes;
                unframed = deconstruct_frame c.bytes (omega arith);
                decrypted = rw size at decrypts;
                framed = refl;
                small = omega arith;
                nonce_in = elim (ltb-cases (length c.bytes) 16) [
                  | inr (ge, _) ↦ ge
                  | inl (lt, _) ↦
                      let crashes = aes_decrypt-short evp key c.bytes lt in
                      let returns = rw size at decrypts in absurd (cc)
                ];
              },
            ))
      ]
