-- ===== src/Client/Messages.antt =====
-- `cdtp_client_send` of src/client.c: what reaches the other side.
use cdtp.Common.{
  ℕ, ◌-◌, ◌^◌, ◌<◌, ◌≡◌, ◌⊎◌, inl, inr, true, List, [], ◌∷◌, ◌++◌, none, some, ok, fault,
  bad_pointer, overflow, length,
}
use cdtp.Errors.{client_send_failed}
use cdtp.Wire.{encode_message_size}
use cdtp.Wire.Message.{construct_message_lem}
use cdtp.Crypto.{CryptoData}
use cdtp.Crypto.Attempt.{done, null, crash}
use cdtp.Crypto.Evp.{Evp, IsEvp}
use cdtp.Crypto.Aes.{AesKey, aes_key_size, aes_encrypt}
use cdtp.Crypto.Aes.RoundTrip.{Fails}
use cdtp.Transport.Frames.{frame_of, Carries, seals}
use cdtp.Transport.{Failure, Effect, set_error, send}
use cdtp.Client.{Client, send_data}

-- what a call of `send` that fails leads to
abbrev pub reports : Failure → List Effect
reports none = []
reports (some errno) = set_error client_send_failed errno ∷ []

module _ {Ctx Pkey : Type 0} (evp : Evp Ctx Pkey) {IsPair : Pkey → Pkey → Type 0}
    (laws : IsEvp evp IsPair) (key : AesKey) (key_whole : length key.key ≡ aes_key_size) where
  pub send_data-encrypted :
      (beyond nonce bytes : List ℕ) (failure : Failure) (c : Client) (sealed : CryptoData)
      → c.connected ≡ true
      → c.key ≡ some key
      → aes_encrypt evp beyond (some nonce) key bytes (length bytes) ≡ done sealed
      → sealed.data_size ≡ length sealed.bytes
      → send_data evp beyond (some nonce) failure bytes (length bytes) c
        ≡ ok (
            send c.sock (encode_message_size (length sealed.bytes) ++ sealed.bytes)
            ∷ reports failure)
  unfolding send_data
  send_data-encrypted beyond nonce bytes none c sealed on has ran size =
      simp (on, has, ran, size, construct_message_lem sealed.bytes)
  send_data-encrypted beyond nonce bytes (some errno) c sealed on has ran size =
      simp (on, has, ran, size, construct_message_lem sealed.bytes)

  send_data-null :
      (beyond nonce bytes : List ℕ) (failure : Failure) (c : Client)
      → c.connected ≡ true
      → c.key ≡ some key
      → aes_encrypt evp beyond (some nonce) key bytes (length bytes) ≡ null
      → send_data evp beyond (some nonce) failure bytes (length bytes) c ≡ fault bad_pointer
  unfolding send_data
  send_data-null beyond nonce bytes failure c on has ran = simp (on, has, ran)

  send_data-overflow :
      (beyond nonce bytes : List ℕ) (failure : Failure) (c : Client)
      → c.connected ≡ true
      → c.key ≡ some key
      → aes_encrypt evp beyond (some nonce) key bytes (length bytes) ≡ crash overflow
      → send_data evp beyond (some nonce) failure bytes (length bytes) c ≡ fault overflow
  unfolding send_data
  send_data-overflow beyond nonce bytes failure c on has ran = simp (on, has, ran)

  -- `cdtp_client_send` of fewer than 2 ^ 31 - 32 bytes by a connected client with a key of 32
  -- bytes, with 32 random bytes drawn, hands `send` one frame, from which the framing and
  -- decryption under that key give the data back, and reports a failure of `send`; or it uses a
  -- NULL pointer, since a call of OpenSSL fails; or an `int` overflows, for 2 ^ 31 - 33 bytes only. OpenSSL is taken to keep to the laws of `IsEvp`.
  pub send_data-Carries :
      (beyond nonce bytes : List ℕ) (failure : Failure) (c : Client)
      → length nonce ≡ 32
      → length bytes < 2 ^ 31 - 32
      → c.connected ≡ true
      → c.key ≡ some key
      → ((send_data evp beyond (some nonce) failure bytes (length bytes) c ≡ fault bad_pointer)
          × Fails evp laws key key_whole nonce bytes beyond)
        ⊎ (((send_data evp beyond (some nonce) failure bytes (length bytes) c ≡ fault overflow)
              × (length bytes ≡ 2 ^ 31 - 33))
            ⊎ ((frame : List ℕ) × (send_data evp beyond (some nonce) failure bytes (length bytes) c
                  ≡ ok (send c.sock frame ∷ reports failure))
                × Carries evp laws key key_whole bytes frame))
  send_data-Carries beyond nonce bytes failure c drawn small on has =
      elim (seals evp laws key key_whole nonce bytes beyond drawn small) [
        | inl (ran, why) ↦ inl (send_data-null beyond nonce bytes failure c on has ran, why)
        | inr (inl (ran, long)) ↦
            inr (inl (send_data-overflow beyond nonce bytes failure c on has ran, long))
        | inr (inr (sealed, ran, size, carries)) ↦ inr (
            inr (
              frame_of sealed.bytes,
              send_data-encrypted beyond nonce bytes failure c sealed on has ran size,
              carries,
            ))
      ]
