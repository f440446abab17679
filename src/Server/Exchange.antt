-- ===== src/Server/Exchange.antt =====
-- The two sides of a key exchange: `_cdtp_server_exchange_keys` of src/server.c with
-- `_cdtp_client_exchange_keys` of src/client.c.
use cdtp.Common.{
  ℕ, ◌^◌, ◌<◌, ◌≡◌, refl, sym, ap, ◌∙◌, ◌⊎◌, inl, inr, true, List, [], ◌∷◌, ◌++◌, Option, none,
  some, ok, fault, bad_pointer, length, drop, copy_whole, arith,
}
use cdtp.Wire.{encode_message_size, decode_message_size}
use cdtp.Wire.Length.{decode-encode}
use native.Mathlib.Nat.{mod-eq_of_lt}
use cdtp.Wire.Message.{construct_message_lem}
use cdtp.Crypto.{CryptoData}
use cdtp.Crypto.Attempt.{done, null}
use cdtp.Crypto.Evp.{Evp, IsEvp}
use cdtp.Crypto.Aes.{AesKey, aes_key_size, aes_key, aes_key_from}
use cdtp.Crypto.Rsa.{
  PublicKey, PrivateKey, public_key_to_bytes, public_key_from_bytes, rsa_encrypt, rsa_decrypt,
}
use cdtp.Crypto.Rsa.RoundTrip.{Pair, Fails, rsa_decrypt-encrypt}
use cdtp.Crypto.Padding.{crypto_data_lem}
use cdtp.Transport.{Read, send, message, receive_key, receive_body}
use cdtp.Client.{Client, ExchangeCalls, key_sent, answer_key, exchange_keys}
use cdtp.Server.{ServerCalls, take_key, key_offered, exchange_keys_server}

-- a key of the drawn bytes
abbrev pub drawn_key : List ℕ → AesKey
drawn_key random = record { key = random; key_size = aes_key_size }

pub receive_key_lem :
    (buffer : List ℕ) (first second : Read) (x : ℕ) (xs : List ℕ) {n : ℕ}
    → first.bytes ≡ some (x ∷ xs)
    → decode_message_size ((x ∷ xs) ++ drop (length (x ∷ xs)) buffer) ≡ ok n
    → receive_key buffer first second ≡ ok (receive_body n second)
unfolding receive_key
receive_key_lem buffer first second x xs e d = rw (receive_key, e, d)

receive_body_lem :
    (second : Read) (bytes : List ℕ)
    → 0 < length bytes
    → second.bytes ≡ some bytes
    → receive_body (length bytes) second ≡ message bytes (length bytes)
unfolding receive_body
receive_body_lem second [] some_bytes e = absurd (omega arith)
receive_body_lem second (b ∷ bytes) some_bytes e = ground (arith, e)

-- Two reads that get a whole frame.
receives :
    (buffer bytes : List ℕ) (first second : Read)
    → 0 < length bytes
    → length bytes < 2 ^ 40
    → first.bytes ≡ some (encode_message_size (length bytes))
    → second.bytes ≡ some bytes
    → receive_key buffer first second ≡ ok (message bytes (length bytes))
unfolding encode_message_size
receives buffer bytes first second some_bytes small e₁ e₂ =
    receive_key_lem buffer first second _ _ e₁
      (decode-encode (length bytes) (drop 5 buffer) ∙ ap ok (mod-eq_of_lt small))
    ∙ ap ok (receive_body_lem second bytes some_bytes e₂)

module _ {Ctx Pkey : Type 0} (evp : Evp Ctx Pkey) {IsPair : Pkey → Pkey → Type 0}
    (laws : IsEvp evp IsPair) (public_key : PublicKey) (private_key : PrivateKey)
    (keys : Pair evp laws public_key private_key) where
  -- The server offers its public key in one frame, before it waits for an answer.
  offers :
      (calls : ServerCalls) (sock : Option ℕ)
      → calls.rsa_keys ≡ some (record { public_key = public_key; private_key = private_key })
      → exchange_keys_server evp calls sock
        ≡ key_offered evp calls private_key
            (send sock (encode_message_size (length public_key.key) ++ public_key.key))
            calls.send_failure
  unfolding exchange_keys_server public_key_to_bytes
  offers calls sock has = rw (
    has,
    keys.public_whole,
    crypto_data_lem public_key.key refl,
    construct_message_lem public_key.key,
  )

  reads_public : public_key_from_bytes public_key.key (length public_key.key) ≡ ok public_key
  unfolding public_key_from_bytes
  reads_public =
      rw (copy_whole public_key.key refl)
        (ap (λ n. ok (record { key = public_key.key; key_size = n })) (sym keys.public_whole))

  makes :
      (random : List ℕ)
      → length random ≡ aes_key_size
      → aes_key (some random) ≡ done (drawn_key random)
  unfolding aes_key
  makes random whole = rw (copy_whole random (sym whole))

  answers :
      (calls : ExchangeCalls) (c : Client) (random : List ℕ) (sealed : CryptoData)
      → calls.key_random ≡ some random
      → length random ≡ aes_key_size
      → rsa_encrypt evp calls.beyond calls.seal_random public_key random (length random)
        ≡ done sealed
      → sealed.data_size ≡ length sealed.bytes
      → answer_key evp calls c (message public_key.key (length public_key.key))
        ≡ ok (
            key_sent c
              (drawn_key random)
              (encode_message_size (length sealed.bytes) ++ sealed.bytes)
              calls.send_failure)
  unfolding answer_key
  answers calls c random sealed drawn whole ran size = rw (
    drawn,
    reads_public,
    makes random whole,
    rw whole at ran,
    size,
    construct_message_lem sealed.bytes,
  )

  refused :
      (calls : ExchangeCalls) (c : Client) (random : List ℕ)
      → calls.key_random ≡ some random
      → length random ≡ aes_key_size
      → rsa_encrypt evp calls.beyond calls.seal_random public_key random (length random) ≡ null
      → answer_key evp calls c (message public_key.key (length public_key.key)) ≡ fault bad_pointer
  unfolding answer_key
  refused calls c random drawn whole ran =
      rw (drawn, reads_public, makes random whole, rw whole at ran)

  takes :
      (random : List ℕ) (sealed : CryptoData)
      → length random ≡ aes_key_size
      → rsa_decrypt evp private_key sealed.bytes sealed.data_size
        ≡ done (record { bytes = random; data_size = length random })
      → sealed.data_size ≡ length sealed.bytes
      → take_key evp private_key (message sealed.bytes (length sealed.bytes))
        ≡ ok (some (drawn_key random), [])
  unfolding take_key aes_key_from
  takes random sealed whole ran size = rw (← size, take_key, ran, copy_whole random refl, whole)

  -- the server's calls when it gets a whole frame of `bytes`
  abbrev pub frame_arrives : List ℕ → ℕ → List ℕ → ServerCalls
  frame_arrives size_buffer errno bytes = record {
    rsa_keys = some (record { public_key = public_key; private_key = private_key });
    send_failure = none;
    size_buffer = size_buffer;
    first = record { bytes = some (encode_message_size (length bytes)); errno = errno };
    second = record { bytes = some bytes; errno = errno };
  }

  server_takes :
      (size_buffer : List ℕ) (errno : ℕ) (sock : Option ℕ) (random : List ℕ) (sealed : CryptoData)
      → length random ≡ aes_key_size
      → 0 < length sealed.bytes
      → length sealed.bytes < 2 ^ 40
      → rsa_decrypt evp private_key sealed.bytes sealed.data_size
        ≡ done (record { bytes = random; data_size = length random })
      → sealed.data_size ≡ length sealed.bytes
      → exchange_keys_server evp (frame_arrives size_buffer errno sealed.bytes) sock
        ≡ ok (
          some (drawn_key random),
          send sock (encode_message_size (length public_key.key) ++ public_key.key) ∷ [],
        )
  unfolding key_offered
  server_takes size_buffer errno sock random sealed whole nonempty small ran size =
      let calls = frame_arrives size_buffer errno sealed.bytes in
      rw (
        offers calls sock refl,
        receives size_buffer sealed.bytes calls.first calls.second nonempty small refl refl,
        takes random sealed whole ran size,
      )

  -- A client that gets the server's public key, which is not empty, whole in its two reads, and draws
  -- a key of 32 bytes, sends a frame with that key encrypted and keeps the key; and a server whose two
  -- reads get this frame whole has sent its public key in a frame, and gives the client's socket the
  -- same key. Or the client uses a NULL pointer, since a call of OpenSSL fails. The pair of keys is one
  -- that OpenSSL reads as such, OpenSSL is taken to keep to the laws of `IsEvp`, and both calls of
  -- `send` succeed.
  pub exchange_agrees :
      (calls : ExchangeCalls) (c : Client) (random : List ℕ) (size_buffer : List ℕ) (errno : ℕ)
      (sock : Option ℕ)
      → 0 < length public_key.key
      → calls.first.bytes ≡ some (encode_message_size (length public_key.key))
      → calls.second.bytes ≡ some public_key.key
      → calls.key_random ≡ some random
      → length random ≡ aes_key_size
      → calls.send_failure ≡ none
      → ((exchange_keys evp calls c ≡ fault bad_pointer)
          × Fails evp laws keys.public calls.seal_random random calls.beyond)
        ⊎ ((sealed : List ℕ) × (exchange_keys evp calls c
              ≡ ok (
                record c { key = some (drawn_key random) },
                true,
                send c.sock (encode_message_size (length sealed) ++ sealed) ∷ [],
              ))
            × (exchange_keys_server evp (frame_arrives size_buffer errno sealed) sock
                ≡ ok (
                  some (drawn_key random),
                  send sock (encode_message_size (length public_key.key) ++ public_key.key) ∷ [],
                )))
  unfolding exchange_keys key_sent
  exchange_agrees calls c random size_buffer errno sock nonempty e₁ e₂ drawn whole accepted =
      let got =
        receives calls.size_buffer public_key.key calls.first calls.second nonempty
          (omega (arith, keys.public_whole, keys.public_small)) e₁ e₂ in
      elim (rsa_decrypt-encrypt evp laws public_key private_key keys random calls.beyond
        calls.seal_random (omega arith)) [
          | inl (ran, why) ↦ inl (rw (got, refused calls c random drawn whole ran), why)
          | inr (sealed, ran, size, more, few, decrypts) ↦ inr (
            sealed.bytes,
            rw (got, answers calls c random sealed drawn whole ran size, accepted),
            server_takes size_buffer errno sock random sealed whole (omega arith) (omega arith)
                decrypts size,
          )
        ]
