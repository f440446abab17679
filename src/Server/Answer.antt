-- ===== src/Server/Answer.antt =====
-- A message on its way from `cdtp_server_send` of src/server.c to `_cdtp_client_handle` of
-- src/client.c.
use cdtp.Common.{
  ℕ, ◌-◌, ◌^◌, ◌<◌, ◌≡◌, refl, ◌∙◌, ◌⊎◌, inl, inr, true, ◌==◌, List, [], ◌∷◌, none, some, ok, fault,
  bad_pointer, overflow, ◌>>=◌, length, arith,
}
use cdtp.Wire.{encode_message_size, decode_message_size}
use cdtp.Wire.Length.{length-encode}
use cdtp.Wire.Message.{construct_message_lem}
use cdtp.Map.Valid.{view}
use cdtp.Map.Methods.{get_lem}
use cdtp.Crypto.{CryptoData}
use cdtp.Crypto.Attempt.{done, null, crash}
use cdtp.Crypto.Evp.{Evp, IsEvp}
use cdtp.Crypto.Aes.{AesKey, aes_key_size, aes_encrypt}
use cdtp.Crypto.Aes.RoundTrip.{Fails}
use cdtp.Threading.{Spawn, client_on_recv}
use cdtp.Threading.Dispatch.{outcome}
use cdtp.Transport.{Errnos, event, fill_buffer}
use cdtp.Transport.Frames.{
  frame_of, size_read, body_read, filled, take-frame_of, drop-frame_of, decode-filled, Carries,
  seals,
}
use cdtp.Client.{Client}
use cdtp.Client.Events.{call_on_recv, call_on_recv-decrypted}
use cdtp.Client.Handle.{HandleCalls, events, handle_body, handle_size}
use cdtp.Server.{Peer, Server}
use cdtp.Server.Valid.{IsValid}
use cdtp.Server.Messages.{SendCalls, sent, send_client, send_data}

-- a round of the client's loop in which a frame arrives
abbrev pub arrives : ℕ → Spawn → List ℕ → HandleCalls
arrives errno spawn frame = record {
  first = size_read errno frame;
  second = body_read errno frame;
  spawn = spawn;
  close_failure = none;
  detach_code = 0;
}

module _ (self : ℕ) {Ctx Pkey : Type 0} (evp : Evp Ctx Pkey) (errnos : Errnos) where
  handle_size-body :
      (calls : HandleCalls) (c : Client) (bytes buffer : List ℕ)
      → handle_size self evp errnos calls c
          (filled bytes buffer)
          (some (encode_message_size (length bytes)))
        ≡ (decode_message_size (filled bytes buffer) >>= λ n.
            handle_body self evp errnos calls c n calls.second.bytes)
  unfolding handle_size encode_message_size
  handle_size-body calls c bytes buffer = refl

  handle_body-call :
      (calls : HandleCalls) (c : Client) (bytes : List ℕ)
      → 0 < length bytes
      → handle_body self evp errnos calls c (length bytes) (some bytes) ≡ (
          call_on_recv calls.spawn.return_code calls.spawn.junk self calls.spawn.pointer evp c bytes
            (length bytes)
          >>= λ received. ok (c, events received, true))
  unfolding handle_body
  handle_body-call calls c [] some_bytes = absurd (omega arith)
  handle_body-call calls c (b ∷ bytes) some_bytes =
      let whole : (length (b ∷ bytes) == length (b ∷ bytes)) ≡ true = ground arith in rw whole

  handle_size-call :
      (errno : ℕ) (spawn : Spawn) (c : Client) (buffer bytes : List ℕ)
      → 0 < length bytes
      → length bytes < 2 ^ 40
      → handle_size self evp errnos
          (arrives errno spawn (frame_of bytes))
          c
          (fill_buffer (size_read errno (frame_of bytes)).bytes buffer)
          (size_read errno (frame_of bytes)).bytes
        ≡ (call_on_recv spawn.return_code spawn.junk self spawn.pointer evp c bytes (length bytes)
            >>= λ received. ok (c, events received, true))
  unfolding handle_size call_on_recv
  handle_size-call errno spawn c buffer bytes some_bytes small =
      rw
        (
          take-frame_of bytes,
          length-encode,
          handle_size-body (arrives errno spawn (frame_of bytes)) c bytes buffer,
          decode-filled bytes buffer small,
          drop-frame_of bytes,
        )
        (handle_body-call (arrives errno spawn (frame_of bytes)) c bytes some_bytes)

module _ {Ctx Pkey : Type 0} (evp : Evp Ctx Pkey) (key : AesKey) where
  -- the server's side
  pub send_data-sealed :
      (calls : SendCalls) {s : Server} (id : ℕ) (peer : Peer) (nonce bytes : List ℕ)
      (sealed : CryptoData)
      → IsValid s
      → s.serving ≡ true
      → view s.clients id ≡ some (some peer)
      → peer.key ≡ some key
      → calls.random ≡ some nonce
      → aes_encrypt evp calls.beyond (some nonce) key bytes (length bytes) ≡ done sealed
      → sealed.data_size ≡ length sealed.bytes
      → send_data evp calls s id bytes (length bytes)
        ≡ ok (sent calls.failure peer.sock (frame_of sealed.bytes))
  unfolding send_data send_client
  send_data-sealed calls id peer nonce bytes sealed v on has has_key drawn ran size =
      simp
        (on, get_lem id v.map, has, has_key, drawn, ran, size, construct_message_lem sealed.bytes)

  pub send_data-refused :
      (calls : SendCalls) {s : Server} (id : ℕ) (peer : Peer) (nonce bytes : List ℕ)
      → IsValid s
      → s.serving ≡ true
      → view s.clients id ≡ some (some peer)
      → peer.key ≡ some key
      → calls.random ≡ some nonce
      → aes_encrypt evp calls.beyond (some nonce) key bytes (length bytes) ≡ null
      → send_data evp calls s id bytes (length bytes) ≡ fault bad_pointer
  unfolding send_data send_client
  send_data-refused calls id peer nonce bytes v on has has_key drawn ran =
      simp (on, get_lem id v.map, has, has_key, drawn, ran)

  pub send_data-overflow :
      (calls : SendCalls) {s : Server} (id : ℕ) (peer : Peer) (nonce bytes : List ℕ)
      → IsValid s
      → s.serving ≡ true
      → view s.clients id ≡ some (some peer)
      → peer.key ≡ some key
      → calls.random ≡ some nonce
      → aes_encrypt evp calls.beyond (some nonce) key bytes (length bytes) ≡ crash overflow
      → send_data evp calls s id bytes (length bytes) ≡ fault overflow
  unfolding send_data send_client
  send_data-overflow calls id peer nonce bytes v on has has_key drawn ran =
      simp (on, get_lem id v.map, has, has_key, drawn, ran)

module _ {Ctx Pkey : Type 0} (evp : Evp Ctx Pkey) {IsPair : Pkey → Pkey → Type 0}
    (laws : IsEvp evp IsPair) (key : AesKey) (key_whole : length key.key ≡ aes_key_size) where
  pub handle_size-Carries :
      (self : ℕ) (errnos : Errnos) (errno : ℕ) (spawn : Spawn) (c : Client) (func : ℕ)
      (buffer bytes frame : List ℕ)
      → c.on_recv ≡ some func
      → c.key ≡ some key
      → Carries evp laws key key_whole bytes frame
      → handle_size self evp errnos
          (arrives errno spawn frame)
          c
          (fill_buffer (size_read errno frame).bytes buffer)
          (size_read errno frame).bytes
        ≡ ok (
          c,
          event bytes (
                outcome spawn.return_code
                  (client_on_recv func self spawn.pointer (length bytes) c.on_recv_arg))
              ∷ [],
          true,
        )
  handle_size-Carries self errnos errno spawn c func buffer bytes frame listens has k =
      rw k.framed (
        handle_size-call self evp errnos errno spawn c buffer k.ciphertext
          (omega (arith, k.nonce_in)) k.small
        ∙ rw (
            call_on_recv-decrypted spawn.return_code spawn.junk self spawn.pointer evp laws key
              key_whole c func k.ciphertext (length k.ciphertext)
              (record { bytes = bytes; data_size = length bytes }) listens has k.decrypted))

  -- What `cdtp_server_send` hands to `send` reaches the client's function. A valid server that is
  -- serving has a client under an ID, with a key of 32 bytes; with 32 random bytes drawn, it sends
  -- fewer than 2 ^ 31 - 33 bytes to that ID, and the client has the same key and a function for
  -- messages. Then a call of OpenSSL fails and the server uses a NULL pointer; or one frame is sent
  -- on that client's descriptor, with an error if `send` fails, and the round of the client in which
  -- it arrives in two reads starts one thread, or sets an error if it cannot, for a call with the
  -- data and its length; the client is as it was, and its loop goes on. OpenSSL is taken to keep to
  -- the laws of `IsEvp`.
  pub server_send-arrives :
      (calls : SendCalls) {s : Server} (id : ℕ) (peer : Peer) (nonce bytes : List ℕ) (self : ℕ)
      (errnos : Errnos) (errno : ℕ) (spawn : Spawn) (c : Client) (func : ℕ) (buffer : List ℕ)
      → IsValid s
      → s.serving ≡ true
      → view s.clients id ≡ some (some peer)
      → peer.key ≡ some key
      → calls.random ≡ some nonce
      → length nonce ≡ 32
      → length bytes < 2 ^ 31 - 33
      → c.on_recv ≡ some func
      → c.key ≡ some key
      → ((send_data evp calls s id bytes (length bytes) ≡ fault bad_pointer)
          × Fails evp laws key key_whole nonce bytes calls.beyond)
        ⊎ ((frame : List ℕ) × (send_data evp calls s id bytes (length bytes)
              ≡ ok (sent calls.failure peer.sock frame))
            × (handle_size self evp errnos
                  (arrives errno spawn frame)
                  c
                  (fill_buffer (size_read errno frame).bytes buffer)
                  (size_read errno frame).bytes
                ≡ ok (
                  c,
                  event bytes (
                        outcome spawn.return_code
                          (client_on_recv func self spawn.pointer (length bytes) c.on_recv_arg))
                      ∷ [],
                  true,
                )))
  server_send-arrives calls id peer nonce bytes self errnos errno spawn c func buffer v on has
        has_key random drawn small listens key_same =
      elim (seals evp laws key key_whole nonce bytes calls.beyond drawn (omega arith)) [
        | inl (refused, why) ↦ inl (
          send_data-refused evp key calls id peer nonce bytes v on has has_key random refused,
          why,
        )
        | inr (inl (ran, long)) ↦ absurd (omega arith)
        | inr (inr (sealed, ran, size, carries)) ↦ inr (
          frame_of sealed.bytes,
          send_data-sealed evp key calls id peer nonce bytes sealed v on has has_key random ran
              size,
          handle_size-Carries self errnos errno spawn c func buffer bytes (frame_of sealed.bytes)
              listens key_same carries,
        )
      ]
