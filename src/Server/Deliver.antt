-- ===== src/Server/Deliver.antt =====
-- A message on its way from one side to the other: `cdtp_client_send` of src/client.c to
-- `_cdtp_server_serve` of src/server.c, and what becomes of bytes that no client has encrypted.
use cdtp.Common.{
  ℕ, ◌-◌, ◌^◌, ◌<◌, ◌≡◌, ◌∙◌, ◌⊎◌, inl, inr, true, List, [], ◌∷◌, some, ok, fault, bad_pointer,
  out_of_bounds, ◌>>=◌, length, arith,
}
use cdtp.Map.Valid.{view}
use cdtp.Map.Methods.{get_lem}
use cdtp.Crypto.{data_unwrap}
use cdtp.Crypto.Attempt.{null, deref}
use cdtp.Crypto.Evp.{Evp, IsEvp}
use cdtp.Crypto.Aes.{AesKey, aes_key_size, aes_decrypt}
use cdtp.Crypto.Aes.RoundTrip.{Fails}
use cdtp.Threading.{Spawn, server_on_recv, start_thread_on_recv_server}
use cdtp.Threading.Dispatch.{outcome}
use cdtp.Transport.{Failure, send, event, fill_buffer, Errnos}
use cdtp.Transport.Frames.{frame_of, size_read, aes_decrypt-short, Carries}
use cdtp.Client.{Client}
use cdtp.Client.{send_data as client_send}
use cdtp.Client.Messages.{reports, send_data-Carries}
use cdtp.Server.{Peer, Server, call_on_recv}
use cdtp.Server.Valid.{IsValid}
use cdtp.Server.Arrive.{arrives, poll_size-call}
use cdtp.Server.Serve.{poll_size}

-- The server has the client with its key, and a function registered for its messages.
pub record Listens (s : Server) (id : ℕ) (key : AesKey) (func : ℕ) : Type 0 where
  pub peer : Peer
  pub on_recv : s.on_recv ≡ some func
  pub has : view s.clients id ≡ some (some peer)
  pub has_key : peer.key ≡ some key

module _ {Ctx Pkey : Type 0} (evp : Evp Ctx Pkey) (self : ℕ) where
  module _ {s : Server} (id : ℕ) (key : AesKey) (func : ℕ) (spawn : Spawn) (v : IsValid s)
      (l : Listens s id key func) where
    call_on_recv-deref :
        (bytes : List ℕ) (data_size : ℕ)
        → call_on_recv evp self spawn s id bytes data_size ≡ (
            deref (aes_decrypt evp key bytes data_size) >>= λ plain. ok (
              event plain.bytes (
                outcome spawn.return_code
                  (server_on_recv func self id spawn.pointer plain.data_size s.on_recv_arg))
              ∷ []))
    unfolding call_on_recv start_thread_on_recv_server data_unwrap
    call_on_recv-deref bytes data_size =
        rw (call_on_recv, l.on_recv, get_lem id v.map, l.has, l.has_key)

    module _ (errnos : Errnos) where
      pub poll_size-Carries :
          {IsPair : Pkey → Pkey → Type 0} (laws : IsEvp evp IsPair)
          (key_whole : length key.key ≡ aes_key_size) (errno : ℕ) (buffer bytes frame : List ℕ)
          → Carries evp laws key key_whole bytes frame
          → poll_size evp errnos self
              (arrives errno spawn frame)
              s
              id
              (fill_buffer (size_read errno frame).bytes buffer)
              (size_read errno frame).bytes
            ≡ ok (
              s,
              event bytes (
                    outcome spawn.return_code
                      (server_on_recv func self id spawn.pointer (length bytes) s.on_recv_arg))
                  ∷ [],
              true,
            )
      poll_size-Carries laws key_whole errno buffer bytes frame c = rw c.framed (
          poll_size-call evp self errnos s id spawn errno buffer c.ciphertext
            (omega (arith, c.nonce_in)) c.small
          ∙ rw (call_on_recv-deref c.ciphertext (length c.ciphertext), c.decrypted))

      -- When a valid server that has the client with its key, and a function for messages, receives
      -- in two reads a frame with 1 to 15 bytes of data, it reads past the end of the data that it has
      -- received, whatever OpenSSL does.
      pub short_message-fault :
          (errno : ℕ) (buffer bytes : List ℕ)
          → 0 < length bytes
          → length bytes < 16
          → poll_size evp errnos self
              (arrives errno spawn (frame_of bytes))
              s
              id
              (fill_buffer (size_read errno (frame_of bytes)).bytes buffer)
              (size_read errno (frame_of bytes)).bytes
            ≡ fault out_of_bounds
      short_message-fault errno buffer bytes some_bytes short =
          poll_size-call evp self errnos s id spawn errno buffer bytes some_bytes (omega arith)
          ∙ rw (call_on_recv-deref bytes (length bytes), aes_decrypt-short evp key bytes short)

      -- When a valid server that has the client with its key, and a function for messages, receives
      -- in two reads a frame with data, fewer than 2 ^ 40 bytes, for which the decryption under that
      -- key returns NULL, it uses that NULL pointer.
      pub refused_message-fault :
          (errno : ℕ) (buffer bytes : List ℕ)
          → 0 < length bytes
          → length bytes < 2 ^ 40
          → aes_decrypt evp key bytes (length bytes) ≡ null
          → poll_size evp errnos self
              (arrives errno spawn (frame_of bytes))
              s
              id
              (fill_buffer (size_read errno (frame_of bytes)).bytes buffer)
              (size_read errno (frame_of bytes)).bytes
            ≡ fault bad_pointer
      refused_message-fault errno buffer bytes some_bytes small refused =
          poll_size-call evp self errnos s id spawn errno buffer bytes some_bytes small
          ∙ rw (call_on_recv-deref bytes (length bytes), refused)

      -- What `cdtp_client_send` hands to `send` reaches the server's function. A connected client with
      -- a key of 32 bytes, with 32 random bytes drawn, sends fewer than 2 ^ 31 - 33 bytes to a valid
      -- server that has it under an ID with that key and a function for messages. Then a call of
      -- OpenSSL fails and the client uses a NULL pointer; or one frame is sent, and the turn of the
      -- server in which it arrives in two reads starts one thread, or sets an error if it cannot, for
      -- a call with that ID, the data and its length; the server is as it was, and the loop goes on.
      -- OpenSSL is taken to keep to the laws of `IsEvp`.
      pub client_send-arrives :
          {IsPair : Pkey → Pkey → Type 0} (laws : IsEvp evp IsPair)
          (key_whole : length key.key ≡ aes_key_size) (c : Client) (beyond nonce bytes : List ℕ)
          (failure : Failure) (errno : ℕ) (buffer : List ℕ)
          → length nonce ≡ 32
          → length bytes < 2 ^ 31 - 33
          → c.connected ≡ true
          → c.key ≡ some key
          → ((client_send evp beyond (some nonce) failure bytes (length bytes) c
                ≡ fault bad_pointer)
              × Fails evp laws key key_whole nonce bytes beyond)
            ⊎ ((frame : List ℕ) × (client_send evp beyond
                    (some nonce)
                    failure
                    bytes
                    (length bytes)
                    c
                  ≡ ok (send c.sock frame ∷ reports failure))
                × (poll_size evp errnos self
                      (arrives errno spawn frame)
                      s
                      id
                      (fill_buffer (size_read errno frame).bytes buffer)
                      (size_read errno frame).bytes
                    ≡ ok (
                      s,
                      event bytes (
                            outcome spawn.return_code (
                              server_on_recv func self id spawn.pointer
                                (length bytes)
                                s.on_recv_arg))
                          ∷ [],
                      true,
                    )))
      client_send-arrives laws key_whole c beyond nonce bytes failure errno buffer drawn small on
            has =
          elim (send_data-Carries evp laws key key_whole beyond nonce bytes failure c drawn
            (omega arith) on has) [
              | inl failed ↦ inl failed
              | inr (inl (ran, long)) ↦ absurd (omega arith)
              | inr (inr (frame, ran, carries)) ↦
                  inr
                    (frame, ran, poll_size-Carries laws key_whole errno buffer bytes frame carries)
            ]
