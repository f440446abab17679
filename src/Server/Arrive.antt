-- ===== src/Server/Arrive.antt =====
-- A frame that arrives at `_cdtp_server_serve` of src/server.c in a client's turn.
use cdtp.Common.{ℕ, ◌^◌, ◌<◌, ◌≡◌, refl, true, ◌==◌, List, [], ◌∷◌, some, ok, ◌>>=◌, length, arith}
use cdtp.Wire.{encode_message_size, decode_message_size}
use cdtp.Wire.Length.{length-encode}
use cdtp.Crypto.Evp.{Evp}
use cdtp.Threading.{Spawn}
use cdtp.Transport.{fill_buffer, Errnos}
use cdtp.Transport.Frames.{
  frame_of, size_read, body_read, filled, take-frame_of, drop-frame_of, decode-filled,
}
use cdtp.Server.{Server, call_on_recv}
use cdtp.Server.Serve.{PollCalls, poll_body, poll_size}

-- a client's turn in which a frame arrives
abbrev pub arrives : ℕ → Spawn → List ℕ → PollCalls
arrives errno spawn frame = record {
  first = size_read errno frame;
  second = body_read errno frame;
  spawn = spawn;
}

module _ {Ctx Pkey : Type 0} (evp : Evp Ctx Pkey) (self : ℕ) (errnos : Errnos) (s : Server)
    (id : ℕ) where
  pub poll_size-body :
      (calls : PollCalls) (bytes buffer : List ℕ)
      → poll_size evp errnos self calls s id
          (filled bytes buffer)
          (some (encode_message_size (length bytes)))
        ≡ (decode_message_size (filled bytes buffer) >>= λ n.
            poll_body evp errnos self calls s id n calls.second.bytes)
  unfolding poll_size encode_message_size
  poll_size-body calls bytes buffer = refl

  poll_body-call :
      (calls : PollCalls) (bytes : List ℕ)
      → 0 < length bytes
      → poll_body evp errnos self calls s id (length bytes) (some bytes) ≡ (
          call_on_recv evp self calls.spawn s id bytes (length bytes) >>= λ effects.
          ok (s, effects, true))
  unfolding poll_body
  poll_body-call calls [] some_bytes = absurd (omega arith)
  poll_body-call calls (b ∷ bytes) some_bytes =
      let whole : (length (b ∷ bytes) == length (b ∷ bytes)) ≡ true = ground arith in rw whole

  -- The turn in which a frame that is not empty arrives whole.
  pub poll_size-call :
      (spawn : Spawn) (errno : ℕ) (buffer bytes : List ℕ)
      → 0 < length bytes
      → length bytes < 2 ^ 40
      → poll_size evp errnos self
          (arrives errno spawn (frame_of bytes))
          s
          id
          (fill_buffer (size_read errno (frame_of bytes)).bytes buffer)
          (size_read errno (frame_of bytes)).bytes
        ≡ (call_on_recv evp self spawn s id bytes (length bytes) >>= λ effects.
            ok (s, effects, true))
  unfolding poll_size call_on_recv
  poll_size-call spawn errno buffer bytes some_bytes small =
      rw
        (
          take-frame_of bytes,
          length-encode,
          poll_size-body (arrives errno spawn (frame_of bytes)) bytes buffer,
          decode-filled bytes buffer small,
          drop-frame_of bytes,
        )
        (poll_body-call (arrives errno spawn (frame_of bytes)) bytes some_bytes)
