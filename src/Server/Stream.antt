-- ===== src/Server/Stream.antt =====
-- Messages that `cdtp_server_send` of src/server.c sends one after the other, and the rounds of
-- `_cdtp_client_handle` in src/client.c in which they arrive.
use cdtp.Common.{
  ℕ, ◌-◌, ◌^◌, ◌<◌, ◌≡◌, refl, ap, sym, ◌∙◌, true, List, [], ◌∷◌, ◌++◌, Option, none, some, Run, ok,
  fault, length, All, inl, inr,
}
use cdtp.Map.Valid.{view}
use cdtp.Crypto.Evp.{Evp, IsEvp}
use cdtp.Crypto.Aes.{AesKey, aes_key_size}
use cdtp.Threading.{Spawn, client_on_recv}
use cdtp.Threading.Dispatch.{outcome}
use cdtp.Transport.{Errnos, Failure, Effect, event, send, fill_buffer}
use cdtp.Transport.Frames.{frame_of, size_read, Carries, seals}
use cdtp.Client.{Client}
use cdtp.Client.Handle.{HandleCalls, handle_round, handle_loop}
use cdtp.Client.Rounds.{IsQuiet, handle_loop-quiet}
use cdtp.Server.{Peer, Server}
use cdtp.Server.Valid.{IsValid}
use cdtp.Server.Messages.{SendCalls, sent, send_data}
use cdtp.Server.Answer.{
  arrives, send_data-sealed, send_data-refused, send_data-overflow, handle_size-Carries,
}

-- A message, the call that sends it, with the random bytes that it draws, and the frame that it hands
-- to `send`; the rounds of the client in which nothing comes before it, and that in which it does.
pub record Delivery : Type 0 where
  pub calls : SendCalls
  pub nonce : List ℕ
  pub bytes : List ℕ
  pub frame : List ℕ
  pub idle : List HandleCalls
  pub errno : ℕ
  pub spawn : Spawn

-- the rounds in which messages arrive, one after the other
abbrev pub rounds_of : List Delivery → List HandleCalls
rounds_of [] = []
rounds_of (d ∷ ds) = d.idle ++ (arrives d.errno d.spawn d.frame ∷ rounds_of ds)

-- the calls of the client's function, one for each message, in the order in which they were sent
abbrev pub heard : ℕ → ℕ → ℕ → List Delivery → List Effect
heard func self arg [] = []
heard func self arg (d ∷ ds) =
    event d.bytes
      (outcome d.spawn.return_code (client_on_recv func self d.spawn.pointer (length d.bytes) arg))
    ∷ heard func self arg ds

module _ {Ctx Pkey : Type 0} (evp : Evp Ctx Pkey) where
  -- The server sends the message, under the ID and with the descriptor, and the call returns.
  pub record IsSent (errnos : Errnos) (s : Server) (id : ℕ) (sock : Option ℕ) (d : Delivery)
      : Type 0 where
    pub drawn : d.calls.random ≡ some d.nonce
    pub nonce_whole : length d.nonce ≡ 32
    pub small : length d.bytes < 2 ^ 31 - 32
    pub sends :
        send_data evp d.calls s id d.bytes (length d.bytes) ≡ ok (sent d.calls.failure sock d.frame)
    pub quiet : All (IsQuiet errnos) d.idle

-- the bytes of the first call of `send`
abbrev sent_bytes : List Effect → List ℕ
sent_bytes (send sock frame ∷ rest) = frame
sent_bytes _ = []

sent_bytes-sent :
    (failure : Failure) (sock : Option ℕ) (frame : List ℕ)
    → sent_bytes (sent failure sock frame) ≡ frame
sent_bytes-sent none sock frame = refl
sent_bytes-sent (some errno) sock frame = refl

abbrev effects_of : Run (List Effect) → List Effect
effects_of (ok effects) = effects
effects_of (fault f) = []

sent_once :
    {r : Run (List Effect)} (failure : Failure) (sock : Option ℕ) (frame frame' : List ℕ)
    → r ≡ ok (sent failure sock frame)
    → r ≡ ok (sent failure sock frame')
    → frame ≡ frame'
sent_once failure sock frame frame' e e' =
    sym (sent_bytes-sent failure sock frame)
    ∙ ap (λ r. sent_bytes (effects_of r)) (sym e ∙ e')
    ∙ sent_bytes-sent failure sock frame'

module _ {Ctx Pkey : Type 0} (evp : Evp Ctx Pkey) {IsPair : Pkey → Pkey → Type 0}
    (laws : IsEvp evp IsPair) (key : AesKey) (key_whole : length key.key ≡ aes_key_size) where
  IsSent-Carries :
      (errnos : Errnos) {s : Server} (id : ℕ) (peer : Peer) (d : Delivery)
      → IsValid s
      → s.serving ≡ true
      → view s.clients id ≡ some (some peer)
      → peer.key ≡ some key
      → IsSent evp errnos s id peer.sock d
      → Carries evp laws key key_whole d.bytes d.frame
  IsSent-Carries errnos {s} id peer d v on has has_key i =
      elim (seals evp laws key key_whole d.nonce d.bytes d.calls.beyond i.nonce_whole i.small) [
        | inl (refused, why) ↦
            let faults =
              send_data-refused evp key d.calls id peer d.nonce d.bytes v on has has_key i.drawn
                refused in
            let returns = i.sends in absurd (cc)
        | inr (inl (overflows, long)) ↦
            let faults =
              send_data-overflow evp key d.calls id peer d.nonce d.bytes v on has has_key i.drawn
                overflows in
            let returns = i.sends in absurd (cc)
        | inr (inr (sealed, ran, size, carries)) ↦
            let sends =
              send_data-sealed evp key d.calls id peer d.nonce d.bytes sealed v on has has_key
                i.drawn ran size in
            let same : frame_of sealed.bytes ≡ d.frame =
              sent_once d.calls.failure peer.sock (frame_of sealed.bytes) d.frame sends i.sends in
            rw (← same) carries
      ]

  -- What a valid server that is serving sends to a client one after the other arrives, all of it, in
  -- that order and once. The server has the client under an ID with a key of 32 bytes; the client is
  -- connected, with the same key and a function for messages. For each message the server has drawn
  -- 32 bytes and sends fewer than 2 ^ 31 - 32 bytes, and that call of `cdtp_server_send` returns, with
  -- one frame handed to `send`. If the client's loop gets each frame in its two reads, after any number of rounds
  -- in which nothing comes, it returns from these rounds with one thread started for each message, or
  -- an error set if it cannot be, for a call with its data and its length, and with the client as it was.
  -- OpenSSL is taken to keep to the laws of `IsEvp`.
  pub stream-arrives :
      (errnos : Errnos) {s : Server} (id : ℕ) (peer : Peer) (self : ℕ) (c : Client) (func : ℕ)
      (ds : List Delivery) (buffer : List ℕ)
      → IsValid s
      → s.serving ≡ true
      → view s.clients id ≡ some (some peer)
      → peer.key ≡ some key
      → c.connected ≡ true
      → c.on_recv ≡ some func
      → c.key ≡ some key
      → All (IsSent evp errnos s id peer.sock) ds
      → handle_loop self evp errnos (rounds_of ds) c buffer
        ≡ ok (c, heard func self c.on_recv_arg ds)
  unfolding handle_loop handle_round
  stream-arrives errnos id peer self c func [] buffer v on has has_key joined listens same sends =
      refl
  stream-arrives errnos {s} id peer self c func (d ∷ ds) buffer v on has has_key joined listens same
        (i, sends) =
      let carries = IsSent-Carries errnos {s = s} id peer d v on has has_key i in
      let turn =
        handle_size-Carries evp laws key key_whole self errnos d.errno d.spawn c func buffer d.bytes
          d.frame listens same carries in
      let rest =
        stream-arrives errnos {s = s} id peer self c func ds
          (fill_buffer (size_read d.errno d.frame).bytes buffer) v on has has_key joined listens
          same sends in
      handle_loop-quiet self evp errnos d.idle (arrives d.errno d.spawn d.frame ∷ rounds_of ds) c
        buffer joined i.quiet
      ∙ simp (joined, turn, rest)
