-- ===== src/Server/Abandon.antt =====
-- A client that connects to the server of src/server.c and leaves before the keys are exchanged:
-- `_cdtp_server_exchange_keys` fails in the loop of `_cdtp_server_serve`.
use cdtp.Common.{
  ℕ, ◌+◌, ◌%◌, ◌≡◌, refl, sym, ◌∙◌, ◌⊎◌, inl, inr, true, List, [], ◌∷◌, ◌++◌, Option, none, some,
  Run, ok, fault, ◌>>=◌, length, drop, All,
}
use cdtp.Errors.{server_key_exchange_failed}
use cdtp.Wire.{encode_message_size}
use cdtp.Wire.Length.{decode-encode}
use cdtp.Wire.Message.{construct_message_lem}
use cdtp.Map.{size_mod}
use cdtp.Map.Iterate.{iter_lem, All-lookup}
use cdtp.Crypto.Evp.{Evp}
use cdtp.Crypto.Padding.{crypto_data_lem}
use cdtp.Crypto.Rsa.{KeyPair, public_key_to_bytes}
use cdtp.Transport.{Effect, Errnos, SockAddr, set_error, send, broken, receive_key, receive_body}
use cdtp.Transport.Frames.{frame_of}
use cdtp.Server.{Server, ServerCalls, key_offered, take_key, exchange_keys_server}
use cdtp.Server.Exchange.{receive_key_lem}
use cdtp.Server.Valid.{IsReady, IsValid}
use cdtp.Server.Serve.{
  AcceptCalls, PollCalls, RoundCalls, accepted, accept_client, admit, poll_round, serve_round,
  serve_loop,
}
use cdtp.Server.Serve.Rounds.{IsIdle, poll_all-quiet}

-- The connection fails in the exchange of keys, with an error number: as the server sends its key, as
-- it waits for the size of the client's, or, after the size, as it waits for the key.
pub data Abandons (calls : ServerCalls) (errno : ℕ) : Type 0 where
  unsent : calls.send_failure ≡ some errno → Abandons calls errno
  no_size :
      calls.send_failure ≡ none
      → (calls.first.bytes ≡ none) ⊎ (calls.first.bytes ≡ some [])
      → calls.first.errno ≡ errno
      → Abandons calls errno
  no_key :
      (n : ℕ)
      → calls.send_failure ≡ none
      → calls.first.bytes ≡ some (encode_message_size n)
      → (calls.second.bytes ≡ none) ⊎ (calls.second.bytes ≡ some [])
      → calls.second.errno ≡ errno
      → Abandons calls errno

broken_by_first :
    (calls : ServerCalls)
    → (calls.first.bytes ≡ none) ⊎ (calls.first.bytes ≡ some [])
    → receive_key calls.size_buffer calls.first calls.second ≡ ok (broken calls.first.errno)
unfolding receive_key
broken_by_first calls (inl e) = rw (receive_key, e)
broken_by_first calls (inr e) = rw (receive_key, e)

broken_by_second :
    (calls : ServerCalls) (n : ℕ)
    → calls.first.bytes ≡ some (encode_message_size n)
    → (calls.second.bytes ≡ none) ⊎ (calls.second.bytes ≡ some [])
    → receive_key calls.size_buffer calls.first calls.second ≡ ok (broken calls.second.errno)
unfolding receive_body encode_message_size
broken_by_second calls n e (inl none_read) =
    receive_key_lem calls.size_buffer calls.first calls.second _ _ e
      (decode-encode n (drop 5 calls.size_buffer))
    ∙ rw (receive_body, none_read) refl
broken_by_second calls n e (inr ended) =
    receive_key_lem calls.size_buffer calls.first calls.second _ _ e
      (decode-encode n (drop 5 calls.size_buffer))
    ∙ rw (receive_body, ended) refl

nothing_done : (r : Run (Server × List Effect)) → (r >>= λ t. ok (t.0, [] ++ t.1)) ≡ r
nothing_done (ok r) = refl
nothing_done (fault f) = refl

module _ {Ctx Pkey : Type 0} (evp : Evp Ctx Pkey) where
  key_offered-Abandons :
      (calls : ServerCalls) (keys : KeyPair) (sent : Effect) (errno : ℕ)
      → Abandons calls errno
      → key_offered evp calls keys.private_key sent calls.send_failure
        ≡ ok (none, sent ∷ set_error server_key_exchange_failed errno ∷ [])
  unfolding key_offered take_key
  key_offered-Abandons calls keys sent errno (unsent e) = rw e refl
  key_offered-Abandons calls keys sent errno (no_size accepted_send ends same) =
      rw (accepted_send, broken_by_first calls ends, same) refl
  key_offered-Abandons calls keys sent errno (no_key n accepted_send size_in ends same) =
      rw (accepted_send, broken_by_second calls n size_in ends, same) refl

  exchange-Abandons :
      (calls : ServerCalls) (keys : KeyPair) (sock : Option ℕ) (errno : ℕ)
      → calls.rsa_keys ≡ some keys
      → keys.public_key.key_size ≡ length keys.public_key.key
      → Abandons calls errno
      → exchange_keys_server evp calls sock
        ≡ ok (
          none,
          send sock (frame_of keys.public_key.key)
              ∷ set_error server_key_exchange_failed errno
              ∷ [],
        )
  unfolding exchange_keys_server public_key_to_bytes
  exchange-Abandons calls keys sock errno made whole abandons = rw (
    made,
    whole,
    crypto_data_lem keys.public_key.key refl,
    construct_message_lem keys.public_key.key,
    key_offered-Abandons calls keys (send sock (frame_of keys.public_key.key)) errno abandons,
  )

module _ {Ctx Pkey : Type 0} (evp : Evp Ctx Pkey) (errnos : Errnos) (self : ℕ) where
  -- Rounds in which nothing comes change nothing and do nothing.
  serve_loop-quiet :
      (idle rounds : List RoundCalls) {s : Server} (buffer : List ℕ)
      → IsValid s
      → s.serving ≡ true
      → All (IsIdle errnos) idle
      → serve_loop evp errnos self (idle ++ rounds) s buffer
        ≡ serve_loop evp errnos self rounds s buffer
  unfolding serve_loop serve_round accept_client poll_round
  serve_loop-quiet [] rounds buffer v on quiet = refl
  serve_loop-quiet (calls ∷ idle) rounds {s} buffer v on (i, quiet) =
      let (clients, run, _, once, reads) = iter_lem v.map in
      let ready =
        All-lookup (λ q sock. IsReady sock) clients once
          (λ q sock e. v.ready q sock (sym (reads q) ∙ e)) in
      simp
        (
          on,
          i.refuses,
          i.again,
          run,
          poll_all-quiet evp errnos self calls.polls s buffer clients i.quiet ready,
          serve_loop-quiet idle rounds {s = s} buffer v on quiet,
        )
        (nothing_done (serve_loop evp errnos self rounds s buffer))

  -- A stranger can end the server. A valid server that is serving goes through any number of rounds in
  -- which no client connects and none sends; then a client connects, the first call of `fcntl`
  -- succeeds, the keys are made, with the public key whole, and the exchange of keys fails: the
  -- server's key cannot be sent, or the stream ends or fails before the size of the client's key or
  -- before that key. Then the loop returns, whatever rounds would follow. All that has been done is
  -- to hand the public key to `send` and to set an error; the descriptor is not closed, an ID is used up, and
  -- the server is otherwise as it was, serving still.
  pub serve_loop-Abandons :
      (idle rounds : List RoundCalls) (fd : ℕ) (address : SockAddr) (calls : AcceptCalls)
      (polls : ℕ → PollCalls) (keys : KeyPair) (errno : ℕ) {s : Server} (buffer : List ℕ)
      → IsValid s
      → s.serving ≡ true
      → All (IsIdle errnos) idle
      → calls.blocking_failure ≡ none
      → calls.exchange.rsa_keys ≡ some keys
      → keys.public_key.key_size ≡ length keys.public_key.key
      → Abandons calls.exchange errno
      → serve_loop evp errnos self
          (idle ++ (record { accept = accepted fd address calls; polls = polls } ∷ rounds))
          s
          buffer
        ≡ ok (
          record s { next_client_id = (s.next_client_id + 1) % size_mod },
          send (some fd) (frame_of keys.public_key.key)
              ∷ set_error server_key_exchange_failed errno
              ∷ [],
        )
  unfolding serve_loop serve_round accept_client admit poll_round
  serve_loop-Abandons idle rounds fd address calls polls keys errno {s} buffer v on quiet unblocked
        made whole abandons =
      serve_loop-quiet idle (record { accept = accepted fd address calls; polls = polls } ∷ rounds)
        {s = s} buffer v on quiet
      ∙ simp (
        on,
        unblocked,
        exchange-Abandons evp calls.exchange keys (some fd) errno made whole abandons,
      )
