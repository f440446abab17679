-- ===== src/Client/Rounds.antt =====
-- Rounds of the loop of `_cdtp_client_handle` in src/client.c: those in which nothing comes, and the
-- one in which the connection ends.
use cdtp.Common.{
  ℕ, ◌≡◌, refl, ◌∙◌, true, false, ◌⊎◌, inl, inr, List, [], ◌∷◌, ◌++◌, Option, none, some, Run,
  fault, ok, ◌>>=◌, All, Option-cases,
}
use cdtp.Crypto.Evp.{Evp}
use cdtp.Threading.{start_thread_on_disconnected}
use cdtp.Transport.{Errnos, Effect, close, event, fill_buffer}
use cdtp.Client.{Client, disconnect}
use cdtp.Client.Events.{call_on_disconnected}
use cdtp.Client.Handle.{HandleCalls, hang_up, handle_size, handle_round, handle_loop}

module _ (errnos : Errnos) where
  -- Nothing has come from the server.
  pub record IsQuiet (calls : HandleCalls) : Type 0 where
    pub nothing : calls.first.bytes ≡ none
    pub not_reset : errnos.reset calls.first.errno ≡ false
    pub again : errnos.again calls.first.errno ≡ true

  -- The first `read` finds the end of the stream, or that the server has reset the connection.
  abbrev pub Ends : HandleCalls → Type 0
  Ends calls =
      (calls.first.bytes ≡ some [])
      ⊎ ((calls.first.bytes ≡ none) × (errnos.reset calls.first.errno ≡ true))

-- the start of a thread for the function that `cdtp_client` was given
abbrev pub farewell : ℕ → HandleCalls → ℕ → Option ℕ → List Effect
farewell self calls arg none = []
farewell self calls arg (some func) =
    event [] (start_thread_on_disconnected calls.spawn.return_code calls.spawn.junk func self arg)
    ∷ []

nothing_done : (m : Run (Client × List Effect)) → (m >>= λ (c, later). ok (c, [] ++ later)) ≡ m
nothing_done (ok (c, later)) = refl
nothing_done (fault f) = refl

module _ (self : ℕ) where
  hang_up_lem :
      (calls : HandleCalls) (c : Client) (thread : ℕ)
      → c.connected ≡ true
      → c.handle_thread ≡ some thread
      → calls.close_failure ≡ none
      → calls.detach_code ≡ 0
      → hang_up self calls c
        ≡ ok (
          record c { connected = false; is_done = true },
          close c.sock ∷ farewell self calls c.on_disconnected_arg c.on_disconnected,
          false,
        )
  unfolding hang_up disconnect call_on_disconnected
  hang_up_lem calls c thread on has closes detaches = elim (Option-cases c.on_disconnected) [
    | inl e ↦ simp (on, has, closes, detaches, e)
    | inr (func, e) ↦ simp (on, has, closes, detaches, e)
  ]

  module _ {Ctx Pkey : Type 0} (evp : Evp Ctx Pkey) (errnos : Errnos) where
    -- Rounds in which nothing comes change nothing and do nothing.
    pub handle_loop-quiet :
        (idle rounds : List HandleCalls) (c : Client) (buffer : List ℕ)
        → c.connected ≡ true
        → All (IsQuiet errnos) idle
        → handle_loop self evp errnos (idle ++ rounds) c buffer
          ≡ handle_loop self evp errnos rounds c buffer
    unfolding handle_loop handle_round handle_size
    handle_loop-quiet [] rounds c buffer on quiet = refl
    handle_loop-quiet (calls ∷ idle) rounds c buffer on (q, quiet) =
        simp (on, q.nothing, q.not_reset, q.again, handle_loop-quiet idle rounds c buffer on quiet)
          (nothing_done (handle_loop self evp errnos rounds c buffer))

    handle_size-Ends :
        (calls : HandleCalls) (c : Client) (buffer : List ℕ) (first : Option (List ℕ))
        → (first ≡ some []) ⊎ ((first ≡ none) × (errnos.reset calls.first.errno ≡ true))
        → handle_size self evp errnos calls c buffer first ≡ hang_up self calls c
    unfolding handle_size
    handle_size-Ends calls c buffer first (inl e) = rw e refl
    handle_size-Ends calls c buffer first (inr (e, reset)) = rw (e, reset) refl

    -- A connected client with a handle thread, whose loop goes through any number of rounds in which
    -- nothing comes and then finds the end of the stream, or that the server has reset the connection,
    -- as it is about to read a size, where `close` and `pthread_detach` succeed: the loop returns,
    -- whatever rounds would follow; the socket is closed, then one thread is started for the function
    -- for the end of the connection, if there is one, and nothing else is done; the client is not
    -- connected, is done, and otherwise as it was.
    pub handle_loop-Ends :
        (idle rounds : List HandleCalls) (calls : HandleCalls) (c : Client) (thread : ℕ)
        (buffer : List ℕ)
        → c.connected ≡ true
        → c.handle_thread ≡ some thread
        → All (IsQuiet errnos) idle
        → Ends errnos calls
        → calls.close_failure ≡ none
        → calls.detach_code ≡ 0
        → handle_loop self evp errnos (idle ++ (calls ∷ rounds)) c buffer
          ≡ ok (
            record c { connected = false; is_done = true },
            close c.sock ∷ farewell self calls c.on_disconnected_arg c.on_disconnected,
          )
    unfolding handle_loop handle_round
    handle_loop-Ends idle rounds calls c thread buffer on has quiet ends closes detaches =
        let filled = fill_buffer calls.first.bytes buffer in
        handle_loop-quiet idle (calls ∷ rounds) c buffer on quiet
        ∙ simp (
          on,
          handle_size-Ends calls c filled calls.first.bytes ends
              ∙ hang_up_lem calls c thread on has closes detaches,
        )
