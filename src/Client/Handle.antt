-- ===== src/Client/Handle.antt =====
-- `_cdtp_client_handle` of src/client.c: the loop that reads the server's messages. It runs in the
-- handle thread, which detaches itself when it disconnects. What the system calls of one round give
-- is an argument; `size_buffer` is the loop's buffer on the stack.
use cdtp.Common.{
  ℕ, ◌==◌, if◌then◌else◌, Bool, true, false, not, List, [], ◌∷◌, ◌++◌, Option, none, some, Run, ok,
  ◌>>=◌, length,
}
use cdtp.Errors.{client_sock_init_failed, client_recv_failed}
use cdtp.Wire.{decode_message_size}
use cdtp.Crypto.Evp.{Evp}
use cdtp.Threading.{Spawn}
use cdtp.Transport.{Errnos, Failure, Read, Effect, set_error, event, fill_buffer}
use cdtp.Client.{Client, disconnect}
use cdtp.Client.Events.{Event, call_on_recv, call_on_disconnected}

-- what a round gets: its two calls of `read`, the thread that may be started, and, if it
-- disconnects, `close` and `pthread_detach`
pub record HandleCalls : Type 0 where
  pub first : Read
  pub second : Read
  pub spawn : Spawn
  pub close_failure : Failure
  pub detach_code : ℕ

-- A round returns the client, what was done, and whether the loop goes on.
abbrev pub Turn : Type 0
Turn = Client × List Effect × Bool

-- the start of a thread for a function that is registered
abbrev pub events : Option Event → List Effect
events none = []
events (some e) = event e.content e.started ∷ []

module _ (self : ℕ) where
  -- `cdtp_client_disconnect(client); _cdtp_client_call_on_disconnected(client); return;`
  unfoldable pub hang_up : HandleCalls → Client → Run Turn
  unfolding disconnect call_on_disconnected
  hang_up calls c = do
    (c', effects) ← disconnect calls.close_failure true 0 calls.detach_code c
    let started =
        call_on_disconnected calls.spawn.return_code calls.spawn.junk self calls.spawn.pointer c'
    ok (c', effects ++ (elim started [ none ↦ [] | some e ↦ event [] e ∷ [] ]), false)

  module _ {Ctx Pkey : Type 0} (evp : Evp Ctx Pkey) (errnos : Errnos) where
    -- a round from the second `read` on, with what that gives
    unfoldable pub handle_body : HandleCalls → Client → ℕ → Option (List ℕ) → Run Turn
    unfolding hang_up call_on_recv
    handle_body calls c msg_size none =
        if errnos.reset calls.second.errno
        then hang_up calls c
        else ok (c, set_error client_recv_failed calls.second.errno ∷ [], false)
    handle_body calls c msg_size (some []) = hang_up calls c
    handle_body calls c msg_size (some (b ∷ bytes)) =
        if not (length (b ∷ bytes) == msg_size)
        then ok (c, set_error client_recv_failed calls.second.errno ∷ [], false)
        else do
          received ←
              call_on_recv calls.spawn.return_code calls.spawn.junk self calls.spawn.pointer evp c
                (b ∷ bytes) msg_size
          ok (c, events received, true)

    -- a round from the first `read` on, with what that gives and the buffer after it
    unfoldable pub handle_size : HandleCalls → Client → List ℕ → Option (List ℕ) → Run Turn
    unfolding hang_up handle_body
    handle_size calls c size_buffer none =
        if errnos.reset calls.first.errno
        then hang_up calls c
        else if errnos.again calls.first.errno
        then ok (c, [], true)
        else ok (c, set_error client_recv_failed calls.first.errno ∷ [], false)
    handle_size calls c size_buffer (some []) = hang_up calls c
    handle_size calls c size_buffer (some (b ∷ bytes)) = do
      msg_size ← decode_message_size size_buffer
      handle_body calls c msg_size calls.second.bytes

    -- a round behind the first `read`, with the second test of `connected`
    unfoldable pub handle_round : HandleCalls → Client → List ℕ → Run Turn
    unfolding handle_size
    handle_round calls c size_buffer =
        if not c.connected
        then ok (c, [], false)
        else handle_size calls c size_buffer calls.first.bytes

    -- the loop for as many rounds as there are calls given
    unfoldable pub handle_loop : List HandleCalls → Client → List ℕ → Run (Client × List Effect)
    unfolding handle_round
    handle_loop [] c size_buffer = ok (c, [])
    handle_loop (calls ∷ rounds) c size_buffer = if not c.connected then ok (c, []) else do
      let filled = fill_buffer calls.first.bytes size_buffer
      (c', effects, goes_on) ← handle_round calls c filled
      elim goes_on [
        | false ↦ ok (c', effects)
        | true ↦ do (c'', later) ← handle_loop rounds c' filled; ok (c'', effects ++ later)
      ]

    -- `_cdtp_client_handle`, with what its first call of `fcntl` gives
    unfoldable pub handle :
        Failure → List HandleCalls → Client → List ℕ → Run (Client × List Effect)
    unfolding handle_loop
    handle (some errno) rounds c size_buffer = ok (c, set_error client_sock_init_failed errno ∷ [])
    handle none rounds c size_buffer = handle_loop rounds c size_buffer
