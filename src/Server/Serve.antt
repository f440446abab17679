-- ===== src/Server/Serve.antt =====
-- `_cdtp_server_serve` of src/server.c: the loop that accepts clients and reads their messages. What
-- the system calls of one round give is an argument; `size_buffer` is the loop's buffer on the stack.
pub mod Turns
pub mod Accept
pub mod Rounds
pub mod Spares
pub mod Passes
pub mod Loops
use cdtp.Common.{
  ℕ, ◌+◌, ◌==◌, if◌then◌else◌, Bool, true, false, not, ◌||◌, List, [], ◌∷◌, ◌++◌, Option, none,
  some, Run, ok, ◌>>=◌, set_pointer, length,
}
use cdtp.Errors.{server_sock_init_failed, server_recv_failed, socket_accept_failed}
use cdtp.Wire.{decode_message_size}
use cdtp.Map.{IterNode, contains, set_client, iter}
use cdtp.Crypto.Evp.{Evp}
use cdtp.Crypto.Aes.{AesKey}
use cdtp.Threading.{Spawn}
use cdtp.Transport.{Errnos, Failure, Read, Effect, set_error, SockAddr, fill_buffer}
use cdtp.Server.{
  Peer, Server, new_client_id, disconnect_sock, call_on_connect, call_on_disconnect, ServerCalls,
  call_on_recv, exchange_keys_server,
}

-- what a round gets from one client: its two calls of `read`, and the thread that may be started
pub record PollCalls : Type 0 where
  pub first : Read
  pub second : Read
  pub spawn : Spawn

-- what is done with an accepted connection: both calls of `fcntl`, the exchange and a thread
pub record AcceptCalls : Type 0 where
  pub blocking_failure : Failure
  pub exchange : ServerCalls
  pub nonblocking_failure : Failure
  pub spawn : Spawn

-- what `accept` returns: -1 with `errno`, or a descriptor with the client's address
pub data Accepted : Type 0 where
  refused : ℕ → Accepted
  accepted : ℕ → SockAddr → AcceptCalls → Accepted

-- what the calls of one round give: that of `accept`, and for each client those of its turn
pub record RoundCalls : Type 0 where
  pub accept : Accepted
  pub polls : ℕ → PollCalls

-- The parts of a round return the server, what was done, and whether the loop goes on.
abbrev pub Turn : Type 0
Turn = Server × List Effect × Bool

-- the rest of the loop over the clients, unless this turn ends it
unfoldable pub after_turn : Turn → List ℕ → Run (Turn × List ℕ) → Run (Turn × List ℕ)
after_turn (s, effects, false) filled rest = ok ((s, effects, false), filled)
after_turn (s, effects, true) filled rest = do
  ((s', later, goes_on), buffer) ← rest
  ok ((s', effects ++ later, goes_on), buffer)

module _ (self : ℕ) where
  -- `if (_cdtp_client_map_contains(…)) { … }`, which stands four times in the loop; it goes on
  unfoldable pub drop_client : Spawn → Server → ℕ → Run Turn
  unfolding disconnect_sock call_on_disconnect
  drop_client spawn s client_id = do
    present ← contains s.clients client_id
    if not present then ok (s, [], true) else do
      (s', effects) ← disconnect_sock s client_id
      ok (s', effects ++ call_on_disconnect self spawn s' client_id, true)

module _ {Ctx Pkey : Type 0} (evp : Evp Ctx Pkey) (errnos : Errnos) (self : ℕ) where
  -- a client's turn from the second `read` on, with what that gives
  unfoldable pub poll_body : PollCalls → Server → ℕ → ℕ → Option (List ℕ) → Run Turn
  unfolding drop_client call_on_recv
  poll_body calls s client_id msg_size none =
      if errnos.gone calls.second.errno
      then drop_client self calls.spawn s client_id
      else ok (s, set_error server_recv_failed calls.second.errno ∷ [], false)
  poll_body calls s client_id msg_size (some []) = drop_client self calls.spawn s client_id
  poll_body calls s client_id msg_size (some (b ∷ bytes)) =
      if not (length (b ∷ bytes) == msg_size)
      then ok (s, set_error server_recv_failed calls.second.errno ∷ [], false)
      else do
        effects ← call_on_recv evp self calls.spawn s client_id (b ∷ bytes) msg_size
        ok (s, effects, true)

  -- a client's turn from the first `read` on, with what that gives and the buffer after it
  unfoldable pub poll_size : PollCalls → Server → ℕ → List ℕ → Option (List ℕ) → Run Turn
  unfolding drop_client poll_body
  poll_size calls s client_id size_buffer none =
      if errnos.gone calls.first.errno
      then drop_client self calls.spawn s client_id
      else if errnos.again calls.first.errno
      then ok (s, [], true)
      else ok (s, set_error server_recv_failed calls.first.errno ∷ [], false)
  poll_size calls s client_id size_buffer (some []) = drop_client self calls.spawn s client_id
  poll_size calls s client_id size_buffer (some (b ∷ bytes)) = do
    msg_size ← decode_message_size size_buffer
    poll_body calls s client_id msg_size calls.second.bytes

  -- the loop over the clients of the iterator, with the buffer that it leaves
  unfoldable pub poll_all :
      (ℕ → PollCalls) → Server → List ℕ → List (Option (IterNode Peer)) → Run (Turn × List ℕ)
  unfolding poll_size after_turn
  poll_all polls s size_buffer [] = ok ((s, [], true), size_buffer)
  poll_all polls s size_buffer (entry ∷ entries) = do
    node ← set_pointer entry
    client ← set_pointer node.sock
    let calls = polls node.client_id
    let filled = fill_buffer calls.first.bytes size_buffer
    turn ← poll_size calls s node.client_id filled calls.first.bytes
    after_turn turn filled (poll_all polls turn.0 filled entries)

  -- a new client after the key exchange, with its ID, its descriptor and the key, if it has got one
  unfoldable pub admit :
      AcceptCalls → Server → ℕ → ℕ → SockAddr → Option AesKey × List Effect → Run Turn
  unfolding call_on_connect
  admit calls s client_id fd address (none, effects) = ok (s, effects, false)
  admit calls s client_id fd address (some key, effects) = elim calls.nonblocking_failure [
    | some errno ↦ ok (s, effects ++ set_error socket_accept_failed errno ∷ [], false)
    | none ↦ do
      let client : Peer = record { sock = some fd; address = address; key = some key }
      (_, clients) ← set_client s.clients client_id (some client)
      let s' : Server = record s { clients = clients }
      ok (s', effects ++ call_on_connect self calls.spawn s' client_id, true)
  ]

  -- a round's call of `accept` and what follows from it
  unfoldable pub accept_client : Server → Accepted → Run Turn
  unfolding new_client_id admit
  accept_client s (refused errno) =
      if errnos.again errno
      then ok (s, [], true)
      else if not (errno == errnos.not_socket) || s.serving
      then ok (s, set_error socket_accept_failed errno ∷ [], false)
      else ok (s, [], false)
  accept_client s (accepted fd address calls) =
      let (client_id, s') = new_client_id s in
      elim calls.blocking_failure [
        | some errno ↦ ok (s', set_error socket_accept_failed errno ∷ [], false)
        | none ↦
            exchange_keys_server evp calls.exchange (some fd)
            >>= admit calls s' client_id fd address
      ]

  -- a round from the clients on
  unfoldable pub poll_round : (ℕ → PollCalls) → List ℕ → Turn → Run (Turn × List ℕ)
  unfolding poll_all
  poll_round polls size_buffer (s, effects, false) = ok ((s, effects, false), size_buffer)
  poll_round polls size_buffer (s, effects, true) = do
    it ← iter s.clients
    ((s', later, goes_on), buffer) ← poll_all polls s size_buffer it.clients
    ok ((s', effects ++ later, goes_on), buffer)

  -- one round of the loop, with the second test of `serving`, behind `accept`
  unfoldable pub serve_round : RoundCalls → Server → List ℕ → Run (Turn × List ℕ)
  unfolding accept_client poll_round
  serve_round calls s size_buffer =
      if not s.serving
      then ok ((s, [], false), size_buffer)
      else accept_client s calls.accept >>= poll_round calls.polls size_buffer

  -- the loop for as many rounds as there are calls given
  unfoldable pub serve_loop : List RoundCalls → Server → List ℕ → Run (Server × List Effect)
  unfolding serve_round
  serve_loop [] s size_buffer = ok (s, [])
  serve_loop (calls ∷ rounds) s size_buffer = if not s.serving then ok (s, []) else do
    ((s', effects, goes_on), buffer) ← serve_round calls s size_buffer
    elim goes_on [
      | false ↦ ok (s', effects)
      | true ↦ do (s'', later) ← serve_loop rounds s' buffer; ok (s'', effects ++ later)
    ]

  -- `_cdtp_server_serve`, with what its first call of `fcntl` gives
  unfoldable pub serve : Failure → List RoundCalls → Server → List ℕ → Run (Server × List Effect)
  unfolding serve_loop
  serve (some errno) rounds s size_buffer = ok (s, set_error server_sock_init_failed errno ∷ [])
  serve none rounds s size_buffer = serve_loop rounds s size_buffer
