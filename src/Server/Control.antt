-- ===== src/Server/Control.antt =====
-- src/server.c, starting and stopping: `cdtp_server_start`, `cdtp_server_stop`,
-- `cdtp_server_is_serving` and `cdtp_server_free`.
use Prim.Native.String.{String}
use cdtp.Common.{
  ℕ, ◌==◌, if◌then◌else◌, Bool, true, false, not, List, [], ◌∷◌, ◌++◌, Option, none, some, Run, ok,
  fault, bad_pointer, ◌>>=◌, set_pointer,
}
use cdtp.Errors.{
  server_cannot_restart, server_not_serving, server_already_serving, server_address_failed,
  server_bind_failed, server_listen_failed, server_stop_failed, serve_thread_not_closing,
  serve_thread_start_failed, server_not_done,
}
use cdtp.Map.{IterNode, iter, pop}
use cdtp.Transport.{Failure, Effect, set_error, close, SockAddr, fill_address}
use cdtp.Server.{Peer, Server}

-- What the system calls of `cdtp_server_start` give.
pub record StartCalls : Type 0 where
  pub inet_pton : String → Option (List ℕ)
  pub address_errno : ℕ
  pub bind_failure : Failure
  pub listen_failure : Failure
  pub create_code : ℕ
  pub thread : ℕ

-- `_cdtp_server_call_serve`, with what `_cdtp_start_serve_thread` does
unfoldable pub call_serve : ℕ → ℕ → Server → Server × List Effect
call_serve create_code thread s =
    if create_code == 0
    then (record s { serve_thread = some thread }, [])
    else (record s { serve_thread = some 0 }, set_error serve_thread_start_failed create_code ∷ [])

-- `cdtp_server_start` after the address
unfoldable pub bound : StartCalls → Server → Option SockAddr → Server × List Effect
unfolding call_serve
bound calls s none = (s, set_error server_address_failed calls.address_errno ∷ [])
bound calls s (some address) =
    let s' = record s { address = address } in
    elim calls.bind_failure [
      | some errno ↦ (s', set_error server_bind_failed errno ∷ [])
      | none ↦ elim calls.listen_failure [
        | some errno ↦ (s', set_error server_listen_failed errno ∷ [])
        | none ↦ call_serve calls.create_code calls.thread (record s' { serving = true })
      ]
    ]

-- `cdtp_server_start`
unfoldable pub start : StartCalls → ℕ → String → ℕ → Server → Server × List Effect
unfolding bound
start calls af_inet host port s =
    if s.is_done
    then (s, set_error server_cannot_restart 0 ∷ [])
    else if s.serving
    then (s, set_error server_already_serving 0 ∷ [])
    else bound calls s (fill_address calls.inet_pton af_inet host port s.address)

-- What the system calls of `cdtp_server_stop` give: `closes` for each client's socket, by its ID.
-- `self` says whether the caller is the serve thread.
pub record StopCalls : Type 0 where
  pub closes : ℕ → Failure
  pub close_failure : Failure
  pub self : Bool
  pub join_code : ℕ
  pub detach_code : ℕ

-- the loop of `cdtp_server_stop` over the clients: whether it has come to its end
unfoldable pub close_all :
    (ℕ → Failure) → Server → List (Option (IterNode Peer)) → Run (Server × List Effect × Bool)
close_all closes s [] = ok (s, [], true)
close_all closes s (entry ∷ entries) = do
  node ← set_pointer entry
  sock ← set_pointer node.sock
  elim (closes node.client_id) [
    | some errno ↦ ok (s, close sock.sock ∷ set_error server_stop_failed errno ∷ [], false)
    | none ↦ do
      (popped, clients) ← pop s.clients node.client_id
      client ← set_pointer popped
      key ← set_pointer client.key
      (s', effects, finished) ← close_all closes (record s { clients = clients }) entries
      ok (s', close sock.sock ∷ effects, finished)
  ]

-- `cdtp_server_stop` from its last call of `close` on; a thread that was never set cannot be joined
-- or detached
unfoldable pub end_thread : StopCalls → Server → Failure → Option ℕ → Run (List Effect)
end_thread calls s (some errno) thread = ok (close s.sock ∷ set_error server_stop_failed errno ∷ [])
end_thread calls s none none = fault bad_pointer
end_thread calls s none (some thread) =
    let code = if not calls.self then calls.join_code else calls.detach_code in
    if not (code == 0)
    then ok (close s.sock ∷ set_error serve_thread_not_closing code ∷ [])
    else ok (close s.sock ∷ [])

-- `cdtp_server_stop` after the loop over the clients
unfoldable pub closed : StopCalls → Server × List Effect × Bool → Run (Server × List Effect)
unfolding end_thread
closed calls (s, effects, false) = ok (s, effects)
closed calls (s, effects, true) = do
  later ← end_thread calls s calls.close_failure s.serve_thread
  ok (s, effects ++ later)

-- `cdtp_server_stop`
unfoldable pub stop : StopCalls → Server → Run (Server × List Effect)
unfolding close_all closed
stop calls s = if not s.serving then ok (s, set_error server_not_serving 0 ∷ []) else do
  let s' = record s { serving = false; is_done = true }
  it ← iter s'.clients
  result ← close_all calls.closes s' it.clients
  closed calls result

-- `cdtp_server_is_serving`
unfoldable pub is_serving : Server → Bool
is_serving s = s.serving

-- `cdtp_server_free`: whether the memory is freed
unfoldable pub free : Server → Bool × List Effect
free s = if not s.is_done then (false, set_error server_not_done 0 ∷ []) else (true, [])
