-- ===== src/Server.antt =====
-- src/server.c, the server: its state, its clients' IDs,
-- the calls of the user's functions, and the key exchange with a client that has just connected. A
-- function takes the server and the results of the system calls that it makes, and returns the
-- server and, in order, what it did. `self` is the pointer to the server.
pub mod Exchange
pub mod Serve
pub mod Control
pub mod Messages
pub mod Getters
pub mod Valid
pub mod Stop
pub mod Windows
pub mod Follows
pub mod History
pub mod Arrive
pub mod Deliver
pub mod Abandon
pub mod Races
pub mod Stream
pub mod Gather
pub mod Answer
pub mod Remove
pub mod Session
pub mod Broadcast
mod Sample
mod Runs
mod Talks
mod Casts
mod Flows
mod Tests
use cdtp.Common.{
  ℕ, ◌+◌, ◌%◌, ◌==◌, if◌then◌else◌, Bool, true, false, not, List, [], ◌∷◌, ◌++◌, Option, none, some,
  Run, ok, ◌>>=◌, set_pointer,
}
use cdtp.Errors.{
  Library, init, server_key_exchange_failed, winsock_init_failed, server_sock_init_failed,
  server_setsockopt_failed,
}
use cdtp.Wire.{construct_message}
use cdtp.Map.{Map, size_mod, client_map, get, pop}
use cdtp.Crypto.{data_unwrap}
use cdtp.Crypto.Attempt.{deref}
use cdtp.Crypto.Evp.{Evp}
use cdtp.Crypto.Aes.{AesKey, aes_key_from, aes_decrypt}
use cdtp.Crypto.Rsa.{PrivateKey, KeyPair, public_key_to_bytes, rsa_decrypt}
use cdtp.Threading.{
  Spawn, start_thread_on_recv_server, start_thread_on_connect, start_thread_on_disconnect,
}
use cdtp.Transport.{
  Failure, Read, Effect, set_error, close, send, event, SockAddr, socket_failed, Received, message,
  broken, receive_key,
}

-- `CDTPSocket`, as the server has one for each client. `key` is `none` as long as it has not been set.
pub record Peer : Type 0 where
  pub sock : Option ℕ
  pub address : SockAddr
  pub key : Option AesKey

-- `struct _CDTPServer` with its `CDTPSocket`, whose key is never used. `sock` is the descriptor,
-- `none` for -1, and `serve_thread` is `none` as long as it has not been set.
pub record Server : Type 0 where
  pub on_recv : Option ℕ
  pub on_connect : Option ℕ
  pub on_disconnect : Option ℕ
  pub on_recv_arg : ℕ
  pub on_connect_arg : ℕ
  pub on_disconnect_arg : ℕ
  pub serving : Bool
  pub is_done : Bool
  pub sock : Option ℕ
  pub address : SockAddr
  pub clients : Map Peer
  pub next_client_id : ℕ
  pub serve_thread : Option ℕ

-- the fields of a new server, whose socket is not yet there
unfoldable pub fresh_server : Option ℕ → Option ℕ → Option ℕ → ℕ → ℕ → ℕ → SockAddr → Server
unfolding client_map
fresh_server on_recv on_connect on_disconnect on_recv_arg on_connect_arg on_disconnect_arg junk =
    record {
      on_recv = on_recv;
      on_connect = on_connect;
      on_disconnect = on_disconnect;
      on_recv_arg = on_recv_arg;
      on_connect_arg = on_connect_arg;
      on_disconnect_arg = on_disconnect_arg;
      serving = false;
      is_done = false;
      sock = none;
      address = junk;
      clients = client_map;
      next_client_id = 0;
      serve_thread = none;
    }

-- `cdtp_server`, from the new object `s` on: the result and the state of the library, on Windows or
-- elsewhere. `socket` is what `socket` returns, with `none` for -1. `started` is what `WSAStartup`
-- returns on Windows, and 0 elsewhere.
unfoldable pub server :
    Bool → Server → ℕ → Library → Option ℕ → ℕ → Failure → Option Server × Library × List Effect
unfolding socket_failed
server on_windows s started library socket errno opt_failure =
    let (return_code, library') = if not library.init then init started library else (0, library) in
    if not (return_code == 0)
    then (none, library', set_error winsock_init_failed return_code ∷ [])
    else if socket_failed on_windows socket
    then (none, library', set_error server_sock_init_failed errno ∷ [])
    else elim opt_failure [
      | some opt_errno ↦ (none, library', set_error server_setsockopt_failed opt_errno ∷ [])
      | none ↦ (some (record s { sock = socket }), library', [])
    ]

-- `_cdtp_server_new_client_id`: the ID, and the server after `next_client_id++`
unfoldable pub new_client_id : Server → ℕ × Server
new_client_id s =
    (s.next_client_id, record s { next_client_id = (s.next_client_id + 1) % size_mod })

-- what `_cdtp_server_disconnect_sock` does with the socket that is popped; its key has to be set
unfoldable pub close_sock : Option Peer → Run (List Effect)
close_sock none = ok []
close_sock (some client) = set_pointer client.key >>= (λ key. ok (close client.sock ∷ []))

-- `_cdtp_server_disconnect_sock`
unfoldable pub disconnect_sock : Server → ℕ → Run (Server × List Effect)
unfolding close_sock
disconnect_sock s client_id = do
  (client, clients) ← pop s.clients client_id
  effects ← close_sock client
  ok (record s { clients = clients }, effects)

-- `_cdtp_server_call_on_connect`
unfoldable pub call_on_connect : ℕ → Spawn → Server → ℕ → List Effect
unfolding start_thread_on_connect
call_on_connect self spawn s client_id = elim s.on_connect [
  | none ↦ []
  | some func ↦
      event []
        (start_thread_on_connect spawn.return_code spawn.junk func self client_id s.on_connect_arg)
      ∷ []
]

-- `_cdtp_server_call_on_disconnect`
unfoldable pub call_on_disconnect : ℕ → Spawn → Server → ℕ → List Effect
unfolding start_thread_on_disconnect
call_on_disconnect self spawn s client_id = elim s.on_disconnect [
  | none ↦ []
  | some func ↦
      event [] (
        start_thread_on_disconnect spawn.return_code spawn.junk func self client_id
          s.on_disconnect_arg)
      ∷ []
]

-- What the calls of a key exchange give: `rsa_keys` is what `_cdtp_crypto_rsa_key_pair` returns, and
-- `size_buffer` is what the buffer on the stack held.
pub record ServerCalls : Type 0 where
  pub rsa_keys : Option KeyPair
  pub send_failure : Failure
  pub size_buffer : List ℕ
  pub first : Read
  pub second : Read

module _ {Ctx Pkey : Type 0} (evp : Evp Ctx Pkey) where
  -- `_cdtp_server_call_on_recv`: the client has to be in the map, with a key
  unfoldable pub call_on_recv : ℕ → Spawn → Server → ℕ → List ℕ → ℕ → Run (List Effect)
  unfolding start_thread_on_recv_server data_unwrap
  call_on_recv self spawn s client_id bytes data_size = elim s.on_recv [
    | none ↦ ok []
    | some func ↦ do
      sock ← get s.clients client_id
      client ← set_pointer sock
      key ← set_pointer client.key
      data_decrypted ← deref (aes_decrypt evp key bytes data_size)
      ok (
          event (data_unwrap data_decrypted) (
            start_thread_on_recv_server spawn.return_code spawn.junk func self client_id
              spawn.pointer data_decrypted.data_size s.on_recv_arg)
          ∷ [])
  ]

  -- `_cdtp_server_exchange_keys` after the two calls of `read`
  unfoldable pub take_key : PrivateKey → Received → Run (Option AesKey × List Effect)
  take_key private_key (broken errno) = ok (none, set_error server_key_exchange_failed errno ∷ [])
  take_key private_key (message buffer msg_size) = do
    key_data ← deref (rsa_decrypt evp private_key buffer msg_size)
    key ← aes_key_from key_data.bytes key_data.data_size
    ok (some key, [])

  -- `_cdtp_server_exchange_keys` after the call of `send`
  unfoldable pub key_offered :
      ServerCalls → PrivateKey → Effect → Failure → Run (Option AesKey × List Effect)
  unfolding take_key
  key_offered calls private_key sent (some errno) =
      ok (none, sent ∷ set_error server_key_exchange_failed errno ∷ [])
  key_offered calls private_key sent none = do
    received ← receive_key calls.size_buffer calls.first calls.second
    (key, effects) ← take_key private_key received
    ok (key, sent ∷ effects)

  -- `_cdtp_server_exchange_keys` with a client's socket: the key that the socket gets, with `none`
  -- for a failed exchange
  unfoldable pub exchange_keys_server : ServerCalls → Option ℕ → Run (Option AesKey × List Effect)
  unfolding key_offered
  exchange_keys_server calls sock = do
    rsa_keys ← set_pointer calls.rsa_keys
    public_key_data ← public_key_to_bytes rsa_keys.public_key
    public_key_encoded ← construct_message public_key_data.bytes public_key_data.data_size
    key_offered calls rsa_keys.private_key (send sock public_key_encoded) calls.send_failure
