-- ===== src/Client.antt =====
-- src/client.c, the client. A function takes the client
-- and the results of the system calls that it makes, and returns the client and, in order, what it
-- did. Pointers to functions and their arguments are numbers, with `none` for NULL.
pub mod Getters
pub mod Lifecycle
pub mod Address
pub mod Messages
pub mod Events
pub mod Handle
pub mod Rounds
pub mod Parting
pub mod Windows
mod Tests
use Prim.Native.String.{String}
use cdtp.Common.{
  ℕ, ◌+◌, ◌==◌, if◌then◌else◌, Bool, true, false, not, List, [], ◌∷◌, ◌++◌, Option, none, some, Run,
  ok, fault, bad_pointer, ◌>>=◌, set_pointer,
}
use cdtp.Errors.{
  ErrorCode, Library, init, winsock_init_failed, client_sock_init_failed, client_cannot_reconnect,
  client_already_connected, client_address_failed, client_connect_failed, client_disconnect_failed,
  handle_thread_not_closing, handle_thread_start_failed, client_not_connected, client_send_failed,
  client_key_exchange_failed, client_not_done, server_address_failed,
}
use cdtp.Wire.{construct_message}
use cdtp.Crypto.Attempt.{deref}
use cdtp.Crypto.Evp.{Evp}
use cdtp.Crypto.Aes.{AesKey, aes_key, aes_encrypt}
use cdtp.Crypto.Rsa.{public_key_from_bytes, rsa_encrypt}
use cdtp.Transport.{
  Failure, Read, Effect, set_error, close, send, SockAddr, socket_failed, fill_address, Received,
  message, broken, receive_key,
}

-- `struct _CDTPClient` with its `CDTPSocket`. `sock` is the descriptor, `none` for -1. `key` and
-- `handle_thread` are `none` as long as they have not been set.
pub record Client : Type 0 where
  pub on_recv : Option ℕ
  pub on_disconnected : Option ℕ
  pub on_recv_arg : ℕ
  pub on_disconnected_arg : ℕ
  pub connected : Bool
  pub is_done : Bool
  pub sock : Option ℕ
  pub address : SockAddr
  pub key : Option AesKey
  pub handle_thread : Option ℕ

-- the fields of a new client, whose socket is not yet there
abbrev pub fresh_client : Option ℕ → Option ℕ → ℕ → ℕ → SockAddr → Client
fresh_client on_recv on_disconnected on_recv_arg on_disconnected_arg junk = record {
  on_recv = on_recv;
  on_disconnected = on_disconnected;
  on_recv_arg = on_recv_arg;
  on_disconnected_arg = on_disconnected_arg;
  connected = false;
  is_done = false;
  sock = none;
  address = junk;
  key = none;
  handle_thread = none;
}

-- `cdtp_client`: the result and the state of the library, on Windows or elsewhere. `socket` is what
-- `socket` returns, with `none` for -1. `started` is what `WSAStartup` returns on Windows, and 0
-- elsewhere.
unfoldable pub client :
    Bool
    → Option ℕ
    → Option ℕ
    → ℕ
    → ℕ
    → SockAddr
    → ℕ
    → Library
    → Option ℕ
    → ℕ
    → Option Client × Library × List Effect
unfolding socket_failed
client on_windows on_recv on_disconnected on_recv_arg on_disconnected_arg junk started library
      socket errno =
    let c = fresh_client on_recv on_disconnected on_recv_arg on_disconnected_arg junk in
    let (return_code, library') = if not library.init then init started library else (0, library) in
    if not (return_code == 0)
    then (none, library', set_error winsock_init_failed return_code ∷ [])
    else if socket_failed on_windows socket
    then (none, library', set_error client_sock_init_failed errno ∷ [])
    else (some (record c { sock = socket }), library', [])

-- What the system calls of a key exchange give: `size_buffer` is what the buffer on the stack held,
-- `key_random` and `seal_random` are drawn by OpenSSL, and `beyond` lies behind the key in memory.
pub record ExchangeCalls : Type 0 where
  pub size_buffer : List ℕ
  pub first : Read
  pub second : Read
  pub key_random : Option (List ℕ)
  pub seal_random : List ℕ
  pub beyond : List ℕ
  pub send_failure : Failure

-- What the system calls of `cdtp_client_connect` give.
pub record ConnectCalls : Type 0 where
  pub inet_pton : String → Option (List ℕ)
  pub address_errno : ℕ
  pub connect_failure : Failure
  pub fcntl_failure : Failure
  pub exchange : ExchangeCalls
  pub create_code : ℕ
  pub thread : ℕ

-- `_cdtp_client_call_handle`, with what `_cdtp_start_handle_thread` does
unfoldable pub call_handle : ℕ → ℕ → Client → Client × List Effect
call_handle create_code thread c =
    if create_code == 0 then (record c { handle_thread = some thread }, []) else (
      record c { handle_thread = some 0 },
      set_error handle_thread_start_failed create_code ∷ [],
    )

-- the result of `send` in `_cdtp_client_exchange_keys`
unfoldable pub key_sent : Client → AesKey → List ℕ → Failure → Client × Bool × List Effect
key_sent c key frame (some errno) =
    (c, false, send c.sock frame ∷ set_error client_send_failed errno ∷ [])
key_sent c key frame none = (record c { key = some key }, true, send c.sock frame ∷ [])

-- `cdtp_client_connect` after the key exchange
unfoldable pub exchanged : ConnectCalls → Client × Bool × List Effect → Client × List Effect
exchanged calls (c, false, effects) = (c, effects)
exchanged calls (c, true, effects) =
    let (c', more) = call_handle calls.create_code calls.thread c in (c', effects ++ more)

module _ {Ctx Pkey : Type 0} (evp : Evp Ctx Pkey) where
  -- `_cdtp_client_exchange_keys` from the two calls of `read` on
  unfoldable pub answer_key : ExchangeCalls → Client → Received → Run (Client × Bool × List Effect)
  unfolding key_sent
  answer_key calls c (broken errno) = ok (c, false, set_error client_key_exchange_failed errno ∷ [])
  answer_key calls c (message buffer msg_size) = do
    public_key ← public_key_from_bytes buffer msg_size
    key ← deref (aes_key calls.key_random)
    key_encrypted ←
        deref (rsa_encrypt evp calls.beyond calls.seal_random public_key key.key key.key_size)
    key_encoded ← construct_message key_encrypted.bytes key_encrypted.data_size
    ok (key_sent c key key_encoded calls.send_failure)

  -- `_cdtp_client_exchange_keys`: whether the exchange succeeded
  unfoldable pub exchange_keys : ExchangeCalls → Client → Run (Client × Bool × List Effect)
  unfolding answer_key
  exchange_keys calls c =
      receive_key calls.size_buffer calls.first calls.second >>= answer_key calls c

  -- `cdtp_client_connect` after `connect`, with what it and `fcntl` give
  unfoldable pub reached : ConnectCalls → Client → Failure → Failure → Run (Client × List Effect)
  unfolding exchange_keys exchanged call_handle
  reached calls c (some errno) fcntl_failure = ok (c, set_error client_connect_failed errno ∷ [])
  reached calls c none (some errno) =
      ok (record c { connected = true }, set_error client_sock_init_failed errno ∷ [])
  reached calls c none none = do
    result ← exchange_keys calls.exchange (record c { connected = true })
    ok (exchanged calls result)

  -- `cdtp_client_connect` after the address
  unfoldable pub addressed : ConnectCalls → Client → Option SockAddr → Run (Client × List Effect)
  unfolding reached
  addressed calls c none = ok (c, set_error client_address_failed calls.address_errno ∷ [])
  addressed calls c (some address) =
      reached calls (record c { address = address }) calls.connect_failure calls.fcntl_failure

  -- `cdtp_client_connect`
  unfoldable pub connect : ConnectCalls → ℕ → String → ℕ → Client → Run (Client × List Effect)
  unfolding addressed
  connect calls af_inet host port c =
      if c.is_done
      then ok (c, set_error client_cannot_reconnect 0 ∷ [])
      else if c.connected
      then ok (c, set_error client_already_connected 0 ∷ [])
      else addressed calls c (fill_address calls.inet_pton af_inet host port c.address)

-- `cdtp_client_disconnect`. `self` says whether the caller is the handle thread. A thread that was
-- never set cannot be joined or detached.
unfoldable pub disconnect : Failure → Bool → ℕ → ℕ → Client → Run (Client × List Effect)
disconnect close_failure self join_code detach_code c =
    if not c.connected
    then ok (c, set_error client_not_connected 0 ∷ [])
    else let c' = record c { connected = false; is_done = true } in
      elim close_failure [
        | some errno ↦ ok (c', close c.sock ∷ set_error client_disconnect_failed errno ∷ [])
        | none ↦ elim c.handle_thread [
          | none ↦ fault bad_pointer
          | some thread ↦
              let code = if not self then join_code else detach_code in
              if not (code == 0)
              then ok (c', close c.sock ∷ set_error handle_thread_not_closing code ∷ [])
              else ok (c', close c.sock ∷ [])
        ]
      ]

-- `cdtp_client_is_connected`
unfoldable pub is_connected : Client → Bool
is_connected c = c.connected

-- `cdtp_client_send`. `random` is drawn for the nonce, and `beyond` lies behind the data in memory.
unfoldable pub send_data :
    {Ctx Pkey : Type 0}
    → Evp Ctx Pkey
    → List ℕ
    → Option (List ℕ)
    → Failure
    → List ℕ
    → ℕ
    → Client
    → Run (List Effect)
send_data evp beyond random send_failure bytes data_size c =
    if not c.connected then ok (set_error client_not_connected 0 ∷ []) else do
      key ← set_pointer c.key
      data_encrypted ← deref (aes_encrypt evp beyond random key bytes data_size)
      frame ← construct_message data_encrypted.bytes data_encrypted.data_size
      elim send_failure [
        | some errno ↦ ok (send c.sock frame ∷ set_error client_send_failed errno ∷ [])
        | none ↦ ok (send c.sock frame ∷ [])
      ]

-- `cdtp_client_free`: whether the memory is freed. The key that it frees has to be set.
unfoldable pub free : Client → Run (Bool × List Effect)
free c =
    if not c.is_done
    then ok (false, set_error client_not_done 0 ∷ [])
    else set_pointer c.key >>= (λ key. ok (true, []))
