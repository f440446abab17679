-- ===== src/Threading.antt =====
-- src/threading.c, the threads that run the user's event functions, and those of the server and the
-- client. A pointer to a function or to an object is a number. What is allocated and not set is
-- `junk`. A thread that starts runs its function once: the call is recorded.
pub mod Dispatch
use Prim.Native.String.{String}
use text.Mathlib.Text.{◌==◌ as str_eq}
use cdtp.Common.{ℕ, if◌then◌else◌, ◌==◌, Option, none, some}
use cdtp.Errors.{
  ErrorCode, event_thread_start_failed, serve_thread_start_failed, handle_thread_start_failed,
}

-- the union `func`: one pointer, read as a function of the type that the reader names
pub record EventFunc : Type 0 where
  pub name : String
  pub func : ℕ
  pub server : ℕ
  pub client : ℕ
  pub size_t1 : ℕ
  pub voidp1 : ℕ
  pub size_t2 : ℕ
  pub voidp2 : ℕ

-- A call of an event function, by its type: ServerOnRecvCallback and the others, each with the
-- function first and then its arguments in their order.
pub data Call : Type 0 where
  server_on_recv : ℕ → ℕ → ℕ → ℕ → ℕ → ℕ → Call
  server_on_connect : ℕ → ℕ → ℕ → ℕ → Call
  server_on_disconnect : ℕ → ℕ → ℕ → ℕ → Call
  client_on_recv : ℕ → ℕ → ℕ → ℕ → ℕ → Call
  client_on_disconnected : ℕ → ℕ → ℕ → Call

-- `_cdtp_event_thread`: the call that it makes, if the name is one that it knows
unfoldable pub event_thread : EventFunc → Option Call
event_thread e =
    if str_eq e.name "on_recv_server"
    then some (server_on_recv e.func e.server e.size_t1 e.voidp1 e.size_t2 e.voidp2)
    else if str_eq e.name "on_connect"
    then some (server_on_connect e.func e.server e.size_t1 e.voidp1)
    else if str_eq e.name "on_disconnect"
    then some (server_on_disconnect e.func e.server e.size_t1 e.voidp1)
    else if str_eq e.name "on_recv_client"
    then some (client_on_recv e.func e.client e.voidp1 e.size_t2 e.voidp2)
    else if str_eq e.name "on_disconnected"
    then some (client_on_disconnected e.func e.client e.voidp1)
    else none

-- What starting a thread for an event function takes from outside: what `pthread_create` returns,
-- what the fields that are not set hold, and where the data lies that is handed over.
pub record Spawn : Type 0 where
  pub return_code : ℕ
  pub junk : EventFunc
  pub pointer : ℕ

-- What starting a thread comes to: it runs, or an error is set with the code of `pthread_create`.
pub data Started {ℓ} (A : Type ℓ) : Type ℓ where
  runs : A → Started A
  fails : ErrorCode → ℕ → Started A

-- `_cdtp_start_event_thread`, with what `pthread_create` returns
unfoldable pub start_event_thread : ℕ → EventFunc → Started (Option Call)
unfolding event_thread
start_event_thread return_code func_info =
    if return_code == 0
    then runs (event_thread func_info)
    else fails event_thread_start_failed return_code

module _ (return_code : ℕ) (junk : EventFunc) where
  -- `_cdtp_start_thread_on_recv_server`
  unfoldable pub start_thread_on_recv_server : ℕ → ℕ → ℕ → ℕ → ℕ → ℕ → Started (Option Call)
  unfolding start_event_thread
  start_thread_on_recv_server func server client_id bytes data_size arg =
      start_event_thread return_code (record junk {
        name = "on_recv_server";
        func = func;
        server = server;
        size_t1 = client_id;
        voidp1 = bytes;
        size_t2 = data_size;
        voidp2 = arg;
      })

  -- `_cdtp_start_thread_on_connect`
  unfoldable pub start_thread_on_connect : ℕ → ℕ → ℕ → ℕ → Started (Option Call)
  unfolding start_event_thread
  start_thread_on_connect func server client_id arg = start_event_thread return_code (record junk {
    name = "on_connect";
    func = func;
    server = server;
    size_t1 = client_id;
    voidp1 = arg;
  })

  -- `_cdtp_start_thread_on_disconnect`
  unfoldable pub start_thread_on_disconnect : ℕ → ℕ → ℕ → ℕ → Started (Option Call)
  unfolding start_event_thread
  start_thread_on_disconnect func server client_id arg =
      start_event_thread return_code (record junk {
        name = "on_disconnect";
        func = func;
        server = server;
        size_t1 = client_id;
        voidp1 = arg;
      })

  -- `_cdtp_start_thread_on_recv_client`
  unfoldable pub start_thread_on_recv_client : ℕ → ℕ → ℕ → ℕ → ℕ → Started (Option Call)
  unfolding start_event_thread
  start_thread_on_recv_client func client bytes data_size arg =
      start_event_thread return_code (record junk {
        name = "on_recv_client";
        func = func;
        client = client;
        voidp1 = bytes;
        size_t2 = data_size;
        voidp2 = arg;
      })

  -- `_cdtp_start_thread_on_disconnected`
  unfoldable pub start_thread_on_disconnected : ℕ → ℕ → ℕ → Started (Option Call)
  unfolding start_event_thread
  start_thread_on_disconnected func client arg =
      start_event_thread return_code
        (record junk { name = "on_disconnected"; func = func; client = client; voidp1 = arg })

-- `CDTPServeFunc`
pub record ServeFunc : Type 0 where
  pub func : ℕ
  pub server : ℕ

-- `CDTPHandleFunc`
pub record HandleFunc : Type 0 where
  pub func : ℕ
  pub client : ℕ

-- `_cdtp_serve_thread`: the call that it makes, of a function with the object
abbrev pub serve_thread : ServeFunc → ℕ × ℕ
serve_thread func_info = (func_info.func, func_info.server)

-- `_cdtp_start_serve_thread`: the thread that it returns, 0 on failure, and what was started
unfoldable pub start_serve_thread : ℕ → ℕ → ℕ → ℕ → ℕ × Started (ℕ × ℕ)
start_serve_thread return_code thread func server =
    if return_code == 0
    then (thread, runs (serve_thread (record { func = func; server = server })))
    else (0, fails serve_thread_start_failed return_code)

-- `_cdtp_handle_thread`: the call that it makes, of a function with the object
abbrev pub handle_thread : HandleFunc → ℕ × ℕ
handle_thread func_info = (func_info.func, func_info.client)

-- `_cdtp_start_handle_thread`
unfoldable pub start_handle_thread : ℕ → ℕ → ℕ → ℕ → ℕ × Started (ℕ × ℕ)
start_handle_thread return_code thread func client =
    if return_code == 0
    then (thread, runs (handle_thread (record { func = func; client = client })))
    else (0, fails handle_thread_start_failed return_code)
