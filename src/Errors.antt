-- ===== src/Errors.antt =====
-- src/util.h and src/util.c, the error codes and the global error state, and the library's
-- initialisation on Windows and on other systems.
pub mod State
mod Tests
use cdtp.Common.{
  ℕ, ◌+◌, Bool, true, false, not, ◌==◌, if◌then◌else◌, Option, none, some, List, [], ◌∷◌, ◌++◌, Run,
  ok, fault, bad_pointer,
}

-- the codes of src/util.h
pub data ErrorCode : Type 0 where
  success winsock_init_failed server_sock_init_failed server_setsockopt_failed server_cannot_restart
        server_not_serving server_already_serving server_address_failed server_bind_failed
        server_listen_failed server_stop_failed serve_thread_not_closing client_does_not_exist
        client_remove_failed server_send_failed event_thread_start_failed serve_thread_start_failed
        handle_thread_start_failed socket_accept_failed server_recv_failed client_sock_init_failed
        client_cannot_reconnect client_already_connected client_address_failed client_connect_failed
        client_disconnect_failed handle_thread_not_closing client_not_connected client_send_failed
        client_recv_failed openssl_error server_key_exchange_failed client_key_exchange_failed
        server_not_done client_not_done :
      ErrorCode

unfoldable pub error_code : ErrorCode → ℕ
error_code success = 0
error_code winsock_init_failed = 1
error_code server_sock_init_failed = 2
error_code server_setsockopt_failed = 3
error_code server_cannot_restart = 4
error_code server_not_serving = 5
error_code server_already_serving = 6
error_code server_address_failed = 7
error_code server_bind_failed = 8
error_code server_listen_failed = 9
error_code server_stop_failed = 10
error_code serve_thread_not_closing = 11
error_code client_does_not_exist = 12
error_code client_remove_failed = 13
error_code server_send_failed = 14
error_code event_thread_start_failed = 15
error_code serve_thread_start_failed = 16
error_code handle_thread_start_failed = 17
error_code socket_accept_failed = 18
error_code server_recv_failed = 19
error_code client_sock_init_failed = 20
error_code client_cannot_reconnect = 21
error_code client_already_connected = 22
error_code client_address_failed = 23
error_code client_connect_failed = 24
error_code client_disconnect_failed = 25
error_code handle_thread_not_closing = 26
error_code client_not_connected = 27
error_code client_send_failed = 28
error_code client_recv_failed = 29
error_code openssl_error = 30
error_code server_key_exchange_failed = 31
error_code client_key_exchange_failed = 32
error_code server_not_done = 33
error_code client_not_done = 34

-- One call of the function that `cdtp_on_error` has registered: the function, both codes and `arg`.
pub record HandlerCall : Type 0 where
  pub function : ℕ
  pub cdtp_err : ℕ
  pub underlying_err : ℕ
  pub arg : ℕ

-- CDTP_ERROR, CDTP_ERROR_UNDER, CDTP_ON_ERROR_REGISTERED, CDTP_ON_ERROR and CDTP_ON_ERROR_ARG.
-- A function pointer is a number, with `none` for NULL. `called` is the calls made so far.
pub record Errors : Type 0 where
  pub error : ℕ
  pub error_under : ℕ
  pub on_error_registered : Bool
  pub on_error : Option ℕ
  pub on_error_arg : ℕ
  pub called : List HandlerCall

-- as the program starts
abbrev pub initial_errors : Errors
initial_errors = record {
  error = 0;
  error_under = 0;
  on_error_registered = false;
  on_error = none;
  on_error_arg = 0;
  called = [];
}

-- `cdtp_error`
unfoldable pub has_error : Errors → Bool
has_error s = not (s.error == 0)

-- `cdtp_get_error`
unfoldable pub get_error : Errors → ℕ × Errors
get_error s = (s.error, record s { error = 0 })

-- `cdtp_get_underlying_error`
unfoldable pub get_underlying_error : Errors → ℕ × Errors
get_underlying_error s = (s.error_under, record s { error_under = 0 })

-- `_cdtp_set_error`
unfoldable pub set_error : ℕ → ℕ → Errors → Run Errors
set_error cdtp_err underlying_err s =
    if not s.on_error_registered
    then ok (record s { error = cdtp_err; error_under = underlying_err })
    else elim s.on_error [
      | none ↦ fault bad_pointer
      | some function ↦ ok (record s {
        called =
            s.called
            ++ record {
              function = function;
              cdtp_err = cdtp_err;
              underlying_err = underlying_err;
              arg = s.on_error_arg;
            }
              ∷ [];
      })
    ]

-- `_cdtp_set_err`, with the value of `errno`
unfoldable pub set_err : ℕ → ℕ → Errors → Run Errors
unfolding set_error
set_err errno cdtp_err s = set_error cdtp_err errno s

-- `cdtp_on_error`
unfoldable pub on_error : Option ℕ → ℕ → Errors → Errors
on_error function arg s = record s {
  on_error_registered = true;
  on_error = function;
  on_error_arg = arg;
}

-- `cdtp_on_error_clear`
unfoldable pub on_error_clear : Errors → Errors
on_error_clear s = record s { on_error_registered = false }

-- CDTP_INIT and CDTP_EXIT, with the number of calls of `atexit(_cdtp_exit)` and of those that
-- `_cdtp_exit` makes of `WSACleanup`, which are made on Windows only.
pub record Library : Type 0 where
  pub init : Bool
  pub exit : Bool
  pub registered : ℕ
  pub cleanups : ℕ

-- `_cdtp_init`: `started` is what `WSAStartup` returns on Windows, and 0 elsewhere
unfoldable pub init : ℕ → Library → ℕ × Library
init started l =
    if not l.init
    then (started, record l { init = true; registered = l.registered + 1 })
    else (0, l)

-- `_cdtp_exit`, on Windows or not
unfoldable pub exit : Bool → Library → Library
exit on_windows l =
    if not l.exit
    then record l { exit = true; cleanups = if on_windows then l.cleanups + 1 else l.cleanups }
    else l
