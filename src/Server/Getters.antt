-- ===== src/Server/Getters.antt =====
-- src/server.c, the functions that ask for addresses. As on the client's side, `lookup` is what
-- `getsockname` or `getpeername` and then `inet_ntop` or `ntohs` give.
use Prim.Native.String.{String}
use cdtp.Common.{ℕ, if◌then◌else◌, not, List, [], ◌∷◌, Option, none, some, Run, ok, ◌>>=◌}
use cdtp.Errors.{
  ErrorCode, server_not_serving, server_address_failed, client_address_failed,
  client_does_not_exist,
}
use cdtp.Map.{get}
use cdtp.Transport.{Effect, set_error}
use cdtp.Client.Getters.{Lookup, found, not_found}
use cdtp.Server.{Peer, Server}

-- the result of a lookup, with the error that stands for a failure
unfoldable pub answer {ℓ} : {A : Type ℓ} → ErrorCode → Lookup A → Option A × List Effect
answer code (found a) = (some a, [])
answer code (not_found errno) = (none, set_error code errno ∷ [])

-- the shape that `cdtp_server_get_host` and `cdtp_server_get_port` share
unfoldable pub ask_server {ℓ} : {A : Type ℓ} → Lookup A → Server → Option A × List Effect
unfolding answer
ask_server lookup s =
    if not s.serving
    then (none, set_error server_not_serving 0 ∷ [])
    else answer server_address_failed lookup

-- `cdtp_server_get_host`, which returns NULL for `none`
unfoldable pub get_host : Lookup String → Server → Option String × List Effect
unfolding ask_server
get_host = ask_server

-- `cdtp_server_get_port`, which returns 0 for `none`
unfoldable pub get_port : Lookup ℕ → Server → Option ℕ × List Effect
unfolding ask_server
get_port = ask_server

-- the answer for a client that the map has, or not
unfoldable pub answer_client {ℓ} : {A : Type ℓ} → Lookup A → Option Peer → Option A × List Effect
unfolding answer
answer_client lookup none = (none, set_error client_does_not_exist 0 ∷ [])
answer_client lookup (some client) = answer client_address_failed lookup

-- the shape that `cdtp_server_get_client_host` and `cdtp_server_get_client_port` share
unfoldable pub ask_client {ℓ} : {A : Type ℓ} → Lookup A → Server → ℕ → Run (Option A × List Effect)
unfolding answer_client
ask_client lookup s client_id =
    if not s.serving
    then ok (none, set_error server_not_serving 0 ∷ [])
    else get s.clients client_id >>= (λ client. ok (answer_client lookup client))

-- `cdtp_server_get_client_host`
unfoldable pub get_client_host : Lookup String → Server → ℕ → Run (Option String × List Effect)
unfolding ask_client
get_client_host = ask_client

-- `cdtp_server_get_client_port`
unfoldable pub get_client_port : Lookup ℕ → Server → ℕ → Run (Option ℕ × List Effect)
unfolding ask_client
get_client_port = ask_client
