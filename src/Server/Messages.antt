-- ===== src/Server/Messages.antt =====
-- src/server.c, what is done with one client or with all: `cdtp_server_send`,
-- `cdtp_server_send_all` and `cdtp_server_remove_client`.
use cdtp.Common.{
  ℕ, if◌then◌else◌, not, List, [], ◌∷◌, ◌++◌, Option, none, some, Run, ok, ◌>>=◌, set_pointer,
}
use cdtp.Errors.{
  server_not_serving, client_does_not_exist, client_remove_failed, server_send_failed,
}
use cdtp.Wire.{construct_message}
use cdtp.Map.{IterNode, iter, get, pop}
use cdtp.Crypto.Attempt.{deref}
use cdtp.Crypto.Evp.{Evp}
use cdtp.Crypto.Aes.{aes_encrypt}
use cdtp.Transport.{Failure, Effect, set_error, close, send}
use cdtp.Server.{Peer, Server}

-- What a call of `cdtp_server_send` gets: `random` is drawn for the nonce, `beyond` lies behind the
-- data in memory, and `failure` is that of `send`.
pub record SendCalls : Type 0 where
  pub beyond : List ℕ
  pub random : Option (List ℕ)
  pub failure : Failure

-- what a call of `send` on the server's side leads to
abbrev pub sent : Failure → Option ℕ → List ℕ → List Effect
sent none sock frame = send sock frame ∷ []
sent (some errno) sock frame = send sock frame ∷ set_error server_send_failed errno ∷ []

module _ {Ctx Pkey : Type 0} (evp : Evp Ctx Pkey) where
  -- `cdtp_server_send` with the client that the map has
  unfoldable pub send_client : SendCalls → List ℕ → ℕ → Option Peer → Run (List Effect)
  send_client calls bytes data_size none = ok (set_error client_does_not_exist 0 ∷ [])
  send_client calls bytes data_size (some client) = do
    key ← set_pointer client.key
    data_encrypted ← deref (aes_encrypt evp calls.beyond calls.random key bytes data_size)
    frame ← construct_message data_encrypted.bytes data_encrypted.data_size
    ok (sent calls.failure client.sock frame)

  -- `cdtp_server_send`
  unfoldable pub send_data : SendCalls → Server → ℕ → List ℕ → ℕ → Run (List Effect)
  unfolding send_client
  send_data calls s client_id bytes data_size =
      if not s.serving
      then ok (set_error server_not_serving 0 ∷ [])
      else get s.clients client_id >>= send_client calls bytes data_size

  -- the loop of `cdtp_server_send_all`
  unfoldable pub send_each :
      (ℕ → SendCalls) → Server → List ℕ → ℕ → List (Option (IterNode Peer)) → Run (List Effect)
  unfolding send_data
  send_each calls s bytes data_size [] = ok []
  send_each calls s bytes data_size (entry ∷ entries) = do
    node ← set_pointer entry
    effects ← send_data (calls node.client_id) s node.client_id bytes data_size
    later ← send_each calls s bytes data_size entries
    ok (effects ++ later)

  -- `cdtp_server_send_all`, with the calls for each client
  unfoldable pub send_all : (ℕ → SendCalls) → Server → List ℕ → ℕ → Run (List Effect)
  unfolding send_each
  send_all calls s bytes data_size =
      if not s.serving
      then ok (set_error server_not_serving 0 ∷ [])
      else do it ← iter s.clients; send_each calls s bytes data_size it.clients

-- what `cdtp_server_remove_client` does with the socket that is popped; the key that is freed has to
-- be set
unfoldable pub close_removed : Failure → Option Peer → Run (List Effect)
close_removed failure none = ok (set_error client_does_not_exist 0 ∷ [])
close_removed (some errno) (some client) =
    ok (close client.sock ∷ set_error client_remove_failed errno ∷ [])
close_removed none (some client) = set_pointer client.key >>= (λ key. ok (close client.sock ∷ []))

-- `cdtp_server_remove_client`
unfoldable pub remove_client : Failure → Server → ℕ → Run (Server × List Effect)
unfolding close_removed
remove_client failure s client_id =
    if not s.serving then ok (s, set_error server_not_serving 0 ∷ []) else do
      (client, clients) ← pop s.clients client_id
      effects ← close_removed failure client
      ok (record s { clients = clients }, effects)
