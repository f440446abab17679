-- ===== src/Client/Getters.antt =====
-- src/client.c, the functions that ask for addresses, and what all functions do before a connection.
use Prim.Native.String.{String}
use cdtp.Common.{ℕ, ◌≡◌, Bool, false, not, if◌then◌else◌, List, [], ◌∷◌, Option, none, some, ok}
use cdtp.Errors.{ErrorCode, client_not_connected, client_address_failed, server_address_failed}
use cdtp.Crypto.Evp.{Evp}
use cdtp.Transport.{Failure, Effect, set_error}
use cdtp.Client.{Client, disconnect, send_data}

-- the shape that the four functions for addresses share: `lookup` is what `getsockname` or
-- `getpeername` and then `inet_ntop` or `ntohs` give, or `errno`
pub data Lookup {ℓ} (A : Type ℓ) : Type ℓ where
  found : A → Lookup A
  not_found : ℕ → Lookup A

unfoldable pub ask {ℓ} : {A : Type ℓ} → ErrorCode → Lookup A → Client → Option A × List Effect
ask code lookup c =
    if not c.connected then (none, set_error client_not_connected 0 ∷ []) else elim lookup [
      | found a ↦ (some a, [])
      | not_found errno ↦ (none, set_error code errno ∷ [])
    ]

-- `cdtp_client_get_host`, which returns NULL for `none`
unfoldable pub get_host : Lookup String → Client → Option String × List Effect
unfolding ask
get_host = ask client_address_failed

-- `cdtp_client_get_port`, which returns 0 for `none`
unfoldable pub get_port : Lookup ℕ → Client → Option ℕ × List Effect
unfolding ask
get_port = ask client_address_failed

-- `cdtp_client_get_server_host`
unfoldable pub get_server_host : Lookup String → Client → Option String × List Effect
unfolding ask
get_server_host = ask server_address_failed

-- `cdtp_client_get_server_port`
unfoldable pub get_server_port : Lookup ℕ → Client → Option ℕ × List Effect
unfolding ask
get_server_port = ask server_address_failed

-- On a client that is not connected, each of the four functions that ask for addresses returns NULL
-- or 0, `cdtp_client_send` sends nothing and `cdtp_client_disconnect` leaves the client as it is; each
-- of the six returns and does nothing but set the error for a client that is not connected.
pub not_connected_lem :
    {Ctx Pkey : Type 0} (evp : Evp Ctx Pkey) (c : Client) (host : Lookup String) (port : Lookup ℕ)
    (beyond bytes : List ℕ) (random : Option (List ℕ)) (data_size : ℕ)
    (send_failure close_failure : Failure) (self : Bool) (join_code detach_code : ℕ)
    → c.connected ≡ false
    → (get_host host c ≡ (none, set_error client_not_connected 0 ∷ []))
      × (get_port port c ≡ (none, set_error client_not_connected 0 ∷ []))
      × (get_server_host host c ≡ (none, set_error client_not_connected 0 ∷ []))
      × (get_server_port port c ≡ (none, set_error client_not_connected 0 ∷ []))
      × (send_data evp beyond random send_failure bytes data_size c
          ≡ ok (set_error client_not_connected 0 ∷ []))
      × (disconnect close_failure self join_code detach_code c
          ≡ ok (c, set_error client_not_connected 0 ∷ []))
unfolding get_host get_port get_server_host get_server_port ask send_data disconnect
not_connected_lem evp c host port beyond bytes random data_size send_failure close_failure self
      join_code detach_code off =
    (simp off, simp off, simp off, simp off, simp off, simp off)
