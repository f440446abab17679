-- ===== src/Client/Address.antt =====
-- src/client.c, `cdtp_client_connect`: which address and which state the connection gets.
use Prim.Native.String.{String}
use cdtp.Common.{
  ℕ, ◌≡◌, refl, Bool, true, false, List, [], ◌∷◌, Option, none, some, ok, fault, bad_pointer,
  length, arith,
}
use cdtp.Errors.{client_key_exchange_failed}
use cdtp.Crypto.Evp.{Evp}
use cdtp.Transport.{set_error, SockAddr, write_host, host_name, htons, fill_address, receive_key}
use cdtp.Client.{
  Client, ExchangeCalls, ConnectCalls, answer_key, exchange_keys, exchanged, reached, addressed,
  connect, disconnect,
}

-- The structure that `bind` and `connect` get does not depend on the host, of whose address
-- `inet_pton` gives four bytes.
pub fill_address_lem :
    (inet_pton : String → Option (List ℕ)) (af_inet : ℕ) (host : String) (port : ℕ)
    (address : SockAddr)
    → {bytes : List ℕ} → inet_pton (host_name host) ≡ some bytes
    → length bytes ≡ 4
    → fill_address inet_pton af_inet host port address
      ≡ some (record { sin_family = af_inet; sin_port = htons port; sin_addr = address.sin_addr })
unfolding fill_address write_host
fill_address_lem inet_pton af_inet host port address {bytes = a ∷ b ∷ c ∷ d ∷ []} e four =
    rw (fill_address, e)
fill_address_lem inet_pton af_inet host port address {bytes = []} e four = absurd (omega arith)
fill_address_lem inet_pton af_inet host port address {bytes = a ∷ []} e four = absurd (omega arith)
fill_address_lem inet_pton af_inet host port address {bytes = a ∷ b ∷ []} e four =
    absurd (omega arith)
fill_address_lem inet_pton af_inet host port address {bytes = a ∷ b ∷ c ∷ []} e four =
    absurd (omega arith)
fill_address_lem inet_pton af_inet host port address {bytes = a ∷ b ∷ c ∷ d ∷ x ∷ rest} e four =
    absurd (omega arith)

fill_address-made :
    (inet_pton : String → Option (List ℕ)) (af_inet : ℕ) (host : String) (port : ℕ)
    (address : SockAddr)
    → {bytes : List ℕ} → inet_pton (host_name host) ≡ some bytes
    → (made : SockAddr) × (fill_address inet_pton af_inet host port address ≡ some made)
unfolding fill_address
fill_address-made inet_pton af_inet host port address {bytes = bytes} e = (
  record (write_host bytes address) { sin_family = af_inet; sin_port = htons port },
  rw (fill_address, e),
)

module _ {Ctx Pkey : Type 0} (evp : Evp Ctx Pkey) where
  -- `cdtp_client_connect` returns the same and does the same for any two hosts of whose
  -- addresses `inet_pton` gives four bytes, as for AF_INET, if the port, the client and the other calls are the same.
  pub connect-ignores-host :
      (calls : ConnectCalls) (af_inet : ℕ) (host host' : String) (port : ℕ) (c : Client)
      → {bytes bytes' : List ℕ} → calls.inet_pton (host_name host) ≡ some bytes
      → calls.inet_pton (host_name host') ≡ some bytes'
      → length bytes ≡ 4
      → length bytes' ≡ 4
      → connect evp calls af_inet host port c ≡ connect evp calls af_inet host' port c
  unfolding connect
  connect-ignores-host calls af_inet host host' port c e e' four four' = rw (
    fill_address_lem calls.inet_pton af_inet host port c.address e four,
    fill_address_lem calls.inet_pton af_inet host' port c.address e' four',
  )

  exchange-closed :
      (calls : ExchangeCalls) (c : Client)
      → calls.first.bytes ≡ some []
      → exchange_keys evp calls c
        ≡ ok (c, false, set_error client_key_exchange_failed calls.first.errno ∷ [])
  unfolding exchange_keys receive_key answer_key
  exchange-closed calls c e = rw (e)

  -- For a client that is not connected, not done and without a thread, a host that `inet_pton`
  -- accepts, and successful calls of `connect` and `fcntl`: when the server ends the stream instead
  -- of sending its key, `cdtp_client_connect` reports an error and returns a client that is
  -- connected; `cdtp_client_disconnect` of it, whose `close` succeeds, then uses a thread that was
  -- never set.
  pub connect-abandoned :
      (calls : ConnectCalls) (c : Client) (af_inet : ℕ) (host : String) (port : ℕ)
      → {bytes : List ℕ} (self : Bool) (join_code detach_code : ℕ) → c.is_done ≡ false
      → c.connected ≡ false
      → c.handle_thread ≡ none
      → calls.inet_pton (host_name host) ≡ some bytes
      → calls.connect_failure ≡ none
      → calls.fcntl_failure ≡ none
      → calls.exchange.first.bytes ≡ some []
      → (c' : Client) × (connect evp calls af_inet host port c
          ≡ ok (c', set_error client_key_exchange_failed calls.exchange.first.errno ∷ []))
        × (c'.connected ≡ true)
        × (disconnect none self join_code detach_code c' ≡ fault bad_pointer)
  unfolding connect addressed reached exchanged disconnect
  connect-abandoned calls c af_inet host port self join_code detach_code done off idle resolved
        joined accepted ended =
      let (made, e) = fill_address-made calls.inet_pton af_inet host port c.address resolved in
      (
        record c { address = made; connected = true },
        rw (done, off, e, joined, accepted, exchange-closed calls.exchange _ ended),
        refl,
        rw (idle),
      )
