-- ===== src/Server/Session.antt =====
-- A session from its start: the key exchange of src/client.c and src/server.c, the new client in the
-- server's map, and the first message of the client.
use cdtp.Common.{
  ℕ, ◌-◌, ◌^◌, ◌<◌, ◌≡◌, refl, ap, ◌∙◌, ◌⊎◌, inl, inr, true, ◌==◌, List, [], ◌∷◌, ◌++◌, none, some,
  ok, fault, bad_pointer, length, arith,
}
use cdtp.Wire.{encode_message_size}
use cdtp.Crypto.Evp.{Evp, IsEvp}
use cdtp.Crypto.Aes.{AesKey, aes_key_size}
use cdtp.Crypto.Aes.RoundTrip.{Fails}
use cdtp.Crypto.Rsa.{PublicKey, PrivateKey}
use cdtp.Crypto.Rsa.RoundTrip.{Pair}
use cdtp.Crypto.Rsa.RoundTrip.{Fails as FailsKey}
use cdtp.Threading.{Spawn, server_on_recv}
use cdtp.Threading.Dispatch.{outcome}
use cdtp.Transport.{Failure, Effect, SockAddr, send, event, fill_buffer, Errnos}
use cdtp.Transport.Frames.{frame_of, size_read}
use cdtp.Client.{Client, ExchangeCalls, exchange_keys}
use cdtp.Client.{send_data as client_send}
use cdtp.Client.Messages.{reports}
use cdtp.Server.{Peer, Server, call_on_connect}
use cdtp.Server.Exchange.{drawn_key, frame_arrives, exchange_agrees}
use cdtp.Server.Valid.{IsValid}
use cdtp.Server.Serve.{AcceptCalls, accepted, accept_client, poll_size}
use cdtp.Server.Serve.Accept.{Admits, accept_client-Admits}
use cdtp.Server.Deliver.{Listens, client_send-arrives}
use cdtp.Server.Arrive.{arrives}

-- The next client is one that the server listens to.
Admits-Listens :
    {s s' : Server} (peer : Peer) (key : AesKey) (func : ℕ)
    → Admits s peer s'
    → s.on_recv ≡ some func
    → peer.key ≡ some key
    → Listens s' s.next_client_id key func
Admits-Listens {s} {s'} peer key func a listens has =
    let self : (s.next_client_id == s.next_client_id) ≡ true = ground arith in
    record {
      peer = peer;
      on_recv = ap Server.on_recv a.same ∙ listens;
      has = a.reads s.next_client_id ∙ rw self;
      has_key = has;
    }

module _ {Ctx Pkey : Type 0} (evp : Evp Ctx Pkey) {IsPair : Pkey → Pkey → Type 0}
    (laws : IsEvp evp IsPair) (public_key : PublicKey) (private_key : PrivateKey)
    (keys : Pair evp laws public_key private_key) (errnos : Errnos) (self : ℕ) where
  -- the server's calls when a connection is accepted and the client's key arrives whole
  abbrev pub welcome : List ℕ → ℕ → Spawn → List ℕ → AcceptCalls
  welcome size_buffer errno spawn sealed = record {
    blocking_failure = none;
    exchange = frame_arrives evp laws public_key private_key keys size_buffer errno sealed;
    nonblocking_failure = none;
    spawn = spawn;
  }

  -- the client when it has sent the key that it has drawn
  abbrev pub keyed : Client → List ℕ → Client
  keyed c random = record c { key = some (drawn_key random) }

  -- what the server has of it
  abbrev pub admitted : ℕ → SockAddr → List ℕ → Peer
  admitted fd address random = record {
    sock = some fd;
    address = address;
    key = some (drawn_key random);
  }

  abbrev pub offered : ℕ → List Effect
  offered fd = send (some fd) (frame_of public_key.key) ∷ []

  -- From a connection to a message. A valid server with fewer than 2 ^ 60 IDs given and a function
  -- for messages accepts a connected client, which gets the server's public key whole and draws a
  -- key of 32 bytes; its answer arrives at the server whole, and no call of `send` or `fcntl` fails
  -- in this. Then the server has one more client, with the next ID and that key, starts
  -- `on_connect` for it, and its loop goes on; and when the client, with 32 random bytes drawn,
  -- sends fewer than 2 ^ 31 - 33 bytes, one frame is sent, and the turn of the server in which it
  -- arrives in two reads starts one thread, or sets an error if it cannot, for a call with that ID,
  -- the data and its length. Or the client uses a NULL pointer, in the exchange or in sending, since
  -- a call of OpenSSL fails. The pair of keys is one that OpenSSL reads as such, and OpenSSL is
  -- taken to keep to the laws of `IsEvp`.
  pub session_lem :
      {s : Server} (func fd : ℕ) (address : SockAddr) (spawn : Spawn) (calls : ExchangeCalls)
      (c : Client) (random size_buffer : List ℕ) (errno : ℕ) (beyond nonce bytes buffer : List ℕ)
      (failure : Failure)
      → IsValid s
      → s.next_client_id < 2 ^ 60
      → s.on_recv ≡ some func
      → 0 < length public_key.key
      → calls.first.bytes ≡ some (encode_message_size (length public_key.key))
      → calls.second.bytes ≡ some public_key.key
      → calls.key_random ≡ some random
      → (whole : length random ≡ aes_key_size) → calls.send_failure ≡ none
      → c.connected ≡ true
      → length nonce ≡ 32
      → length bytes < 2 ^ 31 - 33
      → ((exchange_keys evp calls c ≡ fault bad_pointer)
          × FailsKey evp laws keys.public calls.seal_random random calls.beyond)
        ⊎ ((sealed : List ℕ) × (s' : Server) × (exchange_keys evp calls c
              ≡ ok (keyed c random, true, send c.sock (frame_of sealed) ∷ []))
            × (accept_client evp errnos self s
                  (accepted fd address (welcome size_buffer errno spawn sealed))
                ≡ ok (s', offered fd ++ call_on_connect self spawn s s.next_client_id, true))
            × Admits s (admitted fd address random) s'
            × (((client_send evp beyond (some nonce) failure bytes (length bytes) (keyed c random)
                    ≡ fault bad_pointer)
                  × Fails evp laws (drawn_key random) whole nonce bytes beyond)
                ⊎ ((frame : List ℕ) × (client_send evp beyond
                        (some nonce)
                        failure
                        bytes
                        (length bytes)
                        (keyed c random)
                      ≡ ok (send c.sock frame ∷ reports failure))
                    × (poll_size evp errnos self
                          (arrives errno spawn frame)
                          s'
                          s.next_client_id
                          (fill_buffer (size_read errno frame).bytes buffer)
                          (size_read errno frame).bytes
                        ≡ ok (
                          s',
                          event bytes (
                                outcome spawn.return_code (
                                  server_on_recv func self s.next_client_id spawn.pointer
                                    (length bytes)
                                    s'.on_recv_arg))
                              ∷ [],
                          true,
                        )))))
  session_lem {s} func fd address spawn calls c random size_buffer errno beyond nonce bytes buffer
        failure v few listens nonempty size_in key_in drawn whole accepted_send on drawn' small =
      elim (exchange_agrees evp laws public_key private_key keys calls c random size_buffer errno
        (some fd) nonempty size_in key_in drawn whole accepted_send) [
          | inl failed ↦ inl failed
          | inr (sealed, sends, takes) ↦
              let key = drawn_key random in
              let peer = admitted fd address random in
              let ((s', effects, goes_on), run, (a, done, on')) =
                accept_client-Admits evp errnos self fd address
                  (welcome size_buffer errno spawn sealed) key (offered fd) v few refl takes refl in
              inr (
                sealed,
                s',
                sends,
                run
                    ∙ ap (λ e. ok (s', e, goes_on)) done
                    ∙ ap
                        (λ b.
                          ok (s', offered fd ++ call_on_connect self spawn s s.next_client_id, b))
                        on',
                a,
                client_send-arrives evp self s.next_client_id key func spawn a.grows.valid
                    (Admits-Listens peer key func a listens refl) errnos laws whole (keyed c random)
                    beyond nonce bytes failure errno buffer drawn' small on refl,
              )
        ]
