-- ===== src/Client/Events.antt =====
-- src/client.c, the functions of the user that a client calls: `_cdtp_client_call_on_recv` and
-- `_cdtp_client_call_on_disconnected`.
use cdtp.Common.{
  arith, ℕ, ◌-◌, ◌^◌, ◌<◌, ◌≡◌, ◌⊎◌, inl, inr, List, Option, none, some, Run, ok, ◌>>=◌,
  set_pointer, length,
}
use cdtp.Crypto.{CryptoData, data_unwrap}
use cdtp.Crypto.Attempt.{deref, done, null}
use cdtp.Crypto.Evp.{Evp, IsEvp}
use cdtp.Crypto.Aes.{AesKey, aes_key_size, aes_encrypt, aes_decrypt}
use cdtp.Crypto.Aes.RoundTrip.{Fails, aes_decrypt-encrypt}
use cdtp.Threading.{
  EventFunc, Call, client_on_recv, Started, start_thread_on_recv_client,
  start_thread_on_disconnected,
}
use cdtp.Threading.Dispatch.{outcome}
use cdtp.Client.{Client}

-- What the event function gets: a call whose pointer leads to `content`.
pub record Event : Type 0 where
  pub content : List ℕ
  pub started : Started (Option Call)

-- The thread that is started: what `pthread_create` returns, what the unset fields hold, and the
-- pointers to the client and to the decrypted data.
module _ (return_code : ℕ) (junk : EventFunc) (self pointer : ℕ) where
  -- `_cdtp_client_call_on_recv`
  unfoldable pub call_on_recv :
      {Ctx Pkey : Type 0} → Evp Ctx Pkey → Client → List ℕ → ℕ → Run (Option Event)
  unfolding start_thread_on_recv_client data_unwrap
  call_on_recv evp c bytes data_size = elim c.on_recv [
    | none ↦ ok none
    | some on_recv ↦ do
      key ← set_pointer c.key
      data_decrypted ← deref (aes_decrypt evp key bytes data_size)
      ok (
          some (record {
            content = data_unwrap data_decrypted;
            started =
                start_thread_on_recv_client return_code junk on_recv self pointer
                  data_decrypted.data_size c.on_recv_arg;
          }))
  ]

  -- `_cdtp_client_call_on_disconnected`
  unfoldable pub call_on_disconnected : Client → Option (Started (Option Call))
  unfolding start_thread_on_disconnected
  call_on_disconnected c = elim c.on_disconnected [
    | none ↦ none
    | some on_disconnected ↦
        some
          (start_thread_on_disconnected return_code junk on_disconnected self c.on_disconnected_arg)
  ]

  module _ {Ctx Pkey : Type 0} (evp : Evp Ctx Pkey) {IsPair : Pkey → Pkey → Type 0}
      (laws : IsEvp evp IsPair) (key : AesKey) (key_whole : length key.key ≡ aes_key_size) where
    pub call_on_recv-decrypted :
        (c : Client) (func : ℕ) (bytes : List ℕ) (data_size : ℕ) (plain : CryptoData)
        → c.on_recv ≡ some func
        → c.key ≡ some key
        → aes_decrypt evp key bytes data_size ≡ done plain
        → call_on_recv evp c bytes data_size
          ≡ ok (
              some (record {
                content = plain.bytes;
                started =
                    outcome return_code
                      (client_on_recv func self pointer plain.data_size c.on_recv_arg);
              }))
    unfolding call_on_recv start_thread_on_recv_client data_unwrap
    call_on_recv-decrypted c func bytes data_size plain listens has ran =
        rw (call_on_recv, listens, has, ran)

    -- What the other side encrypts under the client's key of 32 bytes, fewer than 2 ^ 31 - 33 bytes
    -- with 32 random bytes drawn, reaches the registered function: one thread is started, or fails
    -- to start with an error, for a call with the data as it was before encryption, its length and
    -- the registered argument. Or the other side's encryption returns NULL, since a call of OpenSSL
    -- fails. OpenSSL is taken to keep to the laws of `IsEvp`.
    pub call_on_recv_lem :
        (nonce bytes beyond : List ℕ) (c : Client) (func : ℕ)
        → length nonce ≡ 32
        → length bytes < 2 ^ 31 - 33
        → c.on_recv ≡ some func
        → c.key ≡ some key
        → ((aes_encrypt evp beyond (some nonce) key bytes (length bytes) ≡ null)
            × Fails evp laws key key_whole nonce bytes beyond)
          ⊎ ((sealed : CryptoData) × (aes_encrypt evp beyond (some nonce) key bytes (length bytes)
                ≡ done sealed)
              × (call_on_recv evp c sealed.bytes sealed.data_size
                  ≡ ok (
                      some (record {
                        content = bytes;
                        started =
                            outcome return_code
                              (client_on_recv func self pointer (length bytes) c.on_recv_arg);
                      }))))
    call_on_recv_lem nonce bytes beyond c func drawn small listens has =
        elim (aes_decrypt-encrypt evp laws key key_whole nonce bytes beyond drawn (omega arith)) [
          | inl failed ↦ inl failed
          | inr (inl (ran, long)) ↦ absurd (omega arith)
          | inr (inr (sealed, ran, size, few, decrypts)) ↦ inr (
            sealed,
            ran,
            call_on_recv-decrypted c func sealed.bytes sealed.data_size
                (record { bytes = bytes; data_size = length bytes }) listens has decrypts,
          )
        ]
