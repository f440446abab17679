-- ===== src/Crypto/Rsa/RoundTrip.antt =====
-- What is encrypted with a public key is decrypted with the private key of the pair.
use cdtp.Common.{
  ℕ, ◌+◌, ◌-◌, ◌%◌, ◌^◌, ◌≤◌, ◌<◌, ◌≡◌, refl, sym, ap, ◌⊎◌, List, [], ◌++◌, none, some, ok, inl,
  inr, Option-cases, malloc, copy, copy_block, copy_whole, length, length-append, arith,
}
use mathlib.Core.List.{append-nil, append_assoc}
use cdtp.Wire.{lensize, encode_message_size, decode_message_size}
use cdtp.Wire.Length.{length-encode, decode-encode}
use cdtp.Crypto.{CryptoData, pad_data, unpad_data, sub_size}
use cdtp.Crypto.Attempt.{done, null}
use cdtp.Crypto.Evp.{Evp, IsEvp, Undoes, Refuses}
use cdtp.Crypto.Padding.{IsWhole, marker, pad_data_lem, pad_data-size, unpad-pad, crypto_data_lem}
use cdtp.Crypto.Aes.Blocks.{to_int_lem, int_sum_lem, encrypt_all_lem, decrypt_all_lem}
use cdtp.Crypto.Aes.{decrypt_all, encrypt_all}
use cdtp.Crypto.Rsa.Envelope.{envelope, assembles}
use cdtp.Crypto.Rsa.{
  PublicKey, PrivateKey, openssl_rsa_public_key, openssl_rsa_private_key, rsa_encrypt, rsa_decrypt,
}

module _ {Ctx Pkey : Type 0} (evp : Evp Ctx Pkey) {IsPair : Pkey → Pkey → Type 0}
    (laws : IsEvp evp IsPair) where
  -- A pair of keys as the code holds them, and as OpenSSL reads them.
  pub record Pair (public_key : PublicKey) (private_key : PrivateKey) : Type 0 where
    pub public : Pkey
    pub private : Pkey
    pub bits : ℕ
    pub pair : IsPair public private
    pub public_whole : public_key.key_size ≡ length public_key.key
    pub public_small : public_key.key_size < 2 ^ 31
    pub reads_public : evp.read_public public_key.key ≡ some public
    pub has_size : evp.pkey_size public ≡ some bits
    pub private_whole : private_key.key_size ≡ length private_key.key
    pub private_small : private_key.key_size < 2 ^ 31
    pub reads_private : evp.read_private private_key.key ≡ some private

  -- A call of OpenSSL in the encryption fails.
  pub data Fails (public : Pkey) (random plaintext beyond : List ℕ) : Type 0 where
    no_init : evp.seal_init public random ≡ none → Fails public random plaintext beyond
    refuses :
        {ek nonce : List ℕ} {ctx : Ctx}
        → evp.seal_init public random ≡ some (ek, nonce, ctx)
        → Refuses evp ctx
            (pad_data beyond
              (record { bytes = plaintext; data_size = length plaintext })).padded.bytes
        → Fails public random plaintext beyond

  module _ (public_key : PublicKey) (private_key : PrivateKey)
      (keys : Pair public_key private_key) where
    public_lem : openssl_rsa_public_key evp public_key ≡ done keys.public
    unfolding openssl_rsa_public_key
    public_lem = rw (
      to_int_lem public_key.key_size keys.public_small,
      copy_whole public_key.key keys.public_whole,
      keys.reads_public,
    )

    private_lem : openssl_rsa_private_key evp private_key ≡ done keys.private
    unfolding openssl_rsa_private_key
    private_lem = rw (
      to_int_lem private_key.key_size keys.private_small,
      copy_whole private_key.key keys.private_whole,
      keys.reads_private,
    )

    -- An envelope opens to what was sealed in it.
    opens :
        (ek nonce body padded plaintext : List ℕ) (d : Ctx)
        → length nonce ≡ 16
        → length ek < 2 ^ 16
        → length body < 2 ^ 31
        → length padded ≤ length body
        → evp.open_init ek nonce keys.private ≡ some d
        → Undoes evp d padded body
        → unpad_data (record { bytes = padded; data_size = length padded })
          ≡ ok (record { bytes = plaintext; data_size = length plaintext })
        → rsa_decrypt evp private_key (envelope ek nonce body) (length (envelope ek nonce body))
          ≡ done (record { bytes = plaintext; data_size = length plaintext })
    unfolding rsa_decrypt decrypt_all
    opens ek nonce body padded plaintext d iv few long covers inits u unpads =
        let header = encode_message_size (length ek) in
        let five = length-encode (length ek) in
        let ten = length-append header ek in
        let more = length-append (header ++ ek) nonce in
        let most = length-append ((header ++ ek) ++ nonce) body in
        let all = envelope ek nonce body in
        let width : sub_size (length all) (lensize + length ek + 16) ≡ length body = omega arith in
        let small : length ek % 2 ^ 40 ≡ length ek = omega arith in
        let read₁ : copy lensize all 0 (malloc lensize) 0 ≡ ok header =
          rw (append_assoc (header ++ ek) nonce body, append_assoc header ek (nonce ++ body))
            (copy_block [] header (ek ++ (nonce ++ body)) {n = lensize} {i = 0} refl (sym five)) in
        let read₂ : copy (length ek) all lensize (malloc (length ek)) 0 ≡ ok ek =
          rw (append_assoc (header ++ ek) nonce body, append_assoc header ek (nonce ++ body))
            (copy_block header ek (nonce ++ body) {n = length ek} {i = lensize} (sym five) refl) in
        let read₃ : copy 16 all (lensize + length ek) (malloc 16) 0 ≡ ok nonce =
          rw (append_assoc (header ++ ek) nonce body) (
            copy_block (header ++ ek) nonce body {n = 16} {i = lensize + length ek} (omega arith)
              (sym iv)) in
        let read₄ : copy (length body) all (lensize + length ek + 16) (malloc (length body)) 0
            ≡ ok body =
          rw (append-nil body) at (
            copy_block ((header ++ ek) ++ nonce) body [] {n = length body}
              {i = lensize + length ek + 16} (omega arith) refl) in
        let decoded : decode_message_size header ≡ ok (length ek % 2 ^ 40) =
          rw (append-nil header) at (decode-encode (length ek) []) in
        rw (
          private_lem,
          laws.ivs,
          read₁,
          decoded,
          small,
          to_int_lem (length ek) (omega arith),
          read₂,
          read₃,
          int_sum_lem (lensize + length ek + 16) (omega arith),
          width,
          to_int_lem (length body) long,
          read₄,
          laws.new,
          inits,
          decrypt_all_lem evp laws d padded body (length body) refl covers long u,
          crypto_data_lem padded refl,
          unpads,
        )

    -- With a pair of keys and a plaintext of fewer than 2 ^ 31 - 2 ^ 17 bytes, encryption with the
    -- public key returns NULL since a call of OpenSSL fails, or gives an envelope that the private key
    -- decrypts to the plaintext, whatever lies behind the plaintext in memory, and whatever OpenSSL
    -- draws for the envelope. The envelope is longer than the plaintext, by 2 ^ 16 + 39 bytes at most.
    -- The bytes that the padding writes behind its block are taken to be in no other use, and OpenSSL
    -- is taken to keep to the laws of `IsEvp`.
    pub rsa_decrypt-encrypt :
        (plaintext beyond random : List ℕ)
        → length plaintext < 2 ^ 31 - 2 ^ 17
        → ((rsa_encrypt evp beyond random public_key plaintext (length plaintext) ≡ null)
            × Fails keys.public random plaintext beyond)
          ⊎ ((c : CryptoData) × (rsa_encrypt evp beyond random public_key plaintext
                  (length plaintext)
                ≡ done c)
              × (c.data_size ≡ length c.bytes)
              × (length plaintext < c.data_size)
              × (c.data_size ≤ length plaintext + 2 ^ 16 + 39)
              × (rsa_decrypt evp private_key c.bytes c.data_size
                  ≡ done (record { bytes = plaintext; data_size = length plaintext })))
    unfolding rsa_encrypt encrypt_all
    rsa_decrypt-encrypt plaintext beyond random small =
        let plain : CryptoData = record { bytes = plaintext; data_size = length plaintext } in
        let w : IsWhole plain = record { whole = refl; fits = omega arith } in
        let p = pad_data_lem beyond w in
        let s = pad_data-size beyond plain (omega arith) in
        let n = (pad_data beyond plain).padded.data_size in
        let bytes = (pad_data beyond plain).padded.bytes in
        let en : n ≡ length bytes =
          omega (arith, ap length p.0, p.1, length-append (marker (length plaintext)) plaintext) in
        let start = crypto_data_lem plaintext refl in
        let int = to_int_lem n (omega arith) in
        elim (Option-cases (evp.seal_init keys.public random)) [
          | inl e ↦ inl (rw (start, int, public_lem, keys.has_size, laws.new, e), no_init e)
          | inr ((ek, nonce, ctx), e) ↦
              let (iv, fits, few) =
                laws.envelopes keys.public keys.bits random ek nonce ctx keys.has_size e in
              elim (encrypt_all_lem evp laws ctx bytes n en s.2 (omega arith)) [
                | inl (failed, why) ↦ inl (
                  rw (start, int, public_lem, keys.has_size, laws.new, e) (rw failed),
                  refuses e why,
                )
                | inr (c₁, c₂, enc, ran) ↦
                    let body = c₁ ++ c₂ in
                    let blocks = laws.sizes ctx bytes c₁ c₂ enc in
                    let sizes = length-append c₁ c₂ in
                    let a = assembles ek nonce body iv in
                    let (d, inits, u) =
                      laws.opens keys.public keys.private random ek nonce bytes c₁ c₂ ctx keys.pair
                        e enc in
                    inr (
                      record {
                        bytes = envelope ek nonce body;
                        data_size = length (envelope ek nonce body);
                      },
                      rw (
                        start,
                        int,
                        public_lem,
                        keys.has_size,
                        laws.new,
                        laws.ivs,
                        e,
                        ran,
                        int_sum_lem (lensize + length ek + 16 + length body) (omega arith),
                        a.first,
                        a.second,
                        a.third,
                        a.fourth,
                        crypto_data_lem (envelope ek nonce body) a.width,
                        a.width,
                      ),
                      refl,
                      omega (arith, a.width),
                      omega (arith, a.width),
                      opens ek nonce body bytes plaintext d iv (omega arith) (omega arith)
                          (omega arith) inits u (rw (← en) (unpad-pad beyond w (omega arith))),
                    )
              ]
        ]
