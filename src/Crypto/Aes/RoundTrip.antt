-- ===== src/Crypto/Aes/RoundTrip.antt =====
-- `_cdtp_crypto_aes_encrypt` and `_cdtp_crypto_aes_decrypt`: what an encryption holds, and that
-- decryption undoes it.
use cdtp.Common.{
  ℕ, ◌+◌, ◌-◌, ◌^◌, ◌≤◌, ◌<◌, ◌≡◌, refl, sym, ap, ◌⊎◌, List, [], ◌++◌, none, some, ok, overflow,
  inl, inr, Option-cases, take, drop, malloc, copy, copy_block, copy_whole, copy_first, copy_last,
  length, length-append, length-take, take-append-drop, ltb-cases, arith,
}
use mathlib.Core.List.{append-nil}
use cdtp.Crypto.{CryptoData, pad_data, unpad_data, sub_size}
use cdtp.Crypto.Attempt.{done, null, crash}
use cdtp.Crypto.Evp.{Evp, IsEvp, Encrypts, Refuses}
use cdtp.Crypto.Padding.{IsWhole, marker, pad_data_lem, pad_data-size, unpad-pad, crypto_data_lem}
use cdtp.Crypto.Aes.Blocks.{
  to_int_lem, int_sum_lem, int_sum-overflow, encrypt_all_lem, decrypt_all_lem,
}
use cdtp.Crypto.Aes.{AesKey, aes_key_size, aes_nonce_size, aes_encrypt, aes_decrypt}

module _ {Ctx Pkey : Type 0} (evp : Evp Ctx Pkey) {IsPair : Pkey → Pkey → Type 0}
    (laws : IsEvp evp IsPair) (key : AesKey) (key_whole : length key.key ≡ aes_key_size) where
  -- What an encryption holds: the nonce, then the ciphertext of the padded plaintext.
  record Sealed (nonce plaintext : List ℕ) (c : CryptoData) : Type 0 where
    padded : CryptoData
    ctx : Ctx
    c₁ : List ℕ
    c₂ : List ℕ
    inits : evp.encrypt_init key.key (take aes_nonce_size nonce) ≡ some ctx
    encrypts : Encrypts evp ctx padded.bytes c₁ c₂
    whole : IsWhole padded
    size : padded.data_size ≤ length plaintext + 2
    unpads : unpad_data padded ≡ ok (record { bytes = plaintext; data_size = length plaintext })
    holds : c ≡ record {
      bytes = take aes_nonce_size nonce ++ (c₁ ++ c₂);
      data_size = aes_nonce_size + length (c₁ ++ c₂);
    }

  -- A call of OpenSSL in the encryption fails.
  pub data Fails (nonce plaintext beyond : List ℕ) : Type 0 where
    no_init :
        evp.encrypt_init key.key (take aes_nonce_size nonce) ≡ none → Fails nonce plaintext beyond
    refuses :
        {ctx : Ctx}
        → evp.encrypt_init key.key (take aes_nonce_size nonce) ≡ some ctx
        → Refuses evp ctx
            (pad_data beyond
              (record { bytes = plaintext; data_size = length plaintext })).padded.bytes
        → Fails nonce plaintext beyond

  module _ (nonce plaintext beyond : List ℕ) (drawn : length nonce ≡ 32)
      (small : length plaintext < 2 ^ 31 - 32) where
    abbrev plain : CryptoData
    plain = record { bytes = plaintext; data_size = length plaintext }

    -- the end of the function: the nonce and the ciphertext in one block
    assemble :
        (c : List ℕ) {m : ℕ}
        → m ≡ length c
        → (with_nonce : List ℕ) × (copy aes_nonce_size nonce 0 (malloc (aes_nonce_size + m)) 0
            ≡ ok with_nonce)
          × (copy m c 0 with_nonce aes_nonce_size ≡ ok (take aes_nonce_size nonce ++ c))
    assemble c {m} em =
        let width : 16 ≡ length (take aes_nonce_size nonce) =
          omega (arith, length-take aes_nonce_size nonce) in
        (
          take aes_nonce_size nonce ++ malloc m,
          rw (take-append-drop aes_nonce_size nonce) at
              (copy_first (take aes_nonce_size nonce) (drop aes_nonce_size nonce) m width),
          rw (append-nil c) at (copy_last c [] (take aes_nonce_size nonce) em width),
        )

    -- Encryption of a plaintext of fewer than 2 ^ 31 - 32 bytes returns NULL, or what it holds is
    -- sealed; it never reads or writes out of bounds in OpenSSL's blocks. Only for the longest of
    -- these plaintexts the size of the nonce and the ciphertext may be no `int`.
    aes_encrypt-cases :
        ((aes_encrypt evp beyond (some nonce) key plaintext (length plaintext) ≡ null)
          × Fails nonce plaintext beyond)
        ⊎ (((aes_encrypt evp beyond (some nonce) key plaintext (length plaintext) ≡ crash overflow)
              × (length plaintext ≡ 2 ^ 31 - 33))
            ⊎ ((c : CryptoData) × (aes_encrypt evp beyond
                    (some nonce)
                    key
                    plaintext
                    (length plaintext)
                  ≡ done c)
                × Sealed nonce plaintext c))
    unfolding aes_encrypt
    aes_encrypt-cases =
        let w : IsWhole plain = record { whole = refl; fits = omega arith } in
        let p = pad_data_lem beyond w in
        let s = pad_data-size beyond plain (omega arith) in
        let n = (pad_data beyond plain).padded.data_size in
        let bytes = (pad_data beyond plain).padded.bytes in
        let en : n ≡ length bytes =
          omega (arith, ap length p.0, p.1, length-append (marker (length plaintext)) plaintext) in
        let start = crypto_data_lem plaintext refl in
        let int = to_int_lem n (omega arith) in
        let read = copy_whole key.key (sym key_whole) in
        elim (Option-cases (evp.encrypt_init key.key (take aes_nonce_size nonce))) [
          | inl e ↦ inl (rw (start, int, laws.new, read, e), no_init e)
          | inr (ctx, e) ↦ elim (encrypt_all_lem evp laws ctx bytes n en s.2 (omega arith)) [
            | inl (failed, why) ↦ inl (rw (start, int, laws.new, read, e, failed), refuses e why)
            | inr (c₁, c₂, enc, ran) ↦
                let c = c₁ ++ c₂ in
                let sizes = laws.sizes ctx bytes c₁ c₂ enc in
                let sum = length-append c₁ c₂ in
                elim (ltb-cases (aes_nonce_size + length c) (2 ^ 31)) [
                  | inr (ge, _) ↦ inr (
                      inl (
                        rw (
                          start,
                          int,
                          laws.new,
                          read,
                          e,
                          ran,
                          int_sum-overflow (aes_nonce_size + length c) ge,
                        ),
                        omega arith,
                      ))
                  | inl (lt, _) ↦
                      let (_, first, second) = assemble c refl in
                      inr (
                        inr (
                          record {
                            bytes = take aes_nonce_size nonce ++ c;
                            data_size = aes_nonce_size + length c;
                          },
                          rw (
                            start,
                            int,
                            laws.new,
                            read,
                            e,
                            ran,
                            int_sum_lem (aes_nonce_size + length c) lt,
                            first,
                            second,
                            crypto_data_lem (take aes_nonce_size nonce ++ c)
                                {n = aes_nonce_size + length c}
                                (omega (
                                  arith,
                                  length-append (take aes_nonce_size nonce) c,
                                  length-take aes_nonce_size nonce,
                                )),
                          ),
                          record {
                            padded = (pad_data beyond plain).padded;
                            ctx = ctx;
                            c₁ = c₁;
                            c₂ = c₂;
                            inits = e;
                            encrypts = enc;
                            whole = record { whole = en; fits = omega arith };
                            size = s.1;
                            unpads = unpad-pad beyond w (omega arith);
                            holds = refl;
                          },
                        ))
                ]
          ]
        ]

    -- What is sealed decrypts to the plaintext.
    aes_decrypt-Sealed :
        {c : CryptoData}
        → Sealed nonce plaintext c
        → aes_decrypt evp key c.bytes c.data_size ≡ done plain
    unfolding aes_decrypt
    aes_decrypt-Sealed {c} s =
        let body = s.c₁ ++ s.c₂ in
        let nonce' = take aes_nonce_size nonce in
        let width : 16 ≡ length nonce' = omega (arith, length-take aes_nonce_size nonce) in
        let blocks = laws.sizes s.ctx s.padded.bytes s.c₁ s.c₂ s.encrypts in
        let long : length body < 2 ^ 31 = omega (arith, length-append s.c₁ s.c₂) in
        let covers : length s.padded.bytes ≤ length body = omega (arith, length-append s.c₁ s.c₂) in
        let size : sub_size (aes_nonce_size + length body) aes_nonce_size ≡ length body =
          omega arith in
        let (d, inits, u) =
          laws.decrypts key.key nonce' s.padded.bytes s.c₁ s.c₂ s.ctx s.inits s.encrypts in
        rw (
          s.holds,
          copy_block [] nonce' body {n = aes_nonce_size} {i = 0} refl width,
          size,
          rw (append-nil body) at
              (copy_block nonce' body [] {n = length body} {i = aes_nonce_size} width refl),
          to_int_lem (length body) long,
          laws.new,
          copy_whole key.key (sym key_whole),
          inits,
          decrypt_all_lem evp laws d s.padded.bytes body (length body) refl covers long u,
          crypto_data_lem s.padded.bytes refl,
          ← s.whole.whole,
          s.unpads,
        )

    -- With a key of 32 bytes, 32 random bytes and a plaintext of fewer than 2 ^ 31 - 32 bytes,
    -- encryption returns NULL since a call of OpenSSL fails, or gives a ciphertext that decrypts to
    -- the plaintext under the same key, whatever lies behind the plaintext in memory; or the sum of
    -- the sizes of the nonce and the ciphertext overflows an `int`, which only a plaintext of
    -- 2 ^ 31 - 33 bytes leads to. The ciphertext is at most 34 bytes longer than the plaintext. The
    -- bytes that the padding writes behind its block are taken to be in no other use, and OpenSSL is
    -- taken to keep to the laws of `IsEvp`.
    pub aes_decrypt-encrypt :
        ((aes_encrypt evp beyond (some nonce) key plaintext (length plaintext) ≡ null)
          × Fails nonce plaintext beyond)
        ⊎ (((aes_encrypt evp beyond (some nonce) key plaintext (length plaintext) ≡ crash overflow)
              × (length plaintext ≡ 2 ^ 31 - 33))
            ⊎ ((c : CryptoData) × (aes_encrypt evp beyond
                    (some nonce)
                    key
                    plaintext
                    (length plaintext)
                  ≡ done c)
                × (c.data_size ≡ length c.bytes)
                × (c.data_size ≤ length plaintext + 34)
                × (aes_decrypt evp key c.bytes c.data_size ≡ done plain)))
    aes_decrypt-encrypt = elim aes_encrypt-cases [
      | inl failed ↦ inl failed
      | inr (inl long) ↦ inr (inl long)
      | inr (inr (c, ran, s)) ↦
          let body = s.c₁ ++ s.c₂ in
          let blocks = laws.sizes s.ctx s.padded.bytes s.c₁ s.c₂ s.encrypts in
          let sizes = length-append s.c₁ s.c₂ in
          inr (
            inr (
              c,
              ran,
              rw s.holds (
                  omega (
                    arith,
                    length-append (take aes_nonce_size nonce) body,
                    length-take aes_nonce_size nonce,
                  )),
              rw s.holds (omega arith),
              aes_decrypt-Sealed s,
            ))
    ]
