-- ===== src/Crypto/Aes/Blocks.antt =====
-- One encryption and one decryption over whole buffers: every write is inside its block.
use cdtp.Common.{
  ℕ, ◌+◌, ◌-◌, ◌%◌, ◌^◌, ◌≤◌, ◌<◌, ◌≡◌, ◌≢◌, refl, ap, ◌∙◌, ◌⊎◌, List, [], ◌++◌, some, ok, fault,
  overflow, inl, inr, Option-cases, take, copy_twice, length, length-append, length-take,
  take-append, arith,
}
use mathlib.Core.List.{append-nil}
use cdtp.Crypto.Attempt.{done, null}
use cdtp.Crypto.Evp.{Evp, IsEvp, Refuses, no_update, no_final, Encrypts, Decrypts, Undoes}
use cdtp.Crypto.Aes.{to_int, int_sum, encrypt_all, decrypt_all}

pub to_int_lem : (n : ℕ) → n < 2 ^ 31 → to_int n ≡ ok n
unfolding to_int
to_int_lem n h = ground arith

pub int_sum_lem : (n : ℕ) → n < 2 ^ 31 → int_sum n ≡ ok n
unfolding int_sum
int_sum_lem n h = ground arith

pub int_sum-overflow : (n : ℕ) → 2 ^ 31 ≤ n → int_sum n ≡ fault overflow
unfolding int_sum
int_sum-overflow n h = ground arith

module _ {Ctx Pkey : Type 0} (evp : Evp Ctx Pkey) where
  encrypt_all-done :
      (e : Ctx) (bytes : List ℕ) (n : ℕ) (c₁ c₂ : List ℕ)
      → Encrypts evp e (take n bytes) c₁ c₂
      → length c₁ + length c₂ ≤ n + evp.block_size - 1
      → n + evp.block_size < 2 ^ 31
      → encrypt_all evp e bytes n ≡ done (c₁ ++ c₂)
  unfolding encrypt_all
  encrypt_all-done e bytes n c₁ c₂ s room small =
      let w = copy_twice c₁ c₂ (n + evp.block_size - 1) refl refl room in
      rw (
        int_sum_lem (n + evp.block_size) small,
        s.updated,
        w.writes_first,
        s.finished,
        w.writes_both,
        int_sum_lem (length c₁ + length c₂) (omega arith),
        w.reads,
      )

  decrypt_all-done :
      (d : Ctx) (bytes : List ℕ) (n : ℕ) (p₁ p₂ : List ℕ)
      → Decrypts evp d (take n bytes) p₁ p₂
      → length p₁ + length p₂ ≤ n
      → n < 2 ^ 31
      → decrypt_all evp d bytes n ≡ done (p₁ ++ p₂)
  unfolding decrypt_all
  decrypt_all-done d bytes n p₁ p₂ s room small =
      let w = copy_twice p₁ p₂ n refl refl room in
      rw (
        s.updated,
        w.writes_first,
        s.finished,
        w.writes_both,
        int_sum_lem (length p₁ + length p₂) (omega arith),
        w.reads,
      )

  -- The update or the final step fails, and with it the call, or both succeed.
  encrypt_all-cases :
      (e : Ctx) (bytes : List ℕ) (n : ℕ)
      → ((c₁ : List ℕ) (after : Ctx)
          → evp.encrypt_update e (take n bytes) ≡ some (c₁, after)
          → length c₁ ≤ n + evp.block_size - 1)
      → n + evp.block_size < 2 ^ 31
      → ((encrypt_all evp e bytes n ≡ null) × Refuses evp e (take n bytes))
        ⊎ ((c₁ : List ℕ) × (c₂ : List ℕ) × Encrypts evp e (take n bytes) c₁ c₂)
  unfolding encrypt_all
  encrypt_all-cases e bytes n fits small =
      elim (Option-cases (evp.encrypt_update e (take n bytes))) [
        | inl e₁ ↦ inl (rw (int_sum_lem (n + evp.block_size) small, e₁), no_update e₁)
        | inr ((c₁, after), e₁) ↦ elim (Option-cases (evp.encrypt_final after)) [
          | inl e₂ ↦
              let w =
                copy_twice c₁ [] (n + evp.block_size - 1) {m = 0} refl refl
                  (omega (arith, fits c₁ after e₁)) in
              inl (
                rw (int_sum_lem (n + evp.block_size) small, e₁, w.writes_first, e₂),
                no_final e₁ e₂,
              )
          | inr (c₂, e₂) ↦ inr (c₁, c₂, record { after = after; updated = e₁; finished = e₂ })
        ]
      ]

  module _ {IsPair : Pkey → Pkey → Type 0} (laws : IsEvp evp IsPair) where
    -- a plaintext that is not a whole number of blocks fits, with what is added to fill the last
    pub encrypt_all_lem :
        (e : Ctx) (bytes : List ℕ) (n : ℕ)
        → n ≡ length bytes
        → n % 16 ≢ 0
        → n < 2 ^ 31 - 16
        → ((encrypt_all evp e bytes n ≡ null) × Refuses evp e bytes)
          ⊎ ((c₁ : List ℕ) × (c₂ : List ℕ) × Encrypts evp e bytes c₁ c₂
              × (encrypt_all evp e bytes n ≡ done (c₁ ++ c₂)))
    encrypt_all_lem e bytes n en apart small =
        let all : take n bytes ≡ bytes = rw (append-nil bytes) at (take-append n bytes [] en) in
        elim (encrypt_all-cases e bytes n
          (λ c₁ after up.
            omega
              (arith, laws.blocks, laws.updates e after (take n bytes) c₁ up, length-take n bytes))
          (omega (arith, laws.blocks))) [
            | inl (failed, why) ↦ inl (failed, rw all at why)
            | inr (c₁, c₂, s) ↦
                let s' : Encrypts evp e bytes c₁ c₂ = rw all at s in
                inr (
                  c₁,
                  c₂,
                  s',
                  encrypt_all-done e bytes n c₁ c₂ s
                      (omega (arith, laws.blocks, laws.sizes e bytes c₁ c₂ s'))
                      (omega (arith, laws.blocks)),
                )
          ]

    pub decrypt_all_lem :
        (d : Ctx) (plaintext c : List ℕ) (n : ℕ)
        → n ≡ length c
        → length plaintext ≤ n
        → n < 2 ^ 31
        → Undoes evp d plaintext c
        → decrypt_all evp d c n ≡ done plaintext
    decrypt_all_lem d plaintext c n en fits small u =
        let all : take n c ≡ c = rw (append-nil c) at (take-append n c [] en) in
        decrypt_all-done d c n u.first u.last (rw all u.decrypts)
          (omega (arith, ap length u.whole, length-append u.first u.last)) small
        ∙ ap done u.whole
