-- ===== src/Crypto/Toy.antt =====
-- A cipher that can stand for OpenSSL's in examples. It encrypts nothing: it puts a whole block's
-- filling before the data, the filling's length first.
use cdtp.Common.{
  ℕ, ◌+◌, ◌-◌, ◌*◌, ◌/◌, ◌%◌, ◌≡◌, refl, List, [], ◌∷◌, ◌++◌, some, length, length-append,
  length-replicate, replicate, drop, drop-append, arith,
}
use cdtp.Crypto.Evp.{Evp, IsEvp, Encrypts, Undoes, KeyGen, IsKeyGen}

filling : List ℕ → ℕ
filling p = 16 - length p % 16

cover : List ℕ → List ℕ
unfolding filling
cover p = (filling p ∷ replicate (filling p - 1) 0) ++ p

uncover : List ℕ → List ℕ
uncover [] = []
uncover (n ∷ c) = drop n (n ∷ c)

unfoldable pub toy : Evp (List ℕ) ℕ
unfolding cover uncover
toy = record {
  ctx_new = some tt;
  block_size = 16;
  iv_length = 16;
  encrypt_init = λ key nonce. some [];
  encrypt_update = λ e p. some ([], p);
  encrypt_final = λ e. some (cover e);
  decrypt_init = λ key nonce. some [];
  decrypt_update = λ d c. some ([], c);
  decrypt_final = λ d. some (uncover d);
  read_public = λ bytes. some 0;
  read_private = λ bytes. some 0;
  pkey_size = λ key. some 2;
  seal_init = λ public random. some (2 ∷ 5 ∷ [], replicate 16 7, []);
  open_init = λ encrypted_key nonce private. some [];
}

length-cover : (p : List ℕ) → length (cover p) ≡ (length p / 16 + 1) * 16
unfolding cover
length-cover p = omega (
  arith,
  length-append (filling p ∷ replicate (filling p - 1) 0) p,
  length-replicate {A = ℕ} (filling p - 1) 0,
)

uncover-cover : (p : List ℕ) → uncover (cover p) ≡ p
unfolding cover uncover
uncover-cover p =
    drop-append (filling p) (filling p ∷ replicate (filling p - 1) 0) p
      (omega (arith, length-replicate {A = ℕ} (filling p - 1) 0))

first-nil : (e p c₁ c₂ : List ℕ) → Encrypts toy e p c₁ c₂ → c₁ ≡ []
unfolding toy
first-nil e p c₁ c₂ s = cc

last-cover : (e p c₁ c₂ : List ℕ) → Encrypts toy e p c₁ c₂ → c₂ ≡ cover p
unfolding toy
last-cover e p c₁ c₂ s = let same : p ≡ s.after = cc in rw same (cc)

undoes : (e p c₁ c₂ : List ℕ) → Encrypts toy e p c₁ c₂ → Undoes toy [] p (c₁ ++ c₂)
unfolding toy
undoes e p c₁ c₂ s = record {
  first = [];
  last = p;
  decrypts = record {
    after = c₁ ++ c₂;
    updated = refl;
    finished = rw (first-nil e p c₁ c₂ s, last-cover e p c₁ c₂ s, uncover-cover p);
  };
  whole = refl;
}

pub toy-IsEvp : IsEvp toy (λ public private. public ≡ private)
unfolding toy
toy-IsEvp = record {
  new = refl;
  blocks = refl;
  ivs = refl;
  updates = λ e after p c h. let nil : [] ≡ c = cc in rw (← nil) (omega arith);
  sizes = λ e p c₁ c₂ s.
      rw (first-nil e p c₁ c₂ s, last-cover e p c₁ c₂ s) (omega (arith, length-cover p));
  decrypts = λ key nonce p c₁ c₂ e h s. ([], refl, undoes e p c₁ c₂ s);
  opens = λ public private random ek nonce p c₁ c₂ e pair h s. ([], refl, undoes e p c₁ c₂ s);
  envelopes = λ public size random ek nonce e has h.
      let same : replicate {A = ℕ} 16 7 ≡ nonce = cc in
      let key : (2 ∷ 5 ∷ []) ≡ ek = cc in
      let two : 2 ≡ size = cc in rw (← same, ← key, ← two) (refl, omega arith, omega arith);
}

-- all keys are the same, and their texts are short
abbrev pub toy_gen : KeyGen ℕ
toy_gen = record {
  rsa_gen = λ size. some 0;
  bio_public = some tt;
  bio_private = some tt;
  write_public = λ key. some (1 ∷ 4 ∷ []);
  write_private = λ key. some (2 ∷ []);
  bio_read = λ text n. some text;
}

pub toy_gen-IsKeyGen : IsKeyGen toy_gen toy (λ public private. public ≡ private)
unfolding toy
toy_gen-IsKeyGen = record {
  reads = λ text h. refl;
  public_length =
      λ key text e. let same : 1 ∷ 4 ∷ [] ≡ text = cc in rw (← same) (omega arith, omega arith);
  private_length =
      λ key text e. let same : 2 ∷ [] ≡ text = cc in rw (← same) (omega arith, omega arith);
  texts = λ size key public_text private_text e p q. record {
    public = 0;
    private = 0;
    bits = 2;
    pair = refl;
    reads_public = refl;
    has_size = refl;
    reads_private = refl;
  };
}
