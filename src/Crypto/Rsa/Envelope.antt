-- ===== src/Crypto/Rsa/Envelope.antt =====
-- The envelope of `_cdtp_crypto_rsa_encrypt`: the length of the encrypted key, that key, the nonce and
-- the ciphertext, and the writes that put it together.
use cdtp.Common.{
  ℕ, ◌+◌, ◌≡◌, refl, sym, List, [], ◌++◌, ok, malloc, copy, copy_first, copy_next, copy_last,
  length, length-append, arith,
}
use mathlib.Core.List.{append-nil}
use cdtp.Wire.{lensize, encode_message_size}
use cdtp.Wire.Length.{length-encode}

-- the parts of an envelope
abbrev pub envelope : List ℕ → List ℕ → List ℕ → List ℕ
envelope ek nonce c = ((encode_message_size (length ek) ++ ek) ++ nonce) ++ c

-- The four writes that put an envelope together.
pub record Assembles (ek nonce c : List ℕ) : Type 0 where
  pub all₁ : List ℕ
  pub all₂ : List ℕ
  pub all₃ : List ℕ
  pub first :
      copy lensize
        (encode_message_size (length ek))
        0
        (malloc (lensize + length ek + 16 + length c))
        0
      ≡ ok all₁
  pub second : copy (length ek) ek 0 all₁ lensize ≡ ok all₂
  pub third : copy 16 nonce 0 all₂ (lensize + length ek) ≡ ok all₃
  pub fourth : copy (length c) c 0 all₃ (lensize + length ek + 16) ≡ ok (envelope ek nonce c)
  pub width : lensize + length ek + 16 + length c ≡ length (envelope ek nonce c)

pub assembles : (ek nonce c : List ℕ) → length nonce ≡ 16 → Assembles ek nonce c
assembles ek nonce c iv =
    let header = encode_message_size (length ek) in
    let five = length-encode (length ek) in
    let ten = length-append header ek in
    let more = length-append (header ++ ek) nonce in
    let split : lensize + length ek + 16 + length c ≡ lensize + (length ek + (16 + length c)) =
      omega arith in
    record {
      all₁ = header ++ malloc (length ek + (16 + length c));
      all₂ = (header ++ ek) ++ malloc (16 + length c);
      all₃ = ((header ++ ek) ++ nonce) ++ malloc (length c);
      first = rw split (
          rw (append-nil header) at
            (copy_first header [] (length ek + (16 + length c)) (sym five)));
      second = rw (append-nil ek) at (copy_next ek [] header (16 + length c) refl (sym five));
      third = rw (append-nil nonce) at (
          copy_next nonce [] (header ++ ek) (length c) {n = 16} {j = lensize + length ek} (sym iv)
            (omega arith));
      fourth = rw (append-nil c) at (
          copy_last c [] ((header ++ ek) ++ nonce) {n = length c} {j = lensize + length ek + 16}
            refl (omega arith));
      width = omega (arith, length-append ((header ++ ek) ++ nonce) c);
    }
