-- ===== src/Crypto.antt =====
-- src/crypto.c, the byte containers and their padding. A `char` is its byte, a number below 256; a
-- function that returns NULL and sets CDTP_OPENSSL_ERROR is `null` in the type `Attempt`.
pub mod Attempt
pub mod Evp
pub mod Padding
pub mod Aes
pub mod Rsa
pub mod Toy
mod Tests
use cdtp.Common.{
  ℕ, zero, suc, ◌+◌, ◌-◌, ◌%◌, ◌^◌, ◌==◌, if◌then◌else◌, List, [], ◌∷◌, ◌++◌, Option, none, some,
  Run, ok, fault, out_of_bounds, ◌>>=◌, get_elem?, take, drop, malloc, copy, ltb,
}

-- `CDTPCryptoData`: the block at `data`, and the size.
pub record CryptoData : Type 0 where
  pub bytes : List ℕ
  pub data_size : ℕ

-- `_cdtp_crypto_data`
unfoldable pub crypto_data : List ℕ → ℕ → Run CryptoData
crypto_data bytes data_size = do
  block ← copy data_size bytes 0 (malloc data_size) 0
  ok (record { bytes = block; data_size = data_size })

-- `_cdtp_crypto_data_unwrap`
unfoldable pub data_unwrap : CryptoData → List ℕ
data_unwrap d = d.bytes

-- `size_t` addition
abbrev pub add_size : ℕ → ℕ → ℕ
add_size a b = (a + b) % 2 ^ 64

-- What `_cdtp_crypto_pad_data` leaves: the data, and the bytes that it wrote behind the end of the
-- block that it allocated.
pub record Padded : Type 0 where
  pub padded : CryptoData
  pub overrun : List ℕ

-- A block of `n` bytes, written from its start on with more bytes than it has.
abbrev write_past : ℕ → List ℕ → Padded
write_past n written = record {
  padded = record { bytes = take n written; data_size = n };
  overrun = drop n written;
}

-- `_cdtp_crypto_pad_data`. Both calls of `memcpy` ask for as many bytes as the new block has in all,
-- not for the bytes of the data: they read on behind the data, where `beyond` lies, and write on
-- behind the new block. That is no `Fault` here but kept as `overrun`, since no encryption would
-- return otherwise: those bytes are taken to be in no other use.
unfoldable pub pad_data : List ℕ → CryptoData → Padded
pad_data beyond d =
    if add_size d.data_size 1 % 16 == 0
    then write_past (add_size d.data_size 2)
        (1 ∷ 255 ∷ take (add_size d.data_size 2) (d.bytes ++ beyond))
    else write_past (add_size d.data_size 1) (0 ∷ take (add_size d.data_size 1) (d.bytes ++ beyond))

-- `size_t` subtraction
abbrev pub sub_size : ℕ → ℕ → ℕ
sub_size a b = (a + 2 ^ 64 - b) % 2 ^ 64

-- one branch of `_cdtp_crypto_unpad_data`
unfoldable pub strip : ℕ → CryptoData → Run CryptoData
strip n d = do
  let size = sub_size d.data_size n
  block ← copy size d.bytes n (malloc size) 0
  ok (record { bytes = block; data_size = size })

-- `_cdtp_crypto_unpad_data`
unfoldable pub unpad_data : CryptoData → Run CryptoData
unfolding strip
unpad_data d = elim (get_elem? d.bytes 0) [
  | none ↦ fault out_of_bounds
  | some b ↦ if b == 1 then strip 2 d else strip 1 d
]
