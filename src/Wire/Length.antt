-- ===== src/Wire/Length.antt =====
-- The length prefix: five bytes, most significant first.
use cdtp.Common.{ℕ, ◌+◌, ◌*◌, ◌%◌, ◌^◌, ◌<◌, ◌≡◌, refl, List, [], ◌∷◌, ◌++◌, ok, arith, ap, length}
use cdtp.Wire.{lensize, encode_loop, encode_message_size, decode_message_size}

-- The loop overwrites all five bytes of the block, whatever they held.
pub encode_loop-overwrites :
    (n a b c d e : ℕ) → encode_loop lensize n (a ∷ b ∷ c ∷ d ∷ e ∷ []) ≡ encode_message_size n
unfolding encode_message_size
encode_loop-overwrites n a b c d e = refl

pub length-encode : (n : ℕ) → length (encode_message_size n) ≡ 5
unfolding encode_message_size
length-encode n = refl

-- Decoding an encoded size gives it back below 2 ^ 40, and its low 40 bits in any case, whatever
-- bytes follow the prefix.
pub decode-encode :
    (n : ℕ) (rest : List ℕ) → decode_message_size (encode_message_size n ++ rest) ≡ ok (n % 2 ^ 40)
unfolding encode_message_size decode_message_size
decode-encode n rest = ap ok (omega arith)

-- Five bytes, each below 256, decode to a size below 2 ^ 40, and encoding that size gives the bytes
-- back.
pub encode-decode :
    (a b c d e : ℕ)
    → a < 256
    → b < 256
    → c < 256
    → d < 256
    → e < 256
    → (n : ℕ) × (decode_message_size (a ∷ b ∷ c ∷ d ∷ e ∷ []) ≡ ok n)
      × (n < 2 ^ 40)
      × (encode_message_size n ≡ a ∷ b ∷ c ∷ d ∷ e ∷ [])
unfolding encode_message_size decode_message_size
encode-decode a b c d e ha hb hc hd he =
    ((((a * 256 + b) * 256 + c) * 256 + d) * 256 + e, ground arith, omega arith, ground arith)
