-- ===== src/Wire.antt =====
-- src/util.c, the framing of messages: a length of CDTP_LENSIZE bytes, then the data. A `char` is
-- its byte, a number below 256; a loop counter falls or rises with the rounds that are left.
pub mod Length
pub mod Message
mod Tests
use cdtp.Common.{
  ℕ, zero, suc, ◌+◌, ◌*◌, ◌/◌, ◌%◌, ◌^◌, List, [], Run, ok, fault, out_of_bounds, get_elem?, set,
  Option, none, some, ◌>>=◌, malloc, copy,
}

abbrev pub lensize : ℕ
lensize = 5

-- The loop of `_cdtp_encode_message_size` with `i` rounds left: the next one writes byte `i - 1`.
unfoldable pub encode_loop : ℕ → ℕ → List ℕ → List ℕ
encode_loop zero size encoded_size = encoded_size
encode_loop (suc i) size encoded_size =
    encode_loop i (size / 2 ^ 8) (set encoded_size i (size % 256))

-- `_cdtp_encode_message_size`
unfoldable pub encode_message_size : ℕ → List ℕ
unfolding encode_loop
encode_message_size size = encode_loop lensize size (malloc lensize)

-- The loop of `_cdtp_decode_message_size` from byte `i` on, in `size_t` arithmetic.
unfoldable pub decode_loop : ℕ → ℕ → ℕ → List ℕ → Run ℕ
decode_loop zero i size encoded_size = ok size
decode_loop (suc n) i size encoded_size = elim (get_elem? encoded_size i) [
  | none ↦ fault out_of_bounds
  | some b ↦ decode_loop n (i + 1) ((size * 2 ^ 8 % 2 ^ 64 + b) % 2 ^ 64) encoded_size
]

-- `_cdtp_decode_message_size`
unfoldable pub decode_message_size : List ℕ → Run ℕ
unfolding decode_loop
decode_message_size encoded_size = decode_loop lensize 0 0 encoded_size

-- `_cdtp_construct_message`
unfoldable pub construct_message : List ℕ → ℕ → Run (List ℕ)
construct_message bytes data_size = do
  let size = encode_message_size data_size
  message ← copy lensize size 0 (malloc (lensize + data_size)) 0
  copy data_size bytes 0 message lensize

-- `_cdtp_deconstruct_message`: the data and, through `data_size`, its length.
unfoldable pub deconstruct_message : List ℕ → Run (List ℕ × ℕ)
deconstruct_message message = do
  data_size ← decode_message_size message
  bytes ← copy data_size message lensize (malloc data_size) 0
  ok (bytes, data_size)
