-- ===== src/Wire/Message.antt =====
-- Whole messages: the prefix, then the data.
use cdtp.Common.{
  ◌>>=◌, sym, copy_first, copy_last, copy_block, ℕ, ◌^◌, ◌<◌, ◌≡◌, refl, List, [], ◌++◌, ok, length,
}
use mathlib.Core.List.{append-nil, append_assoc}
use native.Mathlib.Nat.{mod-eq_of_lt}
use cdtp.Wire.{lensize, encode_message_size, construct_message, deconstruct_message}
use cdtp.Wire.Length.{decode-encode, length-encode}

-- A message is the encoded size followed by the data, and nothing is read or written out of bounds.
pub construct_message_lem :
    (bytes : List ℕ)
    → construct_message bytes (length bytes) ≡ ok (encode_message_size (length bytes) ++ bytes)
unfolding construct_message
construct_message_lem bytes =
    let n = length bytes in
    let size = encode_message_size n in
    rw (
      rw (append-nil size) at (copy_first size [] n (sym (length-encode n))),
      rw (append-nil bytes) at
          (copy_last bytes [] size {n = n} {j = lensize} refl (sym (length-encode n))),
    )

-- A message whose data is shorter than 2 ^ 40 bytes, read back with any bytes behind it, gives the
-- data and its length, with no access out of bounds.
pub deconstruct-construct :
    (bytes rest : List ℕ)
    → length bytes < 2 ^ 40
    → construct_message bytes (length bytes) >>= (λ message. deconstruct_message (message ++ rest))
      ≡ ok (bytes, length bytes)
unfolding deconstruct_message
deconstruct-construct bytes rest h =
    let n = length bytes in
    let size = encode_message_size n in
    rw (
      construct_message_lem bytes,
      append_assoc size bytes rest,
      decode-encode n (bytes ++ rest),
      mod-eq_of_lt h,
      copy_block size bytes rest {n = n} {i = lensize} (sym (length-encode n)) refl,
    )
