-- ===== src/Wire/Tests.antt =====
-- Runs of the framing on small messages.
use cdtp.Common.{ℕ, ◌^◌, ◌%◌, ◌≡◌, List, [], ◌∷◌, ◌++◌, ok, ◌>>=◌, arith}
use cdtp.Wire.{encode_message_size, decode_message_size, construct_message, deconstruct_message}
use cdtp.Wire.Length.{decode-encode}
use cdtp.Wire.Message.{deconstruct-construct}

abbrev hello : List ℕ
hello = 104 ∷ 105 ∷ []

deconstruct-construct_example :
    construct_message hello 2 >>= (λ message. deconstruct_message (message ++ 9 ∷ []))
    ≡ ok (hello, 2)
deconstruct-construct_example = deconstruct-construct hello (9 ∷ []) (omega arith)

decode-encode_example :
    decode_message_size (encode_message_size 70000 ++ hello) ≡ ok (70000 % 2 ^ 40)
decode-encode_example = decode-encode 70000 hello
