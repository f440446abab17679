-- ===== src/Server/Casts.antt =====
-- A message to all clients of a server, and rounds of its loop.
use cdtp.Crypto.Aes.{AesKey, aes_decrypt, to_int, int_sum, decrypt_all}
use cdtp.Common.{
  length, Option, Returns, if◌then◌else◌, ◌==◌, ℕ, ◌≡◌, ◌≤◌, refl, List, [], ◌∷◌, none, some, ok,
  replicate, arith, copy,
}
use cdtp.Server.{Peer}
use cdtp.Server.Serve.{PollCalls, RoundCalls, refused, serve_loop}
use cdtp.Server.Serve.Spares.{Shrinks}
use cdtp.Server.Serve.Passes.{IsSound}
use cdtp.Server.Serve.Loops.{IsPolling, serve_loop-returns}
use cdtp.Server.Sample.{
  nonce, text, send_calls, spawn, errnos, two_clients-key, key, two_clients, two_clients-IsValid,
  sealed_text, sealed_text_run,
}
use cdtp.Crypto.{crypto_data, unpad_data}
use cdtp.Crypto.Attempt.{done}
use cdtp.Server.Messages.{send_all, SendCalls}
use cdtp.Server.Broadcast.{broadcast, Seals, send_all_lem}
use cdtp.Map.{IterNode}
use cdtp.Map.Valid.{view}
use cdtp.Map.Iterate.{occurrences, lookup}
use cdtp.Crypto.Toy.{toy}

-- the first client has left when its message is sent
abbrev all_calls : ℕ → SendCalls
all_calls q = record send_calls { failure = if q == 0 then some 32 else none }

two_clients-Seals : Seals toy two_clients all_calls text (λ q. sealed_text)
two_clients-Seals = record {
  nonce = λ q. nonce;
  drawn = λ q. refl;
  ran = λ q found key' e has.
      let same : key ≡ key' = cc (two_clients-key q found e) in rw (← same) sealed_text_run;
  size = λ q. refl;
}

send_all_lem_example :
    (es : List (IterNode Peer)) × (send_all toy all_calls two_clients text 2
      ≡ ok (broadcast all_calls (λ q. sealed_text) es))
    × (length es ≡ 2)
    × ((q : ℕ) → occurrences q es ≤ 1)
    × ((q : ℕ) → lookup q es ≡ view two_clients.clients q)
send_all_lem_example =
    send_all_lem toy all_calls text (λ q. sealed_text) two_clients-IsValid refl two_clients-Seals

-- the first client sends a message, and the other one ends its stream
abbrev pass_polls : ℕ → PollCalls
pass_polls q = record {
  first = record { bytes = if q == 0 then some (0 ∷ 0 ∷ 0 ∷ 0 ∷ 32 ∷ []) else some []; errno = 0 };
  second = record { bytes = some sealed_text.bytes; errno = 0 };
  spawn = spawn;
}

unsealed_text :
    aes_decrypt toy key sealed_text.bytes 32 ≡ done (record { bytes = text; data_size = 2 })
unfolding toy aes_decrypt copy crypto_data unpad_data to_int int_sum decrypt_all
unsealed_text = refl

unsealed :
    (bytes : List ℕ) (key' : AesKey)
    → sealed_text.bytes ≡ bytes
    → key ≡ key'
    → aes_decrypt toy key' bytes (length bytes) ≡ done (record { bytes = text; data_size = 2 })
unsealed bytes key' same same_key = rw (← same, ← same_key) unsealed_text

pass_polls-IsSound :
    (q : ℕ) (sock : Option Peer)
    → view two_clients.clients q ≡ some sock
    → IsSound toy sock (pass_polls q)
pass_polls-IsSound q sock has b bytes found key' e is_set has_key =
    let here : view two_clients.clients q ≡ some (some found) = cc in
    let same_key : key ≡ key' = cc (two_clients-key q found here) in
    let same : sealed_text.bytes ≡ b ∷ bytes = cc in
    (record { bytes = text; data_size = 2 }, unsealed (b ∷ bytes) key' same same_key)

abbrev pass : RoundCalls
pass = record { accept = refused 11; polls = pass_polls }

pass-IsPolling : IsPolling toy two_clients pass
pass-IsPolling = record { errno = 11; refuses = refl; sound = pass_polls-IsSound }

serve_loop-returns_example :
    Returns
      (serve_loop toy errnos 70 (pass ∷ pass ∷ []) two_clients (replicate 5 0))
      (λ r. Shrinks two_clients r.0)
serve_loop-returns_example =
    serve_loop-returns toy errnos 70 (pass ∷ pass ∷ []) (replicate 5 0) two_clients-IsValid
      (omega arith) (omega arith) (pass-IsPolling, (pass-IsPolling, tt))
