-- ===== src/Server/Talks.antt =====
-- Messages between a server with two clients and a client.
use cdtp.Crypto.Aes.{aes_decrypt, to_int, int_sum, decrypt_all, aes_key_from}
use cdtp.Common.{
  Returns, ℕ, ◌≡◌, refl, ◌⊎◌, true, false, List, [], ◌∷◌, ◌++◌, none, some, ok, fault, bad_pointer,
  out_of_bounds, replicate, arith, copy, inr,
}
use cdtp.Server.{ServerCalls, call_on_connect, exchange_keys_server}
use cdtp.Server.Serve.{AcceptCalls, PollCalls, accepted, poll_size, accept_client, serve_loop}
use cdtp.Server.Sample.{
  nonce, text, send_calls, spawn, errnos, key, peer, two_clients, two_clients-IsValid,
}
use cdtp.Crypto.{crypto_data, unpad_data}
use cdtp.Crypto.Attempt.{null}
use cdtp.Server.Messages.{sent, send_data}
use cdtp.Map.Valid.{view}
use cdtp.Map.Tally.{find}
use cdtp.Wire.{construct_message, encode_message_size, decode_message_size}
use cdtp.Transport.{receive_key, Effect, set_error, send, event, fill_buffer}
use cdtp.Crypto.Rsa.{KeyPair, rsa_decrypt, public_key_to_bytes}
use cdtp.Crypto.Evp.{Evp}
use cdtp.Crypto.Toy.{toy, toy-IsEvp}
use cdtp.Crypto.Aes.RoundTrip.{Fails}
use cdtp.Errors.{server_key_exchange_failed}
use cdtp.Threading.{server_on_recv, client_on_recv}
use cdtp.Threading.Dispatch.{outcome}
use cdtp.Transport.Frames.{frame_of, size_read}
use cdtp.Client.{Client}
use cdtp.Client.{send_data as client_send}
use cdtp.Client.Messages.{reports}
use cdtp.Client.Handle.{handle_size}
use cdtp.Server.Serve.Accept.{Admits, accept_client-Admits}
use cdtp.Server.Abandon.{no_size, serve_loop-Abandons}
use cdtp.Server.Deliver.{Listens, short_message-fault, refused_message-fault, client_send-arrives}
use cdtp.Server.Arrive.{arrives}
use cdtp.Server.Answer.{server_send-arrives}
use cdtp.Server.Answer.{arrives as answer_arrives}

-- the key that the client has drawn, encrypted with the server's public key
abbrev sealed_key : List ℕ
sealed_key =
    (0 ∷ 0 ∷ 0 ∷ 0 ∷ 2 ∷ 2 ∷ 5 ∷ []) ++ replicate 16 7 ++ (15 ∷ replicate 15 0) ++ replicate 32 5

abbrev rsa_keys : KeyPair
rsa_keys = record {
  public_key = record { key = 1 ∷ 4 ∷ []; key_size = 2 };
  private_key = record { key = 2 ∷ []; key_size = 1 };
}

abbrev exchange : ServerCalls
exchange = record {
  rsa_keys = some rsa_keys;
  send_failure = none;
  size_buffer = replicate 5 9;
  first = record { bytes = some (0 ∷ 0 ∷ 0 ∷ 0 ∷ 71 ∷ []); errno = 0 };
  second = record { bytes = some sealed_key; errno = 0 };
}

abbrev offer : List Effect
offer = send (some 7) (0 ∷ 0 ∷ 0 ∷ 0 ∷ 2 ∷ 1 ∷ 4 ∷ []) ∷ []

exchanged : exchange_keys_server toy exchange (some 7) ≡ ok (some key, offer)
unfolding exchange_keys_server toy rsa_decrypt public_key_to_bytes crypto_data copy
    construct_message encode_message_size receive_key decode_message_size to_int int_sum decrypt_all
    unpad_data aes_key_from
exchanged = refl

abbrev welcome : AcceptCalls
welcome = record {
  blocking_failure = none;
  exchange = exchange;
  nonblocking_failure = none;
  spawn = spawn;
}

accept_client-Admits_example :
    Returns (accept_client toy errnos 70 two_clients (accepted 7 (peer 7).address welcome)) λ t.
      Admits two_clients (peer 7) t.0
      × (t.1 ≡ offer ++ call_on_connect 70 spawn two_clients 3)
      × (t.2 ≡ true)
accept_client-Admits_example =
    accept_client-Admits toy errnos 70 7 (peer 7).address welcome key offer two_clients-IsValid
      (omega arith) refl exchanged refl

-- the client closes the connection before it sends its key
abbrev left_early : AcceptCalls
left_early = record welcome {
  exchange = record exchange { first = record { bytes = some []; errno = 0 } };
}

-- nothing comes from any client
abbrev nothing_comes : PollCalls
nothing_comes = record {
  first = record { bytes = none; errno = 11 };
  second = record { bytes = none; errno = 11 };
  spawn = spawn;
}

abbrev failure : List Effect
failure = offer ++ set_error server_key_exchange_failed 0 ∷ []

serve_loop-Abandons_example :
    serve_loop toy errnos 70
      ([]
        ++ (record { accept = accepted 7 (peer 7).address left_early; polls = λ q. nothing_comes }
            ∷ []))
      two_clients
      (replicate 5 0)
    ≡ ok (record two_clients { next_client_id = 4 }, failure)
unfolding encode_message_size
serve_loop-Abandons_example =
    serve_loop-Abandons toy errnos 70 [] [] 7 (peer 7).address left_early (λ q. nothing_comes)
      rsa_keys 0 (replicate 5 0) two_clients-IsValid refl tt refl refl refl
      (no_size refl (inr refl) refl)

has_first : view two_clients.clients 0 ≡ some (some (peer 5))
unfolding find
has_first = refl

two_clients-Listens : Listens two_clients 0 key 1
two_clients-Listens = record { peer = peer 5; on_recv = refl; has = has_first; has_key = refl }

short_message-fault_example :
    poll_size toy errnos 70
      (arrives 0 spawn (frame_of (1 ∷ [])))
      two_clients
      0
      (fill_buffer (size_read 0 (frame_of (1 ∷ []))).bytes (replicate 5 0))
      (size_read 0 (frame_of (1 ∷ []))).bytes
    ≡ fault out_of_bounds
short_message-fault_example =
    short_message-fault toy 70 0 key 1 spawn two_clients-IsValid two_clients-Listens errnos 0
      (replicate 5 0) (1 ∷ []) (omega arith) (omega arith)

-- a cipher that refuses each final block, as OpenSSL does where the padding is wrong
abbrev refusing : Evp (List ℕ) ℕ
refusing = record toy { decrypt_final = λ ctx. none }

abbrev noise : List ℕ
noise = replicate 32 1

noise_refused : aes_decrypt refusing key noise 32 ≡ null
unfolding toy aes_decrypt copy
noise_refused = refl

refused_message-fault_example :
    poll_size refusing errnos 70
      (arrives 0 spawn (frame_of noise))
      two_clients
      0
      (fill_buffer (size_read 0 (frame_of noise)).bytes (replicate 5 0))
      (size_read 0 (frame_of noise)).bytes
    ≡ fault bad_pointer
refused_message-fault_example =
    refused_message-fault refusing 70 0 key 1 spawn two_clients-IsValid two_clients-Listens errnos 0
      (replicate 5 0) noise (omega arith) (omega arith) noise_refused

abbrev sender : Client
sender = record {
  on_recv = some 21;
  on_disconnected = none;
  on_recv_arg = 22;
  on_disconnected_arg = 0;
  connected = true;
  is_done = false;
  sock = some 3;
  address = record { sin_family = 2; sin_port = 80; sin_addr = [] };
  key = some key;
  handle_thread = some 9;
}

client_send-arrives_example :
    ((client_send toy [] (some nonce) none text 2 sender ≡ fault bad_pointer)
      × Fails toy toy-IsEvp key refl nonce text [])
    ⊎ ((frame : List ℕ) × (client_send toy [] (some nonce) none text 2 sender
          ≡ ok (send (some 3) frame ∷ reports none))
        × (poll_size toy errnos 70
              (arrives 0 spawn frame)
              two_clients
              0
              (fill_buffer (size_read 0 frame).bytes (replicate 5 0))
              (size_read 0 frame).bytes
            ≡ ok (two_clients, event text (outcome 0 (server_on_recv 1 70 0 71 2 11)) ∷ [], true)))
client_send-arrives_example =
    client_send-arrives toy 70 0 key 1 spawn two_clients-IsValid two_clients-Listens errnos
      toy-IsEvp refl sender [] nonce text none 0 (replicate 5 0) refl (omega arith) refl refl

server_send-arrives_example :
    ((send_data toy send_calls two_clients 0 text 2 ≡ fault bad_pointer)
      × Fails toy toy-IsEvp key refl nonce text [])
    ⊎ ((frame : List ℕ) × (send_data toy send_calls two_clients 0 text 2
          ≡ ok (sent (some 32) (some 5) frame))
        × (handle_size 80 toy errnos
              (answer_arrives 0 spawn frame)
              sender
              (fill_buffer (size_read 0 frame).bytes (replicate 5 0))
              (size_read 0 frame).bytes
            ≡ ok (sender, event text (outcome 0 (client_on_recv 21 80 71 2 22)) ∷ [], true)))
server_send-arrives_example =
    server_send-arrives toy toy-IsEvp key refl send_calls 0 (peer 5) nonce text 80 errnos 0 spawn
      sender 21 (replicate 5 0) two_clients-IsValid refl has_first refl refl refl (omega arith) refl
      refl
