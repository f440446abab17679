-- ===== src/Server/Tests.antt =====
-- A key exchange between both sides.
use cdtp.Common.{
  ℕ, ◌≡◌, refl, ◌⊎◌, true, false, List, [], ◌∷◌, ◌++◌, none, some, ok, fault, bad_pointer, length,
  replicate, arith,
}
use cdtp.Wire.{encode_message_size}
use cdtp.Crypto.Rsa.{PublicKey, PrivateKey}
use cdtp.Crypto.Rsa.RoundTrip.{Pair, Fails}
use cdtp.Crypto.Toy.{toy, toy-IsEvp}
use cdtp.Transport.{send, SockAddr, event, fill_buffer}
use cdtp.Client.{Client, ExchangeCalls, exchange_keys}
use cdtp.Server.{exchange_keys_server, Server, call_on_connect}
use cdtp.Crypto.Aes.RoundTrip.{Fails as FailsAes}
use cdtp.Threading.{server_on_recv}
use cdtp.Threading.Dispatch.{outcome}
use cdtp.Transport.Frames.{frame_of, size_read}
use cdtp.Client.{send_data as client_send}
use cdtp.Client.Messages.{reports}
use cdtp.Server.Serve.{accepted, accept_client, poll_size}
use cdtp.Server.Serve.Accept.{Admits}
use cdtp.Server.Arrive.{arrives}
use cdtp.Server.Session.{welcome, admitted, session_lem}
use cdtp.Server.Sample.{spawn, errnos, two_clients, two_clients-IsValid}
use cdtp.Server.Exchange.{drawn_key, frame_arrives, exchange_agrees}

abbrev public_key : PublicKey
public_key = record { key = 1 ∷ 4 ∷ []; key_size = 2 }

abbrev private_key : PrivateKey
private_key = record { key = 2 ∷ []; key_size = 1 }

pair : Pair toy toy-IsEvp public_key private_key
unfolding toy
pair = record {
  public = 0;
  private = 0;
  bits = 2;
  pair = refl;
  public_whole = refl;
  public_small = omega arith;
  reads_public = refl;
  has_size = refl;
  private_whole = refl;
  private_small = omega arith;
  reads_private = refl;
}

abbrev calls : ExchangeCalls
calls = record {
  size_buffer = replicate 5 9;
  first = record { bytes = some (0 ∷ 0 ∷ 0 ∷ 0 ∷ 2 ∷ []); errno = 0 };
  second = record { bytes = some (1 ∷ 4 ∷ []); errno = 0 };
  key_random = some (replicate 32 5);
  seal_random = [];
  beyond = [];
  send_failure = none;
}

abbrev connected_client : Client
connected_client = record {
  on_recv = none;
  on_disconnected = none;
  on_recv_arg = 0;
  on_disconnected_arg = 0;
  connected = true;
  is_done = false;
  sock = some 3;
  address = record { sin_family = 2; sin_port = 80; sin_addr = [] };
  key = none;
  handle_thread = none;
}

size_read_whole : some (0 ∷ 0 ∷ 0 ∷ 0 ∷ 2 ∷ []) ≡ some (encode_message_size 2)
unfolding encode_message_size
size_read_whole = refl

exchange_agrees_example :
    ((exchange_keys toy calls connected_client ≡ fault bad_pointer)
      × Fails toy toy-IsEvp pair.public [] (replicate 32 5) [])
    ⊎ ((sealed : List ℕ) × (exchange_keys toy calls connected_client
          ≡ ok (
            record connected_client { key = some (drawn_key (replicate 32 5)) },
            true,
            send (some 3) (encode_message_size (length sealed) ++ sealed) ∷ [],
          ))
        × (exchange_keys_server toy
              (frame_arrives toy toy-IsEvp public_key private_key pair [] 0 sealed)
              (some 4)
            ≡ ok (
              some (drawn_key (replicate 32 5)),
              send (some 4) (encode_message_size 2 ++ (1 ∷ 4 ∷ [])) ∷ [],
            )))
exchange_agrees_example =
    exchange_agrees toy toy-IsEvp public_key private_key pair calls connected_client
      (replicate 32 5) [] 0 (some 4) (omega arith) size_read_whole refl refl refl refl

abbrev address : SockAddr
address = record { sin_family = 2; sin_port = 80; sin_addr = [] }

abbrev random : List ℕ
random = replicate 32 5

abbrev nonce : List ℕ
nonce = replicate 32 1

abbrev text : List ℕ
text = 104 ∷ 105 ∷ []

session_lem_example :
    ((exchange_keys toy calls connected_client ≡ fault bad_pointer)
      × Fails toy toy-IsEvp pair.public [] random [])
    ⊎ ((sealed : List ℕ) × (s' : Server) × (exchange_keys toy calls connected_client
          ≡ ok (
            record connected_client { key = some (drawn_key random) },
            true,
            send (some 3) (frame_of sealed) ∷ [],
          ))
        × (accept_client toy errnos 70 two_clients (
              accepted 7 address (
                welcome toy toy-IsEvp public_key private_key pair errnos 70
                  (replicate 5 9)
                  0
                  spawn
                  sealed))
            ≡ ok (
              s',
              send (some 7) (frame_of (1 ∷ 4 ∷ [])) ∷ call_on_connect 70 spawn two_clients 3,
              true,
            ))
        × Admits two_clients
            (admitted toy toy-IsEvp public_key private_key pair errnos 70 7 address random)
            s'
        × (((client_send toy []
                  (some nonce)
                  none
                  text
                  2
                  (record connected_client { key = some (drawn_key random) })
                ≡ fault bad_pointer)
              × FailsAes toy toy-IsEvp (drawn_key random) refl nonce text [])
            ⊎ ((frame : List ℕ) × (client_send toy []
                    (some nonce)
                    none
                    text
                    2
                    (record connected_client { key = some (drawn_key random) })
                  ≡ ok (send (some 3) frame ∷ reports none))
                × (poll_size toy errnos 70
                      (arrives 0 spawn frame)
                      s'
                      3
                      (fill_buffer (size_read 0 frame).bytes (replicate 5 0))
                      (size_read 0 frame).bytes
                    ≡ ok (
                      s',
                      event text (outcome 0 (server_on_recv 1 70 3 71 2 s'.on_recv_arg)) ∷ [],
                      true,
                    )))))
session_lem_example =
    session_lem toy toy-IsEvp public_key private_key pair errnos 70 1 7 address spawn calls
      connected_client random (replicate 5 9) 0 [] nonce text (replicate 5 0) none
      two_clients-IsValid (omega arith) refl (omega arith) size_read_whole refl refl refl refl refl
      refl (omega arith)
