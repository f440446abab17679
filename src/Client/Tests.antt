-- ===== src/Client/Tests.antt =====
-- Runs of a client.
use cdtp.Common.{
  ◌≡◌, refl, true, false, [], ◌∷◌, some, none, ok, fault, bad_pointer, replicate, inr,
}
use cdtp.Errors.{client_key_exchange_failed, client_cannot_reconnect}
use cdtp.Crypto.Toy.{toy}
use cdtp.Transport.{set_error, close, Errnos, windows}
use cdtp.Client.{Client, ConnectCalls, connect, disconnect}
use cdtp.Client.Lifecycle.{connects, disconnects, Reach, here, next, disconnect-ends}
use cdtp.Crypto.Aes.{AesKey}
use cdtp.Threading.{EventFunc, Spawn}
use cdtp.Client.Handle.{HandleCalls, handle_loop}
use cdtp.Client.Rounds.{farewell, handle_loop-Ends}
use cdtp.Client.Address.{connect-ignores-host, connect-abandoned}

abbrev fresh : Client
fresh = record {
  on_recv = some 1;
  on_disconnected = some 2;
  on_recv_arg = 0;
  on_disconnected_arg = 0;
  connected = false;
  is_done = false;
  sock = some 3;
  address = record { sin_family = 0; sin_port = 0; sin_addr = 0 ∷ 0 ∷ 0 ∷ 0 ∷ [] };
  key = none;
  handle_thread = none;
}

-- the server ends the stream
abbrev calls : ConnectCalls
calls = record {
  inet_pton = λ host. some (10 ∷ 0 ∷ 0 ∷ 1 ∷ []);
  address_errno = 0;
  connect_failure = none;
  fcntl_failure = none;
  exchange = record {
    size_buffer = replicate 5 0;
    first = record { bytes = some []; errno = 104 };
    second = record { bytes = none; errno = 104 };
    key_random = some (replicate 32 5);
    seal_random = [];
    beyond = [];
    send_failure = none;
  };
  create_code = 0;
  thread = 8;
}

connect-ignores-host_example :
    connect toy calls 2 "example.org" 80 fresh ≡ connect toy calls 2 "localhost" 80 fresh
connect-ignores-host_example =
    connect-ignores-host toy calls 2 "example.org" "localhost" 80 fresh refl refl refl refl

connect-abandoned_example :
    (c' : Client) × (connect toy calls 2 "localhost" 80 fresh
      ≡ ok (c', set_error client_key_exchange_failed 104 ∷ []))
    × (c'.connected ≡ true)
    × (disconnect none false 0 0 c' ≡ fault bad_pointer)
connect-abandoned_example =
    connect-abandoned toy calls fresh 2 "localhost" 80 false 0 0 refl refl refl refl refl refl refl

abbrev key : AesKey
key = record { key = replicate 32 5; key_size = 32 }

abbrev connected_client : Client
connected_client = record fresh { connected = true; handle_thread = some 8; key = some key }

abbrev done_client : Client
done_client = record connected_client { connected = false; is_done = true }

disconnected : disconnect none false 0 0 connected_client ≡ ok (done_client, close (some 3) ∷ [])
unfolding disconnect
disconnected = refl

disconnects_run : Reach toy connected_client done_client
disconnects_run = next {c' = connected_client} here (disconnects none false 0 0 disconnected)

again :
    connect toy calls 2 "localhost" 80 done_client
    ≡ ok (done_client, set_error client_cannot_reconnect 0 ∷ [])
unfolding connect
again = refl

disconnect-ends_example :
    (done_client.connected ≡ false) × (done_client.is_done ≡ true) × (done_client ≡ done_client)
disconnect-ends_example =
    disconnect-ends toy none false 0 0 connected_client refl disconnected
      (next {c' = done_client} here (connects calls 2 "localhost" 80 again))

abbrev junk : EventFunc
junk = record {
  name = "";
  func = 0;
  server = 91;
  client = 92;
  size_t1 = 93;
  voidp1 = 94;
  size_t2 = 95;
  voidp2 = 96;
}

abbrev spawn : Spawn
spawn = record { return_code = 0; junk = junk; pointer = 71 }

abbrev waits : HandleCalls
waits = record {
  first = record { bytes = none; errno = 11 };
  second = record { bytes = none; errno = 0 };
  spawn = spawn;
  close_failure = none;
  detach_code = 0;
}

-- on Windows, with WSAEWOULDBLOCK, WSAECONNRESET and WSAENOTSOCK
abbrev on_windows : Errnos
on_windows = windows 10035 10054 10038

abbrev still : HandleCalls
still = record waits { first = record { bytes = none; errno = 10035 } }

abbrev resets : HandleCalls
resets = record waits { first = record { bytes = none; errno = 10054 } }

handle_loop-Ends_example :
    handle_loop 80 toy on_windows (still ∷ resets ∷ still ∷ []) connected_client (replicate 5 0)
    ≡ ok (done_client, close (some 3) ∷ farewell 80 resets 0 (some 2))
handle_loop-Ends_example =
    handle_loop-Ends 80 toy on_windows (still ∷ []) (still ∷ []) resets connected_client 8
      (replicate 5 0) refl refl (record { nothing = refl; not_reset = refl; again = refl }, tt)
      (inr (refl, refl)) refl refl
