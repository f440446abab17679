-- ===== src/Server/Flows.antt =====
-- Streams of messages between a server with two clients and its clients, and what comes between.
use cdtp.Common.{
  ℕ, ◌≤◌, ◌≡◌, refl, true, false, ◌==◌, if◌then◌else◌, List, [], ◌∷◌, none, some, ok, fault,
  bad_pointer, no_return, Returns, replicate, arith, Bool-cases, inl, inr,
}
use cdtp.Errors.{server_recv_failed}
use cdtp.Map.{IterNode}
use cdtp.Map.Valid.{view}
use cdtp.Map.Tally.{find}
use cdtp.Map.Iterate.{occurrences, lookup}
use cdtp.Crypto.Toy.{toy, toy-IsEvp}
use cdtp.Threading.{client_on_recv}
use cdtp.Threading.Dispatch.{outcome}
use cdtp.Transport.{set_error, event, fill_buffer}
use cdtp.Transport.Frames.{frame_of, size_read}
use cdtp.Client.{Client}
use cdtp.Client.Messages.{send_data-encrypted}
use cdtp.Client.Handle.{HandleCalls, handle_loop}
use cdtp.Server.{Peer}
use cdtp.Server.Sample.{
  nonce, text, send_calls, spawn, errnos, key, peer, two_clients, two_clients-IsValid, sealed_text,
  sealed_text_run,
}
use cdtp.Server.Messages.{remove_client}
use cdtp.Server.Arrive.{arrives}
use cdtp.Server.Answer.{send_data-sealed}
use cdtp.Server.Control.{stop}
use cdtp.Server.Windows.{WindowsCalls, swapped, stop_windows, stop_windows-stop, stop_windows-self}
use cdtp.Server.Serve.{PollCalls, RoundCalls, refused, poll_size, serve_loop}
use cdtp.Server.Serve.Rounds.{IsQuiet}
use cdtp.Server.Races.{arrives_first, in_pieces, removed-fault, serve_loop-Breaks}
use cdtp.Server.Stream.{Delivery, IsSent, rounds_of, stream-arrives}
use cdtp.Server.Gather.{
  Arrival, Gathering, Brings, IsFrom, IsGathering, gathered, serve_loop-gathers,
}

has_first : view two_clients.clients 0 ≡ some (some (peer 5))
unfolding find
has_first = refl

removed-fault_example : Returns (remove_client (some 5) two_clients 0) λ r.
    poll_size toy errnos 70
      (arrives 0 spawn (frame_of text))
      r.0
      0
      (fill_buffer (size_read 0 (frame_of text)).bytes (replicate 5 0))
      (size_read 0 (frame_of text)).bytes
    ≡ fault bad_pointer
removed-fault_example =
    removed-fault toy errnos 70 (some 5) 0 1 spawn 0 text (replicate 5 0) two_clients-IsValid
      (omega arith) refl refl (omega arith) (omega arith)

abbrev quiet : PollCalls
quiet = record {
  first = record { bytes = none; errno = 11 };
  second = record { bytes = none; errno = 0 };
  spawn = spawn;
}

quiet-IsQuiet : IsQuiet errnos quiet
quiet-IsQuiet = record { nothing = refl; open_still = refl; again = refl }

-- the second client's message comes in two pieces
abbrev piecewise : RoundCalls
piecewise = record {
  accept = refused 11;
  polls = λ q. if 1 == q then arrives_first 0 spawn (7 ∷ []) (8 ∷ []) else quiet;
}

others_quiet : (q : ℕ) → (1 == q) ≡ false → IsQuiet errnos (piecewise.polls q)
others_quiet q ne = rw ne quiet-IsQuiet

has_second : view two_clients.clients 1 ≡ some (some (peer 6))
unfolding find
has_second = refl

serve_loop-Breaks_example :
    serve_loop toy errnos 70 (piecewise ∷ piecewise ∷ []) two_clients (replicate 5 0)
    ≡ ok (two_clients, set_error server_recv_failed 0 ∷ [])
serve_loop-Breaks_example =
    serve_loop-Breaks toy errnos 70 piecewise (piecewise ∷ []) 1 11 (replicate 5 0) (some (peer 6))
      two_clients-IsValid refl has_second refl refl
      (in_pieces 0 spawn (7 ∷ []) (8 ∷ []) refl (omega arith) (omega arith) (omega arith))
      others_quiet

-- the serve thread's handle cannot be closed
abbrev elsewhere : WindowsCalls
elsewhere = record {
  closes = λ id. none;
  close_failure = none;
  self = false;
  wait = some none;
  close_handle = some 6;
}

abbrev from_itself : WindowsCalls
from_itself = record elsewhere { self = true; wait = none }

stop_windows-stop_example :
    stop_windows elsewhere two_clients ≡ stop (swapped elsewhere none) two_clients
stop_windows-stop_example =
    stop_windows-stop elsewhere none two_clients refl (ground arith) (ground arith)

stop_windows-self_example : stop_windows from_itself two_clients ≡ fault no_return
stop_windows-self_example =
    stop_windows-self from_itself 8 two_clients-IsValid (omega arith) refl refl (λ q. refl) refl
      refl refl

abbrev frame : List ℕ
frame = frame_of sealed_text.bytes

abbrev receiver : Client
receiver = record {
  on_recv = some 21;
  on_disconnected = none;
  on_recv_arg = 22;
  on_disconnected_arg = 0;
  connected = true;
  is_done = false;
  sock = some 3;
  address = record { sin_family = 2; sin_port = 80; sin_addr = [] };
  key = some key;
  handle_thread = some 9;
}

abbrev waits : HandleCalls
waits = record {
  first = record { bytes = none; errno = 11 };
  second = record { bytes = none; errno = 0 };
  spawn = spawn;
  close_failure = none;
  detach_code = 0;
}

-- the same message, twice
abbrev delivery : Delivery
delivery = record {
  calls = send_calls;
  nonce = nonce;
  bytes = text;
  frame = frame;
  idle = waits ∷ [];
  errno = 0;
  spawn = spawn;
}

delivery-IsSent : IsSent toy errnos two_clients 0 (some 5) delivery
delivery-IsSent = record {
  drawn = refl;
  nonce_whole = refl;
  small = omega arith;
  sends =
      send_data-sealed toy key send_calls 0 (peer 5) nonce text sealed_text two_clients-IsValid refl
        has_first refl refl sealed_text_run refl;
  quiet = (record { nothing = refl; not_reset = refl; again = refl }, tt);
}

stream-arrives_example :
    handle_loop 80 toy errnos (rounds_of (delivery ∷ delivery ∷ [])) receiver (replicate 5 0)
    ≡ ok (
      receiver,
      event text (outcome 0 (client_on_recv 21 80 71 2 22))
          ∷ event text (outcome 0 (client_on_recv 21 80 71 2 22))
          ∷ [],
    )
stream-arrives_example =
    stream-arrives toy toy-IsEvp key refl errnos 0 (peer 5) 80 receiver 21
      (delivery ∷ delivery ∷ []) (replicate 5 0) two_clients-IsValid refl has_first refl refl refl
      refl (delivery-IsSent, (delivery-IsSent, tt))

abbrev arrival : Arrival
arrival = record {
  sender = receiver;
  key = key;
  beyond = [];
  nonce = nonce;
  bytes = text;
  failure = none;
  frame = frame;
  errno = 0;
  spawn = spawn;
}

-- The first client sends, the second does not.
abbrev gathering : Gathering
gathering = record {
  calls = record {
    accept = refused 11;
    polls = λ q. if 0 == q then arrives 0 spawn frame else quiet;
  };
  arrivals = λ q. if 0 == q then some arrival else none;
}

arrival-IsFrom : IsFrom toy two_clients 0 arrival
arrival-IsFrom = record {
  peer = peer 5;
  has = has_first;
  has_key = refl;
  key_whole = refl;
  connected = refl;
  same_key = refl;
  nonce_whole = refl;
  small = omega arith;
  sends =
      send_data-encrypted toy toy-IsEvp key refl [] nonce text none receiver sealed_text refl refl
        sealed_text_run refl;
}

gathering-Brings :
    (q : ℕ) → Brings toy errnos two_clients q (gathering.calls.polls q) (gathering.arrivals q)
gathering-Brings q = elim (Bool-cases (0 == q)) [
  | inl e ↦ let same : 0 ≡ q = ground arith in rw e (refl, rw (← same) arrival-IsFrom)
  | inr e ↦ rw e quiet-IsQuiet
]

gathering-IsGathering : IsGathering toy errnos two_clients gathering
gathering-IsGathering = record {
  errno = 11;
  refuses = refl;
  again = refl;
  brings = gathering-Brings;
}

serve_loop-gathers_example :
    (es : List (IterNode Peer)) × (serve_loop toy errnos 70
        (gathering.calls ∷ gathering.calls ∷ [])
        two_clients
        (replicate 5 0)
      ≡ ok (two_clients, gathered 1 70 11 es (gathering ∷ gathering ∷ [])))
    × ((q : ℕ) → occurrences q es ≤ 1)
    × ((q : ℕ) → lookup q es ≡ view two_clients.clients q)
serve_loop-gathers_example =
    serve_loop-gathers toy toy-IsEvp 70 errnos 1 (gathering ∷ gathering ∷ []) (replicate 5 0)
      two_clients-IsValid refl refl (gathering-IsGathering, (gathering-IsGathering, tt))
