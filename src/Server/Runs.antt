-- ===== src/Server/Runs.antt =====
-- Runs of a server with two clients.
use cdtp.Server.Sample.{errnos, peer, two_clients, two_clients-IsValid}
use cdtp.Common.{
  ℕ, ◌≤◌, ◌≡◌, refl, true, false, List, [], ◌∷◌, ◌++◌, none, some, ok, Returns, length, replicate,
  arith,
}
use cdtp.Server.Messages.{remove_client}
use cdtp.Map.{IterNode, client_map, full_node, empty_node, iter, pop}
use cdtp.Map.Valid.{view}
use cdtp.Map.Tally.{find}
use cdtp.Transport.{fill_address, close}
use cdtp.Map.Iterate.{occurrences, lookup}
use cdtp.Crypto.Toy.{toy}
use cdtp.Server.{Peer, Server, fresh_server}
use cdtp.Server.Valid.{IsValid, Drops}
use cdtp.Server.Control.{StartCalls, start, StopCalls, stop}
use cdtp.Server.Stop.{closings, stop_lem}
use cdtp.Server.Remove.{removal, remove_client_lem}
use cdtp.Server.History.{
  Reaches, starts, stops, removes, here, later, Reaches-IsValid, Reaches-gone, Reaches-is_done,
}

remove_client_lem_example : Returns (remove_client (some 5) two_clients 1) λ r.
    Drops two_clients 1 r.0
    × (r.0 ≡ record two_clients { clients = r.0.clients })
    × (r.1 ≡ removal (some 5) (view two_clients.clients 1))
remove_client_lem_example = remove_client_lem (some 5) 1 two_clients-IsValid (omega arith) refl

abbrev stop_calls : StopCalls
stop_calls = record {
  closes = λ id. none;
  close_failure = none;
  self = false;
  join_code = 0;
  detach_code = 3;
}

stop_lem_example : Returns (stop stop_calls two_clients) λ r.
    (r.0.serving ≡ false)
    × (r.0.is_done ≡ true)
    × ((q : ℕ) → view r.0.clients q ≡ none)
    × ((es : List (IterNode Peer)) × (r.1 ≡ closings es ++ close (some 4) ∷ [])
        × (length es ≡ 2)
        × ((q : ℕ) → occurrences q es ≤ 1)
        × ((q : ℕ) → lookup q es ≡ view two_clients.clients q))
stop_lem_example =
    stop_lem stop_calls 8 two_clients-IsValid (omega arith) refl refl (λ q. refl) refl refl

abbrev start_calls : StartCalls
start_calls = record {
  inet_pton = λ host. some (10 ∷ 0 ∷ 0 ∷ 1 ∷ []);
  address_errno = 0;
  bind_failure = none;
  listen_failure = none;
  create_code = 0;
  thread = 8;
}

abbrev blank : Server
blank = record (fresh_server (some 1) none none 11 12 13 (peer 0).address) { sock = some 4 }

abbrev serving_server : Server
serving_server = (start start_calls 2 "localhost" 80 blank).0

abbrev stopped_server : Server
stopped_server = record serving_server { serving = false; is_done = true }

stopped : stop stop_calls serving_server ≡ ok (stopped_server, close (some 4) ∷ [])
unfolding stop start fresh_server client_map iter fill_address
stopped = refl

life : Reaches toy errnos 70 blank 2 stopped_server
life =
    later {s' = serving_server} (later {s' = blank} here (starts start_calls 2 "localhost" 80))
      (stops stop_calls stopped_server (close (some 4) ∷ []) stopped)

Reaches-IsValid_example : IsValid stopped_server × (stopped_server.next_client_id ≤ 2)
Reaches-IsValid_example =
    Reaches-IsValid toy errnos 70 (some 1) none none 11 12 13 (peer 0).address (some 4)
      (omega arith) life

abbrev one_client : Server
one_client = record two_clients {
  clients = record two_clients.clients {
    size = 1;
    nodes = full_node 0 (some (peer 5)) ∷ replicate 15 empty_node;
  };
}

removed : remove_client none two_clients 1 ≡ ok (one_client, close (some 6) ∷ [])
unfolding remove_client pop
removed = refl

departure : Reaches toy errnos 70 two_clients 1 one_client
departure = later {s' = two_clients} here (removes none 1 one_client (close (some 6) ∷ []) removed)

third_gone : view two_clients.clients 2 ≡ none
unfolding find
third_gone = refl

Reaches-gone_example : view one_client.clients 2 ≡ none
Reaches-gone_example =
    Reaches-gone toy errnos 70 2 two_clients-IsValid (omega arith) departure (omega arith)
      third_gone

abbrev done_server : Server
done_server = record two_clients { serving = false; is_done = true }

done_server-IsValid : IsValid done_server
done_server-IsValid =
    let v = two_clients-IsValid in
    record { map = v.map; counted = v.counted; fresh = v.fresh; ready = v.ready; apart = refl }

restarted : Reaches toy errnos 70 done_server 1 (start start_calls 2 "localhost" 80 done_server).0
restarted = later {s' = done_server} here (starts start_calls 2 "localhost" 80)

Reaches-is_done_example :
    ((start start_calls 2 "localhost" 80 done_server).0.is_done ≡ true)
    × ((start start_calls 2 "localhost" 80 done_server).0.serving ≡ false)
Reaches-is_done_example =
    Reaches-is_done toy errnos 70 done_server-IsValid (omega arith) restarted refl
