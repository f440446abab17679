-- ===== src/Map/Tests.antt =====
-- Runs of the map on a few clients, whose sockets are numbers.
use cdtp.Common.{
  ℕ, ◌+◌, ◌≤◌, ◌<◌, ◌≡◌, refl, true, false, Bool, List, [], ◌∷◌, none, some, map, ok, ◌>>=◌, length,
  arith, Returns,
}
use cdtp.Map.{Map, IterNode, client_map, full_node, empty_node, set_client, iter, try_resize}
use cdtp.Map.Tally.{tally}
use cdtp.Common.Heap.{Heap, one, mentions}
use cdtp.Map.Memory.{life, life_lem}
use cdtp.Map.Valid.{view, IsValid, Kept, try_resize-Kept}
use cdtp.Map.Spec.{Call, answers}
use cdtp.Map.Spec.Call.{contains as ask_contains, get as ask_get, set as ask_set, pop as ask_pop}
use cdtp.Map.Refine.{performs, performs-client_map}
use cdtp.Map.Iterate.{occurrences, lookup, iter_lem}

-- a map with the two clients 3 and 19, whose hashes agree
abbrev two_clients : Map ℕ
two_clients = record {
  capacity = 16;
  size = 2;
  nodes =
      empty_node
      ∷ empty_node
      ∷ empty_node
      ∷ full_node 3 (some 30)
      ∷ full_node 19 (some 31)
      ∷ empty_node
      ∷ empty_node
      ∷ empty_node
      ∷ empty_node
      ∷ empty_node
      ∷ empty_node
      ∷ empty_node
      ∷ empty_node
      ∷ empty_node
      ∷ empty_node
      ∷ empty_node
      ∷ [];
}

two_clients_run :
    set_client (client_map {A = ℕ}) 3 (some 30) >>= (λ (_, m). set_client m 19 (some 31))
    ≡ ok (true, two_clients)
unfolding client_map set_client
two_clients_run = refl

two_clients-IsValid : IsValid two_clients
unfolding tally
two_clients-IsValid = record {
  width = refl;
  sized = refl;
  once = λ q. ground arith;
  doubled = (0, refl);
  small = omega arith;
}

abbrev script : List (Call ℕ)
script =
    ask_contains 19
    ∷ ask_pop 3
    ∷ ask_get 19
    ∷ ask_set 19 (some 5)
    ∷ ask_set 3 (some 6)
    ∷ ask_get 3
    ∷ []

try_resize-Kept_example :
    Returns (try_resize two_clients) λ r. Kept two_clients r.1 × (two_clients.size < r.1.capacity)
try_resize-Kept_example = try_resize-Kept two_clients two_clients-IsValid (omega arith)

iter_lem_example :
    (clients : List (IterNode ℕ)) × (iter two_clients
      ≡ ok (record { size = 2; clients = map some clients }))
    × (length clients ≡ 2)
    × ((q : ℕ) → occurrences q clients ≤ 1)
    × ((q : ℕ) → lookup q clients ≡ view two_clients q)
iter_lem_example = iter_lem two_clients-IsValid

abbrev from_start : List (Call ℕ)
from_start = ask_set 3 (some 6) ∷ ask_set 19 (some 7) ∷ ask_pop 3 ∷ ask_get 19 ∷ ask_contains 3 ∷ []

performs-client_map_example :
    performs (client_map {A = ℕ}) from_start ≡ ok (answers (λ q. none) from_start)
performs-client_map_example = performs-client_map from_start (omega arith)

abbrev no_blocks : Heap
no_blocks = record { next = 0; live = λ a. false }

-- a map that grows to 32 nodes and then shrinks again
abbrev grows_and_shrinks : List (Bool × ℕ)
grows_and_shrinks = (true, 32) ∷ (false, 16) ∷ []

life_lem_example : Returns (life grows_and_shrinks no_blocks) λ h'.
    (lost : List ℕ) × (length lost ≡ 48) × ((a : ℕ) → one (h'.live a) ≡ one false + mentions a lost)
life_lem_example = life_lem grows_and_shrinks no_blocks (λ a le. refl)
