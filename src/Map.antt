-- ===== src/Map.antt =====
-- src/map.c, the map from client IDs to sockets: open addressing with linear probing over an array
-- that doubles when full and halves when a quarter full. A socket is of any type `A`; the pointer to
-- it is an `Option`, with `none` for NULL. Nodes are changed in place: the array is passed on.
pub mod Tally
pub mod Probe
pub mod Rehash
pub mod Valid
pub mod Methods
pub mod Pop
pub mod Spec
pub mod Refine
pub mod Iterate
pub mod Memory
mod Tests
use cdtp.Common.{
  ℕ, zero, suc, ◌+◌, ◌-◌, ◌*◌, ◌/◌, ◌%◌, ◌^◌, Bool, true, false, ◌&&◌, ◌==◌, ltb, leb,
  if◌then◌else◌, Option, none, some, List, [], ◌∷◌, Run, ok, fault, no_return, out_of_bounds, ◌>>=◌,
  get_elem?, set, replicate, length,
}

-- `CDTPClientMapNode`
pub record Node {ℓ} (A : Type ℓ) : Type ℓ where
  pub allocated : Bool
  pub client_id : ℕ
  pub sock : Option A

-- `CDTPClientMap`
pub record Map {ℓ} (A : Type ℓ) : Type ℓ where
  pub size : ℕ
  pub capacity : ℕ
  pub nodes : List (Node A)

-- `SIZE_MAX + 1`
abbrev pub size_mod : ℕ
size_mod = 2 ^ 64

abbrev pub min_capacity : ℕ
min_capacity = 16

abbrev pub start_capacity : ℕ
start_capacity = min_capacity

module _ {ℓ} {A : Type ℓ} where
  -- `_cdtp_client_map_node`
  abbrev pub empty_node : Node A
  empty_node = record { allocated = false; client_id = size_mod - 1; sock = none }

  -- an allocated node as the code fills it in
  abbrev pub full_node : ℕ → Option A → Node A
  full_node client_id sock = record { allocated = true; client_id = client_id; sock = sock }

  -- `_cdtp_client_map`
  unfoldable pub client_map : Map A
  client_map = record {
    size = 0;
    capacity = start_capacity;
    nodes = replicate start_capacity empty_node;
  }

  -- the test of the three search loops
  abbrev pub holds : ℕ → Node A → Bool
  holds client_id node = node.allocated && (node.client_id == client_id)

  -- `while (map->nodes[hash]->allocated) hash = (hash + 1) % (map->capacity)`, which has no bound of
  -- its own: `fuel` rounds at most
  unfoldable pub probe_free : ℕ → List (Node A) → ℕ → ℕ → Run ℕ
  probe_free zero nodes capacity hash = fault no_return
  probe_free (suc fuel) nodes capacity hash = elim (get_elem? nodes hash) [
    | none ↦ fault out_of_bounds
    | some node ↦
        let rest = probe_free fuel nodes capacity ((hash + 1) % capacity) in
        if node.allocated then rest else ok hash
  ]

  -- the `do … while (hash != original_hash)` loop of `contains`, `get` and `pop`: the index of the
  -- first node on its way that holds the client
  unfoldable pub probe_for : ℕ → List (Node A) → ℕ → ℕ → ℕ → ℕ → Run (Option ℕ)
  probe_for zero nodes capacity client_id original_hash hash = fault no_return
  probe_for (suc fuel) nodes capacity client_id original_hash hash = elim (get_elem? nodes hash) [
    | none ↦ fault out_of_bounds
    | some node ↦
        let next = (hash + 1) % capacity in
        let rest = probe_for fuel nodes capacity client_id original_hash next in
        if holds client_id node
        then ok (some hash)
        else (if next == original_hash then ok none else rest)
  ]

-- what `_cdtp_client_map_try_resize` returns: 1, -1 and 0
pub data Resized : Type 0 where
  increased decreased unchanged : Resized

-- `_cdtp_client_map_hash`
unfoldable pub hash {ℓ} : {A : Type ℓ} → Map A → ℕ → ℕ
hash m key = key % m.capacity

module _ {ℓ} {A : Type ℓ} where
  -- the probe and the three assignments that `resize` and `set` share
  unfoldable pub place : ℕ → List (Node A) → ℕ → Option A → Run (List (Node A))
  unfolding probe_free
  place capacity nodes client_id sock = do
    hash ← probe_free capacity nodes capacity (client_id % capacity)
    ok (set nodes hash (full_node client_id sock))

  -- the loop of `resize` over the old nodes
  unfoldable pub rehash : ℕ → List (Node A) → List (Node A) → Run (List (Node A))
  unfolding place
  rehash capacity [] nodes = ok nodes
  rehash capacity (old ∷ old_nodes) nodes =
      (if old.allocated then place capacity nodes old.client_id old.sock else ok nodes)
      >>= rehash capacity old_nodes

  -- `_cdtp_client_map_resize`
  unfoldable pub resize : Map A → ℕ → Run (Map A)
  unfolding rehash
  resize m new_capacity = do
    nodes ← rehash new_capacity m.nodes (replicate new_capacity empty_node)
    ok (record m { capacity = new_capacity; nodes = nodes })

  -- `_cdtp_client_map_resize_up` and `_cdtp_client_map_resize_down`
  unfoldable pub resize_up : Map A → Run (Map A)
  unfolding resize
  resize_up m = resize m (m.capacity * 2 % size_mod)

  unfoldable pub resize_down : Map A → Run (Map A)
  unfolding resize
  resize_down m = resize m (m.capacity / 2)

  -- `_cdtp_client_map_try_resize`
  unfoldable pub try_resize : Map A → Run (Resized × Map A)
  unfolding resize_up resize_down
  try_resize m =
      if leb m.capacity m.size
      then resize_up m >>= (λ m'. ok (increased, m'))
      else if ltb min_capacity m.capacity && leb (m.size * 4 % size_mod) m.capacity
      then resize_down m >>= (λ m'. ok (decreased, m'))
      else ok (unchanged, m)

  -- the search from the key's own slot
  unfoldable pub search_for : Map A → ℕ → Run (Option ℕ)
  unfolding probe_for hash
  search_for m client_id =
      probe_for m.capacity m.nodes m.capacity client_id (hash m client_id) (hash m client_id)

  -- `_cdtp_client_map_contains`
  unfoldable pub contains : Map A → ℕ → Run Bool
  unfolding search_for
  contains m client_id = do
    found ← search_for m client_id
    ok (elim found [ none ↦ false | some i ↦ true ])

  -- `map->nodes[i]->sock`
  unfoldable pub sock_at : Map A → ℕ → Run (Option A)
  sock_at m i = elim (get_elem? m.nodes i) [ none ↦ fault out_of_bounds | some node ↦ ok node.sock ]

  -- `_cdtp_client_map_get`
  unfoldable pub get : Map A → ℕ → Run (Option A)
  unfolding search_for sock_at
  get m client_id = do
    found ← search_for m client_id
    elim found [ none ↦ ok none | some i ↦ sock_at m i ]

  -- `_cdtp_client_map_set`
  unfoldable pub set_client : Map A → ℕ → Option A → Run (Bool × Map A)
  unfolding contains try_resize place
  set_client m client_id sock = do
    present ← contains m client_id
    if present then ok (false, m) else do
      (_, m') ← try_resize m
      nodes ← place m'.capacity m'.nodes client_id sock
      ok (true, record m' { nodes = nodes; size = (m'.size + 1) % size_mod })

  -- `_cdtp_client_map_pop`; `map->size--` wraps at 0
  unfoldable pub pop : Map A → ℕ → Run (Option A × Map A)
  unfolding try_resize search_for sock_at
  pop m client_id = do
    (_, m') ← try_resize m
    found ← search_for m' client_id
    elim found [
      | none ↦ ok (none, m')
      | some i ↦ do
        sock ← sock_at m' i
        ok (
          sock,
          record m' {
            nodes = set m'.nodes i empty_node;
            size = (m'.size + size_mod - 1) % size_mod;
          },
        )
    ]

-- `CDTPClientMapIterNode`
pub record IterNode {ℓ} (A : Type ℓ) : Type ℓ where
  pub client_id : ℕ
  pub sock : Option A

-- `CDTPClientMapIter`: an entry of `clients` is `none` until it is written.
pub record Iter {ℓ} (A : Type ℓ) : Type ℓ where
  pub size : ℕ
  pub clients : List (Option (IterNode A))

module _ {ℓ} {A : Type ℓ} where
  abbrev pub iter_node : Node A → IterNode A
  iter_node node = record { client_id = node.client_id; sock = node.sock }

  -- the loop of `iter` over the nodes, with `iter_index` and the array that it fills
  unfoldable pub iter_loop :
      List (Node A) → ℕ → List (Option (IterNode A)) → Run (List (Option (IterNode A)))
  iter_loop [] iter_index clients = ok clients
  iter_loop (node ∷ nodes) iter_index clients =
      let skip = iter_loop nodes iter_index clients in
      let take =
        iter_loop nodes (iter_index + 1) (set clients iter_index (some (iter_node node))) in
      if node.allocated
      then (if ltb iter_index (length clients) then take else fault out_of_bounds)
      else skip

  -- `_cdtp_client_map_iter`
  unfoldable pub iter : Map A → Run (Iter A)
  unfolding iter_loop
  iter m = do
    clients ← iter_loop m.nodes 0 (replicate m.size none)
    ok (record { size = m.size; clients = clients })
