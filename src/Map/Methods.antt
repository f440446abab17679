-- ===== src/Map/Methods.antt =====
-- The four operations on a valid map: they return, keep the invariant, and act on the clients as
-- the abstract map does.
use cdtp.Common.{
  ℕ, ◌+◌, ◌^◌, ◌%◌, ◌<◌, ◌≡◌, refl, ◌∙◌, Bool, true, false, ◌==◌, if◌then◌else◌, Option, none, some,
  List, length, arith, get_elem?-eq-get_or, ok, Returns, ==_iff,
}
use native.Mathlib.Nat.{mod-lt}
use cdtp.Map.{
  Node, Map, holds, empty_node, size_mod, search_for, hash, sock_at, contains, get, set_client,
}
use cdtp.Map.Tally.{at, find-at, find-eq-none, count-eq-zero}
use cdtp.Map.Probe.{probe_for_lem, Located}
use cdtp.Map.Rehash.{Places, place_lem}
use cdtp.Map.Valid.{view, IsValid, Kept, capacity-pos, try_resize-Kept}

abbrev pub is_some {ℓ} : {A : Type ℓ} → Option A → Bool
is_some none = false
is_some (some a) = true

-- what `get` and `pop` return: NULL for no client
abbrev pub or_null {ℓ} : {A : Type ℓ} → Option (Option A) → Option A
or_null none = none
or_null (some sock) = sock

module _ {ℓ} {A : Type ℓ} where
  -- what a search returns: the index of the node that holds the client, if there is one
  abbrev pub Finds : Map A → ℕ → Option ℕ → Type ℓ
  Finds m q none = view m q ≡ none
  Finds m q (some i) =
      (i < length m.nodes) × (holds q (at m.nodes i) ≡ true) × (view m q ≡ some (at m.nodes i).sock)

  finds :
      {m : Map A} (q : ℕ) (v : IsValid m) (r : Option ℕ)
      → Located m.nodes m.capacity v.width q r
      → Finds m q r
  finds {m} q v none l = find-eq-none q m.nodes l
  finds {m} q v (some i) (lt, e) =
      let lt' : i < length m.nodes = omega (arith, v.width) in
      (lt', e, find-at q m.nodes i (v.once q) lt' e)

  pub search_for_lem : {m : Map A} (q : ℕ) → IsValid m → Returns (search_for m q) (Finds m q)
  unfolding search_for hash
  search_for_lem {m} q v =
      let (r, run, l) =
        probe_for_lem m.nodes m.capacity v.width q (q % m.capacity) (mod-lt q (capacity-pos v)) in
      (r, run, finds q v r l)

  contains_of :
      (m : Map A) (q : ℕ) (r : Option ℕ)
      → search_for m q ≡ ok r
      → Finds m q r
      → contains m q ≡ ok (is_some (view m q))
  unfolding contains
  contains_of m q none run f = rw (run, f)
  contains_of m q (some i) run f = rw (run, f.2)

  -- On a valid map, `contains` returns, and says whether the map has the client.
  pub contains_lem : {m : Map A} (q : ℕ) → IsValid m → contains m q ≡ ok (is_some (view m q))
  contains_lem {m} q v = let (r, run, f) = search_for_lem q v in contains_of m q r run f

  pub sock_at_lem : (m : Map A) (i : ℕ) → i < length m.nodes → sock_at m i ≡ ok (at m.nodes i).sock
  unfolding sock_at
  sock_at_lem m i lt = rw (get_elem?-eq-get_or m.nodes i empty_node lt, sock_at)

  get_of :
      (m : Map A) (q : ℕ) (r : Option ℕ)
      → search_for m q ≡ ok r
      → Finds m q r
      → get m q ≡ ok (or_null (view m q))
  unfolding get
  get_of m q none run f = rw (run, f)
  get_of m q (some i) run f = rw (run, f.2, sock_at_lem m i f.0)

  -- On a valid map, `get` returns the client's socket, and NULL if the map does not have the
  -- client.
  pub get_lem : {m : Map A} (q : ℕ) → IsValid m → get m q ≡ ok (or_null (view m q))
  get_lem {m} q v = let (r, run, f) = search_for_lem q v in get_of m q r run f

  -- `m'` is `m` with one more client
  pub record Adds (m : Map A) (id : ℕ) (sock : Option A) (m' : Map A) : Type ℓ where
    pub valid : IsValid m'
    pub size : m'.size ≡ m.size + 1
    pub reads : (q : ℕ) → view m' q ≡ (if id == q then some sock else view m q)

  -- On a valid map, `set` of a client that the map has returns false and changes nothing.
  pub set_client-present :
      {m : Map A} (id : ℕ) (sock old : Option A)
      → IsValid m
      → view m id ≡ some old
      → set_client m id sock ≡ ok (false, m)
  unfolding set_client
  set_client-present id sock old v e = rw (contains_lem id v, e)

  placed-IsValid :
      (m m₁ : Map A) (id : ℕ) (sock : Option A) (nodes : List (Node A))
      → Kept m m₁
      → m.size < m₁.capacity
      → m.size < 2 ^ 60
      → view m id ≡ none
      → Places id sock m₁.nodes nodes
      → Adds m id sock (record m₁ { nodes = nodes; size = (m₁.size + 1) % size_mod })
  placed-IsValid m m₁ id sock nodes k room few absent p = record {
    valid = record {
      width = p.width ∙ k.valid.width;
      sized = omega (arith, p.uses, k.valid.sized, k.same_size);
      once = λ q.
          ground
            (arith, p.counts q, k.valid.once q, count-eq-zero q m₁.nodes, k.reads q, ==_iff id q);
      doubled = k.valid.doubled;
      small = k.valid.small;
    };
    size = omega (arith, k.same_size);
    reads = λ q. p.finds q ∙ rw (k.reads q);
  }

  -- On a valid map with fewer than 2 ^ 60 clients, `set` of a client that the map does not have
  -- returns true, adds it with its socket and keeps all others; the map stays valid, and its size
  -- is one more.
  pub set_client-absent :
      {m : Map A} (id : ℕ) (sock : Option A)
      → IsValid m
      → m.size < 2 ^ 60
      → view m id ≡ none
      → Returns (set_client m id sock) λ r. (r.0 ≡ true) × Adds m id sock r.1
  unfolding set_client
  set_client-absent {m} id sock v few e =
      let ((_, m₁), resized, (k, room)) = try_resize-Kept m v few in
      let (nodes, placed, p) =
        place_lem id sock m₁.nodes k.valid.width (omega (arith, k.valid.sized, k.same_size))
          (count-eq-zero id m₁.nodes (k.reads id ∙ e)) in
      (
        (true, record m₁ { nodes = nodes; size = (m₁.size + 1) % size_mod }),
        rw (contains_lem id v, e, resized, placed),
        (refl, placed-IsValid m m₁ id sock nodes k room few e p),
      )
