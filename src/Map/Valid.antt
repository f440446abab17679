-- ===== src/Map/Valid.antt =====
-- The invariant of the map, and resizing under it.
use cdtp.Common.{
  ℕ, zero, suc, ◌*◌, ◌/◌, ◌^◌, ◌%◌, ◌≤◌, ◌<◌, ◌≡◌, refl, sym, ◌∙◌, true, leb, ltb, ◌&&◌, Option,
  none, length, arith, Bool-cases, inl, inr, Returns, leb→le,
}
use native.Mathlib.Nat.{pow-suc}
use cdtp.Map.{
  Map, increased, decreased, unchanged, size_mod, min_capacity, client_map, resize, resize_up,
  resize_down, try_resize,
}
use cdtp.Map.Tally.{tally, used, is_used, count, find, tally-le}
use cdtp.Map.Rehash.{resize-Moves}

pow-pos : (k : ℕ) → 0 < 2 ^ k
pow-pos zero = omega arith
pow-pos (suc k) = omega (arith, pow-suc 2 k, pow-pos k)

halve :
    (k c : ℕ)
    → c ≡ min_capacity * 2 ^ k
    → min_capacity < c
    → (j : ℕ) × (c / 2 ≡ min_capacity * 2 ^ j)
halve zero c e h = absurd (omega arith)
halve (suc k) c e h = (k, omega (arith, pow-suc 2 k))

double : (k c : ℕ) → c ≡ min_capacity * 2 ^ k → c * 2 ≡ min_capacity * 2 ^ suc k
double k c e = omega (arith, pow-suc 2 k)

module _ {ℓ} {A : Type ℓ} where
  -- The socket that the map has for a client: `none` if it has none.
  abbrev pub view : Map A → ℕ → Option (Option A)
  view m q = find q m.nodes

  -- `once`: a client is in one node at most. `doubled`: the capacity is 16 times a power of two.
  pub record IsValid (m : Map A) : Type ℓ where
    pub width : length m.nodes ≡ m.capacity
    pub sized : used m.nodes ≡ m.size
    pub once : (q : ℕ) → count q m.nodes ≤ 1
    pub doubled : (k : ℕ) × (m.capacity ≡ min_capacity * 2 ^ k)
    pub small : m.capacity ≤ 2 ^ 61

  pub size-le : {m : Map A} → IsValid m → m.size ≤ m.capacity
  size-le {m} v = omega (arith, tally-le is_used m.nodes, v.width, v.sized)

  pub capacity-pos : {m : Map A} → IsValid m → 0 < m.capacity
  capacity-pos {m} v = let (k, e) = v.doubled in omega (arith, pow-pos k)

  -- A new map is valid and has no client.
  pub client_map-IsValid : IsValid (client_map {A = A})
  unfolding client_map tally
  client_map-IsValid = record {
    width = refl;
    sized = refl;
    once = λ q. omega arith;
    doubled = (0, refl);
    small = omega arith;
  }

  pub client_map-view : (q : ℕ) → view (client_map {A = A}) q ≡ none
  unfolding client_map find
  client_map-view q = refl

  -- `m'` is `m` in another array
  pub record Kept (m m' : Map A) : Type ℓ where
    pub valid : IsValid m'
    pub same_size : m'.size ≡ m.size
    pub reads : (q : ℕ) → view m' q ≡ view m q

  resize-Kept :
      (m : Map A) (n k : ℕ)
      → IsValid m
      → n ≡ min_capacity * 2 ^ k
      → n ≤ 2 ^ 61
      → m.size ≤ n
      → Returns (resize m n) λ m'. Kept m m' × (m'.capacity ≡ n)
  resize-Kept m n k v power small room =
      let (m', run, (size, capacity, width, uses, counts, finds)) =
        resize-Moves m n (omega (arith, v.sized)) v.once in
      (
        m',
        run,
        (
          record {
            valid = record {
              width = width ∙ sym capacity;
              sized = uses ∙ v.sized ∙ sym size;
              once = λ q. omega (arith, counts q, v.once q);
              doubled = (k, capacity ∙ power);
              small = omega arith;
            };
            same_size = size;
            reads = finds;
          },
          capacity,
        ),
      )

  up-Kept :
      (m : Map A)
      → IsValid m
      → m.size < 2 ^ 60
      → m.capacity ≤ m.size
      → Returns (resize_up m) λ m'. Kept m m' × (m'.capacity ≡ m.capacity * 2)
  unfolding resize_up
  up-Kept m v few full =
      let (k, e) = v.doubled in
      let fits : m.capacity * 2 % size_mod ≡ m.capacity * 2 = omega arith in
      rw fits (
        resize-Kept m (m.capacity * 2) (suc k) v (double k m.capacity e) (omega arith)
          (omega (arith, size-le v)))

  down-Kept :
      (m : Map A)
      → IsValid m
      → min_capacity < m.capacity
      → m.size * 4 ≤ m.capacity
      → Returns (resize_down m) λ m'. Kept m m' × (m'.capacity ≡ m.capacity / 2)
  unfolding resize_down
  down-Kept m v large sparse =
      let (j, e) = halve v.doubled.0 m.capacity v.doubled.1 large in
      resize-Kept m (m.capacity / 2) j v e (omega arith) (omega arith)

  -- the second test of `try_resize`, with the product in `size_t`
  sparse-bounds :
      (m : Map A)
      → IsValid m
      → m.size < 2 ^ 60
      → (ltb min_capacity m.capacity && leb (m.size * 4 % size_mod) m.capacity) ≡ true
      → (min_capacity < m.capacity) × (m.size * 4 ≤ m.capacity)
  sparse-bounds m v few e = ground arith

  -- On a valid map with fewer than 2 ^ 60 clients, `try_resize` returns a valid map of the same
  -- size that has the same clients with their sockets, and more nodes than clients.
  pub try_resize-Kept :
      (m : Map A)
      → IsValid m
      → m.size < 2 ^ 60
      → Returns (try_resize m) λ r. Kept m r.1 × (m.size < r.1.capacity)
  unfolding try_resize resize_up resize_down
  try_resize-Kept m v few = elim (Bool-cases (leb m.capacity m.size)) [
    | inl full ↦
        let (m', run, (kept, capacity)) = up-Kept m v few (leb→le _ _ full) in
        ((increased, m'), rw (full, run), (kept, omega (arith, capacity-pos v, size-le v)))
    | inr room ↦
        elim (Bool-cases (ltb min_capacity m.capacity && leb (m.size * 4 % size_mod) m.capacity)) [
          | inl e ↦
              let (large, sparse) = sparse-bounds m v few e in
              let (m', run, (kept, capacity)) = down-Kept m v large sparse in
              ((decreased, m'), rw (room, e, run), (kept, omega arith))
          | inr e ↦ (
            (unchanged, m),
            rw (room, e),
            (record { valid = v; same_size = refl; reads = λ q. refl }, ground arith),
          )
        ]
  ]
