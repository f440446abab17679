-- ===== src/Map/Memory.antt =====
-- What the functions of src/map.c allocate, use and free: `_cdtp_client_map`, `_cdtp_client_map_node`,
-- `_cdtp_client_map_resize`, `_cdtp_client_map_free`, `_cdtp_client_map_iter` and
-- `_cdtp_client_map_iter_free`.
use cdtp.Common.{
  ℕ, ◌+◌, ◌≡◌, ◌≤◌, refl, ap, Bool, List, [], ◌∷◌, ◌++◌, Run, ok, ◌>>=◌, Returns, length,
  length-append, arith,
}
use cdtp.Common.Heap.{
  Heap, alloc, allocs, release, releases, realloc, one, mentions, mentions-append, IsFresh, Gains,
  alloc_lem, allocs_lem, releases_lem, release_lem, live-mentions, realloc_lem, touch, touch_lem,
}
use cdtp.Map.{start_capacity}

-- the blocks of a map or of an iterator: the object, its array of pointers, and what these point to
pub record Blocks : Type 0 where
  pub object : ℕ
  pub array : ℕ
  pub nodes : List ℕ

abbrev pub all : Blocks → List ℕ
all b = b.object ∷ b.array ∷ b.nodes

-- the object, its array and `n` nodes, as `_cdtp_client_map` and `_cdtp_client_map_iter` allocate them
unfoldable pub new_blocks : ℕ → Heap → Blocks × Heap
unfolding alloc allocs
new_blocks n h =
    let (object, h₁) = alloc h in
    let (array, h₂) = alloc h₁ in
    let (nodes, h₃) = allocs n h₂ in (record { object = object; array = array; nodes = nodes }, h₃)

-- `_cdtp_client_map_resize`, with whether its call of `realloc` moves the old array. The loop that
-- puts the clients into the new nodes is a use of both arrays, of the nodes of both and of the map;
-- it reads every old node.
unfoldable pub resize_blocks : Bool → ℕ → Blocks → Heap → Run (Blocks × Heap)
unfolding realloc alloc allocs touch release
resize_blocks moves new_capacity b h = do
  (old_nodes, h₁) ← realloc moves b.array h
  let (array, h₂) = alloc h₁
  let (nodes, h₃) = allocs new_capacity h₂
  h₄ ← touch (old_nodes ∷ b.nodes) h₃
  h₅ ← touch (b.object ∷ array ∷ nodes) h₄
  h₆ ← release old_nodes h₅
  ok (record b { array = array; nodes = nodes }, h₆)

-- `_cdtp_client_map_free`, and `_cdtp_client_map_iter_free`, which frees in the same order.
-- Each call of `free` for a node reads its pointer from the array, and the array's from the object;
-- since `free` makes no block usable, the use after the last of these calls stands for all.
unfoldable pub free_blocks : Blocks → Heap → Run Heap
unfolding releases touch release
free_blocks b h = do
  h₁ ← releases b.nodes h
  h₂ ← touch (b.object ∷ b.array ∷ []) h₁
  h₃ ← release b.array h₂
  h₄ ← touch (b.object ∷ []) h₃
  release b.object h₄

-- any number of resizings, to the capacities given
unfoldable pub resizings : List (Bool × ℕ) → Blocks → Heap → Run (Blocks × Heap)
unfolding resize_blocks
resizings [] b h = ok (b, h)
resizings ((moves, new_capacity) ∷ rest) b h = do
  (b', h') ← resize_blocks moves new_capacity b h
  resizings rest b' h'

-- a map from `_cdtp_client_map` to `_cdtp_client_map_free`
unfoldable pub life : List (Bool × ℕ) → Heap → Run Heap
unfolding new_blocks resizings free_blocks
life rest h = do
  let (b, h') = new_blocks start_capacity h
  (b', h'') ← resizings rest b h'
  free_blocks b' h''

-- the sum of the capacities that are replaced
abbrev pub replaced : ℕ → List (Bool × ℕ) → ℕ
replaced capacity [] = 0
replaced capacity ((moves, new_capacity) ∷ rest) = capacity + replaced new_capacity rest

new_blocks_lem :
    (n : ℕ) (h : Heap)
    → IsFresh h
    → Gains h (all (new_blocks n h).0) (new_blocks n h).1 × (length (new_blocks n h).0.nodes ≡ n)
unfolding new_blocks
new_blocks_lem n h fresh =
    let g₁ = alloc_lem h fresh in
    let g₂ = alloc_lem (alloc h).1 g₁.fresh in
    let (g₃, size) = allocs_lem n (alloc (alloc h).1).1 g₂.fresh in
    (
      record {
        fresh = g₃.fresh;
        counts = λ a. omega (arith, g₁.counts a, g₂.counts a, g₃.counts a);
      },
      size,
    )

free_blocks_lem :
    (b : Blocks) (h : Heap)
    → IsFresh h
    → ((a : ℕ) → mentions a (all b) ≤ one (h.live a))
    → Returns (free_blocks b h) λ h'. Gains h' (all b) h × IsFresh h'
unfolding free_blocks
free_blocks_lem b h fresh le =
    let (h₁, run₁, (g₁, fresh₁)) = releases_lem b.nodes h fresh (λ a. omega (arith, le a)) in
    let left₁ : (a : ℕ) → mentions a (b.object ∷ b.array ∷ []) ≤ one (h₁.live a) =
      λ a. omega (arith, le a, g₁.counts a) in
    let (h₂, run₂, (g₂, fresh₂)) =
      release_lem b.array h₁ fresh₁ (live-mentions h₁ b.array [] (omega (arith, left₁ b.array))) in
    let (h₃, run₃, (g₃, fresh₃)) =
      release_lem b.object h₂ fresh₂
        (live-mentions h₂ b.object [] (omega (arith, left₁ b.object, g₂.counts b.object))) in
    (
      h₃,
      rw
          (
            run₁,
            touch_lem (b.object ∷ b.array ∷ []) h₁ left₁,
            run₂,
            touch_lem (b.object ∷ []) h₂ (λ a. omega (arith, left₁ a, g₂.counts a)),
            run₃,
          )
          refl,
      (
        record {
          fresh = fresh;
          counts = λ a. omega (arith, g₁.counts a, g₂.counts a, g₃.counts a);
        },
        fresh₃,
      ),
    )

-- A resizing gives the map a new array with new nodes, and frees the old array, not its nodes.
record Regrows (b : Blocks) (h : Heap) (new_capacity : ℕ) (b' : Blocks) (h' : Heap) : Type 0 where
  fresh : IsFresh h'
  size : length b'.nodes ≡ new_capacity
  counts :
      (a : ℕ)
      → one (h'.live a) + mentions a (all b)
        ≡ one (h.live a) + mentions a (all b') + mentions a b.nodes

resize_blocks_lem :
    (moves : Bool) (new_capacity : ℕ) (b : Blocks) (h : Heap)
    → IsFresh h
    → ((a : ℕ) → mentions a (all b) ≤ one (h.live a))
    → Returns (resize_blocks moves new_capacity b h) λ r. Regrows b h new_capacity r.0 r.1
unfolding resize_blocks
resize_blocks_lem moves new_capacity b h fresh le =
    let ((old_nodes, h₁), run₁, (fresh₁, moved)) =
      realloc_lem moves b.array h fresh (live-mentions h b.array [] (omega (arith, le b.array))) in
    let g₂ = alloc_lem h₁ fresh₁ in
    let (g₃, size) = allocs_lem new_capacity (alloc h₁).1 g₂.fresh in
    let still : (a : ℕ)
        → mentions a (old_nodes ∷ []) ≤ one ((allocs new_capacity (alloc h₁).1).1.live a) =
      λ a. omega (arith, le a, moved a, g₂.counts a, g₃.counts a) in
    let (h₄, run₄, (g₄, fresh₄)) =
      release_lem old_nodes (allocs new_capacity (alloc h₁).1).1 g₃.fresh
        (live-mentions (allocs new_capacity (alloc h₁).1).1 old_nodes [] (still old_nodes)) in
    (
      (record b { array = (alloc h₁).0; nodes = (allocs new_capacity (alloc h₁).1).0 }, h₄),
      rw
          (
            run₁,
            touch_lem (old_nodes ∷ b.nodes) (allocs new_capacity (alloc h₁).1).1
                (λ a. omega (arith, le a, moved a, g₂.counts a, g₃.counts a)),
            touch_lem (b.object ∷ (alloc h₁).0 ∷ (allocs new_capacity (alloc h₁).1).0)
                (allocs new_capacity (alloc h₁).1).1
                (λ a. omega (arith, le a, moved a, g₂.counts a, g₃.counts a)),
            run₄,
          )
          refl,
      record {
        fresh = fresh₄;
        size = size;
        counts = λ a. omega (arith, moved a, g₂.counts a, g₃.counts a, g₄.counts a);
      },
    )

-- The blocks that are allocated are those of the map, those of before, and those that are lost.
record Loses (h₀ : Heap) (lost : List ℕ) (b : Blocks) (h : Heap) : Type 0 where
  fresh : IsFresh h
  counts : (a : ℕ) → one (h.live a) ≡ one (h₀.live a) + mentions a (all b) + mentions a lost

resizings_lem :
    (h₀ : Heap) (rest : List (Bool × ℕ)) (lost : List ℕ) (b : Blocks) (h : Heap)
    → Loses h₀ lost b h
    → Returns (resizings rest b h) λ r.
      (lost' : List ℕ) × Loses h₀ lost' r.0 r.1
      × (length lost' ≡ length lost + replaced (length b.nodes) rest)
unfolding resizings
resizings_lem h₀ [] lost b h l = ((b, h), refl, (lost, l, omega arith))
resizings_lem h₀ ((moves, new_capacity) ∷ rest) lost b h l =
    let ((b', h'), run, r) =
      resize_blocks_lem moves new_capacity b h l.fresh (λ a. omega (arith, l.counts a)) in
    let ((b'', h''), runs, (lost', l', size)) =
      resizings_lem h₀ rest (b.nodes ++ lost) b' h' (record {
        fresh = r.fresh;
        counts = λ a. omega (arith, r.counts a, l.counts a, mentions-append a b.nodes lost);
      }) in
    (
      (b'', h''),
      rw run runs,
      (
        lost',
        l',
        omega (arith, size, length-append b.nodes lost, ap (λ (c : ℕ). replaced c rest) r.size),
      ),
    )

-- A map that is made, resized any number of times and freed: each call returns, so that no block is
-- freed twice, and no array, node or map used after it is freed, in the loops of resizing and freeing
-- too. Allocated after it are the blocks of before and others,
-- each once, as many as the sum of the capacities from which the map was resized; so nothing is
-- lost without a resizing. It does not matter which calls of `realloc` move the array.
pub life_lem :
    (rest : List (Bool × ℕ)) (h : Heap)
    → IsFresh h
    → Returns (life rest h) λ h'.
      (lost : List ℕ) × (length lost ≡ replaced start_capacity rest)
      × ((a : ℕ) → one (h'.live a) ≡ one (h.live a) + mentions a lost)
unfolding life
life_lem rest h fresh =
    let (g, size) = new_blocks_lem start_capacity h fresh in
    let b = (new_blocks start_capacity h).0 in
    let ((b', h'), run, (lost, l, lost_size)) =
      resizings_lem h rest [] b (new_blocks start_capacity h).1
        (record { fresh = g.fresh; counts = λ a. omega (arith, g.counts a) }) in
    let (h'', freed, (g', _)) = free_blocks_lem b' h' l.fresh (λ a. omega (arith, l.counts a)) in
    (
      h'',
      rw run freed,
      (
        lost,
        omega (arith, lost_size, ap (λ (c : ℕ). replaced c rest) size),
        λ a. omega (arith, l.counts a, g'.counts a),
      ),
    )

-- An iterator over any number of clients that is made and freed leaves each block as it was.
pub iterator_lem :
    (n : ℕ) (h : Heap)
    → IsFresh h
    → Returns
        (free_blocks (new_blocks n h).0 (new_blocks n h).1)
        λ h'. (a : ℕ) → one (h'.live a) ≡ one (h.live a)
iterator_lem n h fresh =
    let (g, _) = new_blocks_lem n h fresh in
    let (h', run, (g', _)) =
      free_blocks_lem (new_blocks n h).0 (new_blocks n h).1 g.fresh
        (λ a. omega (arith, g.counts a)) in
    (h', run, λ a. omega (arith, g.counts a, g'.counts a))
