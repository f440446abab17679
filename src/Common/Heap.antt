-- ===== src/Common/Heap.antt =====
-- `malloc` and `free`, where only the blocks count: a block is named by a number that no other block
-- gets, and `live` tells whether it is allocated.
use Prim.Native.Nat.{ℕ, zero, suc, ◌+◌, ◌≤◌}
use mathlib.Core.Path.{◌≡◌, refl}
use mathlib.Core.Bool.{Bool, true, false, not, ◌&&◌, ◌||◌}
use mathlib.Core.List.{List, [], ◌∷◌, ◌++◌}
use native.Mathlib.Omega.{arith}
use cdtp.Common.Tests.{◌==◌, if◌then◌else◌}
use cdtp.Common.Lists.{length}
use cdtp.Common.Faults.{Run, ok, fault, bad_pointer, ◌>>=◌, Returns}

pub record Heap : Type 0 where
  pub next : ℕ
  pub live : ℕ → Bool

-- `malloc`
unfoldable pub alloc : Heap → ℕ × Heap
alloc h = (h.next, record { next = h.next + 1; live = λ a. (a == h.next) || h.live a })

-- `n` calls of `malloc`
unfoldable pub allocs : ℕ → Heap → List ℕ × Heap
unfolding alloc
allocs zero h = ([], h)
allocs (suc n) h = let (x, h') = alloc h in let (xs, h'') = allocs n h' in (x ∷ xs, h'')

-- `free`, which may get only a block that is allocated
unfoldable pub release : ℕ → Heap → Run Heap
release x h =
    if h.live x then ok (record h { live = λ a. not (a == x) && h.live a }) else fault bad_pointer

unfoldable pub releases : List ℕ → Heap → Run Heap
unfolding release
releases [] h = ok h
releases (x ∷ xs) h = release x h >>= releases xs

-- a use of blocks, each of which must be allocated
unfoldable pub touch : List ℕ → Heap → Run Heap
touch [] h = ok h
touch (x ∷ xs) h = let rest = touch xs h in if h.live x then rest else fault bad_pointer

-- `realloc` with the size that the block has: it may move the block
unfoldable pub realloc : Bool → ℕ → Heap → Run (ℕ × Heap)
unfolding release alloc
realloc moves x h =
    if moves
    then release x h >>= (λ h'. ok (alloc h'))
    else if h.live x
    then ok (x, h)
    else fault bad_pointer

abbrev pub one : Bool → ℕ
one true = 1
one false = 0

-- how often a list has a block
abbrev pub mentions : ℕ → List ℕ → ℕ
mentions a [] = 0
mentions a (x ∷ xs) = one (a == x) + mentions a xs

pub mentions-append :
    (a : ℕ) (xs ys : List ℕ) → mentions a (xs ++ ys) ≡ mentions a xs + mentions a ys
mentions-append a [] ys = omega arith
mentions-append a (x ∷ xs) ys = omega (arith, mentions-append a xs ys)

-- Blocks that will be allocated are not yet.
abbrev pub IsFresh : Heap → Type 0
IsFresh h = (a : ℕ) → h.next ≤ a → h.live a ≡ false

-- `h'` has the blocks of `h` and those of a list, each of them once and new
pub record Gains (h : Heap) (xs : List ℕ) (h' : Heap) : Type 0 where
  pub fresh : IsFresh h'
  pub counts : (a : ℕ) → one (h'.live a) ≡ one (h.live a) + mentions a xs

pub alloc_lem : (h : Heap) → IsFresh h → Gains h ((alloc h).0 ∷ []) (alloc h).1
unfolding alloc
alloc_lem h fresh = record {
  fresh = λ a le. ground (arith, fresh a);
  counts = λ a. ground (arith, fresh a);
}

pub allocs_lem :
    (n : ℕ) (h : Heap)
    → IsFresh h
    → Gains h (allocs n h).0 (allocs n h).1 × (length (allocs n h).0 ≡ n)
unfolding allocs
allocs_lem zero h fresh = (record { fresh = fresh; counts = λ a. omega arith }, refl)
allocs_lem (suc n) h fresh =
    let g = alloc_lem h fresh in
    let (later, size) = allocs_lem n (alloc h).1 g.fresh in
    (
      record { fresh = later.fresh; counts = λ a. omega (arith, g.counts a, later.counts a) },
      omega (arith, size),
    )

pub release_lem :
    (x : ℕ) (h : Heap)
    → IsFresh h
    → h.live x ≡ true
    → Returns (release x h) λ h'. Gains h' (x ∷ []) h × IsFresh h'
unfolding release
release_lem x h fresh is_live = (
  record h { live = λ a. not (a == x) && h.live a },
  rw is_live refl,
  (
    record { fresh = fresh; counts = λ a. ground (arith, is_live) },
    λ a le. ground (arith, fresh a),
  ),
)

is_live-one : (b : Bool) → 1 ≤ one b → b ≡ true
is_live-one true h = refl
is_live-one false h = absurd (omega arith)

-- a block that is allocated as often as a list has it, at least
pub live-mentions :
    (h : Heap) (x : ℕ) (xs : List ℕ) → mentions x (x ∷ xs) ≤ one (h.live x) → h.live x ≡ true
live-mentions h x xs le =
    let self : (x == x) ≡ true = ground arith in is_live-one (h.live x) (ground (arith, le))

pub touch_lem :
    (xs : List ℕ) (h : Heap) → ((a : ℕ) → mentions a xs ≤ one (h.live a)) → touch xs h ≡ ok h
unfolding touch
touch_lem [] h le = refl
touch_lem (x ∷ xs) h le =
    rw (live-mentions h x xs (le x), touch_lem xs h (λ a. omega (arith, le a))) refl

pub releases_lem :
    (xs : List ℕ) (h : Heap)
    → IsFresh h
    → ((a : ℕ) → mentions a xs ≤ one (h.live a))
    → Returns (releases xs h) λ h'. Gains h' xs h × IsFresh h'
unfolding releases
releases_lem [] h fresh le = (h, refl, (record { fresh = fresh; counts = λ a. omega arith }, fresh))
releases_lem (x ∷ xs) h fresh le =
    let (h', run, (g, fresh')) = release_lem x h fresh (live-mentions h x xs (le x)) in
    let (h'', later, (g', fresh'')) =
      releases_lem xs h' fresh' (λ a. omega (arith, le a, g.counts a)) in
    (
      h'',
      rw run later,
      (record { fresh = fresh; counts = λ a. omega (arith, g.counts a, g'.counts a) }, fresh''),
    )

pub realloc_lem :
    (moves : Bool) (x : ℕ) (h : Heap)
    → IsFresh h
    → h.live x ≡ true
    → Returns (realloc moves x h) λ r.
      IsFresh r.1
      × ((a : ℕ) → one (r.1.live a) + mentions a (x ∷ []) ≡ one (h.live a) + mentions a (r.0 ∷ []))
unfolding realloc
realloc_lem false x h fresh is_live = ((x, h), rw is_live refl, (fresh, λ a. refl))
realloc_lem true x h fresh is_live =
    let (h', run, (g, fresh')) = release_lem x h fresh is_live in
    let g' = alloc_lem h' fresh' in
    (alloc h', rw run refl, (g'.fresh, λ a. omega (arith, g.counts a, g'.counts a)))
