-- ===== src/Common/Memory.antt =====
-- `malloc`, and the copying of a range of one array into another: `memcpy` and the loops that copy.
use Prim.Native.Nat.{ℕ, zero, suc, ◌+◌, ◌-◌, ◌≤◌, ◌<◌}
use mathlib.Core.Path.{◌≡◌, refl, sym, ap, ◌∙◌}
use mathlib.Core.List.{List, [], ◌∷◌, ◌++◌, append_assoc, append-nil}
use mathlib.Core.Logic.{inl, inr}
use mathlib.Core.Option.{none, some}
use native.Mathlib.Omega.{arith}
use native.Mathlib.Nat.{add-zero}
use Prim.Native.Nat.add
use native.Mathlib.Numerals.{add-one}
use cdtp.Common.Lists.{
  length, get_elem?, set, take, drop, take-append-drop, take-append, drop-append, replicate,
  length-set, length-replicate, length-append,
}
use cdtp.Common.Tests.{ltb, lt→ltb, ltb-cases, if◌then◌else◌}
use cdtp.Common.Faults.{Run, ok, fault, out_of_bounds}

-- A block of `n` bytes. What they hold is not specified, and no code here reads one that it has not
-- written.
abbrev pub malloc : ℕ → List ℕ
malloc n = replicate n 0

-- for (k = 0; k < n; k++) target[j + k] = source[i + k]
unfoldable pub copy : ℕ → List ℕ → ℕ → List ℕ → ℕ → Run (List ℕ)
copy zero source i target j = ok target
copy (suc n) source i target j = elim (get_elem? source i) [
  | none ↦ fault out_of_bounds
  | some b ↦
      if ltb j (length target)
      then copy n source (i + 1) (set target j b) (j + 1)
      else fault out_of_bounds
]

drop-eq-cons :
    (xs : List ℕ) (i : ℕ)
    → i < length xs
    → (b : ℕ) × (get_elem? xs i ≡ some b) × (drop i xs ≡ b ∷ drop (suc i) xs)
drop-eq-cons [] i h = elim h [ ]
drop-eq-cons (x ∷ xs) zero h = (x, refl, refl)
drop-eq-cons (x ∷ xs) (suc i) h = drop-eq-cons xs i (omega arith)

take-set : (xs : List ℕ) (j b : ℕ) → j < length xs → take (suc j) (set xs j b) ≡ take j xs ++ b ∷ []
take-set [] j b h = elim h [ ]
take-set (x ∷ xs) zero b h = refl
take-set (x ∷ xs) (suc j) b h = ap (λ t. x ∷ t) (take-set xs j b (omega arith))

drop-set : (xs : List ℕ) (j k b : ℕ) → j < k → drop k (set xs j b) ≡ drop k xs
drop-set [] j k b h = refl
drop-set (x ∷ xs) j zero b h = elim h [ ]
drop-set (x ∷ xs) zero (suc k) b h = refl
drop-set (x ∷ xs) (suc j) (suc k) b h = drop-set xs j k b (omega arith)

suc_add : (j n : ℕ) → suc j + n ≡ j + suc n
suc_add j n = omega arith

-- A copy inside both arrays replaces just the range that it writes.
pub copy_lem :
    (n : ℕ) (source : List ℕ) (i : ℕ) (target : List ℕ) (j : ℕ)
    → i + n ≤ length source
    → j + n ≤ length target
    → copy n source i target j ≡ ok (take j target ++ take n (drop i source) ++ drop (j + n) target)
unfolding copy
copy_lem zero source i target j hs ht = rw (add-zero, append-nil, take-append-drop j target)
copy_lem (suc n) source i target j hs ht =
    let (b, read, rest) = drop-eq-cons source i (omega arith) in
    rw (read, copy, lt→ltb j (length target) (omega arith), add-one, add-one)
      (copy_lem n source (suc i) (set target j b) (suc j) (omega arith)
          (omega (arith, length-set target j b))
        ∙ rw
            (
              take-set target j b (omega arith),
              drop-set target j (suc j + n) b (omega arith),
              rest,
              append_assoc (take j target) (b ∷ []) (take n (drop (suc i) source)),
              suc_add,
            )
            refl)

pub malloc-add : (a b : ℕ) → malloc (a + b) ≡ malloc a ++ malloc b
malloc-add zero b = rw add.zero
malloc-add (suc a) b = rw add.suc (ap (λ t. 0 ∷ t) (malloc-add a b))

-- The same, for arrays that are given in parts: `mid` takes the place of `old`.
pub copy_parts :
    (skip mid rest pre old post : List ℕ) {n i j : ℕ}
    → i ≡ length skip
    → n ≡ length mid
    → j ≡ length pre
    → n ≡ length old
    → copy n (skip ++ (mid ++ rest)) i (pre ++ (old ++ post)) j ≡ ok (pre ++ (mid ++ post))
copy_parts skip mid rest pre old post {n} {i} {j} ei en ej eo =
    copy_lem n (skip ++ (mid ++ rest)) i (pre ++ (old ++ post)) j
      (omega (arith, length-append skip (mid ++ rest), length-append mid rest))
      (omega (arith, length-append pre (old ++ post), length-append old post))
    ∙ rw (
      take-append j pre (old ++ post) ej,
      drop-append i skip (mid ++ rest) ei,
      take-append n mid rest en,
      ← append_assoc pre old post,
      drop-append (j + n) (pre ++ old) post (omega (arith, length-append pre old)),
      append_assoc pre mid post,
    )

-- The first write into a fresh block, a write that fills the block, and a block filled at once.
pub copy_first :
    (mid rest : List ℕ) (m : ℕ) {n : ℕ}
    → n ≡ length mid
    → copy n (mid ++ rest) 0 (malloc (n + m)) 0 ≡ ok (mid ++ malloc m)
copy_first mid rest m {n} e =
    rw (malloc-add n m)
      (copy_parts [] mid rest [] (malloc n) (malloc m) refl e refl (sym (length-replicate n 0)))

-- a write behind what is written, with `m` bytes left after it
pub copy_next :
    (mid rest pre : List ℕ) (m : ℕ) {n j : ℕ}
    → n ≡ length mid
    → j ≡ length pre
    → copy n (mid ++ rest) 0 (pre ++ malloc (n + m)) j ≡ ok ((pre ++ mid) ++ malloc m)
copy_next mid rest pre m {n} {j} en ej = rw (malloc-add n m) (
    copy_parts [] mid rest pre (malloc n) (malloc m) refl en ej (sym (length-replicate n 0))
    ∙ rw (append_assoc pre mid (malloc m)))

pub copy_last :
    (mid rest pre : List ℕ) {n j : ℕ}
    → n ≡ length mid
    → j ≡ length pre
    → copy n (mid ++ rest) 0 (pre ++ malloc n) j ≡ ok (pre ++ mid)
copy_last mid rest pre {n} {j} en ej = rw (← append-nil (malloc n)) (
    copy_parts [] mid rest pre (malloc n) [] refl en ej (sym (length-replicate n 0))
    ∙ rw (append-nil mid))

pub copy_block :
    (skip mid rest : List ℕ) {n i : ℕ}
    → i ≡ length skip
    → n ≡ length mid
    → copy n (skip ++ (mid ++ rest)) i (malloc n) 0 ≡ ok mid
copy_block skip mid rest {n} {i} ei en = rw (← append-nil (malloc n)) (
    copy_parts skip mid rest [] (malloc n) [] ei en refl (sym (length-replicate n 0))
    ∙ rw (append-nil mid))

-- an array read whole
pub copy_whole :
    (bytes : List ℕ) {n : ℕ} → n ≡ length bytes → copy n bytes 0 (malloc n) 0 ≡ ok bytes
copy_whole bytes e = rw (append-nil bytes) at (copy_block [] bytes [] {i = 0} refl e)

-- Two writes, one behind the other, into a block that has room for both.
pub record Joined (a b block : List ℕ) (n m : ℕ) : Type 0 where
  pub first : List ℕ
  pub both : List ℕ
  pub writes_first : copy n a 0 block 0 ≡ ok first
  pub writes_both : copy m b 0 first n ≡ ok both
  pub reads : take (n + m) both ≡ a ++ b

pub copy_twice :
    (a b : List ℕ) (size : ℕ) {n m : ℕ}
    → n ≡ length a
    → m ≡ length b
    → n + m ≤ size
    → Joined a b (malloc size) n m
copy_twice a b size {n} {m} en em room =
    let r = size - (n + m) in
    let split : size ≡ n + (m + r) = omega arith in
    rw split (record {
      first = a ++ malloc (m + r);
      both = a ++ (b ++ malloc r);
      writes_first = rw (append-nil a) at (copy_first a [] (m + r) en);
      writes_both = rw (malloc-add m r) (
          rw (append-nil b) at
            (copy_parts [] b [] a (malloc m) (malloc r) refl em en (sym (length-replicate m 0))));
      reads =
          rw (← append_assoc a b (malloc r))
            (take-append (n + m) (a ++ b) (malloc r) (omega (arith, length-append a b)));
    })

past : (xs : List ℕ) → get_elem? xs (length xs) ≡ none
past [] = refl
past (x ∷ xs) = past xs

-- A copy that starts inside its source and goes on past its end reads out of bounds.
pub copy_overrun :
    (n : ℕ) (source : List ℕ) (i : ℕ) (target : List ℕ) (j : ℕ)
    → i ≤ length source
    → length source < i + n
    → copy n source i target j ≡ fault out_of_bounds
unfolding copy
copy_overrun zero source i target j inside over = absurd (omega arith)
copy_overrun (suc n) source i target j inside over = elim (ltb-cases i (length source)) [
  | inl (lt, _) ↦
      let (b, read, _) = drop-eq-cons source i lt in
      elim (ltb-cases j (length target)) [
        | inl (_, e) ↦
            rw (read, copy, e)
              (copy_overrun n source (i + 1) (set target j b) (j + 1) (omega arith) (omega arith))
        | inr (_, e) ↦ rw (read, copy, e)
      ]
  | inr (ge, _) ↦ let same : i ≡ length source = omega arith in rw (same, past source, copy)
]
