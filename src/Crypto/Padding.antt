-- ===== src/Crypto/Padding.antt =====
-- Padding and its removal.
use cdtp.Common.{
  ℕ, zero, suc, ◌+◌, ◌-◌, ◌%◌, ◌^◌, ◌≤◌, ◌<◌, ◌==◌, if◌then◌else◌, ◌≡◌, ◌≢◌, refl, ap, List, [],
  ◌∷◌, ◌++◌, ok, inl, inr, take, drop, copy_block, length, length-take, Bool-cases, arith,
}
use Prim.Native.Nat.add
use mathlib.Core.List.{append-nil}
use cdtp.Crypto.{add_size, crypto_data, CryptoData, pad_data, unpad_data, strip, sub_size}

-- The size is that of the block, which is no larger than an object can be.
pub record IsWhole (d : CryptoData) : Type 0 where
  pub whole : d.data_size ≡ length d.bytes
  pub fits : d.data_size < 2 ^ 63

add_size_lem : (a b : ℕ) → a + b < 2 ^ 64 → add_size a b ≡ a + b
add_size_lem a b fits = omega arith

-- A container of all of an array.
pub crypto_data_lem :
    (bytes : List ℕ) {n : ℕ}
    → n ≡ length bytes
    → crypto_data bytes n ≡ ok (record { bytes = bytes; data_size = n })
unfolding crypto_data
crypto_data_lem bytes {n} e = rw (rw (append-nil bytes) at (copy_block [] bytes [] {i = 0} refl e))

take-take-append :
    (n k : ℕ) (xs ys : List ℕ) → n ≡ length xs → n ≤ k → take n (take k (xs ++ ys)) ≡ xs
take-take-append zero k [] ys e h = refl
take-take-append zero k (x ∷ xs) ys e h = absurd (omega arith)
take-take-append (suc n) k [] ys e h = absurd (omega arith)
take-take-append (suc n) zero (x ∷ xs) ys e h = absurd (omega arith)
take-take-append (suc n) (suc k) (x ∷ xs) ys e h =
    ap (λ t. x ∷ t) (take-take-append n k xs ys (omega arith) (omega arith))

drop-take-append :
    (n k : ℕ) (xs ys : List ℕ) → n ≡ length xs → drop n (take (n + k) (xs ++ ys)) ≡ take k ys
drop-take-append zero k [] ys e = rw add.zero
drop-take-append zero k (x ∷ xs) ys e = absurd (omega arith)
drop-take-append (suc n) k [] ys e = absurd (omega arith)
drop-take-append (suc n) k (x ∷ xs) ys e = rw add.suc (drop-take-append n k xs ys (omega arith))

-- the bytes in front of the data
unfoldable pub marker : ℕ → List ℕ
marker size = if (size + 1) % 16 == 0 then 1 ∷ 255 ∷ [] else 0 ∷ []

cut_two :
    (a b n : ℕ) (xs ys : List ℕ)
    → n ≡ length xs
    → take (n + 2) (a ∷ b ∷ take (n + 2) (xs ++ ys)) ≡ a ∷ b ∷ xs
cut_two a b n xs ys e =
    let two : n + 2 ≡ suc (suc n) = omega arith in
    rw two (ap (λ t. a ∷ b ∷ t) (take-take-append n (suc (suc n)) xs ys e (omega arith)))

cut_one :
    (a n : ℕ) (xs ys : List ℕ) → n ≡ length xs → take (n + 1) (a ∷ take (n + 1) (xs ++ ys)) ≡ a ∷ xs
cut_one a n xs ys e =
    let one : n + 1 ≡ suc n = omega arith in
    rw one (ap (λ t. a ∷ t) (take-take-append n (suc n) xs ys e (omega arith)))

past_two :
    (a b n : ℕ) (xs ys : List ℕ)
    → n ≡ length xs
    → drop (n + 2) (a ∷ b ∷ take (n + 2) (xs ++ ys)) ≡ take 2 ys
past_two a b n xs ys e =
    let two : n + 2 ≡ suc (suc n) = omega arith in rw two (rw two at (drop-take-append n 2 xs ys e))

past_one :
    (a n : ℕ) (xs ys : List ℕ)
    → n ≡ length xs
    → drop (n + 1) (a ∷ take (n + 1) (xs ++ ys)) ≡ take 1 ys
past_one a n xs ys e =
    let one : n + 1 ≡ suc n = omega arith in rw one (rw one at (drop-take-append n 1 xs ys e))

-- Padding puts the marker before the data, whatever lies behind the data in memory.
pub pad_data_lem :
    (beyond : List ℕ) {d : CryptoData}
    → IsWhole d
    → ((pad_data beyond d).padded.bytes ≡ marker d.data_size ++ d.bytes)
      × ((pad_data beyond d).padded.data_size ≡ d.data_size + length (marker d.data_size))
unfolding pad_data marker
pad_data_lem beyond {d} w =
    rw
      (
        add_size_lem d.data_size 1 (omega (arith, w.fits)),
        add_size_lem d.data_size 2 (omega (arith, w.fits)),
      )
      elim (Bool-cases ((d.data_size + 1) % 16 == 0)) [
        | inl e ↦ rw e (cut_two 1 255 d.data_size d.bytes beyond w.whole, refl)
        | inr e ↦ rw e (cut_one 0 d.data_size d.bytes beyond w.whole, refl)
      ]

-- For data of fewer than 2 ^ 63 bytes in a container of its size, with at least two bytes behind it
-- in memory, padding writes
-- behind the end of the block that it allocates, as many bytes as the marker has and at least one,
-- and they are what lay behind the data.
pub pad_data-overrun :
    (beyond : List ℕ) {d : CryptoData}
    → IsWhole d
    → 2 ≤ length beyond
    → ((pad_data beyond d).overrun ≡ take (length (marker d.data_size)) beyond)
      × (length (pad_data beyond d).overrun ≡ length (marker d.data_size))
      × (0 < length (pad_data beyond d).overrun)
unfolding pad_data marker
pad_data-overrun beyond {d} w enough =
    rw
      (
        add_size_lem d.data_size 1 (omega (arith, w.fits)),
        add_size_lem d.data_size 2 (omega (arith, w.fits)),
      )
      elim (Bool-cases ((d.data_size + 1) % 16 == 0)) [
        | inl e ↦
            rw (e, past_two 1 255 d.data_size d.bytes beyond w.whole)
              (refl, omega (arith, length-take 2 beyond), omega (arith, length-take 2 beyond))
        | inr e ↦
            rw (e, past_one 0 d.data_size d.bytes beyond w.whole)
              (refl, omega (arith, length-take 1 beyond), omega (arith, length-take 1 beyond))
      ]

-- For a container of any size below SIZE_MAX, the padded size is larger than the size by one or two,
-- with no wrap-around, and not a multiple of 16.
pub pad_data-size :
    (beyond : List ℕ) (d : CryptoData)
    → d.data_size < 2 ^ 64 - 1
    → (d.data_size < (pad_data beyond d).padded.data_size)
      × ((pad_data beyond d).padded.data_size ≤ d.data_size + 2)
      × ((pad_data beyond d).padded.data_size % 16 ≢ 0)
unfolding pad_data
pad_data-size beyond d below = ground arith

strip_lem :
    (n size : ℕ) (skip mid : List ℕ) {s : ℕ}
    → n ≡ length skip
    → size ≡ length mid
    → size < 2 ^ 63
    → s ≡ size + n
    → n ≤ 2
    → strip n (record { bytes = skip ++ mid; data_size = s })
      ≡ ok (record { bytes = mid; data_size = size })
unfolding strip
strip_lem n size skip mid {s} en es small e lt =
    let back : sub_size s n ≡ size = omega arith in
    rw (back, ← append-nil mid, copy_block skip mid [] en es) (rw append-nil)

-- For data of fewer than 2 ^ 63 bytes in a container of its size, removing the padding gives the
-- container back, whatever lies behind the data in memory.
pub unpad-pad :
    (beyond : List ℕ) {d : CryptoData}
    → IsWhole d
    → d.data_size < 2 ^ 63
    → unpad_data (pad_data beyond d).padded ≡ ok d
unfolding unpad_data pad_data
unpad-pad beyond {d} w small =
    rw
      (
        pad_data,
        add_size_lem d.data_size 1 (omega (arith, w.fits)),
        add_size_lem d.data_size 2 (omega (arith, w.fits)),
      )
      elim (Bool-cases ((d.data_size + 1) % 16 == 0)) [
        | inl e ↦
            rw (e, pad_data, cut_two 1 255 d.data_size d.bytes beyond w.whole)
              (strip_lem 2 d.data_size (1 ∷ 255 ∷ []) d.bytes refl w.whole small refl (omega arith))
        | inr e ↦
            rw (e, pad_data, cut_one 0 d.data_size d.bytes beyond w.whole)
              (strip_lem 1 d.data_size (0 ∷ []) d.bytes refl w.whole small refl (omega arith))
      ]
