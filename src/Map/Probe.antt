-- ===== src/Map/Probe.antt =====
-- The two probing loops end, and find what they look for. An index starts below the capacity, and
-- one round takes it to the next, from the last to 0.
use cdtp.Common.{
  ℕ, zero, suc, ◌+◌, ◌%◌, ◌≤◌, ◌<◌, ◌≡◌, ◌≢◌, true, false, ◌==◌, if◌then◌else◌, Option, none, some,
  List, get_elem?, get_elem?-eq-get_or, length, arith, Bool-cases, inl, inr, ◌⊎◌, ok, Returns,
  ==_iff,
}
use native.Mathlib.Nat.{mod-eq_of_lt, mod_self}
use native.Mathlib.Decide.{dec_lt}
use cdtp.Map.{Node, holds, empty_node, probe_free, probe_for}
use cdtp.Map.Tally.{at, used, is_used, count, tally-lt-length, tally-eq-zero}

-- the next index on the way, with no `%`
next-lt : (h n : ℕ) → suc h < n → (h + 1) % n ≡ suc h
next-lt h n lt = omega (arith, mod-eq_of_lt {n = h + 1} {m = n} (omega arith))

next-cases :
    (h n : ℕ) → h < n → ((suc h < n) × ((h + 1) % n ≡ suc h)) ⊎ ((suc h ≡ n) × ((h + 1) % n ≡ 0))
next-cases h n lt = elim (dec_lt (suc h) n) [
  | yes p ↦ inl (p, next-lt h n p)
  | no p ↦ let e : h + 1 ≡ n = omega arith in inr (omega arith, rw (e, mod_self n))
]

module _ {ℓ} {A : Type ℓ} (nodes : List (Node A)) (n : ℕ) (width : length nodes ≡ n) where
  node_at : (h : ℕ) → h < n → get_elem? nodes h ≡ some (at nodes h)
  node_at h lt = get_elem?-eq-get_or nodes h empty_node (rw width lt)

  probe_free-next :
      (fuel h : ℕ)
      → h < n
      → (at nodes h).allocated ≡ true
      → probe_free (suc fuel) nodes n h ≡ probe_free fuel nodes n ((h + 1) % n)
  unfolding probe_free
  probe_free-next fuel h lt e = rw (node_at h lt, probe_free, e)

  -- The loop that looks for a free node reaches index `j` within the rounds from `h` to it.
  probe_free-reaches :
      (fuel h j : ℕ)
      → h < n
      → j < n
      → (at nodes j).allocated ≡ false
      → (h ≤ j → j < h + fuel)
      → (j < h → n + j < h + fuel)
      → Returns (probe_free fuel nodes n h) λ i. (i < n) × ((at nodes i).allocated ≡ false)
  unfolding probe_free
  probe_free-reaches zero h j hn jn free near far = elim (dec_lt j h) [
    | yes p ↦ absurd (omega (arith, far p))
    | no p ↦ absurd (omega (arith, near (omega arith)))
  ]
  probe_free-reaches (suc fuel) h j hn jn free near far = elim (Bool-cases (at nodes h).allocated) [
    | inr e ↦ (h, rw (node_at h hn, probe_free, e), (hn, e))
    | inl e ↦
        let apart : h ≢ j = λ eq. cc in
        rw (probe_free-next fuel h hn e) (elim (next-cases h n hn) [
          | inl (lt, next) ↦
              rw next
                (probe_free-reaches fuel (suc h) j lt jn free (λ p. omega arith) (λ p. omega arith))
          | inr (last, next) ↦ rw next (
              probe_free-reaches fuel 0 j (omega arith) jn free (λ p. omega arith)
                (λ p. omega arith))
        ])
  ]

  -- From any index below the capacity, an array that is not full gives a free node in as many
  -- rounds as it has nodes.
  pub probe_free_lem :
      (h : ℕ)
      → h < n
      → used nodes < n
      → Returns (probe_free n nodes n h) λ i. (i < n) × ((at nodes i).allocated ≡ false)
  probe_free_lem h lt room =
      let (j, jn, free) = tally-lt-length is_used nodes (rw width room) in
      probe_free-reaches n h j lt (rw width at jn) free (λ p. omega arith) (λ p. omega arith)

  -- What a search has found out, if `P` holds at the indices that it was still to visit.
  abbrev Sought : ℕ → (ℕ → Type 0) → Option ℕ → Type 0
  Sought q P none = (i : ℕ) → P i → holds q (at nodes i) ≡ false
  Sought q P (some i) = (i < n) × (holds q (at nodes i) ≡ true)

  widen :
      (q : ℕ) (P Q : ℕ → Type 0) (r : Option ℕ)
      → ((i : ℕ) → Q i → P i ⊎ (holds q (at nodes i) ≡ false))
      → Sought q P r
      → Sought q Q r
  widen q P Q none h s = λ i qi. elim (h i qi) [ inl p ↦ s i p | inr e ↦ e ]
  widen q P Q (some i) h s = s

  module _ (q orig : ℕ) where
    probe_for-hit :
        (fuel h : ℕ)
        → h < n
        → holds q (at nodes h) ≡ true
        → probe_for (suc fuel) nodes n q orig h ≡ ok (some h)
    unfolding probe_for
    probe_for-hit fuel h lt e = rw (node_at h lt, probe_for, e)

    probe_for-next :
        (fuel h next : ℕ)
        → h < n
        → holds q (at nodes h) ≡ false
        → (h + 1) % n ≡ next
        → probe_for (suc fuel) nodes n q orig h
          ≡ (if next == orig then ok none else probe_for fuel nodes n q orig next)
    unfolding probe_for
    probe_for-next fuel h next lt e en = rw (node_at h lt, probe_for, e, en)

    -- One round that does not find the client: it is the last, or the rest of the way is `P`.
    probe_for-miss :
        (fuel h next : ℕ) (P Q : ℕ → Type 0)
        → h < n
        → holds q (at nodes h) ≡ false
        → (h + 1) % n ≡ next
        → ((i : ℕ) → Q i → (h ≡ i) ⊎ ((next ≢ orig) × P i))
        → (next ≢ orig → Returns (probe_for fuel nodes n q orig next) (Sought q P))
        → Returns (probe_for (suc fuel) nodes n q orig h) (Sought q Q)
    probe_for-miss fuel h next P Q lt miss en split rec = elim (Bool-cases (next == orig)) [
      | inl e ↦ (
        none,
        rw (probe_for-next fuel h next lt miss en, e),
        λ i qi. elim (split i qi) [
          | inl eq ↦ rw (← eq) miss
          | inr p ↦ absurd (p.0 ((==_iff next orig).0 e))
        ],
      )
      | inr e ↦
          let (r, run, s) = rec (λ eq. ground (arith, ==_iff next orig)) in
          (
            r,
            rw (probe_for-next fuel h next lt miss en, e) run,
            widen q P Q r
                (λ i qi. elim (split i qi) [ inl eq ↦ inr (rw (← eq) miss) | inr p ↦ inl p.1 ]) s,
          )
    ]

    -- the part of the way from 0 to the start
    probe_for-late :
        (fuel h : ℕ)
        → h < orig
        → orig < n
        → orig ≤ h + fuel
        → Returns (probe_for fuel nodes n q orig h) (Sought q (λ i. (h ≤ i) × (i < orig)))
    probe_for-late zero h ho on f = absurd (omega arith)
    probe_for-late (suc fuel) h ho on f = elim (Bool-cases (holds q (at nodes h))) [
      | inl e ↦ (some h, probe_for-hit fuel h (omega arith) e, (omega arith, e))
      | inr e ↦
          probe_for-miss fuel h (suc h) (λ i. (suc h ≤ i) × (i < orig)) _ (omega arith) e
            (next-lt h n (omega arith)) (λ i qi. omega arith)
            (λ ne. probe_for-late fuel (suc h) (omega arith) on (omega arith))
    ]

    -- the part of the way from the start to the end
    probe_for-early :
        (fuel h : ℕ)
        → orig ≤ h
        → h < n
        → n + orig ≤ h + fuel
        → Returns
            (probe_for fuel nodes n q orig h)
            (Sought q (λ i. ((h ≤ i) × (i < n)) ⊎ (i < orig)))
    probe_for-early zero h ho hn f = absurd (omega arith)
    probe_for-early (suc fuel) h ho hn f = elim (Bool-cases (holds q (at nodes h))) [
      | inl e ↦ (some h, probe_for-hit fuel h hn e, (hn, e))
      | inr e ↦ elim (next-cases h n hn) [
        | inl (lt, next) ↦
            probe_for-miss fuel h (suc h) (λ i. ((suc h ≤ i) × (i < n)) ⊎ (i < orig)) _ hn e next
              (λ i qi. grind arith)
              (λ ne. probe_for-early fuel (suc h) (omega arith) lt (omega arith))
        | inr (last, next) ↦
            probe_for-miss fuel h 0 (λ i. (0 ≤ i) × (i < orig)) _ hn e next (λ i qi. grind arith)
              (λ ne. probe_for-late fuel 0 (omega arith) (omega arith) (omega arith))
      ]
    ]

  -- the index of a node that holds the client, or nothing if no node does
  abbrev pub Located : ℕ → Option ℕ → Type 0
  Located q none = count q nodes ≡ 0
  Located q (some i) = (i < n) × (holds q (at nodes i) ≡ true)

  locate : (q : ℕ) (r : Option ℕ) → Sought q (λ i. i < n) r → Located q r
  locate q none s = tally-eq-zero (holds q) nodes (λ i lt. s i (rw width at lt))
  locate q (some i) s = s

  -- The search ends within as many rounds as there are nodes, wherever it starts, with no access
  -- out of bounds. It returns the index of a node that holds the client, or nothing if no node does.
  pub probe_for_lem :
      (q orig : ℕ) → orig < n → Returns (probe_for n nodes n q orig orig) (Located q)
  probe_for_lem q orig lt =
      let (r, run, s) = probe_for-early q orig n orig (omega arith) lt (omega arith) in
      let all : Sought q (λ i. i < n) r =
        widen q (λ i. ((orig ≤ i) × (i < n)) ⊎ (i < orig)) _ r (λ i h. inl (grind arith)) s in
      (r, run, locate q r all)
