-- ===== src/Map/Tally.antt =====
-- What an array of nodes means: how many nodes pass a test, which socket a client has, and the
-- effect of a write to one node.
use cdtp.Common.{
  ℕ, zero, suc, ◌+◌, ◌≤◌, ◌<◌, ◌≡◌, refl, Bool, true, false, if◌then◌else◌, Option, none, some,
  List, [], ◌∷◌, get_or, set, length, replicate, arith, Bool-cases, inl, inr,
}
use cdtp.Map.{Node, empty_node, holds}

abbrev pub bit : Bool → ℕ
bit true = 1
bit false = 0

module _ {ℓ} {A : Type ℓ} where
  -- how many nodes pass the test
  unfoldable pub tally : (Node A → Bool) → List (Node A) → ℕ
  tally p [] = 0
  tally p (node ∷ nodes) = bit (p node) + tally p nodes

  abbrev pub is_used : Node A → Bool
  is_used node = node.allocated

  -- how many nodes are allocated
  abbrev pub used : List (Node A) → ℕ
  used nodes = tally is_used nodes

  -- how many nodes hold the client
  abbrev pub count : ℕ → List (Node A) → ℕ
  count q nodes = tally (holds q) nodes

  -- the socket of the client, from the first node that holds it; `none` for no such node
  unfoldable pub find : ℕ → List (Node A) → Option (Option A)
  find q [] = none
  find q (node ∷ nodes) = if holds q node then some node.sock else find q nodes

  -- node `i`, or an empty one past the end
  abbrev pub at : List (Node A) → ℕ → Node A
  at nodes i = get_or nodes i empty_node

  pub tally-set :
      (p : Node A → Bool) (nodes : List (Node A)) (i : ℕ) (node : Node A)
      → i < length nodes
      → tally p (set nodes i node) + bit (p (at nodes i)) ≡ tally p nodes + bit (p node)
  unfolding tally
  tally-set p [] i node h = elim h [ ]
  tally-set p (x ∷ nodes) zero node h = omega arith
  tally-set p (x ∷ nodes) (suc i) node h = omega (arith, tally-set p nodes i node (omega arith))

  pub tally-le : (p : Node A → Bool) (nodes : List (Node A)) → tally p nodes ≤ length nodes
  unfolding tally
  tally-le p [] = omega arith
  tally-le p (x ∷ nodes) = ground (arith, tally-le p nodes)

  pub count-le-used : (q : ℕ) (nodes : List (Node A)) → count q nodes ≤ used nodes
  unfolding tally
  count-le-used q [] = omega arith
  count-le-used q (x ∷ nodes) = ground (arith, count-le-used q nodes)

  -- If all do not pass, then some index does not.
  pub tally-lt-length :
      (p : Node A → Bool) (nodes : List (Node A))
      → tally p nodes < length nodes
      → (i : ℕ) × (i < length nodes) × (p (at nodes i) ≡ false)
  unfolding tally
  tally-lt-length p [] h = absurd (omega arith)
  tally-lt-length p (x ∷ nodes) h = elim (Bool-cases (p x)) [
    | inl e ↦
        let h' : suc (1 + tally p nodes) ≤ suc (length nodes) = rw e at h in
        let (i, lt, no_pass) = tally-lt-length p nodes (omega arith) in
        (suc i, omega arith, no_pass)
    | inr e ↦ (0, omega arith, e)
  ]

  -- A node that passes is counted.
  pub tally-pos :
      (p : Node A → Bool) (nodes : List (Node A)) (i : ℕ)
      → i < length nodes
      → p (at nodes i) ≡ true
      → 0 < tally p nodes
  unfolding tally
  tally-pos p [] i h e = elim h [ ]
  tally-pos p (x ∷ nodes) zero h e = ground arith
  tally-pos p (x ∷ nodes) (suc i) h e = omega (arith, tally-pos p nodes i (omega arith) e)

  -- If no index passes, the count is 0.
  pub tally-eq-zero :
      (p : Node A → Bool) (nodes : List (Node A))
      → ((i : ℕ) → i < length nodes → p (at nodes i) ≡ false)
      → tally p nodes ≡ 0
  unfolding tally
  tally-eq-zero p [] h = refl
  tally-eq-zero p (x ∷ nodes) h =
      rw (h 0 (omega arith), tally-eq-zero p nodes (λ i lt. h (suc i) (omega arith)))

  pub find-eq-none : (q : ℕ) (nodes : List (Node A)) → count q nodes ≡ 0 → find q nodes ≡ none
  unfolding tally find
  find-eq-none q [] h = refl
  find-eq-none q (x ∷ nodes) h = ground (arith, find-eq-none q nodes)

  pub count-eq-zero : (q : ℕ) (nodes : List (Node A)) → find q nodes ≡ none → count q nodes ≡ 0
  unfolding tally find
  count-eq-zero q [] h = refl
  count-eq-zero q (x ∷ nodes) h = ground (arith, count-eq-zero q nodes)

  -- A client that one node at most holds has the socket of the node that holds it.
  pub find-at :
      (q : ℕ) (nodes : List (Node A)) (i : ℕ)
      → count q nodes ≤ 1
      → i < length nodes
      → holds q (at nodes i) ≡ true
      → find q nodes ≡ some (at nodes i).sock
  unfolding tally find
  find-at q [] i c h e = elim h [ ]
  find-at q (x ∷ nodes) zero c h e = ground arith
  find-at q (x ∷ nodes) (suc i) c h e =
      ground (arith, find-at q nodes i, tally-pos (holds q) nodes i)

  -- A write over a node that does not hold the client, of a node that does not, is not seen.
  pub find-set_other :
      (q : ℕ) (nodes : List (Node A)) (i : ℕ) (node : Node A)
      → holds q (at nodes i) ≡ false
      → holds q node ≡ false
      → find q (set nodes i node) ≡ find q nodes
  unfolding find
  find-set_other q [] i node old new = refl
  find-set_other q (x ∷ nodes) zero node old new = ground arith
  find-set_other q (x ∷ nodes) (suc i) node old new = ground (arith, find-set_other q nodes i node)

  pub tally-replicate :
      (p : Node A → Bool) (n : ℕ) → p empty_node ≡ false → tally p (replicate n empty_node) ≡ 0
  unfolding tally
  tally-replicate p zero e = refl
  tally-replicate p (suc n) e = ground (arith, tally-replicate p n)
