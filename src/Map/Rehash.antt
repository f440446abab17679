-- ===== src/Map/Rehash.antt =====
-- Placing a client in a free node, and moving all clients to a new array.
use cdtp.Common.{
  ℕ, ◌+◌, ◌%◌, ◌≤◌, ◌<◌, ◌≡◌, refl, ◌∙◌, true, false, ◌==◌, if◌then◌else◌, Option, some, List, [],
  ◌∷◌, set, length, length-set, get_or-set_self, replicate, length-replicate, arith, Bool-cases,
  inl, inr, ok, Returns, ==_iff,
}
use mathlib.Core.Option.{or_else}
use native.Mathlib.Nat.{mod-lt}
use cdtp.Map.{Node, Map, holds, empty_node, full_node, place, rehash, resize}
use cdtp.Map.Tally.{
  at, bit, tally, used, is_used, count, find, find-at, find-eq-none, find-set_other, tally-set,
  tally-replicate,
}
use cdtp.Map.Probe.{probe_free_lem}

module _ {ℓ} {A : Type ℓ} where
  -- `after` is `before` with one more client
  pub record Places (id : ℕ) (sock : Option A) (before after : List (Node A)) : Type ℓ where
    pub width : length after ≡ length before
    pub uses : used after ≡ used before + 1
    pub counts : (q : ℕ) → count q after ≡ count q before + bit (id == q)
    pub finds : (q : ℕ) → find q after ≡ (if id == q then some sock else find q before)

  -- A client that no node holds, written to a free node.
  set-Places :
      (id : ℕ) (sock : Option A) (nodes : List (Node A)) (i : ℕ)
      → i < length nodes
      → (at nodes i).allocated ≡ false
      → count id nodes ≡ 0
      → Places id sock nodes (set nodes i (full_node id sock))
  set-Places id sock nodes i lt free absent = record {
    width = length-set nodes i (full_node id sock);
    uses = ground (arith, tally-set is_used nodes i (full_node id sock));
    counts = counts;
    finds = λ q. elim (Bool-cases (id == q)) [
      | inl e ↦ rw (e, ← (==_iff id q).0 e) self
      | inr e ↦ rw e (find-set_other q nodes i (full_node id sock) (rw free) e)
    ];
  }
    where
      counts : (q : ℕ) → count q (set nodes i (full_node id sock)) ≡ count q nodes + bit (id == q)
      counts q = ground (arith, tally-set (holds q) nodes i (full_node id sock))

      self : find id (set nodes i (full_node id sock)) ≡ some sock
      self = rw (get_or-set_self nodes i (full_node id sock) empty_node lt) at (
          find-at id (set nodes i (full_node id sock)) i (ground (arith, counts id))
            (omega (arith, length-set nodes i (full_node id sock)))
            (rw (get_or-set_self nodes i (full_node id sock) empty_node lt)
              ((==_iff id id).1 refl)))

  -- In an array that is not full, `place` returns, and places the client.
  pub place_lem :
      (id : ℕ) (sock : Option A) (nodes : List (Node A)) {n : ℕ}
      → length nodes ≡ n
      → used nodes < n
      → count id nodes ≡ 0
      → Returns (place n nodes id sock) (Places id sock nodes)
  unfolding place
  place_lem id sock nodes {n} width room absent =
      let (i, run, found) = probe_free_lem nodes n width (id % n) (mod-lt id (omega arith)) room in
      (
        set nodes i (full_node id sock),
        rw run,
        set-Places id sock nodes i (omega (arith, found.0)) found.1 absent,
      )

  -- `after` is `before` with the clients of `olds`
  pub record Moves (olds before after : List (Node A)) : Type ℓ where
    pub width : length after ≡ length before
    pub uses : used after ≡ used before + used olds
    pub counts : (q : ℕ) → count q after ≡ count q before + count q olds
    pub finds : (q : ℕ) → find q after ≡ or_else (find q before) (find q olds)

  -- One round of the loop over an allocated node.
  rehash-next :
      (n : ℕ) (old : Node A) (olds nodes : List (Node A)) {nodes' : List (Node A)}
      → old.allocated ≡ true
      → place n nodes old.client_id old.sock ≡ ok nodes'
      → rehash n (old ∷ olds) nodes ≡ rehash n olds nodes'
  unfolding rehash
  rehash-next n old olds nodes e placed = rw (e, placed)

  -- With room for all the clients, and each of them there once, the loop moves them all.
  pub rehash-Moves :
      (n : ℕ) (olds nodes : List (Node A))
      → length nodes ≡ n
      → used nodes + used olds ≤ n
      → ((q : ℕ) → count q nodes + count q olds ≤ 1)
      → Returns (rehash n olds nodes) (Moves olds nodes)
  unfolding rehash tally find or_else
  rehash-Moves n [] nodes width room once = (
    nodes,
    refl,
    record {
      width = refl;
      uses = omega arith;
      counts = λ q. omega arith;
      finds = λ q. ground arith;
    },
  )
  rehash-Moves n (old ∷ olds) nodes width room once = elim (Bool-cases old.allocated) [
    | inr e ↦
        let (after, run, m) =
          rehash-Moves n olds nodes width (ground arith) (λ q. ground (arith, once q)) in
        (
          after,
          rw e run,
          record {
            width = m.width;
            uses = ground (arith, m.uses);
            counts = λ q. ground (arith, m.counts q);
            finds = λ q. ground (arith, m.finds q);
          },
        )
    | inl e ↦
        let (nodes', placed, p) =
          place_lem old.client_id old.sock nodes width (ground arith)
            (ground (arith, once old.client_id)) in
        let (after, run, m) =
          rehash-Moves n olds nodes' (p.width ∙ width) (ground (arith, p.uses))
            (λ q. ground (arith, once q, p.counts q)) in
        (
          after,
          rehash-next n old olds nodes e placed ∙ run,
          record {
            width = m.width ∙ p.width;
            uses = ground (arith, m.uses, p.uses);
            counts = λ q. ground (arith, m.counts q, p.counts q);
            finds = λ q. ground (arith, m.finds q, p.finds q, once q, find-eq-none q nodes);
          },
        )
  ]

  -- If the new capacity is at least the number of used nodes, and no client is in two nodes,
  -- `resize` returns a map of that capacity and the same size, with as many used nodes, that has
  -- each client as often as before and with its socket.
  pub resize-Moves :
      (m : Map A) (n : ℕ)
      → used m.nodes ≤ n
      → ((q : ℕ) → count q m.nodes ≤ 1)
      → Returns (resize m n) λ m'.
        (m'.size ≡ m.size)
        × (m'.capacity ≡ n)
        × (length m'.nodes ≡ n)
        × (used m'.nodes ≡ used m.nodes)
        × ((q : ℕ) → count q m'.nodes ≡ count q m.nodes)
        × ((q : ℕ) → find q m'.nodes ≡ find q m.nodes)
  unfolding resize or_else
  resize-Moves m n room once =
      let fresh : List (Node A) = replicate n empty_node in
      let none_used : used fresh ≡ 0 = tally-replicate is_used n refl in
      let none_held : (q : ℕ) → count q fresh ≡ 0 = λ q. tally-replicate (holds q) n refl in
      let (after, run, t) =
        rehash-Moves n m.nodes fresh (length-replicate n empty_node) (omega arith)
          (λ q. omega (arith, once q, none_held q)) in
      (
        record m { capacity = n; nodes = after },
        rw run,
        (
          refl,
          refl,
          t.width ∙ length-replicate n empty_node,
          omega (arith, t.uses),
          λ q. omega (arith, t.counts q, none_held q),
          λ q. rw (t.finds q, find-eq-none q fresh (none_held q)),
        ),
      )
