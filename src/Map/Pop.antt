-- ===== src/Map/Pop.antt =====
-- `_cdtp_client_map_pop` on a valid map.
use cdtp.Common.{
  ℕ, ◌+◌, ◌-◌, ◌^◌, ◌%◌, ◌<◌, ◌≡◌, refl, ◌∙◌, true, ◌==◌, if◌then◌else◌, Option, none, some, length,
  length-set, set, arith, Bool-cases, inl, inr, ok, Returns, ==_iff,
}
use cdtp.Map.{Map, holds, empty_node, size_mod, search_for, try_resize, Resized, pop}
use cdtp.Map.Tally.{at, bit, is_used, find-eq-none, find-set_other, tally-set, tally-pos}
use cdtp.Map.Valid.{view, IsValid, Kept, size-le, try_resize-Kept}
use cdtp.Map.Methods.{is_some, or_null, Finds, search_for_lem, sock_at_lem}

module _ {ℓ} {A : Type ℓ} where
  -- `m'` is `m` without the client
  pub record Removes (m : Map A) (id : ℕ) (m' : Map A) : Type ℓ where
    pub valid : IsValid m'
    pub size : m'.size + bit (is_some (view m id)) ≡ m.size
    pub reads : (q : ℕ) → view m' q ≡ (if id == q then none else view m q)

  abbrev cleared : Map A → ℕ → Map A
  cleared m i = record m {
    nodes = set m.nodes i empty_node;
    size = (m.size + size_mod - 1) % size_mod;
  }

  -- Clearing the node that holds the client removes just that client.
  cleared-Removes :
      (m : Map A) (id i : ℕ)
      → IsValid m
      → i < length m.nodes
      → holds id (at m.nodes i) ≡ true
      → view m id ≡ some (at m.nodes i).sock
      → Removes m id (cleared m i)
  cleared-Removes m id i v lt held seen = record {
    valid = record {
      width = length-set m.nodes i empty_node ∙ v.width;
      sized = ground (arith, tally-set is_used m.nodes i empty_node, v.sized, positive, size-le v);
      once = λ q. ground (arith, tally-set (holds q) m.nodes i empty_node, v.once q);
      doubled = v.doubled;
      small = v.small;
    };
    size = rw seen (omega (arith, positive, size-le v));
    reads = λ q. elim (Bool-cases (id == q)) [
      | inl e ↦
          rw (e, ← (==_iff id q).0 e)
            (find-eq-none id (set m.nodes i empty_node)
              (ground (arith, tally-set (holds id) m.nodes i empty_node, v.once id)))
      | inr e ↦ rw e (find-set_other q m.nodes i empty_node (ground (arith, ==_iff id q)) refl)
    ];
  }
    where
      positive : 0 < m.size
      positive = rw v.sized at (tally-pos is_used m.nodes i lt (ground arith))

  pop_of :
      (m m₁ : Map A) (id : ℕ) (e : Resized) (r : Option ℕ)
      → try_resize m ≡ ok (e, m₁)
      → Kept m m₁
      → search_for m₁ id ≡ ok r
      → Finds m₁ id r
      → Returns (pop m id) λ p. (p.0 ≡ or_null (view m id)) × Removes m id p.1
  unfolding pop
  pop_of m m₁ id e none resized k run f = (
    (none, m₁),
    rw (resized, run),
    (
      rw (← k.reads id, f),
      record {
        valid = k.valid;
        size = rw (← k.reads id, f) (omega (arith, k.same_size));
        reads = λ q. k.reads q ∙ elim (Bool-cases (id == q)) [
          | inl eq ↦ rw (eq, ← (==_iff id q).0 eq, ← k.reads id, f)
          | inr ne ↦ rw ne
        ];
      },
    ),
  )
  pop_of m m₁ id e (some i) resized k run (lt, held, seen) =
      let c = cleared-Removes m₁ id i k.valid lt held seen in
      (
        ((at m₁.nodes i).sock, cleared m₁ i),
        rw (resized, run, sock_at_lem m₁ i lt),
        (
          rw (← k.reads id, seen),
          record {
            valid = c.valid;
            size = rw (← k.reads id) (c.size ∙ k.same_size);
            reads = λ q. rw (← k.reads q) (c.reads q);
          },
        ),
      )

  -- On a valid map with fewer than 2 ^ 60 clients, `pop` returns the client's socket, or NULL,
  -- removes the client if the map has it, and keeps all others; the map stays valid, and its size
  -- is one less if the client was there.
  pub pop_lem :
      {m : Map A} (id : ℕ)
      → IsValid m
      → m.size < 2 ^ 60
      → Returns (pop m id) λ p. (p.0 ≡ or_null (view m id)) × Removes m id p.1
  pop_lem {m} id v few =
      let ((e, m₁), resized, (k, _)) = try_resize-Kept m v few in
      let (r, run, f) = search_for_lem id k.valid in pop_of m m₁ id e r resized k run f
