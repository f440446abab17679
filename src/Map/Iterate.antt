-- ===== src/Map/Iterate.antt =====
-- `_cdtp_client_map_iter`: the array of the iterator is filled exactly, each client once.
use cdtp.Common.{
  ℕ, zero, suc, ◌+◌, ◌≤◌, ◌≡◌, refl, ap, ◌∙◌, true, false, ◌==◌, if◌then◌else◌, ◌++◌, map, Option,
  none, some, List, [], ◌∷◌, length, length-append, replicate, set, arith, Bool-cases, inl, inr,
  lt→ltb, ok, All,
}
use mathlib.Core.List.{append_assoc}
use cdtp.Map.{Node, Map, IterNode, iter_node, iter_loop, iter}
use cdtp.Map.Tally.{tally, used, count, find}
use cdtp.Map.Valid.{view, IsValid}

module _ {ℓ} {A : Type ℓ} where
  -- the allocated nodes, in the order of the array
  unfoldable pub entries : List (Node A) → List (IterNode A)
  entries [] = []
  entries (node ∷ nodes) = if node.allocated then iter_node node ∷ entries nodes else entries nodes

  length-entries : (nodes : List (Node A)) → length (entries nodes) ≡ used nodes
  unfolding entries tally
  length-entries [] = refl
  length-entries (node ∷ nodes) = ground (arith, length-entries nodes)

  -- how often a client stands in the list
  unfoldable pub occurrences : ℕ → List (IterNode A) → ℕ
  occurrences q [] = 0
  occurrences q (e ∷ es) = if e.client_id == q then suc (occurrences q es) else occurrences q es

  -- the socket that stands with a client in the list
  unfoldable pub lookup : ℕ → List (IterNode A) → Option (Option A)
  lookup q [] = none
  lookup q (e ∷ es) = if e.client_id == q then some e.sock else lookup q es

  occurrences-entries :
      (q : ℕ) (nodes : List (Node A)) → occurrences q (entries nodes) ≡ count q nodes
  unfolding entries tally occurrences
  occurrences-entries q [] = refl
  occurrences-entries q (node ∷ nodes) = ground (arith, occurrences-entries q nodes)

  lookup-entries : (q : ℕ) (nodes : List (Node A)) → lookup q (entries nodes) ≡ find q nodes
  unfolding entries lookup find
  lookup-entries q [] = refl
  lookup-entries q (node ∷ nodes) = ground (arith, lookup-entries q nodes)

  pub lookup-none : (q : ℕ) (es : List (IterNode A)) → occurrences q es ≡ 0 → lookup q es ≡ none
  unfolding occurrences lookup
  lookup-none q [] h = refl
  lookup-none q (e ∷ es) h = ground (arith, lookup-none q es)

  pub lookup_self :
      (e : IterNode A) (es : List (IterNode A)) → lookup e.client_id (e ∷ es) ≡ some e.sock
  unfolding lookup
  lookup_self e es = ground arith

  pub lookup_rest :
      (q : ℕ) (e : IterNode A) (es : List (IterNode A))
      → occurrences q (e ∷ es) ≤ 1
      → lookup q es ≡ (if e.client_id == q then none else lookup q (e ∷ es))
  unfolding occurrences lookup
  lookup_rest q e es once = elim (Bool-cases (e.client_id == q)) [
    | inl eq ↦ rw eq (lookup-none q es (ground (arith, once)))
    | inr ne ↦ rw ne
  ]

  pub occurrences_rest :
      (q : ℕ) (e : IterNode A) (es : List (IterNode A)) → occurrences q es ≤ occurrences q (e ∷ es)
  unfolding occurrences
  occurrences_rest q e es = ground arith

  set-append :
      (done rest : List (Option (IterNode A))) (i : ℕ) (x y : Option (IterNode A))
      → i ≡ length done
      → set (done ++ (x ∷ rest)) i y ≡ (done ++ (y ∷ [])) ++ rest
  set-append [] rest zero x y e = refl
  set-append [] rest (suc i) x y e = absurd (omega arith)
  set-append (d ∷ done) rest zero x y e = absurd (omega arith)
  set-append (d ∷ done) rest (suc i) x y e =
      ap (λ t. d ∷ t) (set-append done rest i x y (omega arith))

  used-free :
      (node : Node A) (nodes : List (Node A))
      → node.allocated ≡ false
      → used (node ∷ nodes) ≡ used nodes
  unfolding tally
  used-free node nodes e = ground arith

  used-full :
      (node : Node A) (nodes : List (Node A))
      → node.allocated ≡ true
      → used (node ∷ nodes) ≡ suc (used nodes)
  unfolding tally
  used-full node nodes e = ground arith

  -- The loop overwrites the rest of the array, entry by entry, and stays inside it.
  iter_loop_lem :
      (nodes : List (Node A)) (i : ℕ) (done : List (Option (IterNode A)))
      → i ≡ length done
      → iter_loop nodes i (done ++ replicate (used nodes) none)
        ≡ ok (done ++ map some (entries nodes))
  unfolding iter_loop entries
  iter_loop_lem [] i done e = unfold tally in refl
  iter_loop_lem (node ∷ nodes) i done e = elim (Bool-cases node.allocated) [
    | inr free ↦ rw (used-free node nodes free, free) (iter_loop_lem nodes i done e)
    | inl full ↦
        let rest : List (Option (IterNode A)) = replicate (used nodes) none in
        let entry : Option (IterNode A) = some (iter_node node) in
        rw
          (
            used-full node nodes full,
            full,
            lt→ltb i (length (done ++ none ∷ rest))
                (omega (arith, length-append done (none ∷ rest))),
            set-append done rest i none entry e,
          )
          (iter_loop_lem nodes (i + 1) (done ++ entry ∷ [])
              (omega (arith, length-append done (entry ∷ [])))
            ∙ rw (append_assoc done (entry ∷ []) (map some (entries nodes))))
  ]

  -- The iterator of a valid map has an entry for each client and for nothing else, with its socket:
  -- the array is filled to its end and not beyond, and no client stands in it twice.
  pub iter_lem :
      {m : Map A}
      → IsValid m
      → (clients : List (IterNode A)) × (iter m
          ≡ ok (record { size = m.size; clients = map some clients }))
        × (length clients ≡ m.size)
        × ((q : ℕ) → occurrences q clients ≤ 1)
        × ((q : ℕ) → lookup q clients ≡ view m q)
  unfolding iter
  iter_lem {m} v = (
    entries m.nodes,
    rw (← v.sized, iter_loop_lem m.nodes 0 [] refl),
    length-entries m.nodes ∙ v.sized,
    λ q. omega (arith, occurrences-entries q m.nodes, v.once q),
    λ q. lookup-entries q m.nodes,
  )

-- What holds of each client that a list without repetitions has holds of all its entries.
pub All-lookup {ℓ κ} :
    {A : Type ℓ} (P : ℕ → Option A → Type κ) (clients : List (IterNode A))
    → ((q : ℕ) → occurrences q clients ≤ 1)
    → ((q : ℕ) (sock : Option A) → lookup q clients ≡ some sock → P q sock)
    → All (λ e. P e.client_id e.sock) clients
unfolding occurrences lookup
All-lookup P [] once h = tt
All-lookup P (e ∷ es) once h =
    let self : (e.client_id == e.client_id) ≡ true = ground arith in
    (
      h e.client_id e.sock (rw self),
      All-lookup P es (λ q. ground (arith, once q))
          λ q sock found. elim (Bool-cases (e.client_id == q)) [
            | inl eq ↦
                let gone : lookup q es ≡ none = lookup-none q es (ground (arith, once q)) in
                absurd (cc)
            | inr ne ↦ h q sock (rw ne found)
          ],
    )
