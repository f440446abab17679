-- ===== src/Map/Refine.antt =====
-- No sequence of calls tells a valid map from the partial function that it stands for.
use cdtp.Common.{
  ◌+◌, ◌^◌, ◌≤◌, ◌<◌, ◌≡◌, refl, false, List, [], ◌∷◌, length, arith, inl, inr, Option-cases, Run,
  none, ok, ◌>>=◌, Returns,
}
use mathlib.Core.Path.{fun_ext}
use cdtp.Map
use cdtp.Map.{Map, client_map}
use cdtp.Map.Spec.{Call, contains, get, set, pop, Reply, flag, socket, answer, answers}
use cdtp.Map.Valid.{view, IsValid, client_map-IsValid, client_map-view}
use cdtp.Map.Methods.{
  is_some, or_null, contains_lem, get_lem, set_client-present, set_client-absent,
}
use cdtp.Map.Pop.{pop_lem}

module _ {ℓ} {A : Type ℓ} where
  unfoldable pub perform : Map A → Call A → Run (Reply A × Map A)
  perform m (contains id) = Map.contains m id >>= (λ b. ok (flag b, m))
  perform m (get id) = Map.get m id >>= (λ sock. ok (socket sock, m))
  perform m (set id sock) = Map.set_client m id sock >>= (λ (b, m'). ok (flag b, m'))
  perform m (pop id) = Map.pop m id >>= (λ (sock, m'). ok (socket sock, m'))

  unfoldable pub performs : Map A → List (Call A) → Run (List (Reply A))
  unfolding perform
  performs m [] = ok []
  performs m (call ∷ calls) =
      perform m call >>= (λ (reply, m'). performs m' calls >>= (λ replies. ok (reply ∷ replies)))

  -- On a valid map with fewer than 2 ^ 60 clients, one call returns the reply of the partial
  -- function that the map stands for, and the map then stands for its result; it is valid, and its
  -- size is at most one more.
  pub perform_refines :
      {m : Map A} (call : Call A)
      → IsValid m
      → m.size < 2 ^ 60
      → Returns
          (perform m call)
          λ r. IsValid r.1 × (r.1.size ≤ m.size + 1) × ((r.0, view r.1) ≡ answer (view m) call)
  unfolding perform answer
  perform_refines {m} (contains id) v few =
      ((flag (is_some (view m id)), m), rw (contains_lem id v), (v, omega arith, refl))
  perform_refines {m} (get id) v few =
      ((socket (or_null (view m id)), m), rw (get_lem id v), (v, omega arith, refl))
  perform_refines {m} (pop id) v few =
      let ((sock, m'), run, (e, r)) = pop_lem id v few in
      (
        (socket sock, m'),
        rw run,
        (r.valid, omega (arith, r.size), λ i. (socket (e i), fun_ext r.reads i)),
      )
  perform_refines {m} (set id sock) v few = elim (Option-cases (view m id)) [
    | inl e ↦
        let ((b, m'), run, (t, a)) = set_client-absent id sock v few e in
        (
          (flag b, m'),
          rw run,
          (a.valid, omega (arith, a.size), rw e (λ i. (flag (t i), fun_ext a.reads i))),
        )
    | inr (old, e) ↦
        ((flag false, m), rw (set_client-present id sock old v e), (v, omega arith, rw e))
  ]

  -- Any sequence of calls on a valid map, fewer than 2 ^ 60 with the clients that it starts from,
  -- returns, and gives the replies of the partial function that the map stands for.
  pub performs_refines :
      {m : Map A} (calls : List (Call A))
      → IsValid m
      → m.size + length calls < 2 ^ 60
      → performs m calls ≡ ok (answers (view m) calls)
  unfolding performs answers
  performs_refines [] v few = refl
  performs_refines {m} (call ∷ calls) v few =
      let ((reply, m'), run, (v', size, same)) = perform_refines call v (omega arith) in
      rw (run, performs_refines {m = m'} calls v' (omega arith), ← same)

  -- Any sequence of fewer than 2 ^ 60 calls on a new map returns, and gives the replies of the
  -- partial function that is nowhere defined.
  pub performs-client_map :
      (calls : List (Call A))
      → length calls < 2 ^ 60
      → performs client_map calls ≡ ok (answers (λ q. none) calls)
  unfolding client_map
  performs-client_map calls few =
      rw (← fun_ext (client_map-view {A = A}))
        (performs_refines calls client_map-IsValid (omega arith))
