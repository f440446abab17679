-- ===== src/Server/Stop.antt =====
-- `cdtp_server_stop` of src/server.c: what it closes, and what is left.
use cdtp.Common.{
  ℕ, ◌^◌, ◌≤◌, ◌<◌, ◌≡◌, refl, sym, ap, ◌∙◌, Bool, true, false, ◌==◌, if◌then◌else◌, List, [], ◌∷◌,
  ◌++◌, Option, none, some, ok, set_pointer, Returns, Ensures, bind-Ensures, then-Ensures, arith,
  Bool-cases, Option-cases, inl, inr, map, length,
}
use cdtp.Map
use cdtp.Map.{IterNode, iter, pop}
use cdtp.Map.Valid.{view}
use cdtp.Map.Methods.{is_some}
use cdtp.Map.Pop.{pop_lem}
use cdtp.Map.Iterate.{occurrences, occurrences_rest, lookup, lookup_self, lookup_rest, iter_lem}
use cdtp.Transport.{Failure, Effect, close}
use cdtp.Server.{Peer, Server}
use cdtp.Server.Valid.{IsValid, Keeps, Keeps-refl, Keeps-trans, Removes-Drops, closing}
use cdtp.Server.Control.{StopCalls, close_all, end_thread, closed, stop}

-- what is closed for all entries of a list
abbrev pub closings : List (IterNode Peer) → List Effect
closings [] = []
closings (e ∷ es) = closing e.sock ++ closings es

pub close_all-Keeps :
    (closes : ℕ → Failure) {s : Server} (entries : List (Option (IterNode Peer)))
    → IsValid s
    → s.next_client_id < 2 ^ 60
    → Ensures (close_all closes s entries) (λ r. Keeps s r.0)
unfolding close_all
close_all-Keeps closes [] v few = Keeps-refl v
close_all-Keeps closes (none ∷ entries) v few = tt
close_all-Keeps closes {s} (some node ∷ entries) v few =
    bind-Ensures (set_pointer node.sock) _ _ λ sock. elim (Option-cases (closes node.client_id)) [
      | inr (errno, e) ↦ rw e (Keeps-refl v)
      | inl e ↦
          let ((popped, m), run, (_, r)) =
            pop_lem node.client_id v.map (omega (arith, v.counted)) in
          let d = Removes-Drops node.client_id v r in
          rw (e, run)
            (bind-Ensures (set_pointer popped) _ _ λ client.
              bind-Ensures (set_pointer client.key) _ _ λ key.
                then-Ensures (close_all closes (record s { clients = m }) entries) _
                  (λ r. Keeps (record s { clients = m }) r.0) (λ r. Keeps s r.0)
                  (close_all-Keeps closes {s = record s { clients = m }} entries d.keeps.valid few)
                  λ (s', effects, finished) k. Keeps-trans d.keeps k)
    ]

-- What the loop over all clients, with no failure, leaves of the server.
pub record Empties (s : Server) (es : List (IterNode Peer)) (r : Server × List Effect × Bool)
    : Type 0 where
  pub closes_all : r.1 ≡ closings es
  pub ends : r.2 ≡ true
  pub same : r.0 ≡ record s { clients = r.0.clients }
  pub reads :
      (q : ℕ) → view r.0.clients q ≡ (if is_some (lookup q es) then none else view s.clients q)

reads-rest :
    (m m' : Map.Map Peer) (e : IterNode Peer) (es : List (IterNode Peer))
    → ((q : ℕ) → occurrences q (e ∷ es) ≤ 1)
    → ((q : ℕ) (sock : Option Peer) → lookup q (e ∷ es) ≡ some sock → view m q ≡ some sock)
    → ((q : ℕ) → view m' q ≡ (if e.client_id == q then none else view m q))
    → (q : ℕ) (sock : Option Peer) → lookup q es ≡ some sock
    → view m' q ≡ some sock
reads-rest m m' e es once reads removed q sock found =
    let rest = lookup_rest q e es (once q) in
    elim (Bool-cases (e.client_id == q)) [
      | inl eq ↦ let gone : lookup q es ≡ none = rest ∙ rw eq in absurd (cc)
      | inr ne ↦
          let same : lookup q es ≡ lookup q (e ∷ es) = rest ∙ rw ne in
          let kept : view m' q ≡ view m q = removed q ∙ rw ne in
          kept ∙ reads q sock (sym same ∙ found)
    ]

reads-all :
    (m : Map.Map Peer) (e : IterNode Peer) (es : List (IterNode Peer)) (q : ℕ)
    → (if is_some (lookup q es) then none else if e.client_id == q then none else view m q)
      ≡ (if is_some (lookup q (e ∷ es)) then none else view m q)
unfolding lookup
reads-all m e es q = elim (Bool-cases (e.client_id == q)) [
  | inl eq ↦ rw eq (elim (Bool-cases (is_some (lookup q es))) [ inl i ↦ rw i | inr i ↦ rw i ])
  | inr ne ↦ rw ne
]

pub close_all_lem :
    (closes : ℕ → Failure) {s : Server} (es : List (IterNode Peer))
    → IsValid s
    → s.next_client_id < 2 ^ 60
    → ((q : ℕ) → closes q ≡ none)
    → ((q : ℕ) → occurrences q es ≤ 1)
    → ((q : ℕ) (sock : Option Peer) → lookup q es ≡ some sock → view s.clients q ≡ some sock)
    → Returns (close_all closes s (map some es)) (Empties s es)
unfolding close_all
close_all_lem closes {s} [] v few fine once reads = (
  (s, [], true),
  refl,
  record { closes_all = refl; ends = refl; same = refl; reads = λ q. unfold lookup in refl },
)
close_all_lem closes {s} (e ∷ es) v few fine once reads =
    let found : view s.clients e.client_id ≡ some e.sock =
      reads e.client_id e.sock (lookup_self e es) in
    let ready = v.ready e.client_id e.sock found in
    let ((popped, m), run, (is_popped, r)) = pop_lem e.client_id v.map (omega (arith, v.counted)) in
    let d = Removes-Drops e.client_id v r in
    let (t, later, empties) =
      close_all_lem closes {s = record s { clients = m }} es d.keeps.valid few fine
        (λ q. omega (arith, once q, occurrences_rest q e es))
        (reads-rest s.clients m e es once reads r.reads) in
    let there : popped ≡ some ready.peer = is_popped ∙ rw (found, ready.is_set) in
    (
      (t.0, closing e.sock ++ t.1, t.2),
      simp (ready.is_set, fine e.client_id, run, there, ready.has_key, later),
      record {
        closes_all = ap (λ x. closing e.sock ++ x) empties.closes_all;
        ends = empties.ends;
        same = empties.same;
        reads = λ q. empties.reads q ∙ rw (r.reads q) (reads-all s.clients e es q);
      },
    )

closed_lem :
    (calls : StopCalls) (s : Server) (effects : List Effect) (finished : Bool) (thread : ℕ)
    → finished ≡ true
    → s.serve_thread ≡ some thread
    → calls.close_failure ≡ none
    → (if calls.self then calls.detach_code else calls.join_code) ≡ 0
    → closed calls (s, effects, finished) ≡ ok (s, effects ++ close s.sock ∷ [])
unfolding closed end_thread
closed_lem calls s effects finished thread all has closes ends = elim (Bool-cases calls.self) [
  | inl e ↦ let code : calls.detach_code ≡ 0 = rw e at ends in simp (all, has, closes, e, code)
  | inr e ↦ let code : calls.join_code ≡ 0 = rw e at ends in simp (all, has, closes, e, code)
]

erased : (found : Option (Option Peer)) → (if is_some found then none else found) ≡ none
erased none = refl
erased (some sock) = refl

-- A server that is serving and valid, with fewer than 2 ^ 60 IDs given and a serve thread, is
-- stopped when each `close` succeeds and the thread can be joined or detached: the call returns,
-- each client's socket is closed, once, and then the server's; no client is left, and the server is
-- not serving and is done. The list that it goes through has each client of the map and no other.
pub stop_lem :
    (calls : StopCalls) {s : Server} (thread : ℕ)
    → IsValid s
    → s.next_client_id < 2 ^ 60
    → s.serving ≡ true
    → s.serve_thread ≡ some thread
    → ((q : ℕ) → calls.closes q ≡ none)
    → calls.close_failure ≡ none
    → (if calls.self then calls.detach_code else calls.join_code) ≡ 0
    → Returns (stop calls s) λ r.
      (r.0.serving ≡ false)
      × (r.0.is_done ≡ true)
      × ((q : ℕ) → view r.0.clients q ≡ none)
      × ((es : List (IterNode Peer)) × (r.1 ≡ closings es ++ close s.sock ∷ [])
          × (length es ≡ s.clients.size)
          × ((q : ℕ) → occurrences q es ≤ 1)
          × ((q : ℕ) → lookup q es ≡ view s.clients q))
unfolding stop
stop_lem calls {s} thread v few on has fine closes ends =
    let s' : Server = record s { serving = false; is_done = true } in
    let v' : IsValid s' = record {
      map = v.map;
      counted = v.counted;
      fresh = v.fresh;
      ready = v.ready;
      apart = refl;
    } in
    let (es, run, size, once, same) = iter_lem v.map in
    let ((s'', effects, finished), closed_all, empties) =
      close_all_lem calls.closes {s = s'} es v' few fine once (λ q sock e. sym (same q) ∙ e) in
    (
      (s'', effects ++ close s.sock ∷ []),
      simp (on, run, closed_all)
          (closed_lem calls s'' effects finished thread empties.ends
              (ap Server.serve_thread empties.same ∙ has) closes ends
            ∙ ap (λ r. ok (s'', effects ++ close r.sock ∷ [])) empties.same),
      (
        ap Server.serving empties.same,
        ap Server.is_done empties.same,
        (λ q. empties.reads q ∙ rw (same q) (erased (view s.clients q))),
        (es, ap (λ x. x ++ close s.sock ∷ []) empties.closes_all, size, once, same),
      ),
    )
