-- ===== src/Server/Follows.antt =====
-- The calls of src/server.c that change a server, and what may come after a valid one.
use Prim.Native.String.{String}
use cdtp.Common.{
  ℕ, ◌+◌, ◌^◌, ◌≤◌, ◌<◌, ◌≡◌, refl, ◌∙◌, Bool, true, false, not, ◌==◌, List, Option, none, some,
  Ensures, bind-Ensures, then-Ensures, weaken-Ensures, if-Ensures, arith, Bool-cases, Option-cases,
  inl, inr,
}
use cdtp.Map.{iter}
use cdtp.Map.Valid.{view}
use cdtp.Map.Pop.{pop_lem}
use cdtp.Transport.{Failure, Effect, SockAddr, fill_address}
use cdtp.Server.{Server}
use cdtp.Server.Valid.{IsValid, Keeps, Keeps-refl, Removes-Drops}
use cdtp.Server.Serve.Accept.{Grows}
use cdtp.Server.Control.{
  StartCalls, call_serve, bound, start, StopCalls, close_all, end_thread, closed, stop,
}
use cdtp.Server.Messages.{close_removed, remove_client}
use cdtp.Server.Stop.{close_all-Keeps}

-- `s'` is a valid server that may come after `s`: it has given one ID more at most and none twice,
-- and it is still done if `s` was.
pub record Follows (s s' : Server) : Type 0 where
  pub valid : IsValid s'
  pub gone : (q : ℕ) → q < s.next_client_id → view s.clients q ≡ none → view s'.clients q ≡ none
  pub grew : s.next_client_id ≤ s'.next_client_id
  pub next : s'.next_client_id ≤ s.next_client_id + 1
  pub done : s.is_done ≡ true → s'.is_done ≡ true

pub Keeps-Follows : {s s' : Server} → Keeps s s' → Follows s s'
Keeps-Follows k = record {
  valid = k.valid;
  gone = λ q lt e. k.gone q e;
  grew = omega (arith, k.next);
  next = omega (arith, k.next);
  done = λ e. k.is_done ∙ e;
}

pub Grows-Follows : {s s' : Server} → Grows s s' → Follows s s'
Grows-Follows g = record {
  valid = g.valid;
  gone = g.gone;
  grew = g.grew;
  next = g.next;
  done = λ e. g.is_done ∙ e;
}

-- the state that `cdtp_server_start` may leave
abbrev started : Server → Bool → SockAddr → Option ℕ → Server
started s serving address thread = record s {
  serving = serving;
  address = address;
  serve_thread = thread;
}

started-Follows :
    {s : Server} (serving : Bool) (address : SockAddr) (thread : Option ℕ)
    → IsValid s
    → s.is_done ≡ false
    → Follows s (started s serving address thread)
started-Follows serving address thread v e = record {
  valid = record {
    map = v.map;
    counted = v.counted;
    fresh = v.fresh;
    ready = v.ready;
    apart = ground arith;
  };
  gone = λ q lt e. e;
  grew = omega arith;
  next = omega arith;
  done = λ e. e;
}

bound-Follows :
    (calls : StartCalls) {s : Server} (address : Option SockAddr)
    → IsValid s
    → s.is_done ≡ false
    → Follows s (bound calls s address).0
unfolding bound call_serve
bound-Follows calls none v e = Keeps-Follows (Keeps-refl v)
bound-Follows calls {s} (some address) v e = elim (Option-cases calls.bind_failure) [
  | inr (errno, f) ↦ rw f (started-Follows s.serving address s.serve_thread v e)
  | inl f ↦ elim (Option-cases calls.listen_failure) [
    | inr (errno, g) ↦ rw (f, g) (started-Follows s.serving address s.serve_thread v e)
    | inl g ↦ elim (Bool-cases (calls.create_code == 0)) [
      | inl c ↦ rw (f, g, c) (started-Follows true address (some calls.thread) v e)
      | inr c ↦ rw (f, g, c) (started-Follows true address (some 0) v e)
    ]
  ]
]

pub start-Follows :
    (calls : StartCalls) (af_inet : ℕ) (host : String) (port : ℕ) {s : Server}
    → IsValid s
    → Follows s (start calls af_inet host port s).0
unfolding start
start-Follows calls af_inet host port {s} v = elim (Bool-cases s.is_done) [
  | inl e ↦ simp e (Keeps-Follows (Keeps-refl v))
  | inr e ↦ elim (Bool-cases s.serving) [
    | inl f ↦ simp (e, f) (Keeps-Follows (Keeps-refl v))
    | inr f ↦
        simp (e, f)
          (bound-Follows calls (fill_address calls.inet_pton af_inet host port s.address) v e)
  ]
]

-- the server as soon as `cdtp_server_stop` has set its flags
abbrev ended : Server → Server
ended s = record s { serving = false; is_done = true }

ended-Follows : {s s' : Server} → Keeps (ended s) s' → Follows s s'
ended-Follows k = record {
  valid = k.valid;
  gone = λ q lt e. k.gone q e;
  grew = omega (arith, k.next);
  next = omega (arith, k.next);
  done = λ e. k.is_done;
}

closed-same :
    (calls : StopCalls) (r : Server × List Effect × Bool)
    → Ensures (closed calls r) (λ t. t.0 ≡ r.0)
unfolding closed
closed-same calls (s, effects, false) = refl
closed-same calls (s, effects, true) =
    bind-Ensures (end_thread calls s calls.close_failure s.serve_thread) _ _ λ later. refl

pub stop-Follows :
    (calls : StopCalls) {s : Server}
    → IsValid s
    → s.next_client_id < 2 ^ 60
    → Ensures (stop calls s) (λ r. Follows s r.0)
unfolding stop
stop-Follows calls {s} v few = elim (Bool-cases s.serving) [
  | inr e ↦ simp e (Keeps-Follows (Keeps-refl v))
  | inl e ↦
      let v' : IsValid (ended s) = record {
        map = v.map;
        counted = v.counted;
        fresh = v.fresh;
        ready = v.ready;
        apart = refl;
      } in
      simp e (
        bind-Ensures (iter s.clients) _ _ λ it.
          then-Ensures (close_all calls.closes (ended s) it.clients) _ (λ r. Keeps (ended s) r.0)
            (λ r. Follows s r.0) (close_all-Keeps calls.closes {s = ended s} it.clients v' few)
            λ r k.
              weaken-Ensures (closed calls r) (λ t. t.0 ≡ r.0) (λ t. Follows s t.0)
                (closed-same calls r) λ t same. ended-Follows (rw same k))
]

pub remove_client-Follows :
    (failure : Failure) {s : Server} (id : ℕ)
    → IsValid s
    → s.next_client_id < 2 ^ 60
    → Ensures (remove_client failure s id) (λ r. Follows s r.0)
unfolding remove_client
remove_client-Follows failure {s} id v few =
    let ((client, m), run, (_, r)) = pop_lem id v.map (omega (arith, v.counted)) in
    if-Ensures (not s.serving) _ _ (λ r. Follows s r.0) (Keeps-Follows (Keeps-refl v))
      (rw run (
        bind-Ensures (close_removed failure client) _ _
          λ effects. Keeps-Follows (Removes-Drops id v r).keeps))
