-- ===== src/Server/Serve/Rounds.antt =====
-- Rounds of the loop of `_cdtp_server_serve`.
use cdtp.Common.{
  ℕ, ◌+◌, ◌^◌, ◌<◌, ◌≡◌, refl, sym, ◌∙◌, true, false, List, [], ◌∷◌, none, some, ok, Ensures,
  bind-Ensures, then-Ensures, if-Ensures, not, arith, map, All,
}
use cdtp.Map.{IterNode, iter}
use cdtp.Map.Iterate.{iter_lem, All-lookup}
use cdtp.Crypto.Evp.{Evp}
use cdtp.Server.{Peer, Server}
use cdtp.Server.Valid.{IsReady, IsValid, Keeps}
use cdtp.Server.Serve.{
  RoundCalls, PollCalls, refused, Turn, accept_client, poll_size, poll_all, after_turn, poll_round,
  serve_round, serve_loop,
}
use cdtp.Transport.{Errnos}
use cdtp.Server.Serve.Turns.{poll_all-Keeps}
use cdtp.Server.Serve.Accept.{Grows, Grows-refl, accept_client-Grows}

Grows-Keeps : {s s' s'' : Server} → Grows s s' → Keeps s' s'' → Grows s s''
Grows-Keeps g k = record {
  valid = k.valid;
  gone = λ q lt e. k.gone q (g.gone q lt e);
  grew = omega (arith, g.grew, k.next);
  next = omega (arith, g.next, k.next);
  serving = k.serving ∙ g.serving;
  is_done = k.is_done ∙ g.is_done;
}

module _ (errnos : Errnos) where
  -- Nothing has happened on a client's socket.
  pub record IsQuiet (calls : PollCalls) : Type 0 where
    pub nothing : calls.first.bytes ≡ none
    pub open_still : (errnos.gone calls.first.errno) ≡ false
    pub again : errnos.again calls.first.errno ≡ true

  -- A round in which no client connects and none sends.
  pub record IsIdle (calls : RoundCalls) : Type 0 where
    pub errno : ℕ
    pub refuses : calls.accept ≡ refused errno
    pub again : errnos.again errno ≡ true
    pub quiet : (q : ℕ) → IsQuiet (calls.polls q)

module _ {Ctx Pkey : Type 0} (evp : Evp Ctx Pkey) (errnos : Errnos) (self : ℕ) where
  poll_round-Grows :
      (polls : ℕ → PollCalls) (buffer : List ℕ) {s : Server} (t : Turn)
      → s.next_client_id + 1 < 2 ^ 60
      → Grows s t.0
      → Ensures (poll_round evp errnos self polls buffer t) (λ r. Grows s r.0.0)
  unfolding poll_round
  poll_round-Grows polls buffer (s', effects, false) few g = g
  poll_round-Grows polls buffer {s} (s', effects, true) few g =
      bind-Ensures (iter s'.clients) _ _ λ it.
        then-Ensures (poll_all evp errnos self polls s' buffer it.clients) _ (λ r. Keeps s' r.0.0)
          (λ r. Grows s r.0.0)
          (poll_all-Keeps evp errnos self polls buffer it.clients g.valid (omega (arith, g.next)))
          λ ((s'', later, goes_on), left) k. Grows-Keeps g k

  pub serve_round-Grows :
      (calls : RoundCalls) {s : Server} (buffer : List ℕ)
      → IsValid s
      → s.next_client_id + 1 < 2 ^ 60
      → Ensures (serve_round evp errnos self calls s buffer) (λ r. Grows s r.0.0)
  unfolding serve_round
  serve_round-Grows calls {s} buffer v few =
      if-Ensures (not s.serving) _ _ (λ r. Grows s r.0.0) (Grows-refl v)
        (then-Ensures (accept_client evp errnos self s calls.accept) _ (λ t. Grows s t.0)
          (λ r. Grows s r.0.0) (accept_client-Grows evp errnos self calls.accept v (omega arith))
          λ t g. poll_round-Grows calls.polls buffer t few g)

  pub poll_all-quiet :
      (polls : ℕ → PollCalls) (s : Server) (buffer : List ℕ) (clients : List (IterNode Peer))
      → ((q : ℕ) → IsQuiet errnos (polls q))
      → All (λ e. IsReady e.sock) clients
      → poll_all evp errnos self polls s buffer (map some clients) ≡ ok ((s, [], true), buffer)
  unfolding poll_all poll_size after_turn
  poll_all-quiet polls s buffer [] quiet ready = refl
  poll_all-quiet polls s buffer (e ∷ es) quiet (r, ready) =
      let c = quiet e.client_id in
      rw (r.is_set, c.nothing, c.open_still, c.again, poll_all-quiet polls s buffer es quiet ready)

  -- A valid server that is serving goes through any number of rounds in which no client connects and
  -- none has sent anything, without an end of its loop and without a change: each round returns, and
  -- nothing is done.
  pub serve_loop-idle :
      (rounds : List RoundCalls) {s : Server} (buffer : List ℕ)
      → IsValid s
      → s.serving ≡ true
      → All (IsIdle errnos) rounds
      → serve_loop evp errnos self rounds s buffer ≡ ok (s, [])
  unfolding serve_loop serve_round accept_client poll_round
  serve_loop-idle [] buffer v on idle = refl
  serve_loop-idle (calls ∷ rounds) {s} buffer v on (i, idle) =
      let (clients, run, _, once, reads) = iter_lem v.map in
      let ready =
        All-lookup (λ q sock. IsReady sock) clients once
          (λ q sock e. v.ready q sock (sym (reads q) ∙ e)) in
      simp (
        on,
        i.refuses,
        i.again,
        run,
        poll_all-quiet calls.polls s buffer clients i.quiet ready,
        serve_loop-idle rounds {s = s} buffer v on idle,
      )
