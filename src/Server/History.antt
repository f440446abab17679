-- ===== src/Server/History.antt =====
-- The life of a server of src/server.c as a sequence of steps: the calls that change its state and
-- the rounds of its loop, whole or in parts, in any order. A step is a call, or a part of a round,
-- that returns; what other threads do comes between steps.
use Prim.Native.String.{String}
use cdtp.Common.{
  ℕ, ◌+◌, ◌^◌, ◌≤◌, ◌<◌, ◌≡◌, Bool, true, false, List, Option, none, ok, Ensures-ok, arith,
}
use cdtp.Map.Valid.{view}
use cdtp.Crypto.Evp.{Evp}
use cdtp.Transport.{Failure, Effect, SockAddr, Errnos}
use cdtp.Server.{Server, fresh_server}
use cdtp.Server.Valid.{IsValid, fresh_server-IsValid, Keeps}
use cdtp.Server.Serve.{RoundCalls, serve_round, PollCalls, Accepted, accept_client, poll_size}
use cdtp.Server.Serve.Accept.{Grows, accept_client-Grows}
use cdtp.Server.Serve.Rounds.{serve_round-Grows}
use cdtp.Server.Control.{StartCalls, start, StopCalls, stop}
use cdtp.Server.Messages.{remove_client}
use cdtp.Server.Serve.Turns.{poll_size-Keeps}
use cdtp.Server.Follows.{
  Keeps-Follows, Follows, Grows-Follows, start-Follows, stop-Follows, remove_client-Follows,
}

module _ {Ctx Pkey : Type 0} (evp : Evp Ctx Pkey) (errnos : Errnos) (self : ℕ) where
  -- One call that returns: a round of the loop, which a server that is not serving does not begin; a
  -- part of a round, the handling of what `accept` gave or the turn of a client, which other calls may
  -- separate from the rest of its round, with any ID, also of a client that has left since the round
  -- began, and any buffer; or one of the functions that change the server.
  pub data Step (s : Server) : Server → Type 0 where
    round :
        (calls : RoundCalls) (buffer left : List ℕ) (s' : Server) (effects : List Effect)
        (goes_on : Bool)
        → s.serving ≡ true
        → serve_round evp errnos self calls s buffer ≡ ok ((s', effects, goes_on), left)
        → Step s s'
    accepts :
        (a : Accepted) (s' : Server) (effects : List Effect) (goes_on : Bool)
        → accept_client evp errnos self s a ≡ ok (s', effects, goes_on)
        → Step s s'
    polls :
        (calls : PollCalls) (id : ℕ) (buffer : List ℕ) (first : Option (List ℕ)) (s' : Server)
        (effects : List Effect) (goes_on : Bool)
        → poll_size evp errnos self calls s id buffer first ≡ ok (s', effects, goes_on)
        → Step s s'
    starts :
        (calls : StartCalls) (af_inet : ℕ) (host : String) (port : ℕ)
        → Step s (start calls af_inet host port s).0
    stops :
        (calls : StopCalls) (s' : Server) (effects : List Effect)
        → stop calls s ≡ ok (s', effects)
        → Step s s'
    removes :
        (failure : Failure) (id : ℕ) (s' : Server) (effects : List Effect)
        → remove_client failure s id ≡ ok (s', effects)
        → Step s s'

  -- `s'` comes after `s` in a number of steps.
  pub data Reaches (s : Server) : ℕ → Server → Type 0 where
    here : Reaches s 0 s
    later : {n : ℕ} {s' s'' : Server} → Reaches s n s' → Step s' s'' → Reaches s (n + 1) s''

  Step-Follows :
      {s s' : Server} → IsValid s → s.next_client_id + 1 < 2 ^ 60 → Step s s' → Follows s s'
  Step-Follows v few (round calls buffer left s' effects goes_on on run) =
      Grows-Follows (
        Ensures-ok _ (λ r. Grows _ r.0.0) (serve_round-Grows evp errnos self calls buffer v few)
          run)
  Step-Follows v few (accepts a s' effects goes_on run) =
      Grows-Follows (
        Ensures-ok _ (λ t. Grows _ t.0) (accept_client-Grows evp errnos self a v (omega arith)) run)
  Step-Follows v few (polls calls id buffer first s' effects goes_on run) = Keeps-Follows (
      Ensures-ok _ (λ t. Keeps _ t.0)
        (poll_size-Keeps evp errnos self calls id buffer first v (omega arith)) run)
  Step-Follows v few (starts calls af_inet host port) = start-Follows calls af_inet host port v
  Step-Follows v few (stops calls s' effects run) =
      Ensures-ok _ (λ r. Follows _ r.0) (stop-Follows calls v (omega arith)) run
  Step-Follows v few (removes failure id s' effects run) =
      Ensures-ok _ (λ r. Follows _ r.0) (remove_client-Follows failure id v (omega arith)) run

  -- what holds of a server after `n` steps
  record Lasts (s : Server) (n : ℕ) (s' : Server) : Type 0 where
    valid : IsValid s'
    gone : (q : ℕ) → q < s.next_client_id → view s.clients q ≡ none → view s'.clients q ≡ none
    grew : s.next_client_id ≤ s'.next_client_id
    next : s'.next_client_id ≤ s.next_client_id + n
    done : s.is_done ≡ true → s'.is_done ≡ true

  Reaches-Lasts :
      {s : Server} {n : ℕ} {s' : Server}
      → IsValid s
      → s.next_client_id + n < 2 ^ 60
      → Reaches s n s'
      → Lasts s n s'
  Reaches-Lasts v few here = record {
    valid = v;
    gone = λ q lt e. e;
    grew = omega arith;
    next = omega arith;
    done = λ e. e;
  }
  Reaches-Lasts v few (later steps step) =
      let l = Reaches-Lasts v (omega arith) steps in
      let f = Step-Follows l.valid (omega (arith, l.next)) step in
      record {
        valid = f.valid;
        gone = λ q lt e. f.gone q (omega (arith, l.grew)) (l.gone q lt e);
        grew = omega (arith, l.grew, f.grew);
        next = omega (arith, l.next, f.next);
        done = λ e. f.done (l.done e);
      }

  -- A server that starts from that of `cdtp_server` and takes at most 2 ^ 60 - 1 steps, each of which
  -- is a call of `cdtp_server_start`, `cdtp_server_stop` or `cdtp_server_remove_client`, a round of
  -- the loop, or what a round does with one result of `accept` or with one client, in any order, is
  -- valid: its map is, every client in it has an ID that has been given,
  -- its object and its key, and the server is never serving and done at once.
  pub Reaches-IsValid :
      (on_recv on_connect on_disconnect : Option ℕ)
      (on_recv_arg on_connect_arg on_disconnect_arg : ℕ) (junk : SockAddr) (fd : Option ℕ) {n : ℕ}
      {s : Server}
      → n < 2 ^ 60
      → Reaches
          (record (fresh_server on_recv on_connect on_disconnect on_recv_arg on_connect_arg
            on_disconnect_arg junk) { sock = fd })
          n
          s
      → IsValid s × (s.next_client_id ≤ n)
  Reaches-IsValid on_recv on_connect on_disconnect on_recv_arg on_connect_arg on_disconnect_arg junk
        fd {n} {s} few steps =
      let blank =
        fresh_server on_recv on_connect on_disconnect on_recv_arg on_connect_arg on_disconnect_arg
          junk in
      let v =
        fresh_server-IsValid on_recv on_connect on_disconnect on_recv_arg on_connect_arg
          on_disconnect_arg junk in
      let with_sock : IsValid (record blank { sock = fd }) = record {
        map = v.map;
        counted = v.counted;
        fresh = v.fresh;
        ready = v.ready;
        apart = v.apart;
      } in
      let l = Reaches-Lasts {n = n} {s' = s} with_sock (unfold fresh_server in omega arith) steps in
      (l.valid, unfold fresh_server in omega (arith, l.next))

  -- A valid server never gives an ID again: one that has been given and is no client's stays so,
  -- whatever steps follow, as long as fewer than 2 ^ 60 IDs can have been given.
  pub Reaches-gone :
      {s : Server} {n : ℕ} {s' : Server} (q : ℕ)
      → IsValid s
      → s.next_client_id + n < 2 ^ 60
      → Reaches s n s'
      → q < s.next_client_id
      → view s.clients q ≡ none
      → view s'.clients q ≡ none
  Reaches-gone q v few steps lt e = (Reaches-Lasts v few steps).gone q lt e

  -- A server that is done stays done and is never serving again, whatever steps follow, as long as
  -- it is valid and fewer than 2 ^ 60 IDs can have been given.
  pub Reaches-is_done :
      {s : Server} {n : ℕ} {s' : Server}
      → IsValid s
      → s.next_client_id + n < 2 ^ 60
      → Reaches s n s'
      → s.is_done ≡ true
      → (s'.is_done ≡ true) × (s'.serving ≡ false)
  Reaches-is_done v few steps e =
      let l = Reaches-Lasts v few steps in
      let done = l.done e in (done, ground (arith, l.valid.apart))
