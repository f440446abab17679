-- ===== src/Server/Serve/Accept.antt =====
-- The call of `accept` in a round of `_cdtp_server_serve`: how a client gets into the map.
use cdtp.Common.{
  ℕ, ◌+◌, ◌%◌, ◌^◌, ◌≤◌, ◌<◌, ◌≡◌, refl, sym, ◌∙◌, true, false, not, ◌||◌, ◌==◌, if◌then◌else◌,
  List, ◌++◌, Option, none, some, ok, Returns, Ensures, bind-Ensures, arith, Bool-cases,
  Option-cases, inl, inr,
}
use cdtp.Map
use cdtp.Map.{size_mod, set_client}
use cdtp.Map.Valid.{view}
use cdtp.Map.Methods.{Adds, set_client-absent}
use cdtp.Crypto.Evp.{Evp}
use cdtp.Crypto.Aes.{AesKey}
use cdtp.Transport.{Effect, SockAddr, Errnos}
use cdtp.Server.{Peer, Server, call_on_connect, exchange_keys_server}
use cdtp.Server.Valid.{IsValid}
use cdtp.Server.Serve.{AcceptCalls, Accepted, refused, accepted, admit, accept_client}

-- `s'` is a valid server that has given one ID more than `s` at most, and no ID twice
pub record Grows (s s' : Server) : Type 0 where
  pub valid : IsValid s'
  pub gone : (q : ℕ) → q < s.next_client_id → view s.clients q ≡ none → view s'.clients q ≡ none
  pub grew : s.next_client_id ≤ s'.next_client_id
  pub next : s'.next_client_id ≤ s.next_client_id + 1
  pub serving : s'.serving ≡ s.serving
  pub is_done : s'.is_done ≡ s.is_done

-- the server after it has given an ID
abbrev pub numbered : Server → Server
numbered s = record s { next_client_id = (s.next_client_id + 1) % size_mod }

pub Grows-refl : {s : Server} → IsValid s → Grows s s
Grows-refl v = record {
  valid = v;
  gone = λ q lt e. e;
  grew = omega arith;
  next = omega arith;
  serving = refl;
  is_done = refl;
}

numbered-Grows : {s : Server} → IsValid s → s.next_client_id < 2 ^ 60 → Grows s (numbered s)
numbered-Grows {s} v few = record {
  valid = record {
    map = v.map;
    counted = omega (arith, v.counted);
    fresh = λ q le. v.fresh q (omega arith);
    ready = v.ready;
    apart = v.apart;
  };
  gone = λ q lt e. e;
  grew = omega arith;
  next = omega arith;
  serving = refl;
  is_done = refl;
}

-- `s'` is `s` with one more client, who has the next ID
pub record Admits (s : Server) (peer : Peer) (s' : Server) : Type 0 where
  pub grows : Grows s s'
  pub next : s'.next_client_id ≡ s.next_client_id + 1
  pub same : s' ≡ record s { clients = s'.clients; next_client_id = s'.next_client_id }
  pub reads :
      (q : ℕ)
      → view s'.clients q ≡ (if s.next_client_id == q then some (some peer) else view s.clients q)

Adds-Admits :
    {s : Server} (peer : Peer) (key : AesKey) {m : Map.Map Peer}
    → IsValid s
    → s.next_client_id < 2 ^ 60
    → peer.key ≡ some key
    → Adds s.clients s.next_client_id (some peer) m
    → Admits s peer (record (numbered s) { clients = m })
Adds-Admits {s} peer key {m} v few has a = record {
  grows = record {
    valid = record {
      map = a.valid;
      counted = omega (arith, a.size, v.counted);
      fresh = λ q le.
          let other : (s.next_client_id == q) ≡ false = ground (arith) in
          a.reads q ∙ rw other (v.fresh q (omega arith));
      ready = λ q sock e. elim (Bool-cases (s.next_client_id == q)) [
        | inl eq ↦
            let this : view m q ≡ some (some peer) = a.reads q ∙ rw eq in
            record { peer = peer; key = key; is_set = cc; has_key = has }
        | inr ne ↦
            let same : view m q ≡ view s.clients q = a.reads q ∙ rw ne in
            v.ready q sock (sym same ∙ e)
      ];
      apart = v.apart;
    };
    gone = λ q lt e.
        let other : (s.next_client_id == q) ≡ false = ground arith in a.reads q ∙ rw other e;
    grew = omega arith;
    next = omega arith;
    serving = refl;
    is_done = refl;
  };
  next = omega arith;
  same = refl;
  reads = a.reads;
}

module _ {Ctx Pkey : Type 0} (evp : Evp Ctx Pkey) (errnos : Errnos) (self : ℕ) where
  admit-adds :
      (calls : AcceptCalls) {s : Server} (fd : ℕ) (address : SockAddr) (key : AesKey)
      (effects : List Effect)
      → IsValid s
      → s.next_client_id < 2 ^ 60
      → calls.nonblocking_failure ≡ none
      → Returns
          (admit evp errnos self calls (numbered s) s.next_client_id fd address (some key, effects))
          λ t.
            Admits s (record { sock = some fd; address = address; key = some key }) t.0
            × (t.1 ≡ effects ++ call_on_connect self calls.spawn s s.next_client_id)
            × (t.2 ≡ true)
  unfolding admit
  admit-adds calls {s} fd address key effects v few unblocked =
      let peer : Peer = record { sock = some fd; address = address; key = some key } in
      let ((added, m), run, (_, a)) =
        set_client-absent s.next_client_id (some peer) v.map (omega (arith, v.counted))
          (v.fresh s.next_client_id (omega arith)) in
      (
        (
          record (numbered s) { clients = m },
          effects
              ++ call_on_connect self calls.spawn (record (numbered s) { clients = m })
                  s.next_client_id,
          true,
        ),
        rw (unblocked, run),
        (Adds-Admits peer key v few refl a, unfold call_on_connect in refl, refl),
      )

  admit-Grows :
      (calls : AcceptCalls) {s : Server} (fd : ℕ) (address : SockAddr)
      (r : Option AesKey × List Effect)
      → IsValid s
      → s.next_client_id < 2 ^ 60
      → Ensures
          (admit evp errnos self calls (numbered s) s.next_client_id fd address r)
          (λ t. Grows s t.0)
  unfolding admit
  admit-Grows calls fd address (none, effects) v few = numbered-Grows v few
  admit-Grows calls {s} fd address (some key, effects) v few =
      elim (Option-cases calls.nonblocking_failure) [
        | inl e ↦
            let (t, run, (a, _, _)) = admit-adds calls fd address key effects v few e in
            rw run a.grows
        | inr (errno, e) ↦ rw e (numbered-Grows v few)
      ]

  pub accept_client-Grows :
      {s : Server} (a : Accepted)
      → IsValid s
      → s.next_client_id < 2 ^ 60
      → Ensures (accept_client evp errnos self s a) (λ t. Grows s t.0)
  unfolding accept_client
  accept_client-Grows {s} (refused errno) v few = elim (Bool-cases (errnos.again errno)) [
    | inl e ↦ rw e (Grows-refl v)
    | inr e ↦ elim (Bool-cases (not (errno == errnos.not_socket) || s.serving)) [
      | inl f ↦ rw (e, f) (Grows-refl v)
      | inr f ↦ rw (e, f) (Grows-refl v)
    ]
  ]
  accept_client-Grows {s} (accepted fd address calls) v few =
      elim (Option-cases calls.blocking_failure) [
        | inl e ↦ rw e (
            bind-Ensures (exchange_keys_server evp calls.exchange (some fd)) _ _
              λ r. admit-Grows calls fd address r v few)
        | inr (errno, e) ↦ rw e (numbered-Grows v few)
      ]

  -- When an accepted client's key exchange gives a key, and both calls of `fcntl` succeed, a valid
  -- server with fewer than 2 ^ 60 IDs given has one more client, with the next ID, the descriptor,
  -- the address and that key; all others are kept, the server stays valid, `on_connect` is started
  -- for the ID if it is registered, and the loop goes on.
  pub accept_client-Admits :
      {s : Server} (fd : ℕ) (address : SockAddr) (calls : AcceptCalls) (key : AesKey)
      (effects : List Effect)
      → IsValid s
      → s.next_client_id < 2 ^ 60
      → calls.blocking_failure ≡ none
      → exchange_keys_server evp calls.exchange (some fd) ≡ ok (some key, effects)
      → calls.nonblocking_failure ≡ none
      → Returns (accept_client evp errnos self s (accepted fd address calls)) λ t.
        Admits s (record { sock = some fd; address = address; key = some key }) t.0
        × (t.1 ≡ effects ++ call_on_connect self calls.spawn s s.next_client_id)
        × (t.2 ≡ true)
  unfolding accept_client
  accept_client-Admits {s} fd address calls key effects v few blocked exchanged unblocked =
      let (t, run, a) = admit-adds calls fd address key effects v few unblocked in
      (t, simp (blocked, exchanged) run, a)
