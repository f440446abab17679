-- ===== src/Server/Valid.antt =====
-- The invariant of the server, and what popping a client from its map does to it.
use cdtp.Common.{
  ℕ, ◌^◌, ◌≤◌, ◌<◌, ◌≡◌, refl, sym, ◌∙◌, false, ◌&&◌, ◌==◌, if◌then◌else◌, List, [], ◌∷◌, Option,
  none, some, ok, Returns, arith, Bool-cases, inl, inr,
}
use cdtp.Map
use cdtp.Map.{pop}
use cdtp.Map.Valid.{view, client_map-IsValid, client_map-view}
use cdtp.Map.Valid.{IsValid as IsValidMap}
use cdtp.Map.Methods.{or_null}
use cdtp.Map.Pop.{Removes, pop_lem}
use cdtp.Crypto.Aes.{AesKey}
use cdtp.Transport.{Effect, close, SockAddr}
use cdtp.Server.{Peer, Server, fresh_server, close_sock, disconnect_sock}

-- a pointer to a client whose key is set
pub record IsReady (sock : Option Peer) : Type 0 where
  pub peer : Peer
  pub key : AesKey
  pub is_set : sock ≡ some peer
  pub has_key : peer.key ≡ some key

-- `counted`: the map has no more clients than IDs have been given. `fresh`: an ID that has not been
-- given is no client's. `ready`: each client in the map has its object and its key. `apart`: the
-- server is not serving and done at once.
pub record IsValid (s : Server) : Type 0 where
  pub map : IsValidMap s.clients
  pub counted : s.clients.size ≤ s.next_client_id
  pub fresh : (q : ℕ) → s.next_client_id ≤ q → view s.clients q ≡ none
  pub ready : (q : ℕ) (sock : Option Peer) → view s.clients q ≡ some sock → IsReady sock
  pub apart : (s.serving && s.is_done) ≡ false

pub fresh_server-IsValid :
    (on_recv on_connect on_disconnect : Option ℕ) (on_recv_arg on_connect_arg on_disconnect_arg : ℕ)
    (junk : SockAddr)
    → IsValid (
        fresh_server on_recv on_connect on_disconnect on_recv_arg on_connect_arg on_disconnect_arg
          junk)
unfolding fresh_server
fresh_server-IsValid on_recv on_connect on_disconnect on_recv_arg on_connect_arg on_disconnect_arg
      junk =
    record {
      map = client_map-IsValid;
      counted = omega arith;
      fresh = λ q le. client_map-view q;
      ready = λ q sock e. absurd (cc (client_map-view {A = Peer} q));
      apart = refl;
    }

-- `s'` is a valid server with the state of `s` but for its clients, of which there is no new one
pub record Keeps (s s' : Server) : Type 0 where
  pub valid : IsValid s'
  pub gone : (q : ℕ) → view s.clients q ≡ none → view s'.clients q ≡ none
  pub next : s'.next_client_id ≡ s.next_client_id
  pub serving : s'.serving ≡ s.serving
  pub is_done : s'.is_done ≡ s.is_done

-- `s'` is `s` without the client
pub record Drops (s : Server) (id : ℕ) (s' : Server) : Type 0 where
  pub keeps : Keeps s s'
  pub reads : (q : ℕ) → view s'.clients q ≡ (if id == q then none else view s.clients q)

pub Keeps-refl : {s : Server} → IsValid s → Keeps s s
Keeps-refl v = record { valid = v; gone = λ q e. e; next = refl; serving = refl; is_done = refl }

pub Keeps-trans : {s s' s'' : Server} → Keeps s s' → Keeps s' s'' → Keeps s s''
Keeps-trans k l = record {
  valid = l.valid;
  gone = λ q e. l.gone q (k.gone q e);
  next = l.next ∙ k.next;
  serving = l.serving ∙ k.serving;
  is_done = l.is_done ∙ k.is_done;
}

pub Removes-Drops :
    {s : Server} (id : ℕ) {m : Map.Map Peer}
    → IsValid s
    → Removes s.clients id m
    → Drops s id (record s { clients = m })
Removes-Drops {s} id {m} v r = record {
  keeps = record {
    valid = record {
      map = r.valid;
      counted = omega (arith, r.size, v.counted);
      fresh = λ q le. r.reads q ∙ rw (v.fresh q le) (ground arith);
      ready = λ q sock e. elim (Bool-cases (id == q)) [
        | inl eq ↦ let gone : view m q ≡ none = r.reads q ∙ rw eq in absurd (cc)
        | inr ne ↦
            let same : view m q ≡ view s.clients q = r.reads q ∙ rw ne in
            v.ready q sock (sym same ∙ e)
      ];
      apart = v.apart;
    };
    gone = λ q e. r.reads q ∙ rw e (ground arith);
    next = refl;
    serving = refl;
    is_done = refl;
  };
  reads = r.reads;
}

-- what is closed for a socket that was popped
abbrev pub closing : Option Peer → List Effect
closing none = []
closing (some peer) = close peer.sock ∷ []

pub close_sock_lem :
    (found : Option (Option Peer))
    → ((sock : Option Peer) → found ≡ some sock → IsReady sock)
    → close_sock (or_null found) ≡ ok (closing (or_null found))
unfolding close_sock
close_sock_lem none ready = refl
close_sock_lem (some none) ready = refl
close_sock_lem (some (some peer)) ready =
    let r = ready (some peer) refl in
    let same : peer ≡ r.peer = cc (r.is_set) in rw (same, r.has_key)

-- `_cdtp_server_disconnect_sock` closes the client's socket and takes it out of the map.
pub disconnect_sock_lem :
    {s : Server} (id : ℕ)
    → IsValid s
    → s.next_client_id < 2 ^ 60
    → Returns (disconnect_sock s id) λ r.
      Drops s id r.0
      × (r.1 ≡ closing (or_null (view s.clients id)))
      × (r.0 ≡ record s { clients = r.0.clients })
unfolding disconnect_sock
disconnect_sock_lem {s} id v few =
    let ((client, m), run, (e, r)) = pop_lem id v.map (omega (arith, v.counted)) in
    (
      (record s { clients = m }, closing (or_null (view s.clients id))),
      rw (run, e, close_sock_lem (view s.clients id) (v.ready id)),
      (Removes-Drops id v r, refl, refl),
    )
