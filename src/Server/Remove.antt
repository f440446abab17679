-- ===== src/Server/Remove.antt =====
-- `cdtp_server_remove_client` of src/server.c on a valid server.
use cdtp.Common.{
  ℕ, ◌^◌, ◌<◌, ◌≡◌, refl, true, List, [], ◌∷◌, Option, none, some, ok, Returns, arith,
}
use cdtp.Errors.{client_does_not_exist, client_remove_failed}
use cdtp.Map.Valid.{view}
use cdtp.Map.Pop.{pop_lem}
use cdtp.Map.Methods.{or_null}
use cdtp.Transport.{Failure, Effect, set_error, close}
use cdtp.Server.{Peer, Server}
use cdtp.Server.Valid.{IsReady, IsValid, Drops, Removes-Drops}
use cdtp.Server.Messages.{close_removed, remove_client}

-- what is done for the socket that the map had
abbrev pub removal : Failure → Option (Option Peer) → List Effect
removal failure none = set_error client_does_not_exist 0 ∷ []
removal failure (some none) = []
removal none (some (some peer)) = close peer.sock ∷ []
removal (some errno) (some (some peer)) =
    close peer.sock ∷ set_error client_remove_failed errno ∷ []

close_removed_lem :
    (failure : Failure) (found : Option (Option Peer))
    → ((sock : Option Peer) → found ≡ some sock → IsReady sock)
    → close_removed failure (or_null found) ≡ ok (removal failure found)
unfolding close_removed
close_removed_lem none none ready = refl
close_removed_lem (some errno) none ready = refl
close_removed_lem failure (some none) ready = let r = ready none refl in absurd (cc (r.is_set))
close_removed_lem none (some (some peer)) ready =
    let r = ready (some peer) refl in
    let same : peer ≡ r.peer = cc (r.is_set) in rw (same, r.has_key)
close_removed_lem (some errno) (some (some peer)) ready = refl

-- On a valid server that is serving, with fewer than 2 ^ 60 IDs given, the call returns, and leaves
-- the server without the client and otherwise as it was. If the map has the client, its socket is
-- closed; if that fails, an error is set, but the client is gone all the same. If the map does not
-- have the client, an error is set.
pub remove_client_lem :
    (failure : Failure) {s : Server} (id : ℕ)
    → IsValid s
    → s.next_client_id < 2 ^ 60
    → s.serving ≡ true
    → Returns (remove_client failure s id) λ r.
      Drops s id r.0
      × (r.0 ≡ record s { clients = r.0.clients })
      × (r.1 ≡ removal failure (view s.clients id))
unfolding remove_client
remove_client_lem failure {s} id v few on =
    let ((client, m), run, (popped, r)) = pop_lem id v.map (omega (arith, v.counted)) in
    (
      (record s { clients = m }, removal failure (view s.clients id)),
      simp (on, run, popped, close_removed_lem failure (view s.clients id) (v.ready id)),
      (Removes-Drops id v r, refl, refl),
    )
