-- ===== src/Server/Races.antt =====
-- What the server of src/server.c does when another thread or the network comes between two steps that
-- its loop takes for one: a client that is removed while its message is read, and a message that comes
-- in two pieces.
use cdtp.Common.{
  ℕ, ◌^◌, ◌<◌, ◌≡◌, refl, sym, ◌∙◌, true, false, ◌==◌, List, [], ◌∷◌, ◌++◌, Option, some, none, ok,
  fault, bad_pointer, length, length-append, arith, map, All, Bool-cases, inl, inr, Returns,
}
use cdtp.Errors.{server_recv_failed}
use cdtp.Wire.Length.{length-encode}
use cdtp.Map.{IterNode}
use cdtp.Map.Valid.{view}
use cdtp.Map.Methods.{get_lem}
use cdtp.Map.Iterate.{lookup, iter_lem, All-lookup}
use cdtp.Crypto.Evp.{Evp}
use cdtp.Threading.{Spawn}
use cdtp.Transport.{Errnos, Failure, set_error, fill_buffer}
use cdtp.Transport.Frames.{frame_of, size_read, decode-filled, take-frame_of}
use cdtp.Server.{Peer, Server, call_on_recv}
use cdtp.Server.Valid.{IsReady, IsValid}
use cdtp.Server.Remove.{remove_client_lem}
use cdtp.Server.Messages.{remove_client}
use cdtp.Server.Arrive.{arrives, poll_size-call, poll_size-body}
use cdtp.Server.Serve.{
  PollCalls, RoundCalls, refused, poll_body, poll_size, poll_all, after_turn, poll_round,
  serve_round, serve_loop, accept_client,
}
use cdtp.Server.Serve.Rounds.{IsQuiet}

-- a client's turn in which the first piece of a message arrives, behind its whole size
abbrev pub arrives_first : ℕ → Spawn → List ℕ → List ℕ → PollCalls
arrives_first errno spawn piece rest = record {
  first = size_read errno (frame_of (piece ++ rest));
  second = record { bytes = some piece; errno = errno };
  spawn = spawn;
}

-- The turn of a client that ends the loop: a failure that the loop does not tell apart, or a message
-- in two pieces.
pub data Breaks (errnos : Errnos) (calls : PollCalls) : Type 0 where
  fails :
      calls.first.bytes ≡ none
      → errnos.gone calls.first.errno ≡ false
      → errnos.again calls.first.errno ≡ false
      → Breaks errnos calls
  in_pieces :
      (errno : ℕ) (spawn : Spawn) (piece rest : List ℕ)
      → calls ≡ arrives_first errno spawn piece rest
      → 0 < length piece
      → 0 < length rest
      → length (piece ++ rest) < 2 ^ 40
      → Breaks errnos calls

module _ {Ctx Pkey : Type 0} (evp : Evp Ctx Pkey) (errnos : Errnos) (self : ℕ) where
  call_on_recv-removed :
      (spawn : Spawn) (s : Server) (id func : ℕ) (bytes : List ℕ) (n : ℕ)
      → IsValid s
      → s.on_recv ≡ some func
      → view s.clients id ≡ none
      → call_on_recv evp self spawn s id bytes n ≡ fault bad_pointer
  unfolding call_on_recv
  call_on_recv-removed spawn s id func bytes n v registered gone =
      rw (call_on_recv, registered, get_lem id v.map, gone)

  -- On a valid server that is serving and has an on_recv function, with fewer than 2 ^ 60 IDs
  -- given, a call of `cdtp_server_remove_client` returns; and the turn of the same client, which a
  -- round of the loop that began before the call still has, then uses the NULL that the map has for
  -- the client, if a whole frame arrives in it, not empty and shorter than 2 ^ 40 bytes.
  pub removed-fault :
      (failure : Failure) {s : Server} (id func : ℕ) (spawn : Spawn) (errno : ℕ)
      (bytes buffer : List ℕ)
      → IsValid s
      → s.next_client_id < 2 ^ 60
      → s.serving ≡ true
      → s.on_recv ≡ some func
      → 0 < length bytes
      → length bytes < 2 ^ 40
      → Returns (remove_client failure s id) λ r.
        poll_size evp errnos self
          (arrives errno spawn (frame_of bytes))
          r.0
          id
          (fill_buffer (size_read errno (frame_of bytes)).bytes buffer)
          (size_read errno (frame_of bytes)).bytes
        ≡ fault bad_pointer
  removed-fault failure {s} id func spawn errno bytes buffer v few on registered some_bytes small =
      let (r, run, (d, same, _)) = remove_client_lem failure id v few on in
      let kept : r.0.on_recv ≡ some func = (λ i. (same i).on_recv) ∙ registered in
      let self_id : (id == id) ≡ true = ground arith in
      (
        r,
        run,
        poll_size-call evp self errnos r.0 id spawn errno buffer bytes some_bytes small
            ∙ rw
                (call_on_recv-removed spawn r.0 id func bytes (length bytes) d.keeps.valid kept
                  (d.reads id ∙ rw self_id))
                refl,
      )

  poll_body-piece :
      (calls : PollCalls) (s : Server) (id n : ℕ) (piece : List ℕ)
      → 0 < length piece
      → length piece < n
      → poll_body evp errnos self calls s id n (some piece)
        ≡ ok (s, set_error server_recv_failed calls.second.errno ∷ [], false)
  unfolding poll_body
  poll_body-piece calls s id n [] some_bytes short = absurd (omega arith)
  poll_body-piece calls s id n (b ∷ piece) some_bytes short =
      let part : (length (b ∷ piece) == n) ≡ false = ground arith in rw part

  -- the turn of a client of which the first piece of a message arrives
  poll_size-piece :
      (errno : ℕ) (spawn : Spawn) (s : Server) (id : ℕ) (piece rest buffer : List ℕ)
      → 0 < length piece
      → 0 < length rest
      → length (piece ++ rest) < 2 ^ 40
      → poll_size evp errnos self
          (arrives_first errno spawn piece rest)
          s
          id
          (fill_buffer (size_read errno (frame_of (piece ++ rest))).bytes buffer)
          (size_read errno (frame_of (piece ++ rest))).bytes
        ≡ ok (s, set_error server_recv_failed errno ∷ [], false)
  unfolding poll_size
  poll_size-piece errno spawn s id piece rest buffer some_bytes some_rest small =
      rw
        (
          take-frame_of (piece ++ rest),
          length-encode,
          poll_size-body evp self errnos s id (arrives_first errno spawn piece rest) (piece ++ rest)
              buffer,
          decode-filled (piece ++ rest) buffer small,
        )
        (poll_body-piece (arrives_first errno spawn piece rest) s id (length (piece ++ rest)) piece
          some_bytes (omega (arith, length-append piece rest)))

  poll_size-Breaks :
      (calls : PollCalls) (s : Server) (id : ℕ) (buffer : List ℕ)
      → Breaks errnos calls
      → poll_size evp errnos self calls s id
          (fill_buffer calls.first.bytes buffer)
          calls.first.bytes
        ≡ ok (s, set_error server_recv_failed calls.first.errno ∷ [], false)
  poll_size-Breaks calls s id buffer (fails none_read not_gone not_again) =
      unfold poll_size in rw (none_read, not_gone, not_again) refl
  poll_size-Breaks calls s id buffer
        (in_pieces errno spawn piece rest comes some_bytes some_rest small) =
      rw comes (poll_size-piece errno spawn s id piece rest buffer some_bytes some_rest small)

  -- the pass over the clients ends with that client's turn
  poll_all-Breaks :
      (polls : ℕ → PollCalls) (s : Server) (id : ℕ) (buffer : List ℕ)
      (clients : List (IterNode Peer)) (sock : Option Peer)
      → Breaks errnos (polls id)
      → ((q : ℕ) → (id == q) ≡ false → IsQuiet errnos (polls q))
      → All (λ e. IsReady e.sock) clients
      → lookup id clients ≡ some sock
      → (left : List ℕ) × (poll_all evp errnos self polls s buffer (map some clients)
          ≡ ok ((s, set_error server_recv_failed (polls id).first.errno ∷ [], false), left))
  unfolding poll_all after_turn lookup
  poll_all-Breaks polls s id buffer [] sock breaks quiet ready found = absurd (cc)
  poll_all-Breaks polls s id buffer (e ∷ es) sock breaks quiet (r, ready) found =
      elim (Bool-cases (e.client_id == id)) [
        | inl eq ↦
            let same : e.client_id ≡ id = ground arith in
            (
              fill_buffer (polls id).first.bytes buffer,
              simp (r.is_set, same, poll_size-Breaks (polls id) s id buffer breaks),
            )
        | inr ne ↦
            let ne' : (id == e.client_id) ≡ false = ground arith in
            let c = quiet e.client_id ne' in
            let (left, run) =
              poll_all-Breaks polls s id buffer es sock breaks quiet ready (rw ne at found) in
            (left, unfold poll_size in rw (r.is_set, c.nothing, c.open_still, c.again, run))
      ]

  -- One client can end the loop for all. On a valid server that is serving, in a round in which no
  -- client connects and all but one are quiet, that one's `read` for the size may fail with an
  -- error number that neither says that nothing has happened nor that the client is gone; or its
  -- message, shorter than 2 ^ 40 bytes, may come in two pieces, of which only the first, not empty,
  -- is there when it is read. Then, whatever rounds would follow, the loop returns with an error
  -- set, and the server is as it was, serving still.
  pub serve_loop-Breaks :
      (calls : RoundCalls) (rounds : List RoundCalls) {s : Server} (id accept_errno : ℕ)
      (buffer : List ℕ) (sock : Option Peer)
      → IsValid s
      → s.serving ≡ true
      → view s.clients id ≡ some sock
      → calls.accept ≡ refused accept_errno
      → errnos.again accept_errno ≡ true
      → Breaks errnos (calls.polls id)
      → ((q : ℕ) → (id == q) ≡ false → IsQuiet errnos (calls.polls q))
      → serve_loop evp errnos self (calls ∷ rounds) s buffer
        ≡ ok (s, set_error server_recv_failed (calls.polls id).first.errno ∷ [])
  unfolding serve_loop serve_round accept_client poll_round
  serve_loop-Breaks calls rounds {s} id accept_errno buffer sock v on has refuses again breaks
        quiet =
      let (clients, run, _, once, reads) = iter_lem v.map in
      let ready =
        All-lookup (λ q sock. IsReady sock) clients once
          (λ q sock e. v.ready q sock (sym (reads q) ∙ e)) in
      let (left, ran) =
        poll_all-Breaks calls.polls s id buffer clients sock breaks quiet ready (reads id ∙ has) in
      simp (on, refuses, again, run, ran)
