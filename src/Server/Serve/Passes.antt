-- ===== src/Server/Serve/Passes.antt =====
-- The pass of `_cdtp_server_serve` over its clients: that it comes to its end.
use cdtp.Common.{
  ℕ, ◌^◌, ◌≤◌, ◌<◌, ◌≡◌, refl, sym, ◌∙◌, true, false, ◌==◌, List, [], ◌∷◌, ◌++◌, Option, none, some,
  Run, ok, Returns, arith, Bool-cases, Option-cases, inl, inr, length, map, ==_iff,
}
use cdtp.Map.{IterNode}
use cdtp.Map.Valid.{view}
use cdtp.Map.Methods.{get_lem}
use cdtp.Map.Iterate.{occurrences, occurrences_rest, lookup, lookup_self, lookup_rest, iter_lem}
use cdtp.Crypto.{CryptoData, data_unwrap}
use cdtp.Crypto.Attempt.{done}
use cdtp.Crypto.Evp.{Evp}
use cdtp.Crypto.Aes.{AesKey, aes_decrypt}
use cdtp.Threading.{Spawn, start_thread_on_recv_server}
use cdtp.Errors.{server_recv_failed}
use cdtp.Transport.{Effect, set_error, event, fill_buffer, Errnos}
use cdtp.Server.{Peer, Server, call_on_recv}
use cdtp.Server.Valid.{IsValid}
use cdtp.Server.Serve.{PollCalls, Turn, poll_body, poll_size, poll_all, after_turn, poll_round}
use cdtp.Server.Serve.Spares.{
  Shrinks, Shrinks-refl, Shrinks-trans, Spares, stays, drops, decode_returns, length-fill_buffer,
}

module _ {Ctx Pkey : Type 0} (evp : Evp Ctx Pkey) where
  -- If a client's second `read` gives bytes, then they decrypt under the client's key.
  abbrev pub IsSound : Option Peer → PollCalls → Type 0
  IsSound sock calls =
      (b : ℕ) (bytes : List ℕ) (peer : Peer) (key : AesKey)
      → calls.second.bytes ≡ some (b ∷ bytes)
      → sock ≡ some peer
      → peer.key ≡ some key
      → (plain : CryptoData) × (aes_decrypt evp key (b ∷ bytes) (length (b ∷ bytes)) ≡ done plain)

  module _ (errnos : Errnos) (self : ℕ) where
    call_on_recv-returns :
        (spawn : Spawn) {s : Server} (id : ℕ) (peer : Peer) (key : AesKey) (bytes : List ℕ)
        (plain : CryptoData)
        → IsValid s
        → view s.clients id ≡ some (some peer)
        → peer.key ≡ some key
        → aes_decrypt evp key bytes (length bytes) ≡ done plain
        → (effects : List Effect) × (call_on_recv evp self spawn s id bytes (length bytes)
            ≡ ok effects)
    unfolding call_on_recv
    call_on_recv-returns spawn {s} id peer key bytes plain v has has_key ran =
        elim (Option-cases s.on_recv) [
          | inl e ↦ ([], rw (call_on_recv, e))
          | inr (func, e) ↦ (
            event (data_unwrap plain) (
                  start_thread_on_recv_server spawn.return_code spawn.junk func self id
                    spawn.pointer plain.data_size s.on_recv_arg)
                ∷ [],
            rw (call_on_recv, e, get_lem id v.map, has, has_key, ran),
          )
        ]

    poll_body-returns :
        (calls : PollCalls) {s : Server} (id : ℕ) (msg_size : ℕ) (second : Option (List ℕ))
        (sock : Option Peer)
        → IsValid s
        → s.next_client_id < 2 ^ 60
        → view s.clients id ≡ some sock
        → calls.second.bytes ≡ second
        → IsSound sock calls
        → Returns (poll_body evp errnos self calls s id msg_size second) (λ t. Spares s id t.0)
    unfolding poll_body
    poll_body-returns calls {s} id msg_size none sock v few has same sound =
        elim (Bool-cases (errnos.gone calls.second.errno)) [
          | inl e ↦ rw e (drops self calls.spawn id v few)
          | inr e ↦
              ((s, set_error server_recv_failed calls.second.errno ∷ [], false), rw e, stays id v)
        ]
    poll_body-returns calls id msg_size (some []) sock v few has same sound =
        drops self calls.spawn id v few
    poll_body-returns calls {s} id msg_size (some (b ∷ bytes)) sock v few has same sound =
        elim (Bool-cases (length (b ∷ bytes) == msg_size)) [
          | inr e ↦
              ((s, set_error server_recv_failed calls.second.errno ∷ [], false), rw e, stays id v)
          | inl e ↦
              let r = v.ready id sock has in
              let (plain, ran) = sound b bytes r.peer r.key same r.is_set r.has_key in
              let (effects, run) =
                call_on_recv-returns calls.spawn id r.peer r.key (b ∷ bytes) plain v
                  (has ∙ rw r.is_set) r.has_key ran in
              (
                (s, effects, true),
                rw (e, ← (==_iff (length (b ∷ bytes)) msg_size).0 e, run),
                stays id v,
              )
        ]

    poll_size-returns :
        (calls : PollCalls) {s : Server} (id : ℕ) (buffer : List ℕ) (first : Option (List ℕ))
        (sock : Option Peer)
        → IsValid s
        → s.next_client_id < 2 ^ 60
        → view s.clients id ≡ some sock
        → IsSound sock calls
        → 5 ≤ length buffer
        → Returns (poll_size evp errnos self calls s id buffer first) (λ t. Spares s id t.0)
    unfolding poll_size
    poll_size-returns calls {s} id buffer none sock v few has sound wide =
        elim (Bool-cases (errnos.gone calls.first.errno)) [
          | inl e ↦ rw e (drops self calls.spawn id v few)
          | inr e ↦ elim (Bool-cases (errnos.again calls.first.errno)) [
            | inl a ↦ ((s, [], true), rw (e, a), stays id v)
            | inr a ↦ (
              (s, set_error server_recv_failed calls.first.errno ∷ [], false),
              rw (e, a),
              stays id v,
            )
          ]
        ]
    poll_size-returns calls id buffer (some []) sock v few has sound wide =
        drops self calls.spawn id v few
    poll_size-returns calls id buffer (some (b ∷ bytes)) sock v few has sound wide =
        let (n, decoded) = decode_returns buffer wide in
        let (t, run, p) =
          poll_body-returns calls id n calls.second.bytes sock v few has refl sound in
        (t, rw decoded run, p)

    -- the clients of a list are in the server, and their messages decrypt
    abbrev AreSound : (ℕ → PollCalls) → Server → List (IterNode Peer) → Type 0
    AreSound polls s es =
        (q : ℕ) (sock : Option Peer)
        → lookup q es ≡ some sock
        → (view s.clients q ≡ some sock) × IsSound sock (polls q)

    AreSound-rest :
        (polls : ℕ → PollCalls) {s s' : Server} (e : IterNode Peer) (es : List (IterNode Peer))
        → ((q : ℕ) → occurrences q (e ∷ es) ≤ 1)
        → Spares s e.client_id s'
        → AreSound polls s (e ∷ es)
        → AreSound polls s' es
    AreSound-rest polls e es once spares sound q sock found =
        let rest = lookup_rest q e es (once q) in
        elim (Bool-cases (e.client_id == q)) [
          | inl eq ↦ let gone : lookup q es ≡ none = rest ∙ rw eq in absurd (cc)
          | inr ne ↦
              let same : lookup q es ≡ lookup q (e ∷ es) = rest ∙ rw ne in
              let (has, fine) = sound q sock (sym same ∙ found) in (spares.others q ne ∙ has, fine)
        ]

    after_turn-returns :
        {s : Server} (t : Turn) (filled : List ℕ) (rest : Run (Turn × List ℕ))
        → Shrinks s t.0
        → 5 ≤ length filled
        → Returns rest (λ r. Shrinks t.0 r.0.0 × (5 ≤ length r.1))
        → Returns (after_turn t filled rest) (λ r. Shrinks s r.0.0 × (5 ≤ length r.1))
    unfolding after_turn
    after_turn-returns (s', effects, false) filled rest k wide later =
        (((s', effects, false), filled), refl, (k, wide))
    after_turn-returns (s', effects, true) filled rest k wide
          (((s'', more, goes_on), left), run, (l, wide')) =
        (((s'', effects ++ more, goes_on), left), rw run, (Shrinks-trans k l, wide'))

    poll_all-returns :
        (polls : ℕ → PollCalls) {s : Server} (buffer : List ℕ) (es : List (IterNode Peer))
        → IsValid s
        → s.next_client_id < 2 ^ 60
        → 5 ≤ length buffer
        → ((q : ℕ) → occurrences q es ≤ 1)
        → AreSound polls s es
        → Returns
            (poll_all evp errnos self polls s buffer (map some es))
            (λ r. Shrinks s r.0.0 × (5 ≤ length r.1))
    unfolding poll_all
    poll_all-returns polls {s} buffer [] v few wide once sound =
        (((s, [], true), buffer), refl, (Shrinks-refl v, wide))
    poll_all-returns polls {s} buffer (e ∷ es) v few wide once sound =
        let calls = polls e.client_id in
        let filled = fill_buffer calls.first.bytes buffer in
        let wide' : 5 ≤ length filled =
          omega (arith, length-fill_buffer calls.first.bytes buffer) in
        let (has, fine) = sound e.client_id e.sock (lookup_self e es) in
        let ready = v.ready e.client_id e.sock has in
        let (t, run, p) =
          poll_size-returns calls e.client_id filled calls.first.bytes e.sock v few has fine
            wide' in
        let rest =
          poll_all-returns polls {s = t.0} filled es p.shrinks.keeps.valid
            (omega (arith, p.shrinks.keeps.next)) wide'
            (λ q. omega (arith, once q, occurrences_rest q e es))
            (AreSound-rest polls e es once p sound) in
        let (r, ran, k) = after_turn-returns t filled _ p.shrinks wide' rest in
        (r, simp (ready.is_set, run) ran, k)

    -- A valid server with fewer than 2 ^ 60 IDs given comes to the end of a pass over its clients,
    -- whatever the calls of `read` give, errors and the end of a stream included, as long as the bytes
    -- that the second call gives for a client decrypt under that client's key: the pass returns, and
    -- leaves a valid server with no client that was not there. The buffer for sizes has at least five
    -- bytes, before and after.
    pub poll_round-returns :
        (polls : ℕ → PollCalls) {s : Server} (buffer : List ℕ) (effects : List Effect)
        → IsValid s
        → s.next_client_id < 2 ^ 60
        → 5 ≤ length buffer
        → ((q : ℕ) (sock : Option Peer) → view s.clients q ≡ some sock → IsSound sock (polls q))
        → Returns
            (poll_round evp errnos self polls buffer (s, effects, true))
            (λ r. Shrinks s r.0.0 × (5 ≤ length r.1))
    unfolding poll_round
    poll_round-returns polls {s} buffer effects v few wide sound =
        let (es, run, _, once, same) = iter_lem v.map in
        let (((s', later, goes_on), left), ran, k) =
          poll_all-returns polls buffer es v few wide once
            (λ q sock found. (sym (same q) ∙ found, sound q sock (sym (same q) ∙ found))) in
        (((s', effects ++ later, goes_on), left), simp (run, ran), k)
