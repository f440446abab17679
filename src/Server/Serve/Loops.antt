-- ===== src/Server/Serve/Loops.antt =====
-- The loop of `_cdtp_server_serve` in src/server.c, in rounds in which no client connects: that it
-- comes to the end of each of them.
use cdtp.Common.{
  ℕ, ◌^◌, ◌≤◌, ◌<◌, ◌≡◌, refl, ap, ◌∙◌, Bool, Run, if◌then◌else◌, true, false, not, List, [], ◌∷◌,
  ◌++◌, Option, some, ok, ◌>>=◌, All, Returns, arith, Bool-cases, inl, inr, length, ◌==◌, ◌||◌,
}
use cdtp.Map.Valid.{view}
use cdtp.Crypto.Evp.{Evp}
use cdtp.Errors.{socket_accept_failed}
use cdtp.Transport.{Errnos, Effect, set_error}
use cdtp.Server.{Peer, Server}
use cdtp.Server.Valid.{IsValid}
use cdtp.Server.Serve.{
  RoundCalls, Turn, refused, accept_client, poll_round, serve_round, serve_loop,
}
use cdtp.Server.Serve.Spares.{Shrinks, Shrinks-refl, Shrinks-trans}
use cdtp.Server.Serve.Passes.{IsSound, poll_round-returns}

unless_not {ℓ} : {A : Type ℓ} (b : Bool) (x y : A) → b ≡ true → (if not b then x else y) ≡ y
unless_not true x y on = refl
unless_not false x y on = absurd (cc)

module _ {Ctx Pkey : Type 0} (evp : Evp Ctx Pkey) where
  -- A round in which no client connects, and in which the bytes that the second `read` gives for a
  -- client of the server decrypt under that client's key.
  pub record IsPolling (s : Server) (calls : RoundCalls) : Type 0 where
    pub errno : ℕ
    pub refuses : calls.accept ≡ refused errno
    pub sound :
        (q : ℕ) (sock : Option Peer)
        → view s.clients q ≡ some sock
        → IsSound evp sock (calls.polls q)

  module _ (errnos : Errnos) (self : ℕ) where
    -- what `accept` leads to when no client connects
    accept_client-refused :
        (s : Server) (errno : ℕ)
        → Returns (accept_client evp errnos self s (refused errno)) (λ t. t.0 ≡ s)
    unfolding accept_client
    accept_client-refused s errno = elim (Bool-cases (errnos.again errno)) [
      | inl e ↦ ((s, [], true), rw e refl, refl)
      | inr e ↦ elim (Bool-cases (not (errno == errnos.not_socket) || s.serving)) [
        | inl f ↦ ((s, set_error socket_accept_failed errno ∷ [], false), rw (e, f) refl, refl)
        | inr f ↦ ((s, [], false), rw (e, f) refl, refl)
      ]
    ]

    after_accept :
        (calls : RoundCalls) (s : Server) (buffer : List ℕ) (t : Turn)
        → IsValid s
        → s.next_client_id < 2 ^ 60
        → 5 ≤ length buffer
        → IsPolling s calls
        → t.0 ≡ s
        → Returns
            (poll_round evp errnos self calls.polls buffer t)
            (λ r. Shrinks s r.0.0 × (5 ≤ length r.1))
    unfolding poll_round
    after_accept calls s buffer (s', effects, false) v few wide i same =
        (((s', effects, false), buffer), refl, (rw same (Shrinks-refl v), wide))
    after_accept calls s buffer (s', effects, true) v few wide i same =
        rw same (poll_round-returns evp errnos self calls.polls buffer effects v few wide i.sound)

    serve_round-returns :
        (calls : RoundCalls) (s : Server) (buffer : List ℕ)
        → IsValid s
        → s.next_client_id < 2 ^ 60
        → 5 ≤ length buffer
        → IsPolling s calls
        → Returns
            (serve_round evp errnos self calls s buffer)
            (λ r. Shrinks s r.0.0 × (5 ≤ length r.1))
    unfolding serve_round
    serve_round-returns calls s buffer v few wide i = elim (Bool-cases s.serving) [
      | inr off ↦ (((s, [], false), buffer), simp off, (Shrinks-refl v, wide))
      | inl on ↦
          let (t, run, same) = accept_client-refused s i.errno in
          let (r, ran, p) = after_accept calls s buffer t v few wide i same in
          (
            r,
            unless_not s.serving (ok ((s, [], false), buffer))
                  (accept_client evp errnos self s calls.accept
                    >>= poll_round evp errnos self calls.polls buffer)
                  on
                ∙ ap (λ (m : Run Turn). m >>= poll_round evp errnos self calls.polls buffer)
                    (ap (accept_client evp errnos self s) i.refuses ∙ run)
                ∙ ran,
            p,
          )
    ]

    -- the rest of the loop after a round
    abbrev after_round : List RoundCalls → Turn × List ℕ → Run (Server × List Effect)
    after_round rounds r = elim r.0.2 [
      | false ↦ ok (r.0.0, r.0.1)
      | true ↦
          serve_loop evp errnos self rounds r.0.0 r.1 >>= (λ later. ok (later.0, r.0.1 ++ later.1))
    ]

    after_round-returns :
        (s₀ : Server) (rounds : List RoundCalls) (s' : Server) (effects : List Effect)
        (goes_on : Bool) (left : List ℕ)
        → Shrinks s₀ s'
        → Returns (serve_loop evp errnos self rounds s' left) (λ r. Shrinks s₀ r.0)
        → Returns (after_round rounds ((s', effects, goes_on), left)) (λ r. Shrinks s₀ r.0)
    after_round-returns s₀ rounds s' effects false left k later = ((s', effects), refl, k)
    after_round-returns s₀ rounds s' effects true left k ((s'', more), run, l) =
        ((s'', effects ++ more), rw run refl, l)

    IsPolling-fewer :
        {s₀ s : Server} {calls : RoundCalls} → Shrinks s₀ s → IsPolling s₀ calls → IsPolling s calls
    IsPolling-fewer k i = record {
      errno = i.errno;
      refuses = i.refuses;
      sound = λ q sock has. i.sound q sock (k.fewer q sock has);
    }

    loop-returns :
        (s₀ : Server) (rounds : List RoundCalls) (s : Server) (buffer : List ℕ)
        → s₀.next_client_id < 2 ^ 60
        → Shrinks s₀ s
        → 5 ≤ length buffer
        → All (IsPolling s₀) rounds
        → Returns (serve_loop evp errnos self rounds s buffer) (λ r. Shrinks s₀ r.0)
    unfolding serve_loop
    loop-returns s₀ [] s buffer few k wide polling = ((s, []), refl, k)
    loop-returns s₀ (calls ∷ rounds) s buffer few k wide (i, polling) =
        elim (Bool-cases s.serving) [
          | inr off ↦ ((s, []), simp off, k)
          | inl on ↦
              let few' : s.next_client_id < 2 ^ 60 = omega (arith, k.keeps.next) in
              let (((s', effects, goes_on), left), run, (l, wide')) =
                serve_round-returns calls s buffer k.keeps.valid few' wide
                  (IsPolling-fewer {s₀ = s₀} k i) in
              let m = Shrinks-trans k l in
              let (r, ran, shrunk) =
                after_round-returns s₀ rounds s' effects goes_on left m
                  (loop-returns s₀ rounds s' left few m wide' polling) in
              (
                r,
                unless_not s.serving (ok (s, []))
                      (serve_round evp errnos self calls s buffer >>= after_round rounds) on
                    ∙ ap (λ (x : Run (Turn × List ℕ)). x >>= after_round rounds) run
                    ∙ ran,
                shrunk,
              )
        ]

    -- On a valid server with fewer than 2 ^ 60 IDs given, the loop returns from any number of rounds
    -- in which no client connects, whatever `accept` and `read` give, errors, ends of streams and
    -- connections that are gone included, as long as the bytes that the second `read` gives for a client
    -- of the server decrypt under that client's key; it leaves a valid server with no client that was
    -- not there. The buffer for sizes has at least five bytes.
    pub serve_loop-returns :
        (rounds : List RoundCalls) {s : Server} (buffer : List ℕ)
        → IsValid s
        → s.next_client_id < 2 ^ 60
        → 5 ≤ length buffer
        → All (IsPolling s) rounds
        → Returns (serve_loop evp errnos self rounds s buffer) (λ r. Shrinks s r.0)
    serve_loop-returns rounds {s} buffer v few wide polling =
        loop-returns s rounds s buffer few (Shrinks-refl v) wide polling
