-- ===== src/Server/Gather.antt =====
-- Messages that many clients send with `cdtp_client_send` of src/client.c at the same time, and the
-- rounds of `_cdtp_server_serve` in src/server.c in which they arrive.
use cdtp.Common.{
  ℕ, ◌-◌, ◌^◌, ◌≤◌, ◌<◌, ◌≡◌, refl, ap, sym, ◌∙◌, true, List, [], ◌∷◌, ◌++◌, Option, none, some,
  Run, ok, length, map, All, inl, inr,
}
use cdtp.Map.{IterNode, iter}
use cdtp.Map.Valid.{view}
use cdtp.Map.Iterate.{occurrences, lookup, iter_lem, All-lookup}
use cdtp.Crypto.Evp.{Evp, IsEvp}
use cdtp.Crypto.Aes.{AesKey, aes_key_size}
use cdtp.Threading.{Spawn, server_on_recv}
use cdtp.Threading.Dispatch.{outcome}
use cdtp.Transport.{Errnos, Failure, Effect, event, send, fill_buffer}
use cdtp.Transport.Frames.{Carries}
use cdtp.Client.{Client}
use cdtp.Client.{send_data as client_send}
use cdtp.Client.Messages.{reports, send_data-Carries}
use cdtp.Server.{Peer, Server}
use cdtp.Server.Valid.{IsReady, IsValid}
use cdtp.Server.Arrive.{arrives}
use cdtp.Server.Deliver.{poll_size-Carries}
use cdtp.Server.Serve.{
  PollCalls, RoundCalls, refused, poll_size, poll_all, after_turn, poll_round, serve_round,
  serve_loop, accept_client,
}
use cdtp.Server.Serve.Rounds.{IsQuiet}

-- A message of a client: who sends it, with which random bytes, the frame that is handed to `send`,
-- and the thread that the server starts for it.
pub record Arrival : Type 0 where
  pub sender : Client
  pub key : AesKey
  pub beyond : List ℕ
  pub nonce : List ℕ
  pub bytes : List ℕ
  pub failure : Failure
  pub frame : List ℕ
  pub errno : ℕ
  pub spawn : Spawn

-- a round of the server, and what comes from each client in it
pub record Gathering : Type 0 where
  pub calls : RoundCalls
  pub arrivals : ℕ → Option Arrival

module _ (func self arg : ℕ) where
  -- the call of the server's function for what comes from one client
  abbrev pub told : ℕ → Option Arrival → List Effect
  told id none = []
  told id (some a) =
      event a.bytes (
        outcome a.spawn.return_code
          (server_on_recv func self id a.spawn.pointer (length a.bytes) arg))
      ∷ []

  -- those of one round, and those of all
  abbrev pub told_all : (ℕ → Option Arrival) → List (IterNode Peer) → List Effect
  told_all arrivals [] = []
  told_all arrivals (e ∷ es) = told e.client_id (arrivals e.client_id) ++ told_all arrivals es

  abbrev pub gathered : List (IterNode Peer) → List Gathering → List Effect
  gathered es [] = []
  gathered es (g ∷ gs) = told_all g.arrivals es ++ gathered es gs

module _ {Ctx Pkey : Type 0} (evp : Evp Ctx Pkey) where
  -- The message is that of a connected client which the server has under the ID, with the same key of
  -- 32 bytes, and its call of `cdtp_client_send` returns.
  pub record IsFrom (s : Server) (id : ℕ) (a : Arrival) : Type 0 where
    pub peer : Peer
    pub has : view s.clients id ≡ some (some peer)
    pub has_key : peer.key ≡ some a.key
    pub key_whole : length a.key.key ≡ aes_key_size
    pub connected : a.sender.connected ≡ true
    pub same_key : a.sender.key ≡ some a.key
    pub nonce_whole : length a.nonce ≡ 32
    pub small : length a.bytes < 2 ^ 31 - 32
    pub sends :
        client_send evp a.beyond (some a.nonce) a.failure a.bytes (length a.bytes) a.sender
        ≡ ok (send a.sender.sock a.frame ∷ reports a.failure)

  -- Nothing comes from a client, or one message, whole, in its two reads.
  abbrev pub Brings : Errnos → Server → ℕ → PollCalls → Option Arrival → Type 0
  Brings errnos s id calls none = IsQuiet errnos calls
  Brings errnos s id calls (some a) = (calls ≡ arrives a.errno a.spawn a.frame) × IsFrom s id a

  -- A round in which no client connects.
  pub record IsGathering (errnos : Errnos) (s : Server) (g : Gathering) : Type 0 where
    pub errno : ℕ
    pub refuses : g.calls.accept ≡ refused errno
    pub again : errnos.again errno ≡ true
    pub brings : (q : ℕ) → Brings errnos s q (g.calls.polls q) (g.arrivals q)

-- the bytes of the first call of `send`
abbrev sent_frame : Run (List Effect) → List ℕ
sent_frame (ok (send sock frame ∷ rest)) = frame
sent_frame _ = []

module _ {Ctx Pkey : Type 0} (evp : Evp Ctx Pkey) {IsPair : Pkey → Pkey → Type 0}
    (laws : IsEvp evp IsPair) (self : ℕ) (errnos : Errnos) (func : ℕ) where
  IsFrom-Carries :
      {s : Server} (id : ℕ) (a : Arrival) (i : IsFrom evp s id a)
      → Carries evp laws a.key i.key_whole a.bytes a.frame
  IsFrom-Carries id a i =
      elim (send_data-Carries evp laws a.key i.key_whole a.beyond a.nonce a.bytes a.failure a.sender
        i.nonce_whole i.small i.connected i.same_key) [
          | inl (faults, why) ↦ let returns = i.sends in absurd (cc)
          | inr (inl (faults, long)) ↦ let returns = i.sends in absurd (cc)
          | inr (inr (frame, ran, carries)) ↦
              let same : frame ≡ a.frame = ap sent_frame (sym ran ∙ i.sends) in rw (← same) carries
        ]

  poll_size-Brings :
      {s : Server} (id : ℕ) (calls : PollCalls) (o : Option Arrival) (buffer : List ℕ)
      → IsValid s
      → s.on_recv ≡ some func
      → Brings evp errnos s id calls o
      → poll_size evp errnos self calls s id
          (fill_buffer calls.first.bytes buffer)
          calls.first.bytes
        ≡ ok (s, told func self s.on_recv_arg id o, true)
  poll_size-Brings {s} id calls none buffer v listens q =
      unfold poll_size in rw (q.nothing, q.open_still, q.again) refl
  poll_size-Brings {s} id calls (some a) buffer v listens (same, i) = rw same (
      poll_size-Carries evp self id a.key func a.spawn v
        (record { peer = i.peer; on_recv = listens; has = i.has; has_key = i.has_key }) errnos laws
        i.key_whole a.errno buffer a.bytes a.frame (IsFrom-Carries id a i))

  poll_all-Brings :
      {s : Server} (polls : ℕ → PollCalls) (arrivals : ℕ → Option Arrival) (buffer : List ℕ)
      (es : List (IterNode Peer))
      → IsValid s
      → s.on_recv ≡ some func
      → ((q : ℕ) → Brings evp errnos s q (polls q) (arrivals q))
      → All (λ e. IsReady e.sock) es
      → (left : List ℕ) × (poll_all evp errnos self polls s buffer (map some es)
          ≡ ok ((s, told_all func self s.on_recv_arg arrivals es, true), left))
  unfolding poll_all after_turn
  poll_all-Brings polls arrivals buffer [] v listens brings ready = (buffer, refl)
  poll_all-Brings {s} polls arrivals buffer (e ∷ es) v listens brings (r, ready) =
      let id = e.client_id in
      let filled = fill_buffer (polls id).first.bytes buffer in
      let (left, run) = poll_all-Brings {s = s} polls arrivals filled es v listens brings ready in
      (
        left,
        simp (
          r.is_set,
          poll_size-Brings id (polls id) (arrivals id) buffer v listens (brings id),
          run,
        ),
      )

  serve_loop-Brings :
      {s : Server} (gs : List Gathering) (buffer : List ℕ) (es : List (IterNode Peer))
      → iter s.clients ≡ ok (record { size = s.clients.size; clients = map some es })
      → IsValid s
      → s.serving ≡ true
      → s.on_recv ≡ some func
      → All (IsGathering evp errnos s) gs
      → All (λ e. IsReady e.sock) es
      → serve_loop evp errnos self (map Gathering.calls gs) s buffer
        ≡ ok (s, gathered func self s.on_recv_arg es gs)
  unfolding serve_loop serve_round accept_client poll_round
  serve_loop-Brings [] buffer es run v on listens gathering ready = refl
  serve_loop-Brings {s} (g ∷ gs) buffer es run v on listens (i, gathering) ready =
      let (left, ran) =
        poll_all-Brings g.calls.polls g.arrivals buffer es v listens i.brings ready in
      simp (
        on,
        i.refuses,
        i.again,
        run,
        ran,
        serve_loop-Brings {s = s} gs left es run v on listens gathering ready,
      )

  -- A valid server that is serving and has a function for messages goes through any number of rounds
  -- in which no client connects and from each of its clients either nothing comes or one message,
  -- whole, in its two reads: the loop returns, the server is as it was, and for each message one
  -- thread is started, or an error set if it cannot be, for a call with the ID of the client that has
  -- sent it, its data and its length, round after round, and within a round in the order of a list
  -- that has each client of the server once and no other. Each message has fewer than 2 ^ 31 - 32
  -- bytes and is handed to `send` by a call of `cdtp_client_send`, which returns, of a connected client
  -- with 32 random bytes drawn and the key of 32 bytes that the server has for it. OpenSSL is taken
  -- to keep to the laws of `IsEvp`.
  pub serve_loop-gathers :
      {s : Server} (gs : List Gathering) (buffer : List ℕ)
      → IsValid s
      → s.serving ≡ true
      → s.on_recv ≡ some func
      → All (IsGathering evp errnos s) gs
      → (es : List (IterNode Peer)) × (serve_loop evp errnos self (map Gathering.calls gs) s buffer
          ≡ ok (s, gathered func self s.on_recv_arg es gs))
        × ((q : ℕ) → occurrences q es ≤ 1)
        × ((q : ℕ) → lookup q es ≡ view s.clients q)
  serve_loop-gathers {s} gs buffer v on listens gathering =
      let (es, run, _, once, reads) = iter_lem v.map in
      let ready =
        All-lookup (λ q sock. IsReady sock) es once
          (λ q sock e. v.ready q sock (sym (reads q) ∙ e)) in
      (es, serve_loop-Brings {s = s} gs buffer es run v on listens gathering ready, once, reads)
