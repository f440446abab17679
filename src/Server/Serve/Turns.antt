-- ===== src/Server/Serve/Turns.antt =====
-- One client's turn in the loop of `_cdtp_server_serve`: what it leaves of the server.
use cdtp.Common.{
  ℕ, ◌^◌, ◌<◌, ◌≡◌, refl, true, false, ◌==◌, List, [], ◌∷◌, ◌++◌, Option, none, some, Run,
  set_pointer, Returns, Ensures, bind-Ensures, then-Ensures, arith, Bool-cases, Option-cases, inl,
  inr, length, ==_iff,
}
use cdtp.Wire.{decode_message_size}
use cdtp.Map.{IterNode}
use cdtp.Map.Valid.{view}
use cdtp.Map.Methods.{contains_lem}
use cdtp.Crypto.Evp.{Evp}
use cdtp.Threading.{Spawn}
use cdtp.Transport.{Effect, fill_buffer, Errnos}
use cdtp.Server.{Peer, Server, call_on_disconnect, call_on_recv}
use cdtp.Server.Valid.{IsValid, Keeps, Keeps-refl, Keeps-trans, Drops, closing, disconnect_sock_lem}
use cdtp.Server.Serve.{PollCalls, Turn, drop_client, poll_body, poll_size, poll_all, after_turn}

-- what is done for a client that has left, if the map has it
abbrev pub parting : ℕ → Spawn → Server → ℕ → Option (Option Peer) → List Effect
parting self spawn s id none = []
parting self spawn s id (some sock) = closing sock ++ call_on_disconnect self spawn s id

absent-Drops : {s : Server} (id : ℕ) → IsValid s → view s.clients id ≡ none → Drops s id s
absent-Drops {s} id v e = record {
  keeps = Keeps-refl v;
  reads = λ q. elim (Bool-cases (id == q)) [
    | inl eq ↦ rw (eq, ← (==_iff id q).0 eq, e)
    | inr ne ↦ rw ne
  ];
}

-- When a client of a valid server with fewer than 2 ^ 60 IDs given turns out to have left, the call
-- returns: if the map still has the client, it is taken out, its socket is closed, and `on_disconnect`
-- is started for its ID if it is registered; if not, nothing is done. All others stay, the server
-- stays valid, and the loop goes on.
pub drop_client_lem :
    (self : ℕ) (spawn : Spawn) {s : Server} (id : ℕ)
    → IsValid s
    → s.next_client_id < 2 ^ 60
    → Returns
        (drop_client self spawn s id)
        λ t. Drops s id t.0 × (t.1 ≡ parting self spawn s id (view s.clients id)) × (t.2 ≡ true)
unfolding drop_client
drop_client_lem self spawn {s} id v few = elim (Option-cases (view s.clients id)) [
  | inl e ↦ ((s, [], true), rw (contains_lem id v.map, e), (absent-Drops id v e, rw e, refl))
  | inr (sock, e) ↦
      let ((s', effects), run, (d, closes, same)) = disconnect_sock_lem id v few in
      (
        (s', effects ++ call_on_disconnect self spawn s' id, true),
        rw (contains_lem id v.map, e, run),
        (d, rw (closes, e, same) (unfold call_on_disconnect in refl), refl),
      )
]

after_turn-Keeps :
    {s : Server} (t : Turn) (filled : List ℕ) (rest : Run (Turn × List ℕ))
    → Keeps s t.0
    → Ensures rest (λ r. Keeps t.0 r.0.0)
    → Ensures (after_turn t filled rest) (λ r. Keeps s r.0.0)
unfolding after_turn
after_turn-Keeps (s', effects, false) filled rest k later = k
after_turn-Keeps {s} (s', effects, true) filled rest k later =
    then-Ensures rest _ (λ r. Keeps s' r.0.0) (λ r. Keeps s r.0.0) later
      λ ((s'', more, goes_on), buffer) l. Keeps-trans k l

pub drop_client-Keeps :
    (self : ℕ) (spawn : Spawn) {s : Server} (id : ℕ)
    → IsValid s
    → s.next_client_id < 2 ^ 60
    → Ensures (drop_client self spawn s id) (λ t. Keeps s t.0)
drop_client-Keeps self spawn id v few =
    let (t, run, (d, _, _)) = drop_client_lem self spawn id v few in rw run d.keeps

module _ {Ctx Pkey : Type 0} (evp : Evp Ctx Pkey) (errnos : Errnos) (self : ℕ) where
  poll_body-Keeps :
      (calls : PollCalls) {s : Server} (id msg_size : ℕ) (second : Option (List ℕ))
      → IsValid s
      → s.next_client_id < 2 ^ 60
      → Ensures (poll_body evp errnos self calls s id msg_size second) (λ t. Keeps s t.0)
  unfolding poll_body
  poll_body-Keeps calls {s} id msg_size none v few =
      elim (Bool-cases (errnos.gone calls.second.errno)) [
        | inl e ↦ rw e (drop_client-Keeps self calls.spawn id v few)
        | inr e ↦ rw e (Keeps-refl v)
      ]
  poll_body-Keeps calls id msg_size (some []) v few = drop_client-Keeps self calls.spawn id v few
  poll_body-Keeps calls {s} id msg_size (some (b ∷ bytes)) v few =
      elim (Bool-cases (length (b ∷ bytes) == msg_size)) [
        | inl e ↦ rw e (
            bind-Ensures (call_on_recv evp self calls.spawn s id (b ∷ bytes) msg_size) _ _
              λ effects. Keeps-refl v)
        | inr e ↦ rw e (Keeps-refl v)
      ]

  pub poll_size-Keeps :
      (calls : PollCalls) {s : Server} (id : ℕ) (buffer : List ℕ) (first : Option (List ℕ))
      → IsValid s
      → s.next_client_id < 2 ^ 60
      → Ensures (poll_size evp errnos self calls s id buffer first) (λ t. Keeps s t.0)
  unfolding poll_size
  poll_size-Keeps calls id buffer none v few = elim (Bool-cases (errnos.gone calls.first.errno)) [
    | inl e ↦ rw e (drop_client-Keeps self calls.spawn id v few)
    | inr e ↦ elim (Bool-cases (errnos.again calls.first.errno)) [
      | inl a ↦ rw (e, a) (Keeps-refl v)
      | inr a ↦ rw (e, a) (Keeps-refl v)
    ]
  ]
  poll_size-Keeps calls id buffer (some []) v few = drop_client-Keeps self calls.spawn id v few
  poll_size-Keeps calls id buffer (some (b ∷ bytes)) v few =
      bind-Ensures (decode_message_size buffer) _ _
        λ msg_size. poll_body-Keeps calls id msg_size calls.second.bytes v few

  pub poll_all-Keeps :
      (polls : ℕ → PollCalls) {s : Server} (buffer : List ℕ)
      (entries : List (Option (IterNode Peer)))
      → IsValid s
      → s.next_client_id < 2 ^ 60
      → Ensures (poll_all evp errnos self polls s buffer entries) (λ r. Keeps s r.0.0)
  unfolding poll_all
  poll_all-Keeps polls buffer [] v few = Keeps-refl v
  poll_all-Keeps polls {s} buffer (none ∷ entries) v few = tt
  poll_all-Keeps polls {s} buffer (some node ∷ entries) v few =
      bind-Ensures (set_pointer node.sock) _ _ λ client.
        let calls = polls node.client_id in
        let filled = fill_buffer calls.first.bytes buffer in
        then-Ensures (poll_size evp errnos self calls s node.client_id filled calls.first.bytes) _
          (λ t. Keeps s t.0) (λ r. Keeps s r.0.0)
          (poll_size-Keeps calls node.client_id filled calls.first.bytes v few)
          λ t k.
            after_turn-Keeps t filled _ k
              (poll_all-Keeps polls {s = t.0} filled entries k.valid (omega (arith, k.next)))
