-- ===== src/Server/Broadcast.antt =====
-- `cdtp_server_send_all` of src/server.c.
use cdtp.Common.{
  ℕ, ◌≤◌, ◌≡◌, refl, sym, ◌∙◌, true, List, [], ◌∷◌, ◌++◌, Option, none, some, ok, length, map, All,
}
use cdtp.Map.{IterNode}
use cdtp.Map.Valid.{view}
use cdtp.Map.Iterate.{occurrences, lookup, iter_lem, All-lookup}
use cdtp.Crypto.{CryptoData}
use cdtp.Crypto.Attempt.{done}
use cdtp.Crypto.Evp.{Evp}
use cdtp.Crypto.Aes.{AesKey, aes_encrypt}
use cdtp.Transport.{Effect}
use cdtp.Transport.Frames.{frame_of}
use cdtp.Server.{Peer, Server}
use cdtp.Server.Valid.{IsValid}
use cdtp.Server.Messages.{SendCalls, sent, send_data, send_each, send_all}
use cdtp.Server.Answer.{send_data-sealed}

-- what is sent on a client's socket
abbrev pub sent_to : SendCalls → CryptoData → Option Peer → List Effect
sent_to calls sealed none = []
sent_to calls sealed (some peer) = sent calls.failure peer.sock (frame_of sealed.bytes)

-- what is sent to all clients of a list
abbrev pub broadcast : (ℕ → SendCalls) → (ℕ → CryptoData) → List (IterNode Peer) → List Effect
broadcast calls sealed [] = []
broadcast calls sealed (e ∷ es) =
    sent_to (calls e.client_id) (sealed e.client_id) e.sock ++ broadcast calls sealed es

module _ {Ctx Pkey : Type 0} (evp : Evp Ctx Pkey) where
  -- For each client of the server, the encryption of the data under its key gives `sealed`.
  pub record Seals (s : Server) (calls : ℕ → SendCalls) (bytes : List ℕ) (sealed : ℕ → CryptoData)
      : Type 0 where
    pub nonce : ℕ → List ℕ
    pub drawn : (q : ℕ) → (calls q).random ≡ some (nonce q)
    pub ran :
        (q : ℕ) (peer : Peer) (key : AesKey)
        → view s.clients q ≡ some (some peer)
        → peer.key ≡ some key
        → aes_encrypt evp (calls q).beyond (some (nonce q)) key bytes (length bytes)
          ≡ done (sealed q)
    pub size : (q : ℕ) → (sealed q).data_size ≡ length (sealed q).bytes

  module _ {s : Server} (calls : ℕ → SendCalls) (bytes : List ℕ) (sealed : ℕ → CryptoData)
      (v : IsValid s) (on : s.serving ≡ true) (seals : Seals s calls bytes sealed) where
    send_data_to :
        (q : ℕ) (sock : Option Peer)
        → view s.clients q ≡ some sock
        → send_data evp (calls q) s q bytes (length bytes) ≡ ok (sent_to (calls q) (sealed q) sock)
    send_data_to q sock has =
        let r = v.ready q sock has in
        let has' : view s.clients q ≡ some (some r.peer) = has ∙ rw r.is_set in
        rw r.is_set (
          send_data-sealed evp r.key (calls q) q r.peer (seals.nonce q) bytes (sealed q) v on has'
            r.has_key (seals.drawn q) (seals.ran q r.peer r.key has' r.has_key) (seals.size q))

    send_each_lem :
        (es : List (IterNode Peer))
        → All (λ e. view s.clients e.client_id ≡ some e.sock) es
        → send_each evp calls s bytes (length bytes) (map some es) ≡ ok (broadcast calls sealed es)
    unfolding send_each
    send_each_lem [] all = refl
    send_each_lem (e ∷ es) (has, all) =
        rw (send_data_to e.client_id e.sock has, send_each_lem es all)

    -- A valid server that is serving sends to each of its clients one frame with its data encrypted
    -- under that client's key, if all encryptions succeed, and to no one else: the list that it goes
    -- through has each client of the map once and no other. A failure of `send` to one client sets an
    -- error and does not keep the others from getting theirs.
    pub send_all_lem :
        (es : List (IterNode Peer)) × (send_all evp calls s bytes (length bytes)
          ≡ ok (broadcast calls sealed es))
        × (length es ≡ s.clients.size)
        × ((q : ℕ) → occurrences q es ≤ 1)
        × ((q : ℕ) → lookup q es ≡ view s.clients q)
    unfolding send_all
    send_all_lem =
        let (es, run, size, once, same) = iter_lem v.map in
        let all =
          All-lookup (λ q sock. view s.clients q ≡ some sock) es once
            (λ q sock e. sym (same q) ∙ e) in
        (es, simp (on, run, send_each_lem es all), size, once, same)
