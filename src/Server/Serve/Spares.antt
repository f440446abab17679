-- ===== src/Server/Serve/Spares.antt =====
-- What is left of a server of src/server.c after a client's turn in `_cdtp_server_serve`.
use cdtp.Common.{
  ℕ, ◌^◌, ◌≤◌, ◌<◌, ◌≡◌, refl, sym, ◌∙◌, false, ◌==◌, List, [], ◌∷◌, Option, none, some, ok,
  Returns, arith, Bool-cases, inl, inr, length, drop, length-append, length-drop,
}
use cdtp.Wire.{decode_message_size}
use cdtp.Map.Valid.{view}
use cdtp.Threading.{Spawn}
use cdtp.Transport.{fill_buffer}
use cdtp.Server.{Peer, Server}
use cdtp.Server.Valid.{IsValid, Keeps, Keeps-refl, Keeps-trans, Drops}
use cdtp.Server.Serve.{drop_client}
use cdtp.Server.Serve.Turns.{drop_client_lem}

-- `s'` is a valid server with the state of `s` but for its clients, of which it has no other than `s`
pub record Shrinks (s s' : Server) : Type 0 where
  pub keeps : Keeps s s'
  pub fewer :
      (q : ℕ) (sock : Option Peer) → view s'.clients q ≡ some sock → view s.clients q ≡ some sock

pub Shrinks-refl : {s : Server} → IsValid s → Shrinks s s
Shrinks-refl v = record { keeps = Keeps-refl v; fewer = λ q sock e. e }

pub Shrinks-trans : {s s' s'' : Server} → Shrinks s s' → Shrinks s' s'' → Shrinks s s''
Shrinks-trans k l = record {
  keeps = Keeps-trans k.keeps l.keeps;
  fewer = λ q sock e. k.fewer q sock (l.fewer q sock e);
}

-- what a client's turn leaves of the server: all but that client is as it was
pub record Spares (s : Server) (id : ℕ) (s' : Server) : Type 0 where
  pub shrinks : Shrinks s s'
  pub others : (q : ℕ) → (id == q) ≡ false → view s'.clients q ≡ view s.clients q

pub stays : {s : Server} (id : ℕ) → IsValid s → Spares s id s
stays id v = record { shrinks = Shrinks-refl v; others = λ q ne. refl }

Drops-Spares : {s : Server} (id : ℕ) {s' : Server} → Drops s id s' → Spares s id s'
Drops-Spares {s} id {s'} d = record {
  shrinks = record {
    keeps = d.keeps;
    fewer = λ q sock e. elim (Bool-cases (id == q)) [
      | inl eq ↦ let gone : view s'.clients q ≡ none = d.reads q ∙ rw eq in absurd (cc)
      | inr ne ↦ sym (d.reads q ∙ rw ne) ∙ e
    ];
  };
  others = λ q ne. d.reads q ∙ rw ne;
}

pub drops :
    (self : ℕ) (spawn : Spawn) {s : Server} (id : ℕ)
    → IsValid s
    → s.next_client_id < 2 ^ 60
    → Returns (drop_client self spawn s id) (λ t. Spares s id t.0)
drops self spawn id v few =
    let (t, run, (d, _, _)) = drop_client_lem self spawn id v few in (t, run, Drops-Spares id d)

pub decode_returns :
    (buffer : List ℕ) → 5 ≤ length buffer → (n : ℕ) × (decode_message_size buffer ≡ ok n)
unfolding decode_message_size
decode_returns (a ∷ b ∷ c ∷ d ∷ e ∷ rest) h = (_, refl)
decode_returns [] h = absurd (omega arith)
decode_returns (a ∷ []) h = absurd (omega arith)
decode_returns (a ∷ b ∷ []) h = absurd (omega arith)
decode_returns (a ∷ b ∷ c ∷ []) h = absurd (omega arith)
decode_returns (a ∷ b ∷ c ∷ d ∷ []) h = absurd (omega arith)

pub length-fill_buffer :
    (bytes : Option (List ℕ)) (buffer : List ℕ) → length buffer ≤ length (fill_buffer bytes buffer)
length-fill_buffer none buffer = omega arith
length-fill_buffer (some bytes) buffer =
    omega
      (arith, length-append bytes (drop (length bytes) buffer), length-drop (length bytes) buffer)
