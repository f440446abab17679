-- ===== src/Server/Sample.antt =====
-- A server with two clients, for examples: a third client, with ID 2, has left.
use cdtp.Server.Messages.{SendCalls}
use cdtp.Threading.{EventFunc, Spawn}
use cdtp.Transport.{Errnos, posix}
use cdtp.Common.{
  List, ℕ, ◌≡◌, refl, sym, ◌∙◌, if◌then◌else◌, true, false, ◌==◌, [], ◌∷◌, Option, none, some,
  replicate, arith, Bool-cases, inl, inr, ◌++◌, copy,
}
use cdtp.Crypto.{CryptoData, pad_data, crypto_data}
use cdtp.Crypto.Attempt.{done}
use cdtp.Crypto.Toy.{toy}
use cdtp.Map
use cdtp.Map.{Node, full_node, empty_node}
use cdtp.Map.Tally.{tally, find}
use cdtp.Map.Valid.{view}
use cdtp.Map.Valid.{IsValid as IsValidMap}
use cdtp.Crypto.Aes.{AesKey, aes_encrypt, encrypt_all, to_int, int_sum}
use cdtp.Server.{Peer, Server}
use cdtp.Server.Valid.{IsReady, IsValid}

abbrev pub key : AesKey
key = record { key = replicate 32 5; key_size = 32 }

abbrev pub peer : ℕ → Peer
peer fd = record {
  sock = some fd;
  address = record { sin_family = 2; sin_port = 80; sin_addr = 10 ∷ 0 ∷ 0 ∷ 1 ∷ [] };
  key = some key;
}

abbrev pub two_peers : Map.Map Peer
two_peers = record {
  capacity = 16;
  size = 2;
  nodes = full_node 0 (some (peer 5)) ∷ full_node 1 (some (peer 6)) ∷ replicate 14 empty_node;
}

abbrev pub two_clients : Server
two_clients = record {
  on_recv = some 1;
  on_connect = some 2;
  on_disconnect = some 3;
  on_recv_arg = 11;
  on_connect_arg = 12;
  on_disconnect_arg = 13;
  serving = true;
  is_done = false;
  sock = some 4;
  address = record { sin_family = 2; sin_port = 80; sin_addr = 0 ∷ 0 ∷ 0 ∷ 0 ∷ [] };
  clients = two_peers;
  next_client_id = 3;
  serve_thread = some 8;
}

two_peers-IsValid : IsValidMap two_peers
unfolding tally
two_peers-IsValid = record {
  width = refl;
  sized = refl;
  once = λ q. ground arith;
  doubled = (0, refl);
  small = omega arith;
}

two_peers-view :
    (q : ℕ)
    → view two_peers q
      ≡ (if 0 == q then some (some (peer 5)) else if 1 == q then some (some (peer 6)) else none)
unfolding find
two_peers-view q = refl

is_ready : (fd : ℕ) {sock : Option Peer} → some sock ≡ some (some (peer fd)) → IsReady sock
is_ready fd e = record { peer = peer fd; key = key; is_set = cc; has_key = refl }

two_peers-IsReady : (q : ℕ) (sock : Option Peer) → view two_peers q ≡ some sock → IsReady sock
two_peers-IsReady q sock e = elim (Bool-cases (0 == q)) [
  | inl eq ↦ is_ready 5 (sym e ∙ two_peers-view q ∙ rw eq)
  | inr ne ↦ elim (Bool-cases (1 == q)) [
    | inl eq ↦ is_ready 6 (sym e ∙ two_peers-view q ∙ rw (ne, eq))
    | inr ne' ↦ let gone : view two_peers q ≡ none = two_peers-view q ∙ rw (ne, ne') in absurd (cc)
  ]
]

has_key : (fd : ℕ) (found : Peer) → some (some found) ≡ some (some (peer fd)) → found.key ≡ some key
has_key fd found e = let same : found ≡ peer fd = cc in rw same

pub two_clients-key :
    (q : ℕ) (found : Peer) → view two_clients.clients q ≡ some (some found) → found.key ≡ some key
two_clients-key q found e = elim (Bool-cases (0 == q)) [
  | inl eq ↦ has_key 5 found (sym e ∙ two_peers-view q ∙ rw eq)
  | inr ne ↦ elim (Bool-cases (1 == q)) [
    | inl eq ↦ has_key 6 found (sym e ∙ two_peers-view q ∙ rw (ne, eq))
    | inr ne' ↦ let gone : view two_peers q ≡ none = two_peers-view q ∙ rw (ne, ne') in absurd (cc)
  ]
]

pub two_clients-IsValid : IsValid two_clients
two_clients-IsValid = record {
  map = two_peers-IsValid;
  counted = omega arith;
  fresh = λ q le.
      let ne : (0 == q) ≡ false = ground arith in
      let ne' : (1 == q) ≡ false = ground arith in two_peers-view q ∙ rw (ne, ne');
  ready = two_peers-IsReady;
  apart = refl;
}

abbrev pub junk : EventFunc
junk = record {
  name = "";
  func = 0;
  server = 91;
  client = 92;
  size_t1 = 93;
  voidp1 = 94;
  size_t2 = 95;
  voidp2 = 96;
}

abbrev pub spawn : Spawn
spawn = record { return_code = 0; junk = junk; pointer = 71 }

abbrev pub errnos : Errnos
errnos = posix 11 11 9 88

abbrev pub nonce : List ℕ
nonce = replicate 32 1

abbrev pub text : List ℕ
text = 104 ∷ 105 ∷ []

abbrev pub send_calls : SendCalls
send_calls = record { beyond = []; random = some nonce; failure = some 32 }

abbrev pub sealed_text : CryptoData
sealed_text = record { bytes = replicate 16 1 ++ (13 ∷ replicate 13 0) ++ text; data_size = 32 }

pub sealed_text_run : aes_encrypt toy [] (some nonce) key text 2 ≡ done sealed_text
unfolding toy aes_encrypt copy crypto_data pad_data to_int int_sum encrypt_all
sealed_text_run = refl
