-- ===== src/Transport.antt =====
-- What the server and the client see of sockets, and the first steps that both take with them. The
-- system calls are not part of this repository: their results are arguments.
pub mod Frames
pub mod Port
use Prim.Native.String.{String}
use text.Mathlib.Text.{◌==◌ as str_eq}
use cdtp.Common.{
  ℕ, ◌+◌, ◌*◌, ◌/◌, ◌%◌, ◌==◌, if◌then◌else◌, Bool, true, false, ◌||◌, List, [], ◌∷◌, ◌++◌, Option,
  none, some, Run, ok, ◌>>=◌, drop, length,
}
use cdtp.Errors.{ErrorCode}
use cdtp.Threading.{Call, Started}
use cdtp.Wire.{decode_message_size}

-- A call that fails, with its `errno`, or not.
abbrev pub Failure : Type 0
Failure = Option ℕ

-- the code of a call that fails with one other than 0, or not
abbrev pub code_of : Failure → ℕ
code_of none = 0
code_of (some code) = code

-- A call of `read`: its bytes, with none of them at the end of the stream and `none` for -1, and
-- `errno` after it. The code keeps the number of bytes in an `int`: it is taken to be below 2 ^ 31, as
-- what systems in use give is.
pub record Read : Type 0 where
  pub bytes : Option (List ℕ)
  pub errno : ℕ

-- What the code does to its surroundings: `_cdtp_set_error` with both codes, `close` and `send` on a
-- descriptor, where `none` stands for the descriptor -1, and the start of a thread for an event
-- function, with the bytes that its data pointer leads to, and none if it has no such pointer.
pub data Effect : Type 0 where
  set_error : ErrorCode → ℕ → Effect
  close : Option ℕ → Effect
  send : Option ℕ → List ℕ → Effect
  event : List ℕ → Started (Option Call) → Effect

-- The error numbers that the loops tell apart: nothing has happened, the peer of a server's client is
-- gone, a client's server has reset the connection, and what is used is no socket.
pub record Errnos : Type 0 where
  pub again : ℕ → Bool
  pub gone : ℕ → Bool
  pub reset : ℕ → Bool
  pub not_socket : ℕ

-- `CDTP_EAGAIN_OR_WOULDBLOCK`, with the two numbers
abbrev pub eagain_or_wouldblock : ℕ → ℕ → ℕ → Bool
eagain_or_wouldblock eagain ewouldblock e = (e == eagain) || (e == ewouldblock)

-- the tests of the branches for systems other than Windows
abbrev pub posix : ℕ → ℕ → ℕ → ℕ → Errnos
posix eagain ewouldblock ebadf enotsock = record {
  again = eagain_or_wouldblock eagain ewouldblock;
  gone = λ e. e == ebadf;
  reset = λ e. false;
  not_socket = enotsock;
}

-- those of the branches for Windows
abbrev pub windows : ℕ → ℕ → ℕ → Errnos
windows wsaewouldblock wsaeconnreset wsaenotsock = record {
  again = λ e. e == wsaewouldblock;
  gone = λ e. (e == wsaeconnreset) || (e == wsaenotsock);
  reset = λ e. e == wsaeconnreset;
  not_socket = wsaenotsock;
}

-- `struct sockaddr_in`, whose first two fields are its first four bytes; its last field here stands
-- for the bytes behind them, those of the address and those that fill the structure up.
pub record SockAddr : Type 0 where
  pub sin_family : ℕ
  pub sin_port : ℕ
  pub sin_addr : List ℕ

-- the test of what `socket` returns, with `none` for -1, which is `INVALID_SOCKET` on Windows; the
-- code for the other systems compares it with 0
unfoldable pub socket_failed : Bool → Option ℕ → Bool
socket_failed true none = true
socket_failed true (some fd) = false
socket_failed false none = false
socket_failed false (some fd) = fd == 0

-- `inet_pton(…, host, &address)` writes the bytes of the host's address, four or sixteen, from the
-- start of the structure on, where `sin_family` and `sin_port` are.
unfoldable pub write_host : List ℕ → SockAddr → SockAddr
write_host (a ∷ b ∷ c ∷ d ∷ rest) s = record s {
  sin_family = a + 256 * b;
  sin_port = c + 256 * d;
  sin_addr = rest ++ drop (length rest) s.sin_addr;
}
write_host _ s = s

-- `if (strcmp(host, "localhost") == 0) host = "127.0.0.1"`
unfoldable pub host_name : String → String
host_name host = if str_eq host "localhost" then "127.0.0.1" else host

-- `htons`
abbrev pub htons : ℕ → ℕ
htons port = port % 256 * 256 + port / 256 % 256

-- From the host to the structure that `bind` and `connect` get; `inet_pton` is a parameter.
unfoldable pub fill_address :
    (String → Option (List ℕ)) → ℕ → String → ℕ → SockAddr → Option SockAddr
unfolding write_host host_name
fill_address inet_pton af_inet host port address = elim (inet_pton (host_name host)) [
  | none ↦ none
  | some bytes ↦
      some (record (write_host bytes address) { sin_family = af_inet; sin_port = htons port })
]

-- a buffer after a call of `read` into it
abbrev pub fill_buffer : Option (List ℕ) → List ℕ → List ℕ
fill_buffer none buffer = buffer
fill_buffer (some bytes) buffer = bytes ++ drop (length bytes) buffer

-- What is received in a key exchange: a message with its size, or a failure with `errno`.
pub data Received : Type 0 where
  message : List ℕ → ℕ → Received
  broken : ℕ → Received

-- the second `read` of an exchange
unfoldable pub receive_body : ℕ → Read → Received
receive_body msg_size second = elim second.bytes [
  | none ↦ broken second.errno
  | some [] ↦ broken second.errno
  | some (b ∷ bytes) ↦
      if length (b ∷ bytes) == msg_size then message (b ∷ bytes) msg_size else broken second.errno
]

-- The two calls of `read` in `_cdtp_server_exchange_keys` and `_cdtp_client_exchange_keys`: any
-- number of bytes above 0 is taken for a whole length; what the first does not write of
-- `size_buffer` is as it was.
unfoldable pub receive_key : List ℕ → Read → Read → Run Received
unfolding receive_body
receive_key size_buffer first second = elim first.bytes [
  | none ↦ ok (broken first.errno)
  | some [] ↦ ok (broken first.errno)
  | some (b ∷ bytes) ↦ do
    msg_size ← decode_message_size (b ∷ bytes ++ drop (length (b ∷ bytes)) size_buffer)
    ok (receive_body msg_size second)
]
