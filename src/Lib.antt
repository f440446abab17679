-- ===== src/Lib.antt =====
-- A verification library for CDTP, a C library for encrypted messages over TCP. A server and its
-- clients exchange keys on connection: the server sends an RSA public key, the client answers with
-- an AES key encrypted with it, and from then on each message is encrypted with that AES key and
-- sent behind a length of five bytes. The server keeps its clients in a hash map; events are handed
-- to functions of the user in threads of their own; errors go to a global state or to a registered
-- function.
--
-- The parts, with the files of the repository that they model:
--   Common     what the others share: Boolean tests, lists, C arrays and `memcpy` (Common/Memory), and
--              `Run`, a computation that returns or does what C leaves undefined (Common/Faults)
--   Wire       src/util.c, the length prefix and whole messages: `_cdtp_encode_message_size`,
--              `_cdtp_decode_message_size`, `_cdtp_construct_message`, `_cdtp_deconstruct_message`
--   Map        src/map.c, the map from client IDs to sockets, an array with linear probing: a function
--              for each of `_cdtp_client_map…`, `set_client` for `_cdtp_client_map_set`. Map/Spec is
--              what the map promises, a partial function; Map/Valid has the invariant;
--              Map/Memory is about the blocks of memory that a map and an iterator have, which
--              Common/Heap names
--   Crypto     src/crypto.c: containers and padding; Crypto/Aes and Crypto/Rsa, encryption and
--              decryption, where a call of OpenSSL can fail and the function then returns NULL
--              (Crypto/Attempt). OpenSSL itself is the parameter `Evp`, with the documented behaviour
--              that the code relies on as `IsEvp`, and `KeyGen` with `IsKeyGen` for making keys
--              (Crypto/Evp). Crypto/Toy is a cipher for which all of that holds.
--   Errors     src/util.c, `_cdtp_set_error`, `cdtp_on_error` and the functions that read the error,
--              and `_cdtp_init` and `_cdtp_exit`
--   Threading  src/threading.c, the threads for event functions and loops
--   Transport  what src/client.c and src/server.c have in common: the address and the reads of a key
--              exchange, and the tests of error numbers; Transport/Frames, how an encrypted message
--              lies in a frame and arrives
--   Client     src/client.c: `cdtp_client`, `cdtp_client_connect` with the key exchange,
--              `cdtp_client_disconnect`, `cdtp_client_send` and `cdtp_client_free`;
--              Client/Getters, the functions that ask for addresses; Client/Events, the calls of
--              the user's functions; Client/Handle, the loop `_cdtp_client_handle`, with its rounds in
--              Client/Rounds
--   Server     src/server.c: `cdtp_server`, client IDs, the calls of the user's functions, the key
--              exchange; Server/Serve, the loop `_cdtp_server_serve`, in rounds of one `accept` and
--              one turn for each client; Server/Control, starting and stopping; Server/Messages,
--              `cdtp_server_send`, `cdtp_server_send_all` and `cdtp_server_remove_client`;
--              Server/Getters; Server/Windows, stopping on Windows. Server/Valid has the server's
--              invariant, and Server/History its life as a step relation over these calls.
--              Server/Exchange, Server/Deliver, Server/Answer and Server/Session put both sides
--              together: the exchange of keys, a message to the server, one to a client, and the
--              way from a connection to a message; so do Server/Stream and Server/Gather for many
--              messages, to one client and from many. Server/Races and Server/Abandon have what
--              another thread, a failing client or a client that leaves early does to the loop.
--
-- How the code is rendered. Objects are records and are passed on explicitly; bytes are numbers and
-- arrays lists of them; a pointer that may be NULL is an `Option`; a function or an object of the
-- user is a number. A `size_t` has its wrap-around written out (`size_mod` in Map, `add_size` and
-- `sub_size` in Crypto); a sum or a conversion that is no `int` is a `Fault` (`int_sum` and
-- `to_int` in Crypto/Aes). System calls are not part of the repository: a function takes their
-- results as arguments and returns what it did, in order (`Effect`). An access outside an array,
-- the use of a pointer that is NULL or was never set, and a loop that has not ended with its fuel
-- are values of `Fault`. There is one exception: the padding always reads and writes one or two
-- bytes behind its blocks, so that as a `Fault` it would leave nothing of any encryption. These
-- bytes are recorded instead, with what lies there (`overrun` in Crypto), and the encryption goes
-- on as if nothing else used them. The loops of the map run on fuel equal to the capacity: they
-- come round to where they began, or to a free node, within that many steps.
--
-- Bounds: the map is treated below 2 ^ 60 clients, and a server below 2 ^ 60 IDs given, where no
-- product and no count of `size_t` wraps; encryption with AES below 2 ^ 31 - 32 bytes, where only
-- the last length, 2 ^ 31 - 33, may lead to a sum that is no `int`, and with RSA below 2 ^ 31 - 2 ^
-- 17, since the code converts sizes to `int` and adds them; a message below 2 ^ 40 bytes, since its
-- length has five bytes. One call of `read` is taken to give fewer than 2 ^ 31 bytes, as it does on
-- systems in use, so that its result fits an `int`.
--
-- Windows. The loops take what a system call gives and the tests of its error numbers (`Errnos` in
-- Transport), so that they stand for the branches for Windows and for other systems. Server/Windows
-- and Client/Windows have what `cdtp_server_stop` and `cdtp_client_disconnect` do on Windows;
-- `client` and `server` have the test of `socket` of either system (`socket_failed` in Transport);
-- Transport/Port has the loop that cuts an address, and `init` in Errors gets what `WSAStartup`
-- returns.
--
-- Threads. A loop runs for as many rounds as it is given results of system calls. In Server/History
-- the calls of the user come between the rounds of the loop and between the parts of a round: the
-- handling of one `accept` and the turn of one client are single steps. Server/Races is about what
-- comes between such parts.
--
-- Not modelled: the failure of `malloc`, and the freeing of memory but for maps and iterators; on
-- Windows the conversions of wide strings and the calls that start threads; `cdtp_sleep`, which
-- only waits.
pub mod Common
pub mod Wire
pub mod Map
pub mod Crypto
pub mod Errors
pub mod Threading
pub mod Transport
pub mod Client
pub mod Server
