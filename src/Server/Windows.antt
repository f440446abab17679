-- ===== src/Server/Windows.antt =====
-- `cdtp_server_stop` of src/server.c on Windows: the calls that end the serve thread are others, and
-- the test for the caller's thread is the opposite of that on other systems.
use cdtp.Common.{
  ℕ, zero, suc, ◌^◌, ◌<◌, ◌≡◌, ◌≢◌, refl, sym, ap, ◌∙◌, Bool, true, false, not, ◌==◌, if◌then◌else◌,
  List, [], ◌∷◌, ◌++◌, Option, none, some, Run, ok, fault, bad_pointer, no_return, ◌>>=◌, arith,
  Bool-cases, inl, inr,
}
use cdtp.Errors.{server_not_serving, server_stop_failed, serve_thread_not_closing}
use mathlib.Core.Path.{fun_ext}
use cdtp.Map.{iter}
use cdtp.Map.Iterate.{iter_lem}
use cdtp.Transport.{code_of, Failure, Effect, set_error, close}
use cdtp.Server.{Server}
use cdtp.Server.Valid.{IsValid}
use cdtp.Server.Stop.{close_all_lem}
use cdtp.Server.Control.{StopCalls, close_all, end_thread, closed, stop}

-- What the system calls give: `closes` and `close_failure` are those of `closesocket`, `self` says
-- whether the caller is the serve thread, `wait` is what `WaitForSingleObject` gives, with `none` for
-- a call that does not return, and `close_handle` what `CloseHandle` gives.
pub record WindowsCalls : Type 0 where
  pub closes : ℕ → Failure
  pub close_failure : Failure
  pub self : Bool
  pub wait : Option Failure
  pub close_handle : Failure

-- the error of the last call for the thread, if it fails
abbrev pub not_closing : Failure → List Effect
not_closing none = []
not_closing (some code) = set_error serve_thread_not_closing code ∷ []

-- from the last call of `closesocket` on
unfoldable pub end_thread_windows : WindowsCalls → Server → Failure → Option ℕ → Run (List Effect)
end_thread_windows calls s (some errno) thread =
    ok (close s.sock ∷ set_error server_stop_failed errno ∷ [])
end_thread_windows calls s none none = fault bad_pointer
end_thread_windows calls s none (some thread) =
    if calls.self
    then elim calls.wait [
      | none ↦ fault no_return
      | some failure ↦ ok (close s.sock ∷ not_closing failure)
    ]
    else ok (close s.sock ∷ not_closing calls.close_handle)

-- after the loop over the clients
unfoldable pub closed_windows :
    WindowsCalls → Server × List Effect × Bool → Run (Server × List Effect)
unfolding end_thread_windows
closed_windows calls (s, effects, false) = ok (s, effects)
closed_windows calls (s, effects, true) = do
  later ← end_thread_windows calls s calls.close_failure s.serve_thread
  ok (s, effects ++ later)

-- `cdtp_server_stop`
unfoldable pub stop_windows : WindowsCalls → Server → Run (Server × List Effect)
unfolding close_all closed_windows
stop_windows calls s = if not s.serving then ok (s, set_error server_not_serving 0 ∷ []) else do
  let s' = record s { serving = false; is_done = true }
  it ← iter s'.clients
  result ← close_all calls.closes s' it.clients
  closed_windows calls result

-- The calls of the branch for other systems that do what those of the branch for Windows do, where
-- `WaitForSingleObject` gives `wait`.
abbrev pub swapped : WindowsCalls → Failure → StopCalls
swapped calls wait = record {
  closes = calls.closes;
  close_failure = calls.close_failure;
  self = calls.self;
  join_code = code_of calls.close_handle;
  detach_code = code_of wait;
}

not_closing-code_of :
    (failure : Failure) (sock : Option ℕ)
    → failure ≢ some 0
    → ok (close sock ∷ not_closing failure) ≡ (
        if not (code_of failure == 0)
        then ok (close sock ∷ set_error serve_thread_not_closing (code_of failure) ∷ [])
        else ok (close sock ∷ []))
not_closing-code_of none sock ne = refl
not_closing-code_of (some zero) sock ne = absurd (ne refl)
not_closing-code_of (some (suc code)) sock ne =
    let fails : (suc code == 0) ≡ false = ground arith in rw fails refl

end_thread-windows :
    (calls : WindowsCalls) (s : Server) (failure : Failure) (thread : Option ℕ) (wait : Failure)
    → calls.wait ≡ some wait
    → wait ≢ some 0
    → calls.close_handle ≢ some 0
    → end_thread_windows calls s failure thread ≡ end_thread (swapped calls wait) s failure thread
unfolding end_thread_windows end_thread
end_thread-windows calls s (some errno) thread wait returns ne ne' = refl
end_thread-windows calls s none none wait returns ne ne' = refl
end_thread-windows calls s none (some thread) wait returns ne ne' = elim (Bool-cases calls.self) [
  | inl e ↦ simp (e, returns) (not_closing-code_of wait s.sock ne)
  | inr e ↦ simp e (not_closing-code_of calls.close_handle s.sock ne')
]

closed-windows :
    (calls : WindowsCalls) (wait : Failure) (r : Server × List Effect × Bool)
    → calls.wait ≡ some wait
    → wait ≢ some 0
    → calls.close_handle ≢ some 0
    → closed_windows calls r ≡ closed (swapped calls wait) r
unfolding closed_windows closed
closed-windows calls wait (s, effects, false) returns ne ne' = refl
closed-windows calls wait (s, effects, true) returns ne ne' =
    rw (end_thread-windows calls s calls.close_failure s.serve_thread wait returns ne ne') refl

-- Where `WaitForSingleObject` returns, and no failed call leaves the code 0, `cdtp_server_stop` does
-- on Windows, on any server, what it does on other systems with the codes of the two calls that end
-- the thread swapped: it waits where the other branch detaches, and closes the handle where the
-- other joins.
pub stop_windows-stop :
    (calls : WindowsCalls) (wait : Failure) (s : Server)
    → calls.wait ≡ some wait
    → wait ≢ some 0
    → calls.close_handle ≢ some 0
    → stop_windows calls s ≡ stop (swapped calls wait) s
unfolding stop_windows stop
stop_windows-stop calls wait s returns ne ne' =
    rw (fun_ext (λ (r : Server × List Effect × Bool). closed-windows calls wait r returns ne ne'))
      refl

closed_windows-self :
    (calls : WindowsCalls) (s : Server) (effects : List Effect) (finished : Bool) (thread : ℕ)
    → finished ≡ true
    → s.serve_thread ≡ some thread
    → calls.close_failure ≡ none
    → calls.self ≡ true
    → calls.wait ≡ none
    → closed_windows calls (s, effects, finished) ≡ fault no_return
unfolding closed_windows end_thread_windows
closed_windows-self calls s effects finished thread all has closes is_self waits =
    simp (all, has, closes, is_self, waits)

-- Called from the serve thread of a valid server that is serving, with fewer than 2 ^ 60 IDs given,
-- where each `closesocket` succeeds and `WaitForSingleObject` does not return for a thread that
-- waits for its own end, `cdtp_server_stop` does not return on Windows.
pub stop_windows-self :
    (calls : WindowsCalls) {s : Server} (thread : ℕ)
    → IsValid s
    → s.next_client_id < 2 ^ 60
    → s.serving ≡ true
    → s.serve_thread ≡ some thread
    → ((q : ℕ) → calls.closes q ≡ none)
    → calls.close_failure ≡ none
    → calls.self ≡ true
    → calls.wait ≡ none
    → stop_windows calls s ≡ fault no_return
unfolding stop_windows
stop_windows-self calls {s} thread v few on has fine closes is_self waits =
    let s' : Server = record s { serving = false; is_done = true } in
    let v' : IsValid s' = record {
      map = v.map;
      counted = v.counted;
      fresh = v.fresh;
      ready = v.ready;
      apart = refl;
    } in
    let (es, run, size, once, same) = iter_lem v.map in
    let ((s'', effects, finished), closed_all, empties) =
      close_all_lem calls.closes {s = s'} es v' few fine once (λ q sock e. sym (same q) ∙ e) in
    simp (on, run, closed_all)
      (closed_windows-self calls s'' effects finished thread empties.ends
        (ap Server.serve_thread empties.same ∙ has) closes is_self waits)
