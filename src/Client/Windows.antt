-- ===== src/Client/Windows.antt =====
-- `cdtp_client_disconnect` of src/client.c on Windows.
use cdtp.Common.{
  ℕ, zero, suc, ◌≡◌, ◌≢◌, refl, Bool, true, false, not, ◌==◌, if◌then◌else◌, List, [], ◌∷◌, Option,
  none, some, Run, ok, fault, bad_pointer, no_return, Bool-cases, Option-cases, inl, inr, arith,
}
use cdtp.Errors.{client_not_connected, client_disconnect_failed, handle_thread_not_closing}
use cdtp.Transport.{code_of, Failure, Effect, set_error, close}
use cdtp.Client.{Client, disconnect}

-- the client, and the error of the last call for the thread, if it fails
abbrev pub not_closing : Client → Failure → Run (Client × List Effect)
not_closing c none = ok (c, close c.sock ∷ [])
not_closing c (some code) = ok (c, close c.sock ∷ set_error handle_thread_not_closing code ∷ [])

-- `WaitForSingleObject` or `CloseHandle`; `wait` is `none` for a call that does not return
unfoldable pub end_thread_windows :
    Bool → Option Failure → Failure → Client → Option ℕ → Run (Client × List Effect)
end_thread_windows self wait close_handle c none = fault bad_pointer
end_thread_windows self wait close_handle c (some thread) =
    if not self
    then elim wait [ none ↦ fault no_return | some failure ↦ not_closing c failure ]
    else not_closing c close_handle

-- `cdtp_client_disconnect`
unfoldable pub disconnect_windows :
    Failure → Bool → Option Failure → Failure → Client → Run (Client × List Effect)
unfolding end_thread_windows
disconnect_windows close_failure self wait close_handle c =
    if not c.connected
    then ok (c, set_error client_not_connected 0 ∷ [])
    else let c' = record c { connected = false; is_done = true } in
      elim close_failure [
        | some errno ↦ ok (c', close c.sock ∷ set_error client_disconnect_failed errno ∷ [])
        | none ↦ end_thread_windows self wait close_handle c' c.handle_thread
      ]

not_closing-code_of :
    (c : Client) (failure : Failure)
    → failure ≢ some 0
    → not_closing c failure ≡ (
        if not (code_of failure == 0)
        then ok (c, close c.sock ∷ set_error handle_thread_not_closing (code_of failure) ∷ [])
        else ok (c, close c.sock ∷ []))
not_closing-code_of c none ne = refl
not_closing-code_of c (some zero) ne = absurd (ne refl)
not_closing-code_of c (some (suc code)) ne =
    let fails : (suc code == 0) ≡ false = ground arith in rw fails refl

-- Where `WaitForSingleObject` returns, and no failed call leaves the code 0, the function does on
-- Windows what it does on other systems, with the code of that call for the code of `pthread_join`
-- and the code of `CloseHandle` for that of `pthread_detach`.
pub disconnect_windows-disconnect :
    (close_failure : Failure) (self : Bool) (wait close_handle : Failure) (c : Client)
    → wait ≢ some 0
    → close_handle ≢ some 0
    → disconnect_windows close_failure self (some wait) close_handle c
      ≡ disconnect close_failure self (code_of wait) (code_of close_handle) c
unfolding disconnect_windows disconnect end_thread_windows
disconnect_windows-disconnect close_failure self wait close_handle c ne ne' =
    elim (Bool-cases c.connected) [
      | inr off ↦ simp off
      | inl on ↦ elim (Option-cases close_failure) [
        | inr (errno, e) ↦ simp (on, e)
        | inl e ↦ elim (Option-cases c.handle_thread) [
          | inl unset ↦ simp (on, e, unset)
          | inr (thread, has) ↦ elim (Bool-cases self) [
            | inl s ↦
                simp (on, e, has, s)
                  (not_closing-code_of
                    (record c { connected = false; is_done = true; handle_thread = some thread })
                    close_handle ne')
            | inr s ↦
                simp (on, e, has, s)
                  (not_closing-code_of
                    (record c { connected = false; is_done = true; handle_thread = some thread })
                    wait ne)
          ]
        ]
      ]
    ]
