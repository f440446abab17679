-- ===== src/Errors/Tests.antt =====
-- Runs of the error state.
use cdtp.Common.{ℕ, ◌≡◌, refl, true, false, some, [], ◌∷◌, ◌++◌, map, Returns}
use cdtp.Errors.{exit, initial_errors, on_error, on_error_clear, Library, init}
use cdtp.Errors.State.{set_errors, Reads, call_of, set_errors-on_error}

abbrev send_error : ℕ × ℕ
send_error = (18, 32)

abbrev connect_error : ℕ × ℕ
connect_error = (15, 0)

set_errors-on_error_example :
    Returns
      (set_errors (connect_error ∷ send_error ∷ []) (on_error (some 7) 9 initial_errors))
      λ s'.
        (s'.called ≡ initial_errors.called ++ map (call_of 7 9) (connect_error ∷ send_error ∷ []))
        × (s'.error ≡ initial_errors.error)
        × (s'.error_under ≡ initial_errors.error_under)
        × ((e : ℕ × ℕ) → Returns (set_errors (e ∷ []) (on_error_clear s')) (Reads e s'))
set_errors-on_error_example =
    set_errors-on_error 7 9 (connect_error ∷ send_error ∷ []) initial_errors

abbrev fresh : Library
fresh = record { init = false; exit = false; registered = 0; cleanups = 0 }

initialised : ((init 0 fresh).1.init ≡ true) × ((exit true (init 0 fresh).1).cleanups ≡ 1)
unfolding init exit
initialised = (refl, refl)
