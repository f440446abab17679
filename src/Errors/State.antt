-- ===== src/Errors/State.antt =====
-- What a program sees of the errors that the library sets.
use cdtp.Common.{
  Returns, ℕ, ◌+◌, ◌≡◌, refl, sym, ◌∙◌, true, false, some, List, [], ◌∷◌, ◌++◌, map, Run, ok, ◌>>=◌,
  arith,
}
use mathlib.Core.List.{append_assoc, append-nil}
use cdtp.Errors.{
  Errors, HandlerCall, has_error, get_error, get_underlying_error, set_error, on_error,
  on_error_clear, Library, init,
}

-- the errors that a run of the library sets, in order
unfoldable pub set_errors : List (ℕ × ℕ) → Errors → Run Errors
set_errors [] s = ok s
set_errors ((cdtp_err, underlying_err) ∷ es) s =
    set_error cdtp_err underlying_err s >>= set_errors es

-- the last of them
unfoldable pub last_error : ℕ × ℕ → List (ℕ × ℕ) → ℕ × ℕ
last_error e [] = e
last_error e (e' ∷ es) = last_error e' es

set_error-off :
    (cdtp_err underlying_err : ℕ) (s : Errors)
    → s.on_error_registered ≡ false
    → set_error cdtp_err underlying_err s
      ≡ ok (record s { error = cdtp_err; error_under = underlying_err })
unfolding set_error
set_error-off cdtp_err underlying_err s off = rw off

-- `e` is what the program reads of the errors, each code once; nothing has been called since `s`.
pub record Reads (e : ℕ × ℕ) (s s' : Errors) : Type 0 where
  pub code : (get_error s').0 ≡ e.0
  pub under : (get_underlying_error (get_error s').1).0 ≡ e.1
  pub cleared : has_error (get_error s').1 ≡ false
  pub once : (get_error (get_error s').1).0 ≡ 0
  pub under_once : (get_underlying_error (get_underlying_error s').1).0 ≡ 0
  pub silent : s'.called ≡ s.called

-- With no function registered, a run of errors leaves the last of them: `cdtp_get_error` and
-- `cdtp_get_underlying_error` return its codes, each once, and 0 after that. Nothing is called.
pub set_errors-Reads :
    (e : ℕ × ℕ) (es : List (ℕ × ℕ)) (s : Errors)
    → s.on_error_registered ≡ false
    → Returns (set_errors (e ∷ es) s) (Reads (last_error e es) s)
unfolding set_errors last_error get_error get_underlying_error has_error
set_errors-Reads e [] s off =
    (record s { error = e.0; error_under = e.1 }, rw (set_error-off e.0 e.1 s off), ground arith)
set_errors-Reads e (e' ∷ es) s off =
    let after : Errors = record s { error = e.0; error_under = e.1 } in
    let (s', ran, r) = set_errors-Reads e' es after off in
    (
      s',
      rw (set_error-off e.0 e.1 s off) ran,
      record {
        code = r.code;
        under = r.under;
        cleared = r.cleared;
        once = r.once;
        under_once = r.under_once;
        silent = r.silent;
      },
    )

-- the call that an error makes of the function `f` with `arg`
unfoldable pub call_of : ℕ → ℕ → ℕ × ℕ → HandlerCall
call_of f arg e = record { function = f; cdtp_err = e.0; underlying_err = e.1; arg = arg }

-- With a function registered, it is called for each of a run of errors, in order, with both codes
-- and the registered argument, and the stored codes stay as they are. Once it is cleared, errors
-- are stored again.
pub set_errors-on_error :
    (f arg : ℕ) (es : List (ℕ × ℕ)) (s : Errors)
    → Returns (set_errors es (on_error (some f) arg s)) λ s'.
      (s'.called ≡ s.called ++ map (call_of f arg) es)
      × (s'.error ≡ s.error)
      × (s'.error_under ≡ s.error_under)
      × ((e : ℕ × ℕ) → Returns (set_errors (e ∷ []) (on_error_clear s')) (Reads e s'))
unfolding set_errors set_error on_error call_of on_error_clear get_error get_underlying_error
    has_error
set_errors-on_error f arg [] s = (
  on_error (some f) arg s,
  refl,
  (
    sym (append-nil s.called),
    refl,
    refl,
    λ e. (
      record s {
        error = e.0;
        error_under = e.1;
        on_error_registered = false;
        on_error = some f;
        on_error_arg = arg;
      },
      refl,
      ground arith,
    ),
  ),
)
set_errors-on_error f arg (e ∷ es) s =
    let after : Errors = record s { called = s.called ++ call_of f arg e ∷ [] } in
    let (s', ran, (calls, kept, kept_under, stores)) = set_errors-on_error f arg es after in
    (
      s',
      ran,
      (
        calls ∙ append_assoc s.called (call_of f arg e ∷ []) (map (call_of f arg) es),
        kept,
        kept_under,
        stores,
      ),
    )

-- the library after calls of `_cdtp_init`, with what `WSAStartup` returns in each
unfoldable pub inits : List ℕ → Library → Library
inits [] l = l
inits (started ∷ more) l = inits more (init started l).1

inits-init : (more : List ℕ) (l : Library) → l.init ≡ true → inits more l ≡ l
unfolding inits init
inits-init [] l on = refl
inits-init (started ∷ more) l on = simp on (inits-init more l on)

-- The first call of `_cdtp_init` on an uninitialised library returns what `WSAStartup` returns.
-- After it, also if that was a failure, the library counts as initialised, however often it is
-- initialised again; `_cdtp_exit` is registered one more time in all, and each further call changes
-- nothing and returns 0.
pub inits_once :
    (started again : ℕ) (more : List ℕ) (l : Library)
    → l.init ≡ false
    → ((init started l).0 ≡ started)
      × ((inits (started ∷ more) l).init ≡ true)
      × ((inits (started ∷ more) l).registered ≡ l.registered + 1)
      × ((inits (started ∷ more) l).exit ≡ l.exit)
      × (init again (inits (started ∷ more) l) ≡ (0, inits (started ∷ more) l))
unfolding inits init
inits_once started again more l off =
    rw (off, inits-init more (record l { init = true; registered = l.registered + 1 }) refl)
      (refl, refl, refl, refl, refl)
