-- ===== src/Threading/Dispatch.antt =====
-- What comes of the call of an event function, in a thread of its own.
use cdtp.Common.{ℕ, ◌==◌, if◌then◌else◌, some, Option}
use cdtp.Errors.{event_thread_start_failed}
use cdtp.Threading.{Call, Started, runs, fails}

-- the thread runs the call, or `pthread_create` has failed and an error is set with its code
abbrev pub outcome : ℕ → Call → Started (Option Call)
outcome return_code call =
    if return_code == 0 then runs (some call) else fails event_thread_start_failed return_code
